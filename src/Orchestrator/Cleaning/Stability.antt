-- ===== src/Orchestrator/Cleaning/Stability.antt =====
-- Jobs that are settled or ended, and stay so whatever other tasks do.
use safactory_server.Base.{String, some, ◌≡◌, sym, ap, ◌∙◌, true, false, arith}
use safactory_server.Store.Row.{ControlJob, is_active, is_terminal, new_control_job}
use safactory_server.Store.Table.{Store, find_row}
use safactory_server.Store.Methods
use safactory_server.Store.Methods.{admit, updated}
use safactory_server.Store.Lifecycle.{Evolves, Extends}
use safactory_server.Store.Extension.{
  add-Extends, add_event-Extends, update-Extends, request_close-Extends,
}
use safactory_server.Exec.{M, Interference, add_job, close_job, log_event, interfere}
use safactory_server.Exec.Keeps.{Carries}
use safactory_server.Orchestrator.Kept.{IsKept}

pub interfere-Extends : (i : Interference) (s : Store) → Extends s (interfere i s)
unfolding interfere
interfere-Extends (add_job n) s = add-Extends (new_control_job n) s
interfere-Extends (close_job k t) s = request_close-Extends k t s
interfere-Extends (log_event e) s = add_event-Extends e s

-- Every condition that holds of all later stores is kept.
pub stable-IsKept : {P : Store → Type 0} → ((s t : Store) → Extends s t → P s → P t) → IsKept P
stable-IsKept stable = record {
  disturbed = λ i s h. stable s (interfere i s) (interfere-Extends i s) h;
  logged = λ e s h. stable s (Methods.add_event e s).1 (add_event-Extends e s) h;
  updated_legally =
      λ k t cs s _ h. stable s (Methods.update k t cs s).1 (update-Extends k t cs s) h;
}

pub both-IsKept : {P Q : Store → Type 0} → IsKept P → IsKept Q → IsKept (λ s. P s × Q s)
both-IsKept p q = record {
  disturbed = λ i s h. (p.disturbed i s h.0, q.disturbed i s h.1);
  logged = λ e s h. (p.logged e s h.0, q.logged e s h.1);
  updated_legally = λ k t cs s legal h.
      (p.updated_legally k t cs s legal h.0, q.updated_legally k t cs s legal h.1);
}

-- There is a row under this id, and it is not active.
pub record Settled (k : String) (s : Store) : Type 0 where
  pub row : ControlJob
  pub found : find_row k s.jobs ≡ some row
  pub inactive : is_active row.status ≡ false

-- There is a row under this id, and its status is terminal.
pub record Ended (k : String) (s : Store) : Type 0 where
  pub row : ControlJob
  pub found : find_row k s.jobs ≡ some row
  pub over : is_terminal row.status ≡ true

inactive_stays :
    {j j' : ControlJob} → Evolves j j' → is_active j.status ≡ false → is_active j'.status ≡ false
inactive_stays {j} {j'} e h = ground (arith, e.status.terminal_stays, e.status.closing_stays)

over_stays :
    {j j' : ControlJob} → Evolves j j' → is_terminal j.status ≡ true → is_terminal j'.status ≡ true
over_stays {j} {j'} e h = ap is_terminal (e.status.terminal_stays h) ∙ h

pub Settled-stable : (k : String) (s t : Store) → Extends s t → Settled k s → Settled k t
Settled-stable k s t e h =
    let (row', found', step) = e.row k h.row h.found in
    record { row = row'; found = found'; inactive = inactive_stays step h.inactive }

pub Ended-stable : (k : String) (s t : Store) → Extends s t → Ended k s → Ended k t
Ended-stable k s t e h =
    let (row', found', step) = e.row k h.row h.found in
    record { row = row'; found = found'; over = over_stays step h.over }

pub weaken :
    {A : Type 0} {P P' R R' : Store → Type 0} {m : M A}
    → ((s : Store) → P s → P' s)
    → ((s : Store) → R' s → R s)
    → Carries P' R' m
    → Carries P R m
weaken {m = m} pre post c = record { at = λ w h. post (m w).1.store (c.at w (pre w.store h)) }

pub same_found :
    (k : String) (s : Store) {j j' : ControlJob}
    → find_row k s.jobs ≡ some j
    → find_row k s.jobs ≡ some j'
    → j ≡ j'
same_found k s {j} {j'} p q = let r : some j ≡ some j' = sym p ∙ q in cc r
