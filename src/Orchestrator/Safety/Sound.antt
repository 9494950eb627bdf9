-- ===== src/Orchestrator/Safety/Sound.antt =====
-- The invariant of the store, and the operations that keep it.
use safactory_server.Base.{
  ℕ, String, none, some, List, [], ◌∷◌, ◌++◌, ◌≡◌, refl, sym, ap, ◌∙◌, subst, inl, inr, Bool-cases,
  is_some, ◌||◌, Option-cases,
}
use safactory_server.Store.Failure.{ok}
use safactory_server.Store.Row.{ControlJob, Change, new_control_job}
use safactory_server.Store.Table.{JobEvent, Store, find_row, is_current, clashes_any}
use safactory_server.Store.Methods
use safactory_server.Store.Methods.{updated, closing_row, admit}
use safactory_server.Store.Lifecycle.{Extends, Extends-trans}
use safactory_server.Store.Writes.{
  rows_after, rewritten, same_row, find_row-write_rows, updated-SameIdentity,
}
use safactory_server.Store.Extension.{
  update-cases, request_close-cases, find_row-append, find_row-append_last,
}
use safactory_server.Store.Keys.{
  IsKeyed, find_row-write_rows-none, update-IsKeyed, request_close-IsKeyed, add-IsKeyed,
  add_event-IsKeyed,
}
use safactory_server.Exec.{Interference, add_job, close_job, log_event, interfere}
use safactory_server.Orchestrator.Rows.{RowOk, closing_row-RowOk, new_control_job-RowOk}
use safactory_server.Orchestrator.Kept.{IsKept}
use safactory_server.Orchestrator.Cleaning.{stable-IsKept}

-- The ids are distinct, and every row keeps the invariant of a row.
pub record IsSound (s : Store) : Type 0 where
  pub keyed : IsKeyed s.jobs
  pub rows : (k : String) (j : ControlJob) → find_row k s.jobs ≡ some j → RowOk j

-- An UPDATE that keeps the invariant of the row that it has read keeps that of all rows.
some_injective : {A : Type 0} {a b : A} → some a ≡ some b → a ≡ b
some_injective p = cc p

rows_after-rows :
    (s : Store) (row : ControlJob) (f : ControlJob → ControlJob)
    → ((j : ControlJob) → (f j).job_id ≡ j.job_id)
    → find_row row.job_id s.jobs ≡ some row
    → ((k : String) (j : ControlJob) → find_row k s.jobs ≡ some j → RowOk j)
    → RowOk (f row)
    → (k : String) (j : ControlJob) → find_row k (rows_after row f s).jobs ≡ some j
    → RowOk j
rows_after-rows s row f same found rows fresh k j h = elim (Option-cases (find_row k s.jobs)) [
  | inl missing ↦
      let p : none ≡ some j =
        sym (find_row-write_rows-none row.job_id row.version f same k s.jobs missing) ∙ h in
      absurd (cc p)
  | inr (j0, found0) ↦
      let p : some (rewritten row.job_id row.version f j0) ≡ some j =
        sym (find_row-write_rows row.job_id row.version f same k s.jobs j0 found0) ∙ h in
      subst RowOk (some_injective p) (elim (Bool-cases (is_current row.job_id row.version j0)) [
        | inr other ↦ rw other (rows k j0 found0)
        | inl current ↦
            rw current (
              subst (λ x. RowOk (f x)) (sym (same_row row f s same found k j0 found0 current))
                fresh)
      ])
]

add-rows :
    (s : Store) (x : ControlJob)
    → ((k : String) (j : ControlJob) → find_row k s.jobs ≡ some j → RowOk j)
    → RowOk x
    → (k : String) (j : ControlJob) → find_row k (s.jobs ++ x ∷ []) ≡ some j
    → RowOk j
add-rows s x rows fresh k j h = elim (Option-cases (find_row k s.jobs)) [
  | inl missing ↦ subst RowOk (sym (find_row-append_last k s.jobs x j missing h)) fresh
  | inr (j0, found0) ↦
      let p : some j0 ≡ some j = sym (find_row-append k s.jobs (x ∷ []) j0 found0) ∙ h in
      subst RowOk (some_injective p) (rows k j0 found0)
]

request_close-IsSound :
    (k : String) (t : ℕ) (s : Store) → IsSound s → IsSound (Methods.request_close k t s).1
request_close-IsSound k t s h = record {
  keyed = request_close-IsKeyed k t s h.keyed;
  rows = elim (request_close-cases k t s) [
    | inl (e, r) ↦ rw r h.rows
    | inr (inl d) ↦ rw d.result h.rows
    | inr (inr d) ↦ rw d.result (
        rows_after-rows s d.row (closing_row t) (λ j. unfold closing_row in refl) d.found h.rows
          (closing_row-RowOk t d.row d.active (h.rows d.row.job_id d.row d.found)))
  ];
}

add-IsSound : (x : ControlJob) (s : Store) → RowOk x → IsSound s → IsSound (Methods.add x s).1
add-IsSound x s fresh h = record {
  keyed = add-IsKeyed x s h.keyed;
  rows = λ k j. elim (Bool-cases (is_some (find_row x.job_id s.jobs) || clashes_any x s.jobs)) [
    | inl taken ↦ unfold Methods.add in rw taken (h.rows k j)
    | inr free ↦ unfold Methods.add in rw free (add-rows s x h.rows fresh k j)
  ];
}

add_event-IsSound : (e : JobEvent) (s : Store) → IsSound s → IsSound (Methods.add_event e s).1
add_event-IsSound e s h = record {
  keyed = add_event-IsKeyed e s h.keyed;
  rows = λ k j. elim (Bool-cases (is_some (find_row e.event_job s.jobs))) [
    | inl there ↦ unfold Methods.add_event in rw there (h.rows k j)
    | inr missing ↦ unfold Methods.add_event in rw missing (h.rows k j)
  ];
}

update-IsSound :
    (k : String) (t : ℕ) (cs : List Change) (s : Store)
    → ((j : ControlJob) (admitted : List Change)
        → find_row k s.jobs ≡ some j
        → RowOk j
        → admit j cs ≡ ok admitted
        → RowOk (updated t admitted j))
    → IsSound s
    → IsSound (Methods.update k t cs s).1
update-IsSound k t cs s legal h = record {
  keyed = update-IsKeyed k t cs s h.keyed;
  rows = elim (update-cases k t cs s) [
    | inl (e, r) ↦ rw r h.rows
    | inr d ↦ rw d.result (
        rows_after-rows s d.row (updated t d.admitted)
          (λ j. (updated-SameIdentity t d.admitted j).job_id) d.found h.rows
          (legal d.row d.admitted (ap (λ i. find_row i s.jobs) (sym d.keyed) ∙ d.found)
            (h.rows d.row.job_id d.row d.found) d.admits))
  ];
}

interfere-IsSound : (i : Interference) (s : Store) → IsSound s → IsSound (interfere i s)
unfolding interfere
interfere-IsSound (add_job n) s h = add-IsSound (new_control_job n) s (new_control_job-RowOk n) h
interfere-IsSound (close_job k t) s h = request_close-IsSound k t s h
interfere-IsSound (log_event e) s h = add_event-IsSound e s h

pub IsSound-IsKept : IsKept IsSound
IsSound-IsKept = record {
  disturbed = interfere-IsSound;
  logged = add_event-IsSound;
  updated_legally = update-IsSound;
}

pub Extends-IsKept : (s : Store) → IsKept (Extends s)
Extends-IsKept s = stable-IsKept (λ t u e h. Extends-trans s t u h e)
