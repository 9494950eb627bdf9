-- ===== src/Store/Extension.antt =====
-- Every method of the store, failing or not, extends it.
use safactory_server.Base.{
  ℕ, String, Bool, true, false, none, some, List, [], ◌∷◌, ◌++◌, ◌≡◌, refl, sym, ap, ◌∙◌, ◌⊎◌, inl,
  inr, append-nil, arith, Bool-cases, Option-cases, is_some, ◌||◌,
}
use safactory_server.Store.Failure.{Failure, value_error, key_error, Outcome, ok, raised}
use safactory_server.Store.Row.{ControlJob, Change, is_active, has_unsupported}
use safactory_server.Store.Table.{JobEvent, Store, find_row, clashes_any}
use safactory_server.Store.Methods.{
  write, admit, updated, closing_row, update_current, update, request_close, with_flag, add,
  add_event,
}
use safactory_server.Store.Lifecycle.{Evolves-refl, Extends, Extends-refl}
use safactory_server.Store.Writes.{
  updated-SameIdentity, updated-Evolves, closing_row-Evolves, rows_after, rows_after-Extends,
  write-cases, find_row-has_id,
}

-- The id under which a row was found may be written for the row's own.
pub found_self :
    (s : Store) (k : String) (j : ControlJob)
    → find_row k s.jobs ≡ some j
    → find_row j.job_id s.jobs ≡ some j
found_self s k j h = ap (λ i. find_row i s.jobs) (find_row-has_id k s.jobs j h) ∙ h

-- The ways in which `update` ends: it raises and writes nothing, or it writes the changes that it
-- admits for the row that it has found.
pub record Updates (k : String) (now : ℕ) (cs : List Change) (s : Store) : Type 0 where
  pub row : ControlJob
  pub admitted : List Change
  pub found : find_row row.job_id s.jobs ≡ some row
  pub keyed : row.job_id ≡ k
  pub admits : admit row cs ≡ ok admitted
  pub result :
      update k now cs s ≡ (ok (updated now admitted row), rows_after row (updated now admitted) s)

updated-job_id :
    (now : ℕ) (cs : List Change) (j : ControlJob) → (updated now cs j).job_id ≡ j.job_id
updated-job_id now cs j = (updated-SameIdentity now cs j).job_id

pub update-eq-current :
    (k : String) (now : ℕ) (cs : List Change) (s : Store) (j : ControlJob)
    → has_unsupported cs ≡ false
    → find_row k s.jobs ≡ some j
    → update k now cs s ≡ update_current j now cs s
unfolding update
update-eq-current k now cs s j good found = rw (good, found)

pub update_current-refused :
    (j : ControlJob) (now : ℕ) (cs : List Change) (s : Store) (e : Failure)
    → admit j cs ≡ raised e
    → update_current j now cs s ≡ (raised e, s)
unfolding update_current
update_current-refused j now cs s e h = rw (h, update_current)

pub update_current-admitted :
    (j : ControlJob) (now : ℕ) (cs admitted : List Change) (s : Store)
    → admit j cs ≡ ok admitted
    → update_current j now cs s ≡ write j (updated now admitted) s
unfolding update_current
update_current-admitted j now cs admitted s h = rw (h, update_current)

update_missing :
    (k : String) (now : ℕ) (cs : List Change) (s : Store)
    → has_unsupported cs ≡ false
    → find_row k s.jobs ≡ none
    → update k now cs s ≡ (raised key_error, s)
unfolding update
update_missing k now cs s good missing = rw (good, missing)

update_unsupported :
    (k : String) (now : ℕ) (cs : List Change) (s : Store)
    → has_unsupported cs ≡ true
    → update k now cs s ≡ (raised value_error, s)
unfolding update
update_unsupported k now cs s bad = rw bad

abbrev pub Refused {ℓ} : {A : Type ℓ} → Outcome A × Store → Store → Type ℓ
Refused r s = (e : Failure) × (r ≡ (raised e, s))

update_found-cases :
    (k : String) (now : ℕ) (cs : List Change) (s : Store) (j : ControlJob)
    (o : Outcome (List Change))
    → update k now cs s ≡ update_current j now cs s
    → find_row k s.jobs ≡ some j
    → admit j cs ≡ o
    → Refused (update k now cs s) s ⊎ Updates k now cs s
update_found-cases k now cs s j (raised e) same found h =
    inl (e, same ∙ update_current-refused j now cs s e h)
update_found-cases k now cs s j (ok admitted) same found h =
    let self = found_self s k j found in
    let eq = same ∙ update_current-admitted j now cs admitted s h in
    elim (write-cases j (updated now admitted) s (updated-job_id now admitted) self) [
      | inl (e, r) ↦ inl (e, eq ∙ r)
      | inr r ↦ inr (record {
        row = j;
        admitted = admitted;
        found = self;
        keyed = find_row-has_id k s.jobs j found;
        admits = h;
        result = eq ∙ r;
      })
    ]

pub update-cases :
    (k : String) (now : ℕ) (cs : List Change) (s : Store)
    → Refused (update k now cs s) s ⊎ Updates k now cs s
update-cases k now cs s = elim (Bool-cases (has_unsupported cs)) [
  | inl bad ↦ inl (value_error, update_unsupported k now cs s bad)
  | inr good ↦ elim (Option-cases (find_row k s.jobs)) [
    | inl missing ↦ inl (key_error, update_missing k now cs s good missing)
    | inr (j, found) ↦
        update_found-cases k now cs s j (admit j cs) (update-eq-current k now cs s j good found)
          found refl
  ]
]

pub update-Extends :
    (k : String) (now : ℕ) (cs : List Change) (s : Store) → Extends s (update k now cs s).1
update-Extends k now cs s = elim (update-cases k now cs s) [
  | inl (e, h) ↦ rw h (Extends-refl s)
  | inr u ↦ rw u.result (
      rows_after-Extends u.row (updated now u.admitted) s (updated-job_id now u.admitted) u.found
        (updated-Evolves now cs u.admitted u.row u.admits))
]

-- The ways in which `request_close` ends.
pub record Closes (k : String) (now : ℕ) (s : Store) : Type 0 where
  pub row : ControlJob
  pub found : find_row row.job_id s.jobs ≡ some row
  pub keyed : row.job_id ≡ k
  pub active : is_active row.status ≡ true
  pub result :
      request_close k now s ≡ (ok (closing_row now row, true), rows_after row (closing_row now) s)

pub record Stays (k : String) (now : ℕ) (s : Store) : Type 0 where
  pub row : ControlJob
  pub found : find_row k s.jobs ≡ some row
  pub inactive : is_active row.status ≡ false
  pub result : request_close k now s ≡ (ok (row, false), s)

pub request_close_inactive :
    (k : String) (now : ℕ) (s : Store) (j : ControlJob)
    → find_row k s.jobs ≡ some j
    → is_active j.status ≡ false
    → request_close k now s ≡ (ok (j, false), s)
unfolding request_close
request_close_inactive k now s j found inactive = rw (found, request_close) (rw inactive)

pub request_close_active :
    (k : String) (now : ℕ) (s : Store) (j : ControlJob)
    → find_row k s.jobs ≡ some j
    → is_active j.status ≡ true
    → request_close k now s ≡ with_flag true (write j (closing_row now) s)
unfolding request_close
request_close_active k now s j found active = rw (found, request_close) (rw active)

request_close_missing :
    (k : String) (now : ℕ) (s : Store)
    → find_row k s.jobs ≡ none
    → request_close k now s ≡ (raised key_error, s)
unfolding request_close
request_close_missing k now s missing = rw (missing, request_close)

pub closing_row-job_id : (now : ℕ) (j : ControlJob) → (closing_row now j).job_id ≡ j.job_id
unfolding closing_row
closing_row-job_id now j = refl

with_flag-raised : (b : Bool) (e : Failure) (s : Store) → with_flag b (raised e, s) ≡ (raised e, s)
unfolding with_flag
with_flag-raised b e s = refl

pub with_flag-ok : (b : Bool) (j : ControlJob) (s : Store) → with_flag b (ok j, s) ≡ (ok (j, b), s)
unfolding with_flag
with_flag-ok b j s = refl

pub request_close-cases :
    (k : String) (now : ℕ) (s : Store)
    → Refused (request_close k now s) s ⊎ (Stays k now s ⊎ Closes k now s)
request_close-cases k now s = elim (Option-cases (find_row k s.jobs)) [
  | inl missing ↦ inl (key_error, request_close_missing k now s missing)
  | inr (j, found) ↦ elim (Bool-cases (is_active j.status)) [
    | inr inactive ↦ inr (
        inl (record {
          row = j;
          found = found;
          inactive = inactive;
          result = request_close_inactive k now s j found inactive;
        }))
    | inl active ↦
        let eq = request_close_active k now s j found active in
        elim (write-cases j (closing_row now) s (closing_row-job_id now) (found_self s k j found)) [
          | inl (e, r) ↦ inl (e, eq ∙ ap (with_flag true) r ∙ with_flag-raised true e s)
          | inr r ↦ inr (
              inr (record {
                row = j;
                found = found_self s k j found;
                keyed = find_row-has_id k s.jobs j found;
                active = active;
                result =
                    eq
                    ∙ ap (with_flag true) r
                    ∙ with_flag-ok true (closing_row now j) (rows_after j (closing_row now) s);
              }))
        ]
  ]
]

pub request_close-Extends : (k : String) (now : ℕ) (s : Store) → Extends s (request_close k now s).1
request_close-Extends k now s = elim (request_close-cases k now s) [
  | inl (e, h) ↦ rw h (Extends-refl s)
  | inr (inl h) ↦ rw h.result (Extends-refl s)
  | inr (inr h) ↦ rw h.result (
      rows_after-Extends h.row (closing_row now) s (closing_row-job_id now) h.found
        (closing_row-Evolves now h.row h.active))
]

-- A row behind the others hides none of them.
pub find_row-append :
    (k : String) (js ks : List ControlJob) (j : ControlJob)
    → find_row k js ≡ some j
    → find_row k (js ++ ks) ≡ some j
unfolding find_row
find_row-append k [] ks j h = cc
find_row-append k (x ∷ js) ks j h = ground (arith, find_row-append k js ks j)

pub find_row-append_last :
    (k : String) (js : List ControlJob) (x j : ControlJob)
    → find_row k js ≡ none
    → find_row k (js ++ x ∷ []) ≡ some j
    → j ≡ x
unfolding find_row
find_row-append_last k [] x j m h = ground arith
find_row-append_last k (y ∷ js) x j m h = ground (arith, find_row-append_last k js x j)

pub add-Extends : (j : ControlJob) (s : Store) → Extends s (add j s).1
unfolding add
add-Extends j s = elim (Bool-cases (is_some (find_row j.job_id s.jobs) || clashes_any j s.jobs)) [
  | inl taken ↦ rw taken (Extends-refl s)
  | inr free ↦ rw free (record {
    row = λ k x h. (x, find_row-append k s.jobs (j ∷ []) x h, Evolves-refl x);
    log = ([], sym (append-nil s.log));
  })
]

pub add_event-Extends : (e : JobEvent) (s : Store) → Extends s (add_event e s).1
unfolding add_event
add_event-Extends e s = elim (Bool-cases (is_some (find_row e.event_job s.jobs))) [
  | inr missing ↦ rw missing (Extends-refl s)
  | inl there ↦ rw there (record { row = λ k x h. (x, h, Evolves-refl x); log = (e ∷ [], refl) })
]
