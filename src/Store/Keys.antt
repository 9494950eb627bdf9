-- ===== src/Store/Keys.antt =====
-- The primary key of `jobs`: every method keeps it, and under it an UPDATE reaches exactly the row
-- that its transaction has read.
use safactory_server.Base.{
  All, All-map, ℕ, suc, String, false, none, some, List, [], ◌∷◌, ◌++◌, ◌≡◌, refl, sym, ap, ◌∙◌,
  inl, inr, arith, Bool-cases, Option-cases, is_some, same_text_refl, eq_iff,
}
use safactory_server.Store.Failure.{ok}
use safactory_server.Store.Row.{ControlJob, Change, has_unsupported}
use safactory_server.Store.Table.{
  JobEvent, Store, find_row, clashes_any, has_id, is_current, rowcount, write_rows, breaks_unique,
}
use safactory_server.Store.Methods.{
  admit, updated, closing_row, update, request_close, add, add_event,
}
use safactory_server.Store.Writes.{
  updated-SameIdentity, write_total, is_current_self, rewritten-job_id, rows_after, find_row-hit,
  find_row-miss,
}
use safactory_server.Store.Extension.{
  update-cases, request_close-cases, update_current-admitted, update-eq-current,
}

-- No two rows have one id.
abbrev pub IsKeyed : List ControlJob → Type 0
IsKeyed [] = Unit
IsKeyed (j ∷ js) = (find_row j.job_id js ≡ none) × IsKeyed js

rowcount_missing :
    (k : String) (v : ℕ) (js : List ControlJob) → find_row k js ≡ none → rowcount k v js ≡ 0
unfolding rowcount find_row
rowcount_missing k v [] h = refl
rowcount_missing k v (x ∷ js) h = ground (arith, rowcount_missing k v js)

-- The row count of an UPDATE by the id and version of a row that was found is one.
pub rowcount_found :
    (js : List ControlJob) (j : ControlJob)
    → IsKeyed js
    → find_row j.job_id js ≡ some j
    → rowcount j.job_id j.version js ≡ 1
unfolding rowcount find_row
rowcount_found [] j u h = cc
rowcount_found (x ∷ js) j (fresh, u) h = elim (Bool-cases (has_id j.job_id x)) [
  | inl here ↦
      let e : x.job_id ≡ j.job_id = (eq_iff x.job_id j.job_id).0 here in
      let p : x ≡ j = ground arith in
      rw (ap (λ y. is_current j.job_id j.version y) p ∙ is_current_self j)
        (ap suc (rowcount_missing j.job_id j.version js (ap (λ i. find_row i js) (sym e) ∙ fresh)))
  | inr other ↦ ground (arith, rowcount_found js j u)
]

pub find_row-write_rows-none :
    (k : String) (v : ℕ) (f : ControlJob → ControlJob)
    → ((j : ControlJob) → (f j).job_id ≡ j.job_id)
    → (id : String) (js : List ControlJob) → find_row id js ≡ none
    → find_row id (write_rows k v f js) ≡ none
unfolding find_row write_rows
find_row-write_rows-none k v f same id [] h = refl
find_row-write_rows-none k v f same id (x ∷ js) h = ground (
  arith,
  same x,
  find_row-write_rows-none k v f same id js,
  eq_iff x.job_id id,
  eq_iff (f x).job_id id,
)

pub write_rows-IsKeyed :
    (k : String) (v : ℕ) (f : ControlJob → ControlJob)
    → ((j : ControlJob) → (f j).job_id ≡ j.job_id)
    → (js : List ControlJob) → IsKeyed js
    → IsKeyed (write_rows k v f js)
unfolding write_rows
write_rows-IsKeyed k v f same [] u = tt
write_rows-IsKeyed k v f same (x ∷ js) (fresh, u) = (
  ap (λ i. find_row i (write_rows k v f js)) (rewritten-job_id k v f same x)
      ∙ find_row-write_rows-none k v f same x.job_id js fresh,
  write_rows-IsKeyed k v f same js u,
)

find_row-append_none :
    (k : String) (js : List ControlJob) (x : ControlJob)
    → find_row k js ≡ none
    → has_id k x ≡ false
    → find_row k (js ++ x ∷ []) ≡ none
unfolding find_row
find_row-append_none k [] x h other = rw other
find_row-append_none k (y ∷ js) x h other = ground (arith, find_row-append_none k js x)

differs :
    (y : ControlJob) (js : List ControlJob) (x : ControlJob)
    → find_row x.job_id (y ∷ js) ≡ none
    → has_id y.job_id x ≡ false
unfolding find_row
differs y js x h = ground (arith, eq_iff x.job_id y.job_id, eq_iff y.job_id x.job_id)

rest_missing :
    (y : ControlJob) (js : List ControlJob) (x : ControlJob)
    → find_row x.job_id (y ∷ js) ≡ none
    → find_row x.job_id js ≡ none
unfolding find_row
rest_missing y js x h = ground arith

append-IsKeyed :
    (js : List ControlJob) (x : ControlJob)
    → IsKeyed js
    → find_row x.job_id js ≡ none
    → IsKeyed (js ++ x ∷ [])
append-IsKeyed [] x u h = (unfold find_row in refl, tt)
append-IsKeyed (y ∷ js) x (fresh, u) h =
    let away : has_id y.job_id x ≡ false = differs y js x h in
    let h' : find_row x.job_id js ≡ none = rest_missing y js x h in
    (find_row-append_none y.job_id js x fresh away, append-IsKeyed js x u h')

pub update-IsKeyed :
    (k : String) (now : ℕ) (cs : List Change) (s : Store)
    → IsKeyed s.jobs
    → IsKeyed (update k now cs s).1.jobs
update-IsKeyed k now cs s u = elim (update-cases k now cs s) [
  | inl (e, h) ↦ rw h u
  | inr d ↦ rw d.result (
      write_rows-IsKeyed d.row.job_id d.row.version (updated now d.admitted)
        (λ x. (updated-SameIdentity now d.admitted x).job_id) s.jobs u)
]

pub request_close-IsKeyed :
    (k : String) (now : ℕ) (s : Store) → IsKeyed s.jobs → IsKeyed (request_close k now s).1.jobs
request_close-IsKeyed k now s u = elim (request_close-cases k now s) [
  | inl (e, h) ↦ rw h u
  | inr (inl d) ↦ rw d.result u
  | inr (inr d) ↦ rw d.result (
      write_rows-IsKeyed d.row.job_id d.row.version (closing_row now)
        (λ x. unfold closing_row in refl) s.jobs u)
]

pub add-IsKeyed : (j : ControlJob) (s : Store) → IsKeyed s.jobs → IsKeyed (add j s).1.jobs
unfolding add
add-IsKeyed j s u = elim (Option-cases (find_row j.job_id s.jobs)) [
  | inr (x, found) ↦ rw found u
  | inl fresh ↦ elim (Bool-cases (clashes_any j s.jobs)) [
    | inl clash ↦ rw (fresh, clash) u
    | inr free ↦ rw (fresh, free) (append-IsKeyed s.jobs j u fresh)
  ]
]

pub add_event-IsKeyed : (e : JobEvent) (s : Store) → IsKeyed s.jobs → IsKeyed (add_event e s).1.jobs
unfolding add_event
add_event-IsKeyed e s u = elim (Bool-cases (is_some (find_row e.event_job s.jobs))) [
  | inl there ↦ rw there u
  | inr missing ↦ rw missing u
]

pub update_exact :
    (s : Store) (j : ControlJob) (now : ℕ) (cs admitted : List Change)
    → IsKeyed s.jobs
    → find_row j.job_id s.jobs ≡ some j
    → has_unsupported cs ≡ false
    → admit j cs ≡ ok admitted
    → breaks_unique (rows_after j (updated now admitted) s).jobs ≡ false
    → update j.job_id now cs s
      ≡ (ok (updated now admitted j), rows_after j (updated now admitted) s)
update_exact s j now cs admitted u found good h free =
    update-eq-current j.job_id now cs s j good found
    ∙ update_current-admitted j now cs admitted s h
    ∙ write_total j (updated now admitted) s (λ x. (updated-SameIdentity now admitted x).job_id)
        found free (rowcount_found s.jobs j u found)

find_row-behind :
    (x j : ControlJob) (js : List ControlJob)
    → find_row x.job_id js ≡ none
    → find_row j.job_id js ≡ some j
    → find_row j.job_id (x ∷ js) ≡ some j
find_row-behind x j js fresh found = elim (Bool-cases (has_id j.job_id x)) [
  | inr other ↦ find_row-miss j.job_id x js other ∙ found
  | inl here ↦
      let e : x.job_id ≡ j.job_id = (eq_iff x.job_id j.job_id).0 here in
      let p : none ≡ some j = sym fresh ∙ ap (λ i. find_row i js) e ∙ found in cc p
]

-- In a table with distinct ids every row is found under its own.
pub All-found : (js : List ControlJob) → IsKeyed js → All (λ j. find_row j.job_id js ≡ some j) js
All-found [] u = tt
All-found (x ∷ js) (fresh, u) = (
  find_row-hit x.job_id x js (same_text_refl x.job_id),
  All-map js (λ j found. find_row-behind x j js fresh found) (All-found js u),
)
