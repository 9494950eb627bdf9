-- ===== src/Platform/Numbering.antt =====
-- What `get_steps` and `get_trajectory` of data_platform.py return, and how the two agree.
use safactory_server.Base.{
  ℕ, suc, String, Bool, true, false, Option, none, some, List, [], ◌∷◌, map, Any, same_text, ◌≡◌,
  refl, sym, ap, ◌∙◌, subst, inl, inr, arith, Bool-cases, eq_iff, All, HasDistinct, length,
  order_by,
}
use safactory_server.Json.{Json, Fields}
use safactory_server.Domain.Entities.{SessionSteps, StepIndex, StepTrajectory}
use safactory_server.Store.Failure.{value_error, Outcome, ok}
use safactory_server.Outcomes.{
  Promises, Promises-bind, promised, require_holds, collect, >>=-eq-ok, wrap-eq-ok, require,
  ok_injective, any_of,
}
use safactory_server.Platform.Values.{Python, field_of}
use safactory_server.Platform.Rows.{row_datetime, trajectory_rows, step_name, is_sealing_row}
use safactory_server.Platform.Sessions.{is_among, list_of}
use safactory_server.Platform.Queries.{LandingQuery, Client, landing, legacy, query_landing}
use safactory_server.Platform.Steps.{
  flag_of, step_index, get_trajectory, find_trajectory, numbered, has_unique_ids, is_contiguous,
  checked_steps, landing_steps, legacy_steps, steps_of, find_steps, get_steps, session_steps,
  seek_step, trajectory_at,
}
use safactory_server.Platform.Latest.{trajectory_rows-IsSorted}

-- The numbers are n, n + 1, ….
abbrev pub IsNumbered : ℕ → List StepIndex → Type 0
IsNumbered n [] = Unit
IsNumbered n (s ∷ steps) = (s.sequence_no ≡ n) × IsNumbered (suc n) steps

-- What the API promises of a session's steps.
pub record IsWellFormed (s : SessionSteps) : Type 0 where
  pub counted : s.step_count ≡ length s.steps
  pub contiguous : IsNumbered 1 s.steps
  pub distinct : HasDistinct (λ i. i.step_id) s.steps

numbered-IsNumbered : (py : Python) (n : ℕ) (rows : List Fields) → IsNumbered n (numbered py n rows)
unfolding numbered
numbered-IsNumbered py n [] = tt
numbered-IsNumbered py n (row ∷ rows) = (refl, numbered-IsNumbered py (suc n) rows)

numbered_apart :
    (py : Python) (k : String) (n : ℕ) (rows : List Fields)
    → All (λ row. same_text (step_name py row) k ≡ false) rows
    → All (λ i. same_text (i.step_id) k ≡ false) (numbered py n rows)
unfolding numbered
numbered_apart py k n [] a = tt
numbered_apart py k n (row ∷ rows) a = (a.0, numbered_apart py k (suc n) rows a.1)

numbered-HasDistinct :
    (py : Python) (n : ℕ) (rows : List Fields)
    → HasDistinct (step_name py) rows
    → HasDistinct (λ i. i.step_id) (numbered py n rows)
unfolding numbered
numbered-HasDistinct py n [] d = tt
numbered-HasDistinct py n (row ∷ rows) d = (
  numbered_apart py (step_name py row) (suc n) rows d.0,
  numbered-HasDistinct py (suc n) rows d.1,
)

contiguous-IsNumbered :
    (n : ℕ) (steps : List StepIndex) → is_contiguous n steps ≡ true → IsNumbered n steps
unfolding is_contiguous
contiguous-IsNumbered n [] h = tt
contiguous-IsNumbered n (s ∷ steps) h =
    (ground arith, contiguous-IsNumbered (suc n) steps (ground arith))

among_apart :
    (t : String) (steps : List StepIndex)
    → is_among t (map (λ i. i.step_id) steps) ≡ false
    → All (λ i. same_text (i.step_id) t ≡ false) steps
unfolding is_among
among_apart t [] h = tt
among_apart t (s ∷ steps) h = (ground arith, among_apart t steps (ground arith))

unique-HasDistinct :
    (steps : List StepIndex) → has_unique_ids steps ≡ true → HasDistinct (λ i. i.step_id) steps
unfolding has_unique_ids
unique-HasDistinct [] h = tt
unique-HasDistinct (s ∷ steps) h =
    (among_apart s.step_id steps (ground arith), unique-HasDistinct steps (ground arith))

checked-Promises :
    (session_id : String) (sealed : Bool) (steps : List StepIndex)
    → Promises IsWellFormed (checked_steps session_id sealed steps)
unfolding checked_steps
checked-Promises session_id sealed steps =
    Promises-bind IsWellFormed (require (has_unique_ids steps) value_error) _ (λ u unique.
      Promises-bind IsWellFormed (require (is_contiguous 1 steps) value_error) _ (λ v contiguous.
        record {
          counted = refl;
          contiguous = contiguous-IsNumbered 1 steps (require_holds _ value_error v contiguous);
          distinct = unique-HasDistinct steps (require_holds _ value_error u unique);
        }))

landing-Promises :
    (py : Python) (session_id : String) (rows : List Fields)
    → Promises IsWellFormed (landing_steps py session_id rows)
unfolding landing_steps
landing-Promises py session_id [] = tt
landing-Promises py session_id (row ∷ rows) =
    Promises-bind IsWellFormed (trajectory_rows py (row ∷ rows)) _ (λ kept e.
      Promises-bind IsWellFormed (any_of (is_sealing_row py) (row ∷ rows)) _ (λ sealed _. record {
        counted = refl;
        contiguous = numbered-IsNumbered py 1 kept;
        distinct =
            numbered-HasDistinct py 1 kept (trajectory_rows-IsSorted py (row ∷ rows) kept e).0;
      }))

steps_of-Promises :
    (py : Python) (session_id : String) (response : Json)
    → Promises IsWellFormed (steps_of py session_id response)
unfolding steps_of
steps_of-Promises py session_id response =
    Promises-bind IsWellFormed (list_of (field_of "steps" response)) _ (λ rows _.
      Promises-bind IsWellFormed (flag_of (field_of "sealed" response)) _ (λ sealed _.
        Promises-bind IsWellFormed (collect (step_index py) rows) _
          (λ steps _. checked-Promises session_id sealed (order_by (λ s. s.sequence_no) steps))))

legacy-Promises :
    (py : Python) (session_id : String) (response : Json)
    → Promises IsWellFormed (legacy_steps py session_id response)
unfolding legacy_steps
legacy-Promises py session_id Json.null = tt
legacy-Promises py session_id response = steps_of-Promises py session_id response

find-Promises :
    (py : Python) (client : Client) (job_id session_id : String)
    → Promises IsWellFormed (find_steps py client job_id session_id)
unfolding find_steps
find-Promises py (landing query) job_id session_id =
    Promises-bind IsWellFormed (query_landing query job_id (some session_id) none) _
      (λ rows _. landing-Promises py session_id rows)
find-Promises py (legacy a b list_steps d) job_id session_id =
    Promises-bind IsWellFormed (list_steps job_id session_id) _
      (λ response _. legacy-Promises py session_id response)

-- For either surface of the client and every answer of it: the steps that `get_steps` returns are
-- counted rightly, are numbered from 1 without a gap in the order given, and have distinct ids.
pub get_steps-IsWellFormed :
    (py : Python) (client : Client) (job_id session_id : String) (s : SessionSteps)
    → get_steps py client job_id session_id ≡ ok (some s)
    → IsWellFormed s
unfolding get_steps
get_steps-IsWellFormed py client job_id session_id s h =
    promised IsWellFormed (find_steps py client job_id session_id) s
      (find-Promises py client job_id session_id)
      (wrap-eq-ok _ (find_steps py client job_id session_id) h)

-- A trajectory stands in the list of steps under its id and its number; where there is none, neither
-- is the id in the list.
abbrev pub Agrees : String → Option StepTrajectory → List StepIndex → Type 0
Agrees step_id none steps = All (λ i. same_text (i.step_id) step_id ≡ false) steps
Agrees step_id (some t) steps =
    Any (λ i. (i.step_id ≡ step_id) × (i.sequence_no ≡ t.sequence_no)) steps

Agrees-later :
    (step_id : String) (o : Option StepTrajectory) (i : StepIndex) (steps : List StepIndex)
    → same_text (i.step_id) step_id ≡ false
    → Agrees step_id o steps
    → Agrees step_id o (i ∷ steps)
Agrees-later step_id none i steps apart a = (apart, a)
Agrees-later step_id (some t) i steps apart a = inr a

at_number :
    (py : Python) (session_id step_id : String) (n : ℕ) (row : Fields) (o : Option StepTrajectory)
    → trajectory_at py session_id step_id n row ≡ ok o
    → (t : StepTrajectory) × ((o ≡ some t) × (n ≡ t.sequence_no))
unfolding trajectory_at
at_number py session_id step_id n row o h =
    let (moment, (e, r)) = >>=-eq-ok (row_datetime py row) _ h in (_, (sym (option_of _ o r), refl))
  where
    option_of : (a b : Option StepTrajectory) → Outcome.ok a ≡ Outcome.ok b → a ≡ b
    option_of a b p = cc p

seek_here :
    (py : Python) (session_id step_id : String) (n : ℕ) (row : Fields) (rows : List Fields)
    → same_text (step_name py row) step_id ≡ true
    → seek_step py session_id step_id n (row ∷ rows) ≡ trajectory_at py session_id step_id n row
unfolding seek_step
seek_here py session_id step_id n row rows h = rw h refl

seek_on :
    (py : Python) (session_id step_id : String) (n : ℕ) (row : Fields) (rows : List Fields)
    → same_text (step_name py row) step_id ≡ false
    → seek_step py session_id step_id n (row ∷ rows) ≡ seek_step py session_id step_id (suc n) rows
unfolding seek_step
seek_on py session_id step_id n row rows h = rw h refl

seek-Agrees :
    (py : Python) (session_id step_id : String) (n : ℕ) (rows : List Fields)
    (o : Option StepTrajectory)
    → seek_step py session_id step_id n rows ≡ ok o
    → Agrees step_id o (numbered py n rows)
unfolding numbered
seek-Agrees py session_id step_id n [] o h =
    let e : none ≡ o = unfold seek_step in cc h in subst (λ x. Agrees step_id x []) e tt
seek-Agrees py session_id step_id n (row ∷ rows) o h =
    elim (Bool-cases (same_text (step_name py row) step_id)) [
      | inl here ↦
          let (t, (e, k)) =
            at_number py session_id step_id n row o
              (sym (seek_here py session_id step_id n row rows here) ∙ h) in
          subst (λ x. Agrees step_id x (numbered py n (row ∷ rows))) (sym e)
            (inl ((eq_iff (step_name py row) step_id).0 here, k))
      | inr on ↦ Agrees-later step_id o _ _ on (
          seek-Agrees py session_id step_id (suc n) rows o
            (sym (seek_on py session_id step_id n row rows on) ∙ h))
    ]

landing_steps_inverse :
    (py : Python) (session_id : String) (rows : List Fields) (s : SessionSteps)
    → landing_steps py session_id rows ≡ ok (some s)
    → (kept : List Fields) × ((trajectory_rows py rows ≡ ok kept) × (s.steps ≡ numbered py 1 kept))
unfolding landing_steps
landing_steps_inverse py session_id [] s h = cc h
landing_steps_inverse py session_id (row ∷ rows) s h =
    let (kept, (e, r)) = >>=-eq-ok (trajectory_rows py (row ∷ rows)) _ h in
    let (sealed, (e', r')) = >>=-eq-ok (any_of (is_sealing_row py) (row ∷ rows)) _ r in
    let same : session_steps session_id sealed (numbered py 1 kept) ≡ s = cc r' in
    (kept, (e, sym (ap (λ x. x.steps) same)))

-- On the landing surface, for every answer of the query: if `get_steps` returns steps and
-- `get_trajectory` returns for a step id, then a trajectory stands in those steps with that id and its
-- own sequence number, and if there is none then the id is not among the steps.
pub get_trajectory-Agrees :
    (py : Python) (query : LandingQuery → Outcome Json) (job_id session_id step_id : String)
    (s : SessionSteps) (o : Option StepTrajectory)
    → get_steps py (landing query) job_id session_id ≡ ok (some s)
    → get_trajectory py (landing query) job_id session_id step_id ≡ ok o
    → Agrees step_id o s.steps
unfolding get_steps get_trajectory find_steps find_trajectory
get_trajectory-Agrees py query job_id session_id step_id s o h g =
    let q = query_landing query job_id (some session_id) none in
    let (rows, (e, r)) = >>=-eq-ok q _ (wrap-eq-ok _ _ h) in
    let (kept, (k, same)) = landing_steps_inverse py session_id rows s r in
    let (rows', (e', r')) = >>=-eq-ok q _ (wrap-eq-ok _ _ g) in
    let (kept', (k', sought)) = >>=-eq-ok (trajectory_rows py rows') _ r' in
    let rows_same : rows' ≡ rows = ok_injective rows' rows (sym e' ∙ e) in
    let kept_same : kept' ≡ kept =
      ok_injective kept' kept (sym k' ∙ ap (trajectory_rows py) rows_same ∙ k) in
    subst (Agrees step_id o) (ap (numbered py 1) kept_same ∙ sym same)
      (seek-Agrees py session_id step_id 1 kept' o sought)
