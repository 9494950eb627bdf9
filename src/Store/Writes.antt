-- ===== src/Store/Writes.antt =====
-- What the UPDATE statements leave: the assignments, the rows that they reach, and the transaction.
use safactory_server.Base.{
  ℕ, String, Bool, true, false, some, List, [], ◌∷◌, ◌++◌, ◌≡◌, refl, sym, ap, subst, ◌∙◌, ◌⊎◌, inl,
  inr, append-nil, arith, eq_iff, Bool-cases, same_text, ◌==◌, if◌then◌else◌, same_text_refl,
}
use mathlib.Core.Option
use safactory_server.Domain.{JobStatus}
use safactory_server.Store.Failure.{Failure, sqlite_error, runtime_error, ok, raised}
use safactory_server.Store.Row.{
  ControlJob, Change, is_active, requested_status, pop_phase, assign, assign_all, timestamp,
}
use safactory_server.Store.Table.{
  Store, find_row, has_id, is_current, write_rows, rowcount, breaks_unique,
}
use safactory_server.Store.Methods.{write, reread, admit, updated, closing_row}
use safactory_server.Store.Lifecycle.{
  SameIdentity, SameIdentity-refl, SameIdentity-trans, MayBecome, Evolves, Extends, Evolves-refl,
}

assign-SameIdentity : (c : Change) (j : ControlJob) → SameIdentity j (assign c j)
unfolding assign
assign-SameIdentity (Change.status v) j = record {
  job_id = refl;
  request_id = refl;
  owner_username = refl;
  model_id = refl;
  model_checksum = refl;
  model_gateway_json = refl;
  range_id = refl;
  created_at = refl;
}
assign-SameIdentity _ j = record {
  job_id = refl;
  request_id = refl;
  owner_username = refl;
  model_id = refl;
  model_checksum = refl;
  model_gateway_json = refl;
  range_id = refl;
  created_at = refl;
}

pub assign_all-SameIdentity : (cs : List Change) (j : ControlJob) → SameIdentity j (assign_all cs j)
unfolding assign_all
assign_all-SameIdentity [] j = SameIdentity-refl j
assign_all-SameIdentity (c ∷ cs) j =
    SameIdentity-trans (assign-SameIdentity c j) (assign_all-SameIdentity cs (assign c j))

pub assign_all-status :
    (cs : List Change) (j : ControlJob) → (assign_all cs j).status ≡ requested_status cs j.status
unfolding assign_all requested_status
assign_all-status [] j = refl
assign_all-status (Change.status v ∷ cs) j = assign_all-status cs (assign (Change.status v) j)
assign_all-status (c ∷ cs) j = assign_all-status cs (assign c j)

pub requested_status-append :
    (cs ds : List Change) (s : JobStatus)
    → requested_status (cs ++ ds) s ≡ requested_status ds (requested_status cs s)
unfolding requested_status
requested_status-append [] ds s = refl
requested_status-append (Change.status v ∷ cs) ds s = requested_status-append cs ds v
requested_status-append (c ∷ cs) ds s = requested_status-append cs ds s

pub requested_status-pop_phase :
    (cs : List Change) (s : JobStatus) → requested_status (pop_phase cs) s ≡ requested_status cs s
unfolding requested_status pop_phase
requested_status-pop_phase [] s = refl
requested_status-pop_phase (Change.status v ∷ cs) s = requested_status-pop_phase cs v
requested_status-pop_phase (c ∷ cs) s = requested_status-pop_phase cs s

-- The status that `update` writes is the one that it was asked for.
pub updated-status :
    (now : ℕ) (cs : List Change) (j : ControlJob)
    → (updated now cs j).status ≡ requested_status cs j.status
unfolding updated requested_status
updated-status now cs j =
    assign_all-status (cs ++ Change.updated_at (timestamp now) ∷ []) j
    ∙ requested_status-append cs (Change.updated_at (timestamp now) ∷ []) j.status

pub updated-SameIdentity :
    (now : ℕ) (cs : List Change) (j : ControlJob) → SameIdentity j (updated now cs j)
unfolding updated
updated-SameIdentity now cs j =
    let h = assign_all-SameIdentity (cs ++ Change.updated_at (timestamp now) ∷ []) j in
    record {
      job_id = h.job_id;
      request_id = h.request_id;
      owner_username = h.owner_username;
      model_id = h.model_id;
      model_checksum = h.model_checksum;
      model_gateway_json = h.model_gateway_json;
      range_id = h.range_id;
      created_at = h.created_at;
    }

-- What `admit` lets through asks for a status that the row may take.
pub admit-MayBecome :
    (j : ControlJob) (cs admitted : List Change)
    → admit j cs ≡ ok admitted
    → MayBecome j.status (requested_status admitted j.status)
unfolding admit
admit-MayBecome j cs admitted h = ground (arith, requested_status-pop_phase cs j.status)

pub updated-Evolves :
    (now : ℕ) (cs admitted : List Change) (j : ControlJob)
    → admit j cs ≡ ok admitted
    → Evolves j (updated now admitted j)
unfolding updated
updated-Evolves now cs admitted j h = record {
  identity = updated-SameIdentity now admitted j;
  status = subst-status (sym (updated-status now admitted j)) (admit-MayBecome j cs admitted h);
  version = omega arith;
  unchanged = λ e. absurd (omega (arith, e));
}
  where
    subst-status : {t u : JobStatus} → t ≡ u → MayBecome j.status t → MayBecome j.status u
    subst-status e m = rw e at m

pub closing_row-Evolves :
    (now : ℕ) (j : ControlJob) → is_active j.status ≡ true → Evolves j (closing_row now j)
unfolding closing_row
closing_row-Evolves now j h = record {
  identity = ground arith;
  status = ground arith;
  version = omega arith;
  unchanged = λ e. absurd (omega (arith, e));
}

-- A row found under an id has that id.
pub find_row-has_id :
    (k : String) (js : List ControlJob) (j : ControlJob) → find_row k js ≡ some j → j.job_id ≡ k
unfolding find_row
find_row-has_id k [] j h = cc
find_row-has_id k (x ∷ js) j h = ground (arith, find_row-has_id k js j, eq_iff x.job_id k)

abbrev pub rewritten : String → ℕ → (ControlJob → ControlJob) → ControlJob → ControlJob
rewritten k v f j = if is_current k v j then f j else j

pub find_row-hit :
    (id : String) (x : ControlJob) (js : List ControlJob)
    → has_id id x ≡ true
    → find_row id (x ∷ js) ≡ some x
unfolding find_row
find_row-hit id x js h = rw h

pub find_row-nil : (id : String) {j : ControlJob} → find_row id [] ≡ some j → ⊥
unfolding find_row
find_row-nil id h = cc

pub find_row-miss :
    (id : String) (x : ControlJob) (js : List ControlJob)
    → has_id id x ≡ false
    → find_row id (x ∷ js) ≡ find_row id js
unfolding find_row
find_row-miss id x js h = rw h

module _ (k : String) (v : ℕ) (f : ControlJob → ControlJob)
    (same : (j : ControlJob) → (f j).job_id ≡ j.job_id) where
  pub rewritten-job_id : (x : ControlJob) → (rewritten k v f x).job_id ≡ x.job_id
  rewritten-job_id x = pick (is_current k v x)
    where
      pick : (b : Bool) → (if b then f x else x).job_id ≡ x.job_id
      pick true = same x
      pick false = refl

  -- The SELECT behind an UPDATE finds what the SELECT before it found, rewritten.
  pub find_row-write_rows :
      (id : String) (js : List ControlJob) (j : ControlJob)
      → find_row id js ≡ some j
      → find_row id (write_rows k v f js) ≡ some (rewritten k v f j)
  unfolding write_rows
  find_row-write_rows id [] j h = absurd (find_row-nil id h)
  find_row-write_rows id (x ∷ js) j h =
      let kept = ap (λ s. same_text s id) (rewritten-job_id x) in
      elim (Bool-cases (has_id id x)) [
        | inl here ↦
            find_row-hit id (rewritten k v f x) (write_rows k v f js) (kept ∙ here)
            ∙ ap (λ o. Option.map (rewritten k v f) o) (sym (find_row-hit id x js here) ∙ h)
        | inr other ↦
            find_row-miss id (rewritten k v f x) (write_rows k v f js) (kept ∙ other)
            ∙ find_row-write_rows id js j (sym (find_row-miss id x js other) ∙ h)
      ]

pub is_current_self : (j : ControlJob) → is_current j.job_id j.version j ≡ true
is_current_self j = ground (arith, same_text_refl j.job_id)

abbrev pub rows_after : ControlJob → (ControlJob → ControlJob) → Store → Store
rows_after current f s = record s { jobs = write_rows current.job_id current.version f s.jobs }

pub if-true {ℓ} : {A : Type ℓ} (b : Bool) (x y : A) → b ≡ true → (if b then x else y) ≡ x
if-true b x y h = rw h

module _ (current : ControlJob) (f : ControlJob → ControlJob) (s : Store)
    (same : (j : ControlJob) → (f j).job_id ≡ j.job_id)
    (found : find_row current.job_id s.jobs ≡ some current) where
  pub find_row-rows_after : find_row current.job_id (rows_after current f s).jobs ≡ some (f current)
  find_row-rows_after =
      find_row-write_rows current.job_id current.version f same current.job_id s.jobs current found
      ∙ ap some (if-true _ (f current) current (is_current_self current))

  pub write_total :
      breaks_unique (rows_after current f s).jobs ≡ false
      → rowcount current.job_id current.version s.jobs ≡ 1
      → write current f s ≡ (ok (f current), rows_after current f s)
  unfolding write reread
  write_total free one = ground (arith, find_row-rows_after)

  write_refused :
      breaks_unique (rows_after current f s).jobs ≡ true
      → write current f s ≡ (raised sqlite_error, s)
  unfolding write
  write_refused h = rw h

  write_raced :
      breaks_unique (rows_after current f s).jobs ≡ false
      → (rowcount current.job_id current.version s.jobs == 1) ≡ false
      → write current f s ≡ (raised runtime_error, s)
  unfolding write
  write_raced h k = rw (h, k)

  -- A transaction either raises and leaves the store, or writes its rows and returns the new row.
  pub write-cases :
      ((e : Failure) × (write current f s ≡ (raised e, s)))
      ⊎ (write current f s ≡ (ok (f current), rows_after current f s))
  write-cases = elim (Bool-cases (breaks_unique (rows_after current f s).jobs)) [
    | inl broken ↦ inl (sqlite_error, write_refused broken)
    | inr free ↦ elim (Bool-cases (rowcount current.job_id current.version s.jobs == 1)) [
      | inl one ↦ inr (write_total free (ground arith))
      | inr other ↦ inl (runtime_error, write_raced free other)
    ]
  ]

  -- The row that an UPDATE reaches under some id is the one that it has read.
  pub same_row :
      (id : String) (j : ControlJob)
      → find_row id s.jobs ≡ some j
      → is_current current.job_id current.version j ≡ true
      → j ≡ current
  same_row id j h cur =
      let e : id ≡ current.job_id =
        ground (arith, find_row-has_id id s.jobs j h, eq_iff j.job_id current.job_id) in
      let p : some j ≡ some current = sym h ∙ ap (λ k. find_row k s.jobs) e ∙ found in cc p

  rows_after-row :
      Evolves current (f current)
      → (id : String) (j : ControlJob) → find_row id s.jobs ≡ some j
      → (j' : ControlJob) × (find_row id (rows_after current f s).jobs ≡ some j') × Evolves j j'
  rows_after-row step id j h = (
    rewritten current.job_id current.version f j,
    find_row-write_rows current.job_id current.version f same id s.jobs j h,
    elim (Bool-cases (is_current current.job_id current.version j)) [
      | inl cur ↦
          let e : j ≡ current = same_row id j h cur in
          subst (λ x. Evolves x (rewritten current.job_id current.version f x)) (sym e)
            (rw (is_current_self current) step)
      | inr other ↦ rw other (Evolves-refl j)
    ],
  )

  -- An UPDATE of a row that was found extends the store, if it is a step of that row.
  pub rows_after-Extends : Evolves current (f current) → Extends s (rows_after current f s)
  rows_after-Extends step = record { row = rows_after-row step; log = ([], sym (append-nil s.log)) }
