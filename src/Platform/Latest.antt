-- ===== src/Platform/Latest.antt =====
-- What `_trajectory_rows` of data_platform.py returns.
use safactory_server.Base.{
  String, true, false, List, [], ◌∷◌, same_text, ◌≡◌, refl, sym, ◌∙◌, subst, inl, inr, Bool-cases,
  All, Any, sort_by, IsSorted, sort_by-IsSorted, All-sort_by, Any-sort_by, HasDistinct,
  sort_by-HasDistinct,
}
use safactory_server.Json.{Fields}
use safactory_server.Store.Failure.{Failure, Outcome, ok, raised}
use safactory_server.Outcomes.{ok_injective, Outcome-cases}
use safactory_server.Platform.Values.{Python}
use safactory_server.Platform.Rows.{
  row_lt, keep_latest, latest_by_step, trajectory_rows, is_trajectory_row, step_name, values,
}
use safactory_server.Platform.Order.{
  row_lt-IsStrict, entry_name, IsIndex, Covers, keep-HasDistinct, keep_named, keep-Covers,
  keep-Covers_new,
}

module _ (py : Python) where
  abbrev Index : Type 0
  Index = List (String × Fields)

  abbrev put_row : Fields → Index → Index
  put_row row m = keep_latest (row_lt py) (step_name py row) row m

  latest_skip :
      (row : Fields) (rows : List Fields) (m : Index)
      → is_trajectory_row py row ≡ ok false
      → latest_by_step py (row ∷ rows) m ≡ latest_by_step py rows m
  unfolding latest_by_step
  latest_skip row rows m h = rw h refl

  latest_put :
      (row : Fields) (rows : List Fields) (m : Index)
      → is_trajectory_row py row ≡ ok true
      → latest_by_step py (row ∷ rows) m ≡ latest_by_step py rows (put_row row m)
  unfolding latest_by_step
  latest_put row rows m h = rw h refl

  latest_raises :
      (row : Fields) (rows : List Fields) (m : Index) (e : Failure)
      → is_trajectory_row py row ≡ raised e
      → latest_by_step py (row ∷ rows) m ≡ raised e
  unfolding latest_by_step
  latest_raises row rows m e h = rw h refl

  latest_done : (m : Index) → latest_by_step py [] m ≡ ok m
  unfolding latest_by_step
  latest_done m = refl

  -- What each put keeps, the loop keeps.
  latest_keeps :
      (P : Index → Type 0)
      → ((row : Fields) (m : Index) → is_trajectory_row py row ≡ ok true → P m → P (put_row row m))
      → (rows : List Fields) (m kept : Index) → latest_by_step py rows m ≡ ok kept
      → P m
      → P kept
  latest_keeps P put [] m kept h p =
      let e : m ≡ kept = ok_injective m kept (sym (latest_done m) ∙ h) in subst P e p
  latest_keeps P put (row ∷ rows) m kept h p = elim (Outcome-cases (is_trajectory_row py row)) [
    | inl (true, counts) ↦
        latest_keeps P put rows (put_row row m) kept (sym (latest_put row rows m counts) ∙ h)
          (put row m counts p)
    | inl (false, skipped) ↦
        latest_keeps P put rows m kept (sym (latest_skip row rows m skipped) ∙ h) p
    | inr (e, bad) ↦
        let clash : raised e ≡ ok kept = sym (latest_raises row rows m e bad) ∙ h in
        absurd (cc clash)
  ]

  index_put :
      (row : Fields) (m : Index)
      → IsIndex (row_lt py) (step_name py) m
      → IsIndex (row_lt py) (step_name py) (put_row row m)
  index_put row m i = record {
    distinct = keep-HasDistinct (row_lt py) (step_name py) (step_name py row) row m i.distinct;
    named = keep_named (row_lt py) (step_name py) row m i.named;
  }

  latest_index :
      (rows : List Fields) (kept : Index)
      → latest_by_step py rows [] ≡ ok kept
      → IsIndex (row_lt py) (step_name py) kept
  latest_index rows kept h =
      latest_keeps (IsIndex (row_lt py) (step_name py)) (λ row m counts i. index_put row m i) rows
        [] kept h (record { distinct = tt; named = tt })

  -- Every row that counts is covered.
  latest-Covers :
      (rows : List Fields) (m kept : Index)
      → latest_by_step py rows m ≡ ok kept
      → All
          (λ row.
            is_trajectory_row py row ≡ ok true → Any (Covers (row_lt py) (step_name py) row) kept)
          rows
  latest-Covers [] m kept h = tt
  latest-Covers (row ∷ rows) m kept h = elim (Outcome-cases (is_trajectory_row py row)) [
    | inl (true, counts) ↦
        let rest = sym (latest_put row rows m counts) ∙ h in
        (
          λ _.
              latest_keeps (Any (Covers (row_lt py) (step_name py) row))
                (λ z k c.
                  keep-Covers (row_lt py) (step_name py) (row_lt-IsStrict py) row z (step_name py z)
                    k)
                rows (put_row row m) kept rest
                (keep-Covers_new (row_lt py) (step_name py) (row_lt-IsStrict py) row m),
          latest-Covers rows (put_row row m) kept rest,
        )
    | inl (false, skipped) ↦ (
      λ counts. absurd (not_both row skipped counts),
      latest-Covers rows m kept (sym (latest_skip row rows m skipped) ∙ h),
    )
    | inr (e, bad) ↦
        let clash : raised e ≡ ok kept = sym (latest_raises row rows m e bad) ∙ h in
        absurd (cc clash)
  ]
    where
      not_both :
          (row : Fields)
          → is_trajectory_row py row ≡ ok false
          → is_trajectory_row py row ≡ ok true
          → ⊥
      not_both row a b = clash (sym a ∙ b)
        where
          clash : Outcome.ok false ≡ Outcome.ok true → ⊥
          clash p = cc p

  -- The rows of an index, under their own names.
  values_apart :
      (j : String) (m : Index)
      → All (λ p. p.0 ≡ step_name py (p.1)) m
      → All (λ p. same_text (p.0) j ≡ false) m
      → All (λ row. same_text (step_name py row) j ≡ false) (values m)
  values_apart j [] n a = tt
  values_apart j ((k, row) ∷ m) n a =
      (subst (λ x. same_text x j ≡ false) (n.0) (a.0), values_apart j m n.1 a.1)

  values-HasDistinct :
      (m : Index)
      → All (λ p. p.0 ≡ step_name py (p.1)) m
      → HasDistinct entry_name m
      → HasDistinct (step_name py) (values m)
  values-HasDistinct [] n d = tt
  values-HasDistinct ((k, row) ∷ m) n d = (
    subst (λ x. All (λ r. same_text (step_name py r) x ≡ false) (values m)) (n.0)
        (values_apart k m n.1 d.0),
    values-HasDistinct m n.1 d.1,
  )

  -- A row that is kept for the same step and is not earlier.
  abbrev pub Supersedes : Fields → Fields → Type 0
  Supersedes row other = (step_name py other ≡ step_name py row) × (row_lt py other row ≡ false)

  values_cover :
      (row : Fields) (m : Index)
      → All (λ p. p.0 ≡ step_name py (p.1)) m
      → Any (Covers (row_lt py) (step_name py) row) m
      → Any (Supersedes row) (values m)
  values_cover row [] n c = absurd c
  values_cover row ((k, other) ∷ m) n (inl c) = inl (sym (n.0) ∙ c.0, c.1)
  values_cover row ((k, other) ∷ m) n (inr c) = inr (values_cover row m n.1 c)

  All-values : (P : Fields → Type 0) (m : Index) → All (λ p. P (p.1)) m → All P (values m)
  All-values P [] a = tt
  All-values P ((k, row) ∷ m) a = (a.0, All-values P m a.1)

  counts_put :
      (row : Fields) (k : String) (m : Index)
      → is_trajectory_row py row ≡ ok true
      → All (λ p. is_trajectory_row py (p.1) ≡ ok true) m
      → All (λ p. is_trajectory_row py (p.1) ≡ ok true) (keep_latest (row_lt py) k row m)
  unfolding keep_latest
  counts_put row k [] c a = (c, tt)
  counts_put row k ((j, other) ∷ m) c a = elim (Bool-cases (same_text j k)) [
    | inr apart ↦ rw apart (a.0, counts_put row k m c a.1)
    | inl here ↦ rw here (elim (Bool-cases (row_lt py other row)) [
      | inl later ↦ rw later (c, a.1)
      | inr earlier ↦ rw earlier (a.0, a.1)
    ])
  ]

  -- `_trajectory_rows` sorts what the loop keeps.
  sorted_index :
      (rows kept : List Fields)
      → trajectory_rows py rows ≡ ok kept
      → (m : Index) × ((latest_by_step py rows [] ≡ ok m) × (kept ≡ sort_by (row_lt py) (values m)))
  sorted_index rows kept h = elim (Outcome-cases (latest_by_step py rows [])) [
    | inl (m, e) ↦ (m, (e, ok_injective kept (sort_by (row_lt py) (values m)) (sym h ∙ sorted m e)))
    | inr (f, e) ↦ let clash : raised f ≡ ok kept = sym (failing f e) ∙ h in absurd (cc clash)
  ]
    where
      sorted :
          (m : Index)
          → latest_by_step py rows [] ≡ ok m
          → trajectory_rows py rows ≡ ok (sort_by (row_lt py) (values m))
      sorted m e = unfold trajectory_rows in rw e refl

      failing :
          (f : Failure) → latest_by_step py rows [] ≡ raised f → trajectory_rows py rows ≡ raised f
      failing f e = unfold trajectory_rows in rw e refl

  -- For every list of rows that `_trajectory_rows` accepts: the rows that it returns have distinct step
  -- ids, are in the order of the sort key, and are all rows of a trajectory.
  pub trajectory_rows-IsSorted :
      (rows kept : List Fields)
      → trajectory_rows py rows ≡ ok kept
      → HasDistinct (step_name py) kept
        × (IsSorted (row_lt py) kept × All (λ row. is_trajectory_row py row ≡ ok true) kept)
  trajectory_rows-IsSorted rows kept h =
      let (m, (e, s)) = sorted_index rows kept h in
      let i = latest_index rows m e in
      subst
        (λ k.
          HasDistinct (step_name py) k
          × (IsSorted (row_lt py) k × All (λ row. is_trajectory_row py row ≡ ok true) k))
        (sym s)
        (
          sort_by-HasDistinct (step_name py) (row_lt py) (values m)
              (values-HasDistinct m i.named i.distinct),
          (
            sort_by-IsSorted (row_lt py) (values m) (row_lt-IsStrict py),
            All-sort_by (λ row. is_trajectory_row py row ≡ ok true) (row_lt py) (values m)
                (All-values (λ row. is_trajectory_row py row ≡ ok true) m
                  (latest_keeps (All (λ p. is_trajectory_row py (p.1) ≡ ok true))
                    (λ row k c a. counts_put row (step_name py row) k c a) rows [] m e tt)),
          ),
        )

  covered_at :
      (P : Fields → Type 0) (row : Fields) (rows : List Fields)
      → Any (λ r. r ≡ row) rows
      → All P rows
      → P row
  covered_at P row [] h a = absurd h
  covered_at P row (r ∷ rows) (inl here) a = subst P here a.0
  covered_at P row (r ∷ rows) (inr there) a = covered_at P row rows there a.1

  -- For every row of a trajectory among the rows: the returned rows have one of the same step that the
  -- sort key does not put before it.
  pub trajectory_rows_latest :
      (rows kept : List Fields) (row : Fields)
      → trajectory_rows py rows ≡ ok kept
      → Any (λ r. r ≡ row) rows
      → is_trajectory_row py row ≡ ok true
      → Any (Supersedes row) kept
  trajectory_rows_latest rows kept row h among counts =
      let (m, (e, s)) = sorted_index rows kept h in
      let i = latest_index rows m e in
      subst (Any (Supersedes row)) (sym s) (
        Any-sort_by (Supersedes row) (row_lt py) (values m) (
          values_cover row m i.named (
            covered_at
              (λ r. is_trajectory_row py r ≡ ok true → Any (Covers (row_lt py) (step_name py) r) m)
              row rows among (latest-Covers rows [] m e) counts)))
