-- ===== src/Base/Sorting.antt =====
-- `sorted` by a strict order, and entries that are told apart by a text.
use Prim.Native.String.{String}
use mathlib.Core.Path.{◌≡◌}
use mathlib.Core.Bool.{Bool, false}
use mathlib.Core.List.{List, [], ◌∷◌}
use mathlib.Core.Logic.{◌⊎◌, inl, inr}
use native.Mathlib.Omega.{arith}
use text.Mathlib.TextEquality.{eq_iff}
use safactory_server.Base.Tests.{if◌then◌else◌, Bool-cases, same_text}
use safactory_server.Base.Predicates.{All, Any}
use safactory_server.Base.Order.{IsStrict}

module _ {ℓ} {A : Type ℓ} where
  -- Insertion before the first entry that is greater.
  unfoldable pub insert_sorted : (A → A → Bool) → A → List A → List A
  insert_sorted lt x [] = x ∷ []
  insert_sorted lt x (y ∷ ys) =
      let rest = insert_sorted lt x ys in if lt x y then x ∷ y ∷ ys else y ∷ rest

  unfoldable pub sort_into : (A → A → Bool) → List A → List A → List A
  unfolding insert_sorted
  sort_into lt [] done = done
  sort_into lt (x ∷ xs) done = sort_into lt xs (insert_sorted lt x done)

  -- `sorted(xs)`, stable.
  unfoldable pub sort_by : (A → A → Bool) → List A → List A
  unfolding sort_into
  sort_by lt xs = sort_into lt xs []

  -- No entry is less than the one before it.
  abbrev pub IsSorted : (A → A → Bool) → List A → Type 0
  IsSorted lt [] = Unit
  IsSorted lt (x ∷ []) = Unit
  IsSorted lt (x ∷ y ∷ ys) = (lt y x ≡ false) × IsSorted lt (y ∷ ys)

  -- The entry goes behind `x`.
  IsSorted-behind :
      (lt : A → A → Bool) (x y : A) (ys : List A)
      → IsStrict lt
      → lt y x ≡ false
      → IsSorted lt (x ∷ ys)
      → IsSorted lt (insert_sorted lt y ys)
      → IsSorted lt (x ∷ insert_sorted lt y ys)
  unfolding insert_sorted
  IsSorted-behind lt x y [] s le h g = (le, tt)
  IsSorted-behind lt x y (z ∷ zs) s le h g = elim (Bool-cases (lt y z)) [
    | inl less ↦ rw less (le, (s.asym y z less, h.1))
    | inr more ↦ rw more (h.0, rw more at g)
  ]

  tail-IsSorted : (lt : A → A → Bool) (x : A) (xs : List A) → IsSorted lt (x ∷ xs) → IsSorted lt xs
  tail-IsSorted lt x [] h = tt
  tail-IsSorted lt x (y ∷ ys) h = h.1

  insert_sorted-IsSorted :
      (lt : A → A → Bool) (x : A) (xs : List A)
      → IsStrict lt
      → IsSorted lt xs
      → IsSorted lt (insert_sorted lt x xs)
  unfolding insert_sorted
  insert_sorted-IsSorted lt x [] s h = tt
  insert_sorted-IsSorted lt x (y ∷ ys) s h = elim (Bool-cases (lt x y)) [
    | inl less ↦ rw less (s.asym x y less, h)
    | inr more ↦ rw more (
        IsSorted-behind lt y x ys s more h
          (insert_sorted-IsSorted lt x ys s (tail-IsSorted lt y ys h)))
  ]

  sort_into-IsSorted :
      (lt : A → A → Bool) (xs done : List A)
      → IsStrict lt
      → IsSorted lt done
      → IsSorted lt (sort_into lt xs done)
  unfolding sort_into
  sort_into-IsSorted lt [] done s h = h
  sort_into-IsSorted lt (x ∷ xs) done s h =
      sort_into-IsSorted lt xs (insert_sorted lt x done) s (insert_sorted-IsSorted lt x done s h)

  pub sort_by-IsSorted :
      (lt : A → A → Bool) (xs : List A) → IsStrict lt → IsSorted lt (sort_by lt xs)
  unfolding sort_by
  sort_by-IsSorted lt xs s = sort_into-IsSorted lt xs [] s tt

  -- Sorting keeps what holds of all entries, and what holds of some.
  module _ {κ} (P : A → Type κ) (lt : A → A → Bool) where
    All-insert_sorted : (x : A) (xs : List A) → P x → All P xs → All P (insert_sorted lt x xs)
    unfolding insert_sorted
    All-insert_sorted x [] px h = (px, tt)
    All-insert_sorted x (y ∷ ys) px h = elim (Bool-cases (lt x y)) [
      | inl less ↦ rw less (px, h)
      | inr more ↦ rw more (h.0, All-insert_sorted x ys px h.1)
    ]

    All-sort_into : (xs done : List A) → All P xs → All P done → All P (sort_into lt xs done)
    unfolding sort_into
    All-sort_into [] done h g = g
    All-sort_into (x ∷ xs) done h g =
        All-sort_into xs (insert_sorted lt x done) h.1 (All-insert_sorted x done h.0 g)

    pub All-sort_by : (xs : List A) → All P xs → All P (sort_by lt xs)
    unfolding sort_by
    All-sort_by xs h = All-sort_into xs [] h tt

  module _ (P : A → Type 0) (lt : A → A → Bool) where
    Any-insert_sorted : (x : A) (xs : List A) → P x ⊎ Any P xs → Any P (insert_sorted lt x xs)
    unfolding insert_sorted
    Any-insert_sorted x [] h = h
    Any-insert_sorted x (y ∷ ys) h = elim (Bool-cases (lt x y)) [
      | inl less ↦ rw less h
      | inr more ↦ rw more (elim h [
        | inl here ↦ inr (Any-insert_sorted x ys (inl here))
        | inr (inl first) ↦ inl first
        | inr (inr later) ↦ inr (Any-insert_sorted x ys (inr later))
      ])
    ]

    Any-sort_into : (xs done : List A) → Any P xs ⊎ Any P done → Any P (sort_into lt xs done)
    unfolding sort_into
    Any-sort_into [] done (inl h) = absurd h
    Any-sort_into [] done (inr h) = h
    Any-sort_into (x ∷ xs) done (inl (inl h)) =
        Any-sort_into xs (insert_sorted lt x done) (inr (Any-insert_sorted x done (inl h)))
    Any-sort_into (x ∷ xs) done (inl (inr h)) = Any-sort_into xs (insert_sorted lt x done) (inl h)
    Any-sort_into (x ∷ xs) done (inr h) =
        Any-sort_into xs (insert_sorted lt x done) (inr (Any-insert_sorted x done (inr h)))

    pub Any-sort_by : (xs : List A) → Any P xs → Any P (sort_by lt xs)
    unfolding sort_by
    Any-sort_by xs h = Any-sort_into xs [] (inl h)

  -- No two entries have one name.
  abbrev pub HasDistinct : (A → String) → List A → Type 0
  HasDistinct name [] = Unit
  HasDistinct name (x ∷ xs) =
      All (λ y. same_text (name y) (name x) ≡ false) xs × HasDistinct name xs

pub same_text-sym : (s t : String) → same_text s t ≡ false → same_text t s ≡ false
same_text-sym s t h = ground (arith, eq_iff s t, eq_iff t s)

module _ {ℓ} {A : Type ℓ} (name : A → String) (lt : A → A → Bool) where
  insert_sorted-HasDistinct :
      (x : A) (xs : List A) → HasDistinct name (x ∷ xs) → HasDistinct name (insert_sorted lt x xs)
  unfolding insert_sorted
  insert_sorted-HasDistinct x [] h = h
  insert_sorted-HasDistinct x (y ∷ ys) h = elim (Bool-cases (lt x y)) [
    | inl less ↦ rw less h
    | inr more ↦ rw more (
      All-insert_sorted (λ z. same_text (name z) (name y) ≡ false) lt x ys
          (same_text-sym (name y) (name x) h.0.0) h.1.0,
      insert_sorted-HasDistinct x ys (h.0.1, h.1.1),
    )
  ]

  -- The entries that wait have names of their own too.
  Apart : List A → List A → Type 0
  Apart xs done = All (λ x. All (λ y. same_text (name y) (name x) ≡ false) done) xs

  Apart-insert :
      (x : A) (xs done : List A)
      → All (λ z. same_text (name z) (name x) ≡ false) xs
      → Apart xs done
      → Apart xs (insert_sorted lt x done)
  unfolding Apart
  Apart-insert x [] done h g = tt
  Apart-insert x (z ∷ zs) done h g = (
    All-insert_sorted (λ y. same_text (name y) (name z) ≡ false) lt x done
        (same_text-sym (name z) (name x) h.0) g.0,
    Apart-insert x zs done h.1 g.1,
  )

  sort_into-HasDistinct :
      (xs done : List A)
      → HasDistinct name xs
      → HasDistinct name done
      → Apart xs done
      → HasDistinct name (sort_into lt xs done)
  unfolding sort_into Apart
  sort_into-HasDistinct [] done h g a = g
  sort_into-HasDistinct (x ∷ xs) done h g a =
      sort_into-HasDistinct xs (insert_sorted lt x done) h.1
        (insert_sorted-HasDistinct x done (a.0, g)) (Apart-insert x xs done h.0 a.1)

  nothing_done : (xs : List A) → Apart xs []
  unfolding Apart
  nothing_done [] = tt
  nothing_done (x ∷ xs) = (tt, nothing_done xs)

  pub sort_by-HasDistinct : (xs : List A) → HasDistinct name xs → HasDistinct name (sort_by lt xs)
  unfolding sort_by
  sort_by-HasDistinct xs h = sort_into-HasDistinct xs [] h tt (nothing_done xs)
