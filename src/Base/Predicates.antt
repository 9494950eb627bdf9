-- ===== src/Base/Predicates.antt =====
-- A predicate on all entries of a list, under the list functions of the store.
use mathlib.Core.Path.{◌≡◌}
use mathlib.Core.Bool.{Bool, true}
use mathlib.Core.List.{List, [], ◌∷◌, ◌++◌}
use mathlib.Core.Logic.{◌⊎◌, inl, inr}
use Prim.Native.Nat.{ℕ}
use safactory_server.Base.Tests.{Bool-cases, leb}
use safactory_server.Base.Lists.{select, insert_by, insert_all, order_by}

abbrev pub All {ℓ κ} : {A : Type ℓ} → (A → Type κ) → List A → Type κ
All P [] = Unit
All P (x ∷ xs) = P x × All P xs

module _ {ℓ} {A : Type ℓ} where
  pub All-map {κ ι} :
      {P : A → Type κ} {Q : A → Type ι} (xs : List A) → ((x : A) → P x → Q x) → All P xs → All Q xs
  All-map [] f h = tt
  All-map (x ∷ xs) f h = (f x h.0, All-map xs f h.1)

module _ {ℓ κ} {A : Type ℓ} (P : A → Type κ) where
  -- The entries that a test selects pass it.
  pub All-select :
      (p : A → Bool) (xs : List A) → All P xs → All (λ x. P x × (p x ≡ true)) (select p xs)
  unfolding select
  All-select p [] h = tt
  All-select p (x ∷ xs) h = elim (Bool-cases (p x)) [
    | inl passes ↦ rw passes ((h.0, passes), All-select p xs h.1)
    | inr fails ↦ rw fails (All-select p xs h.1)
  ]

  All-insert_by : (key : A → ℕ) (x : A) (ys : List A) → P x → All P ys → All P (insert_by key x ys)
  unfolding insert_by
  All-insert_by key x [] px h = (px, tt)
  All-insert_by key x (y ∷ ys) px h = elim (Bool-cases (leb (key y) (key x))) [
    | inl behind ↦ rw behind (h.0, All-insert_by key x ys px h.1)
    | inr before ↦ rw before (px, (h.0, h.1))
  ]

  All-insert_all :
      (key : A → ℕ) (xs ys : List A) → All P xs → All P ys → All P (insert_all key xs ys)
  unfolding insert_all
  All-insert_all key [] ys h g = g
  All-insert_all key (x ∷ xs) ys h g =
      All-insert_all key xs (insert_by key x ys) h.1 (All-insert_by key x ys h.0 g)

  pub All-order_by : (key : A → ℕ) (xs : List A) → All P xs → All P (order_by key xs)
  unfolding order_by
  All-order_by key xs h = All-insert_all key xs [] h tt

-- Some entry of a list satisfies a predicate.
abbrev pub Any {ℓ} : {A : Type ℓ} → (A → Type 0) → List A → Type 0
Any P [] = ⊥
Any P (x ∷ xs) = P x ⊎ Any P xs

module _ {ℓ} {A : Type ℓ} (P : A → Type 0) where
  pub Any-select :
      (p : A → Bool) (xs : List A) → Any (λ x. P x × (p x ≡ true)) xs → Any P (select p xs)
  unfolding select
  Any-select p [] h = h
  Any-select p (x ∷ xs) (inl h) = rw h.1 (inl h.0)
  Any-select p (x ∷ xs) (inr h) = elim (Bool-cases (p x)) [
    | inl passes ↦ rw passes (inr (Any-select p xs h))
    | inr fails ↦ rw fails (Any-select p xs h)
  ]

  Any-insert_by : (key : A → ℕ) (x : A) (ys : List A) → P x ⊎ Any P ys → Any P (insert_by key x ys)
  unfolding insert_by
  Any-insert_by key x [] h = h
  Any-insert_by key x (y ∷ ys) h = elim (Bool-cases (leb (key y) (key x))) [
    | inr before ↦ rw before h
    | inl behind ↦ rw behind (elim h [
      | inl here ↦ inr (Any-insert_by key x ys (inl here))
      | inr (inl first) ↦ inl first
      | inr (inr later) ↦ inr (Any-insert_by key x ys (inr later))
    ])
  ]

  Any-insert_all :
      (key : A → ℕ) (xs ys : List A) → Any P xs ⊎ Any P ys → Any P (insert_all key xs ys)
  unfolding insert_all
  Any-insert_all key [] ys (inl h) = absurd h
  Any-insert_all key [] ys (inr h) = h
  Any-insert_all key (x ∷ xs) ys (inl (inl h)) =
      Any-insert_all key xs (insert_by key x ys) (inr (Any-insert_by key x ys (inl h)))
  Any-insert_all key (x ∷ xs) ys (inl (inr h)) = Any-insert_all key xs (insert_by key x ys) (inl h)
  Any-insert_all key (x ∷ xs) ys (inr h) =
      Any-insert_all key xs (insert_by key x ys) (inr (Any-insert_by key x ys (inr h)))

  pub Any-order_by : (key : A → ℕ) (xs : List A) → Any P xs → Any P (order_by key xs)
  unfolding order_by
  Any-order_by key xs h = Any-insert_all key xs [] (inl h)

module _ {ℓ} {A : Type ℓ} (P : A → Type 0) where
  pub All-append : (xs ys : List A) → All P xs → All P ys → All P (xs ++ ys)
  All-append [] ys h g = g
  All-append (x ∷ xs) ys h g = (h.0, All-append xs ys h.1 g)
