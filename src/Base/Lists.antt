-- ===== src/Base/Lists.antt =====
-- Lists measured by native numbers, and filters by a Boolean test.
use Prim.Native.Nat.{ℕ, suc}
use mathlib.Core.Bool.{Bool, true, ◌&&◌}
use mathlib.Core.List.{List, [], ◌∷◌}
use Prim.Native.String.{String}
use mathlib.Core.Option.{Option, none, some}
use safactory_server.Base.Tests.{if◌then◌else◌, leb, same_text}

module _ {ℓ} {A : Type ℓ} where
  abbrev pub length : List A → ℕ
  length [] = 0
  length (x ∷ xs) = suc (length xs)

  -- `[x for x in xs if p(x)]`.
  unfoldable pub select : (A → Bool) → List A → List A
  select p [] = []
  select p (x ∷ xs) = let rest = select p xs in if p x then x ∷ rest else rest

  -- `all(p(x) for x in xs)`.
  unfoldable pub all : (A → Bool) → List A → Bool
  all p [] = true
  all p (x ∷ xs) = p x && all p xs

  -- Insertion into a list that is ordered by a key: behind the entries with the same key.
  unfoldable pub insert_by : (A → ℕ) → A → List A → List A
  insert_by key x [] = x ∷ []
  insert_by key x (y ∷ ys) =
      let rest = insert_by key x ys in if leb (key y) (key x) then y ∷ rest else x ∷ y ∷ ys

  unfoldable pub insert_all : (A → ℕ) → List A → List A → List A
  unfolding insert_by
  insert_all key [] done = done
  insert_all key (z ∷ zs) done = insert_all key zs (insert_by key z done)

  -- `ORDER BY key`, stable.
  unfoldable pub order_by : (A → ℕ) → List A → List A
  unfolding insert_all
  order_by key xs = insert_all key xs []

  -- A dictionary as an association list.
  unfoldable pub lookup : String → List (String × A) → Option A
  lookup k [] = none
  lookup k ((j, v) ∷ m) = if same_text j k then some v else lookup k m
