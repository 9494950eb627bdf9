-- ===== src/Platform/Order.antt =====
-- The rows that `_trajectory_rows` of data_platform.py keeps: one for each step, the latest, in order.
use safactory_server.Base.{
  String, Bool, true, false, List, [], ◌∷◌, same_text, ◌≡◌, refl, inl, inr, if◌then◌else◌, arith,
  Bool-cases, eq_iff, All, Any, IsStrict, int_lt-IsStrict, text_lt-IsStrict, pair_lt-IsStrict,
  key_lt-IsStrict, HasDistinct,
}
use safactory_server.Platform.Values.{Python}
use safactory_server.Platform.Rows.{row_lt, row_sort_key, sort_key_lt, keep_latest}

pub row_lt-IsStrict : (py : Python) → IsStrict (row_lt py)
unfolding row_lt sort_key_lt
row_lt-IsStrict py =
    key_lt-IsStrict sort_key_lt (row_sort_key py) (
      pair_lt-IsStrict _ _ int_lt-IsStrict (pair_lt-IsStrict _ _ text_lt-IsStrict text_lt-IsStrict))

abbrev pub entry_name : {A : Type 0} → String × A → String
entry_name p = p.0

module _ {A : Type 0} (lt : A → A → Bool) (name : A → String) where
  -- Every entry stands under its own name, and the names are distinct.
  pub record IsIndex (m : List (String × A)) : Type 0 where
    pub distinct : HasDistinct entry_name m
    pub named : All (λ p. p.0 ≡ name (p.1)) m

  pub keep_other :
      (j k : String) (x : A) (m : List (String × A))
      → same_text k j ≡ false
      → All (λ p. same_text (p.0) j ≡ false) m
      → All (λ p. same_text (p.0) j ≡ false) (keep_latest lt k x m)
  unfolding keep_latest
  keep_other j k x [] h a = (h, tt)
  keep_other j k x ((i, y) ∷ m) h a = elim (Bool-cases (same_text i k)) [
    | inl here ↦ rw here (a.0, a.1)
    | inr other ↦ rw other (a.0, keep_other j k x m h a.1)
  ]

  apart_sym : (s t : String) → same_text s t ≡ false → same_text t s ≡ false
  apart_sym s t h = ground (arith, eq_iff s t, eq_iff t s)

  pub keep-HasDistinct :
      (k : String) (x : A) (m : List (String × A))
      → HasDistinct entry_name m
      → HasDistinct entry_name (keep_latest lt k x m)
  unfolding keep_latest
  keep-HasDistinct k x [] h = (tt, tt)
  keep-HasDistinct k x ((i, y) ∷ m) h = elim (Bool-cases (same_text i k)) [
    | inl here ↦ rw here (h.0, h.1)
    | inr other ↦
        rw other (keep_other i k x m (apart_sym i k other) h.0, keep-HasDistinct k x m h.1)
  ]

  pick_named :
      (b : Bool) (j : String) (x y : A) → j ≡ name x → j ≡ name y → j ≡ name (if b then x else y)
  pick_named true j x y p q = p
  pick_named false j x y p q = q

  pub keep_named :
      (x : A) (m : List (String × A))
      → All (λ p. p.0 ≡ name (p.1)) m
      → All (λ p. p.0 ≡ name (p.1)) (keep_latest lt (name x) x m)
  unfolding keep_latest
  keep_named x [] h = (refl, tt)
  keep_named x ((i, y) ∷ m) h = elim (Bool-cases (same_text i (name x))) [
    | inl here ↦ rw here (pick_named (lt y x) i x y ((eq_iff i (name x)).0 here) h.0, h.1)
    | inr other ↦ rw other (h.0, keep_named x m h.1)
  ]

  -- Some entry under the name of `x` is not below it.
  abbrev pub Covers : A → String × A → Type 0
  Covers x p = (p.0 ≡ name x) × (lt (p.1) x ≡ false)

  not_below : (s : IsStrict lt) (x y z : A) → lt y x ≡ false → lt y z ≡ true → lt z x ≡ false
  not_below s x y z h g = elim (Bool-cases (lt z x)) [
    | inr fine ↦ fine
    | inl below ↦ elim (s.apart y z x g) [
      | inl bad ↦ absurd (ground arith)
      | inr up ↦ absurd (ground (arith, s.asym x z up))
    ]
  ]

  Covers-pick :
      (s : IsStrict lt) (x z y : A) (j : String)
      → Covers x (j, y)
      → Covers x (j, if lt y z then z else y)
  Covers-pick s x z y j h = elim (Bool-cases (lt y z)) [
    | inr stays ↦ rw stays h
    | inl replaced ↦ rw replaced (h.0, not_below s x y z h.1 replaced)
  ]

  -- What was covered stays covered.
  pub keep-Covers :
      (s : IsStrict lt) (x z : A) (k : String) (m : List (String × A))
      → Any (Covers x) m
      → Any (Covers x) (keep_latest lt k z m)
  unfolding keep_latest
  keep-Covers s x z k [] h = absurd h
  keep-Covers s x z k ((i, y) ∷ m) h = elim (Bool-cases (same_text i k)) [
    | inl here ↦
        rw here (elim h [ inl first ↦ inl (Covers-pick s x z y i first) | inr later ↦ inr later ])
    | inr other ↦
        rw other (elim h [ inl first ↦ inl first | inr later ↦ inr (keep-Covers s x z k m later) ])
  ]

  irreflexive : (s : IsStrict lt) (x : A) → lt x x ≡ false
  irreflexive s x = elim (Bool-cases (lt x x)) [ inl h ↦ s.asym x x h | inr h ↦ h ]

  covers_new : (s : IsStrict lt) (x y : A) → lt (if lt y x then x else y) x ≡ false
  covers_new s x y = elim (Bool-cases (lt y x)) [
    | inl below ↦ rw below (irreflexive s x)
    | inr fine ↦ rw fine fine
  ]

  -- The row that is put in is covered.
  pub keep-Covers_new :
      (s : IsStrict lt) (x : A) (m : List (String × A))
      → Any (Covers x) (keep_latest lt (name x) x m)
  unfolding keep_latest
  keep-Covers_new s x [] = inl (refl, irreflexive s x)
  keep-Covers_new s x ((i, y) ∷ m) = elim (Bool-cases (same_text i (name x))) [
    | inl here ↦ rw here (inl ((eq_iff i (name x)).0 here, covers_new s x y))
    | inr other ↦ rw other (inr (keep-Covers_new s x m))
  ]
