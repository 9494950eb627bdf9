-- ===== src/Base/Order.antt =====
-- Python's `<` on integers, texts and pairs, and `sorted` by such an order.
use Prim.Native.Char.{code}
use Prim.Native.String.{String}
use mathlib.Core.Path.{◌≡◌, refl}
use mathlib.Core.Bool.{Bool, true, false, not, ◌&&◌, ◌||◌}
use mathlib.Core.Logic.{◌⊎◌, inl, inr}
use native.Mathlib.Omega.{arith}
use safactory_server.Base.Tests.{ltb, ℤ, pos, negsuc}

-- A strict order whose complement is transitive: what `sorted` and `max` rely on.
pub record IsStrict {ℓ} {A : Type ℓ} (lt : A → A → Bool) : Type ℓ where
  pub asym : (a b : A) → lt a b ≡ true → lt b a ≡ false
  pub apart : (a b c : A) → lt a b ≡ true → (lt a c ≡ true) ⊎ (lt c b ≡ true)

-- Integers.
unfoldable pub int_lt : ℤ → ℤ → Bool
int_lt (pos a) (pos b) = ltb a b
int_lt (pos a) (negsuc b) = false
int_lt (negsuc a) (pos b) = true
int_lt (negsuc a) (negsuc b) = ltb b a

-- Texts, by their code points.
unfoldable pub text_lt : String → String → Bool
text_lt String.[] String.[] = false
text_lt String.[] (String.◌∷◌ d t) = true
text_lt (String.◌∷◌ c s) String.[] = false
text_lt (String.◌∷◌ c s) (String.◌∷◌ d t) =
    ltb (code c) (code d) || (not (ltb (code d) (code c)) && text_lt s t)

-- Pairs, by their first entry and then by their second.
unfoldable pub pair_lt {ℓ κ} :
    {A : Type ℓ} {B : Type κ} → (A → A → Bool) → (B → B → Bool) → A × B → A × B → Bool
pair_lt lt gt (a, b) (c, d) = lt a c || (not (lt c a) && gt b d)

-- The order of the keys.
unfoldable pub key_lt {ℓ κ} : {A : Type ℓ} {B : Type κ} → (B → B → Bool) → (A → B) → A → A → Bool
key_lt lt key x y = lt (key x) (key y)

pub int_lt-IsStrict : IsStrict int_lt
unfolding int_lt
int_lt-IsStrict = record { asym = asym; apart = apart }
  where
    asym : (a b : ℤ) → int_lt a b ≡ true → int_lt b a ≡ false
    asym (pos a) (pos b) h = ground arith
    asym (pos a) (negsuc b) h = ground arith
    asym (negsuc a) (pos b) h = ground arith
    asym (negsuc a) (negsuc b) h = ground arith

    apart : (a b c : ℤ) → int_lt a b ≡ true → (int_lt a c ≡ true) ⊎ (int_lt c b ≡ true)
    apart (pos a) (pos b) (pos c) h = ground arith
    apart (pos a) (pos b) (negsuc c) h = inr refl
    apart (pos a) (negsuc b) c h = absurd (ground arith)
    apart (negsuc a) (pos b) (pos c) h = inl refl
    apart (negsuc a) (pos b) (negsuc c) h = inr refl
    apart (negsuc a) (negsuc b) (pos c) h = inl refl
    apart (negsuc a) (negsuc b) (negsuc c) h = ground arith

text-asym : (s t : String) → text_lt s t ≡ true → text_lt t s ≡ false
unfolding text_lt
text-asym String.[] String.[] h = ground arith
text-asym String.[] (String.◌∷◌ d t) h = refl
text-asym (String.◌∷◌ c s) String.[] h = ground arith
text-asym (String.◌∷◌ c s) (String.◌∷◌ d t) h = ground (arith, text-asym s t)

text-apart : (s t u : String) → text_lt s t ≡ true → (text_lt s u ≡ true) ⊎ (text_lt u t ≡ true)
unfolding text_lt
text-apart String.[] String.[] u h = absurd (ground arith)
text-apart String.[] (String.◌∷◌ d t) String.[] h = inr refl
text-apart String.[] (String.◌∷◌ d t) (String.◌∷◌ e u) h = inl refl
text-apart (String.◌∷◌ c s) String.[] u h = absurd (ground arith)
text-apart (String.◌∷◌ c s) (String.◌∷◌ d t) String.[] h = inr refl
text-apart (String.◌∷◌ c s) (String.◌∷◌ d t) (String.◌∷◌ e u) h = ground (arith, text-apart s t u)

pub text_lt-IsStrict : IsStrict text_lt
text_lt-IsStrict = record { asym = text-asym; apart = text-apart }

pub pair_lt-IsStrict {ℓ κ} :
    {A : Type ℓ} {B : Type κ} (lt : A → A → Bool) (gt : B → B → Bool)
    → IsStrict lt
    → IsStrict gt
    → IsStrict (pair_lt lt gt)
unfolding pair_lt
pair_lt-IsStrict lt gt h k = record {
  asym = λ p q e. ground (arith, h.asym (p.0) (q.0), h.asym (q.0) (p.0), k.asym (p.1) (q.1));
  apart = λ p q r e. ground (
    arith,
    h.asym (p.0) (q.0),
    h.apart (p.0) (q.0) (r.0),
    k.apart (p.1) (q.1) (r.1),
    h.asym (r.0) (p.0),
    h.asym (q.0) (r.0),
    h.apart (q.0) (p.0) (r.0),
    h.apart (r.0) (p.0) (q.0),
    h.apart (q.0) (r.0) (p.0),
  );
}

pub key_lt-IsStrict {ℓ κ} :
    {A : Type ℓ} {B : Type κ} (lt : B → B → Bool) (key : A → B)
    → IsStrict lt
    → IsStrict (key_lt lt key)
unfolding key_lt
key_lt-IsStrict lt key h = record {
  asym = λ x y. h.asym (key x) (key y);
  apart = λ x y z. h.apart (key x) (key y) (key z);
}
