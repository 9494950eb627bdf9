-- ===== src/Outcomes.antt =====
-- Chains of steps that may raise, outside the store.
use safactory_server.Base.{
  subst, ◌≡◌, refl, ◌⊎◌, inl, inr, Option, none, some, Bool, true, false, List, [], ◌∷◌,
}
use safactory_server.Store.Failure.{Failure, Outcome, ok, raised}

infixl 5 ◌>>=◌ ◌>>◌
abbrev pub ◌>>=◌ {ℓ κ} : {A : Type ℓ} {B : Type κ} → Outcome A → (A → Outcome B) → Outcome B
ok a >>= f = f a
raised e >>= f = raised e

abbrev pub ◌>>◌ {ℓ κ} : {A : Type ℓ} {B : Type κ} → Outcome A → Outcome B → Outcome B
m >> k = m >>= λ _. k

-- `if not b: raise e`.
abbrev pub require : Bool → Failure → Outcome (Unit {0})
require true e = ok tt
require false e = raised e

-- A value that a call of Python could not give.
abbrev pub or_raise {ℓ} : {A : Type ℓ} → Failure → Option A → Outcome A
or_raise e none = raised e
or_raise e (some a) = ok a

pub Outcome-cases {ℓ} :
    {A : Type ℓ} (o : Outcome A) → ((a : A) × (o ≡ ok a)) ⊎ ((e : Failure) × (o ≡ raised e))
Outcome-cases (ok a) = inl (a, refl)
Outcome-cases (raised e) = inr (e, refl)

-- A loop that collects results and stops at the first exception.
unfoldable pub collect {ℓ κ} :
    {A : Type ℓ} {B : Type κ} → (A → Outcome B) → List A → Outcome (List B)
collect f [] = ok []
collect f (x ∷ xs) = f x >>= λ y. collect f xs >>= λ ys. ok (y ∷ ys)

-- `any(f(x) for x in xs)`, for a test that may raise.
unfoldable pub any_of {ℓ} : {A : Type ℓ} → (A → Outcome Bool) → List A → Outcome Bool
any_of f [] = ok false
any_of f (x ∷ xs) = f x >>= λ b. elim b [ true ↦ ok true | false ↦ any_of f xs ]

-- `except Exception as exc: raise e from exc`.
abbrev pub wrap {ℓ} : {A : Type ℓ} → Failure → Outcome A → Outcome A
wrap e (ok a) = ok a
wrap e (raised f) = raised e

pub ok_injective {ℓ} : {A : Type ℓ} (a b : A) → ok a ≡ ok b → a ≡ b
ok_injective a b h = cc h

-- What a chain that returns has done.
pub >>=-eq-ok {ℓ κ} :
    {A : Type ℓ} {B : Type κ} (m : Outcome A) (f : A → Outcome B) {b : B}
    → (m >>= f) ≡ ok b
    → (a : A) × ((m ≡ ok a) × (f a ≡ ok b))
>>=-eq-ok (ok a) f h = (a, (refl, h))
>>=-eq-ok (raised e) f h = cc h

pub wrap-eq-ok {ℓ} : {A : Type ℓ} (e : Failure) (m : Outcome A) {a : A} → wrap e m ≡ ok a → m ≡ ok a
wrap-eq-ok e (ok a) h = h
wrap-eq-ok e (raised f) h = cc h

-- What holds of the value that a query returns, if it returns one.
abbrev pub Promises {ℓ κ} : {A : Type ℓ} → (A → Type κ) → Outcome (Option A) → Type κ
Promises P (raised e) = Unit
Promises P (ok none) = Unit
Promises P (ok (some a)) = P a

pub Promises-bind {ℓ κ ι} :
    {A : Type ℓ} {B : Type ι} (P : A → Type κ) (m : Outcome B) (f : B → Outcome (Option A))
    → ((b : B) → m ≡ ok b → Promises P (f b))
    → Promises P (m >>= f)
Promises-bind P (ok b) f h = h b refl
Promises-bind P (raised e) f h = tt

pub require_holds : (b : Bool) (e : Failure) (u : Unit {0}) → require b e ≡ ok u → b ≡ true
require_holds true e u h = refl
require_holds false e u h = cc h

pub promised {ℓ κ} :
    {A : Type ℓ} (P : A → Type κ) (m : Outcome (Option A)) (a : A)
    → Promises P m
    → m ≡ ok (some a)
    → P a
promised P (raised e) a p h = cc h
promised P (ok none) a p h = cc h
promised {A} P (ok (some b)) a p h = let e : b ≡ a = cc h in subst P e p

-- What holds of the value of a chain, if it returns.
abbrev pub Gives {ℓ κ} : {A : Type ℓ} → (A → Type κ) → Outcome A → Type κ
Gives P (raised e) = Unit
Gives P (ok a) = P a

pub Gives-bind {ℓ κ ι} :
    {A : Type ℓ} {B : Type ι} (P : A → Type κ) (m : Outcome B) (f : B → Outcome A)
    → ((b : B) → Gives P (f b))
    → Gives P (m >>= f)
Gives-bind P (ok b) f h = h b
Gives-bind P (raised e) f h = tt

pub given {ℓ κ} : {A : Type ℓ} (P : A → Type κ) (m : Outcome A) (a : A) → Gives P m → m ≡ ok a → P a
given P (ok b) a p h = subst P (ok_injective b a h) p
given P (raised e) a p h = cc h
