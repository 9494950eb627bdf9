-- ===== src/Exec/Returns.antt =====
-- Total correctness: a computation that returns, and what holds then.
use safactory_server.Base.{ℕ, ◌+◌, [], false, ◌≡◌, refl, sym, subst}
use safactory_server.Store.Failure.{Failure, Outcome, ok}
use safactory_server.Store.Table.{Store}
use safactory_server.Exec.{
  World, Environment, M, Call, pure, ◌>>=◌, continue, try_catch, recover, transact, interfere_all,
  settle, now, call,
}

pub record Done {A : Type 0} (m : M A) (w : World) (Q : A → Store → Type 0) : Type 0 where
  pub value : A
  pub after : World
  pub runs : m w ≡ (ok value, after)
  pub holds : Q value after.store

-- From a store with `P` the computation returns a value and a store with `Q`.
pub record Returns {A : Type 0} (P : Store → Type 0) (m : M A) (Q : A → Store → Type 0)
    : Type 0 where
  pub at : (w : World) → P w.store → Done m w Q

-- No other task runs, and the database answers.
pub record IsQuiet (env : Environment) : Type 0 where
  pub alone : (n : ℕ) → env.interference n ≡ []
  pub up : (n : ℕ) → env.db_fails n ≡ false

module _ {A : Type 0} {P : Store → Type 0} {Q : A → Store → Type 0} where
  pub Returns-pure : (a : A) → ((s : Store) → P s → Q a s) → Returns P (pure a) Q
  unfolding pure
  Returns-pure a h = record {
    at = λ w p. record { value = a; after = w; runs = refl; holds = h w.store p };
  }

  pub Returns-call :
      (c : Call) (reply : ℕ → Outcome A) (a : A)
      → ((n : ℕ) → reply n ≡ ok a)
      → ((s : Store) → P s → Q a s)
      → Returns P (call c reply) Q
  unfolding call
  Returns-call c reply a answers h = record {
    at = λ w p. record {
      value = a;
      after = (call c reply w).1;
      runs = rw (answers w.tick) refl;
      holds = h w.store p;
    };
  }

  pub Returns-transact :
      (env : Environment) (op : Store → Outcome A × Store) (f : Store → A) (g : Store → Store)
      → IsQuiet env
      → ((s : Store) → P s → op s ≡ (ok (f s), g s))
      → ((s : Store) → P s → Q (f s) (g s))
      → Returns P (transact env op) Q
  unfolding transact interfere_all settle
  Returns-transact env op f g quiet step h = record {
    at = λ w p. record {
      value = f w.store;
      after = record w { store = g w.store; tick = w.tick + 1 };
      runs = rw (quiet.alone w.tick, quiet.up w.tick) (rw (step w.store p) refl);
      holds = h w.store p;
    };
  }

pub Returns-now : {P : Store → Type 0} (env : Environment) → Returns P (now env) (λ t s. P s)
unfolding now
Returns-now env = record {
  at = λ w p. record {
    value = env.clock w.tick;
    after = record w { tick = w.tick + 1 };
    runs = refl;
    holds = p;
  };
}

module _ {A B : Type 0} {Q : A → Store → Type 0} {R : B → Store → Type 0} where
  bound :
      (m : M A) (f : A → M B) (w : World) (d : Done m w Q)
      → Done (f d.value) d.after R
      → Done (m >>= f) w R
  unfolding ◌>>=◌ continue
  bound m f w d e = record {
    value = e.value;
    after = e.after;
    runs = rw d.runs e.runs;
    holds = e.holds;
  }

  pub Returns-bind :
      {P : Store → Type 0} (m : M A) (f : A → M B)
      → Returns P m Q
      → ((a : A) → Returns (Q a) (f a) R)
      → Returns P (m >>= f) R
  Returns-bind m f rm rf = record {
    at = λ w p. let d = rm.at w p in bound m f w d ((rf d.value).at d.after d.holds);
  }

module _ {A : Type 0} {P : Store → Type 0} {Q : A → Store → Type 0} where
  pub Returns-try_catch :
      (m : M A) (f : Failure → M A) → Returns P m Q → Returns P (try_catch m f) Q
  unfolding try_catch recover
  Returns-try_catch m f rm = record {
    at = λ w p.
        let d = rm.at w p in
        record { value = d.value; after = d.after; runs = rw d.runs refl; holds = d.holds };
  }

-- A value that is known.
pub Returns-known :
    {A B : Type 0} {P : Store → Type 0} {R : B → Store → Type 0} (f : A → M B) (a b : A)
    → Returns P (f b) R
    → Returns (λ s. (a ≡ b) × P s) (f a) R
Returns-known {R} f a b r = record {
  at = λ w h. subst (λ x. Done (f x) w R) (sym h.0) (r.at w h.1);
}
