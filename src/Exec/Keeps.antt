-- ===== src/Exec/Keeps.antt =====
-- Conditions on the store across computations, one rule for each way to build a computation.
use safactory_server.Base.{Bool, true, false, if◌then◌else◌, List, [], ◌∷◌, ℕ, Bool-cases, inl, inr}
use safactory_server.Store.Failure.{Failure, Outcome, ok, raised}
use safactory_server.Store.Table.{Store}
use safactory_server.Exec.{
  Environment, World, M, pure, raise, continue, lift, ◌>>=◌, recover, try_catch, for_each, transact,
  now, call, Call, Interference, interfere, interfere_all,
}

-- From a store with `P` the computation, returning or raising, leaves a store with `R`.
pub record Carries {A : Type 0} (P R : Store → Type 0) (m : M A) : Type 0 where
  pub at : (w : World) → P w.store → R (m w).1.store

-- What a returned value says of the store.
abbrev pub Holds :
    {A : Type 0} → (Store → Type 0) → (A → Store → Type 0) → Outcome A → Store → Type 0
Holds P Q (ok a) s = P s × Q a s
Holds P Q (raised e) s = P s

-- The computation keeps `P`, and what it returns is as `Q` says.
pub record Yields {A : Type 0} (P : Store → Type 0) (m : M A) (Q : A → Store → Type 0)
    : Type 0 where
  pub at : (w : World) → P w.store → Holds P Q (m w).0 (m w).1.store

abbrev pub Keeps : {A : Type 0} → (Store → Type 0) → M A → Type 0
Keeps P m = Carries P P m

module _ {A : Type 0} {P : Store → Type 0} where
  pub Keeps-pure : (a : A) → Carries P P (pure a)
  unfolding pure
  Keeps-pure a = record { at = λ w h. h }

  pub Keeps-raise : (e : Failure) → Carries P P (raise {A = A} e)
  unfolding raise
  Keeps-raise e = record { at = λ w h. h }

  pub Keeps-lift : (r : Outcome A) → Carries P P (lift r)
  unfolding lift
  Keeps-lift r = record { at = λ w h. h }

  pub Keeps-call : (c : Call) (reply : ℕ → Outcome A) → Carries P P (call c reply)
  unfolding call
  Keeps-call c reply = record { at = λ w h. h }

  pub Keeps-if :
      (b : Bool) (m n : M A) → Carries P P m → Carries P P n → Carries P P (if b then m else n)
  Keeps-if true m n km kn = km
  Keeps-if false m n km kn = kn

pub Keeps-now : {P : Store → Type 0} (env : Environment) → Carries P P (now env)
unfolding now
Keeps-now env = record { at = λ w h. h }

module _ {A B : Type 0} {P : Store → Type 0} where
  continue-Keeps :
      (r : Outcome A) (f : A → M B) (w : World)
      → ((a : A) → Carries P P (f a))
      → P w.store
      → P (continue r f w).1.store
  unfolding continue
  continue-Keeps (ok a) f w kf h = (kf a).at w h
  continue-Keeps (raised e) f w kf h = h

  pub Keeps-bind :
      (m : M A) (f : A → M B)
      → Carries P P m
      → ((a : A) → Carries P P (f a))
      → Carries P P (m >>= f)
  unfolding ◌>>=◌
  Keeps-bind m f km kf = record {
    at = λ w h. let (r, w') = m w in continue-Keeps r f w' kf (km.at w h);
  }

  continue-Yields :
      (Q : A → Store → Type 0) (r : Outcome A) (f : A → M B) (w : World)
      → ((a : A) → Carries (λ s. P s × Q a s) P (f a))
      → Holds P Q r w.store
      → P (continue r f w).1.store
  unfolding continue
  continue-Yields Q (ok a) f w kf h = (kf a).at w h
  continue-Yields Q (raised e) f w kf h = h

  -- The rest of the block may use what the first computation returned.
  pub Yields-bind :
      (Q : A → Store → Type 0) (m : M A) (f : A → M B)
      → Yields P m Q
      → ((a : A) → Carries (λ s. P s × Q a s) P (f a))
      → Carries P P (m >>= f)
  unfolding ◌>>=◌
  Yields-bind Q m f km kf = record {
    at = λ w h. let (r, w') = m w in continue-Yields Q r f w' kf (km.at w h);
  }

module _ {A : Type 0} {P : Store → Type 0} where
  recover-Keeps :
      (r : Outcome A) (f : Failure → M A) (w : World)
      → ((e : Failure) → Carries P P (f e))
      → P w.store
      → P (recover r f w).1.store
  unfolding recover
  recover-Keeps (ok a) f w kf h = h
  recover-Keeps (raised e) f w kf h = (kf e).at w h

  pub Keeps-try_catch :
      (m : M A) (f : Failure → M A)
      → Carries P P m
      → ((e : Failure) → Carries P P (f e))
      → Carries P P (try_catch m f)
  unfolding try_catch
  Keeps-try_catch m f km kf = record {
    at = λ w h. let (r, w') = m w in recover-Keeps r f w' kf (km.at w h);
  }

  pub Keeps-for_each :
      (xs : List A) (f : A → M (Unit {0}))
      → ((x : A) → Carries P P (f x))
      → Carries P P (for_each xs f)
  unfolding for_each
  Keeps-for_each [] f kf = Keeps-pure tt
  Keeps-for_each (x ∷ xs) f kf =
      Keeps-bind (f x) (λ _. for_each xs f) (kf x) (λ _. Keeps-for_each xs f kf)

module _ {A : Type 0} {P : Store → Type 0} where
  pub Yields-pure :
      (a : A) (Q : A → Store → Type 0) → ((s : Store) → P s → Q a s) → Yields P (pure a) Q
  unfolding pure
  Yields-pure a Q holds = record { at = λ w h. (h, holds w.store h) }

  pub Yields-raise : (e : Failure) (Q : A → Store → Type 0) → Yields P (raise e) Q
  unfolding raise
  Yields-raise e Q = record { at = λ w h. h }

  recover-Yields :
      (Q : A → Store → Type 0) (r : Outcome A) (f : Failure → M A) (w : World)
      → ((e : Failure) → Yields P (f e) Q)
      → Holds P Q r w.store
      → Holds P Q (recover r f w).0 (recover r f w).1.store
  unfolding recover
  recover-Yields Q (ok a) f w kf h = h
  recover-Yields Q (raised e) f w kf h = (kf e).at w h

  pub Yields-try_catch :
      (Q : A → Store → Type 0) (m : M A) (f : Failure → M A)
      → Yields P m Q
      → ((e : Failure) → Yields P (f e) Q)
      → Yields P (try_catch m f) Q
  unfolding try_catch
  Yields-try_catch Q m f km kf = record {
    at = λ w h. let (r, w') = m w in recover-Yields Q r f w' kf (km.at w h);
  }

module _ {A B : Type 0} where
  continue-returned :
      (P' : Store → Type 0) (Q : A → Store → Type 0) (R : B → Store → Type 0) (g : A → B)
      (r : Outcome A) (w : World)
      → ((a : A) (s : Store) → Q a s → R (g a) s)
      → Holds P' Q r w.store
      → Holds P' R (continue r (λ a. pure (g a)) w).0 (continue r (λ a. pure (g a)) w).1.store
  unfolding continue pure
  continue-returned P' Q R g (ok a) w imp h = (h.0, imp a w.store h.1)
  continue-returned P' Q R g (raised e) w imp h = h

module _ {A B : Type 0} {P : Store → Type 0} where
  continue-after :
      (Q : B → Store → Type 0) (r : Outcome A) (f : A → M B) (w : World)
      → ((a : A) → Yields P (f a) Q)
      → P w.store
      → Holds P Q (continue r f w).0 (continue r f w).1.store
  unfolding continue
  continue-after Q (ok a) f w kf h = (kf a).at w h
  continue-after Q (raised e) f w kf h = h

  -- What the last computation of a block returns is what the block returns.
  pub Yields-after :
      (Q : B → Store → Type 0) (m : M A) (f : A → M B)
      → Carries P P m
      → ((a : A) → Yields P (f a) Q)
      → Yields P (m >>= f) Q
  unfolding ◌>>=◌
  Yields-after Q m f km kf = record {
    at = λ w h. let (r, w') = m w in continue-after Q r f w' kf (km.at w h);
  }

  pub Yields-returned :
      (Q : A → Store → Type 0) (R : B → Store → Type 0) (m : M A) (g : A → B)
      → Yields P m Q
      → ((a : A) (s : Store) → Q a s → R (g a) s)
      → Yields P (m >>= λ a. pure (g a)) R
  unfolding ◌>>=◌
  Yields-returned Q R m g km imp = record {
    at = λ w h. let (r, w') = m w in continue-returned P Q R g r w' imp (km.at w h);
  }

  continue-Carries :
      {R : Store → Type 0} (r : Outcome A) (f : A → M B) (w : World)
      → ((s : Store) → P s → R s)
      → ((a : A) → Carries P R (f a))
      → P w.store
      → R (continue r f w).1.store
  unfolding continue
  continue-Carries (ok a) f w imp kf h = (kf a).at w h
  continue-Carries (raised e) f w imp kf h = imp w.store h

  -- The first computation keeps what the second one starts from.
  pub Carries-bind :
      {O R : Store → Type 0} (m : M A) (f : A → M B)
      → ((s : Store) → P s → R s)
      → Carries O P m
      → ((a : A) → Carries P R (f a))
      → Carries O R (m >>= f)
  unfolding ◌>>=◌
  Carries-bind m f imp km kf = record {
    at = λ w h. let (r, w') = m w in continue-Carries r f w' imp kf (km.at w h);
  }

interfere_all-Keeps :
    {P : Store → Type 0}
    → ((i : Interference) (s : Store) → P s → P (interfere i s))
    → (is : List Interference) (s : Store) → P s
    → P (interfere_all is s)
unfolding interfere_all
interfere_all-Keeps kept [] s h = h
interfere_all-Keeps kept (i ∷ is) s h = interfere_all-Keeps kept is (interfere i s) (kept i s h)

module _ {A : Type 0} {P : Store → Type 0}
    (kept : (i : Interference) (s : Store) → P s → P (interfere i s)) (env : Environment) where
  -- A transaction keeps what other tasks and its own operation keep.
  pub Keeps-transact :
      (op : Store → Outcome A × Store)
      → ((s : Store) → P s → P (op s).1)
      → Carries P P (transact env op)
  unfolding transact
  Keeps-transact op ko = record {
    at = λ w h.
        let s = interfere_all (env.interference w.tick) w.store in
        let h' : P s = interfere_all-Keeps kept (env.interference w.tick) w.store h in
        elim (Bool-cases (env.db_fails w.tick)) [
          | inl fails ↦ rw fails h'
          | inr works ↦ rw works (ko s h')
        ];
  }

  -- What the operation says of the value that it returns holds behind the transaction.
  pub Yields-transact :
      (op : Store → Outcome A × Store) (Q : A → Store → Type 0)
      → ((s : Store) → P s → Holds P Q (op s).0 (op s).1)
      → Yields P (transact env op) Q
  unfolding transact
  Yields-transact op Q ko = record {
    at = λ w h.
        let s = interfere_all (env.interference w.tick) w.store in
        let h' : P s = interfere_all-Keeps kept (env.interference w.tick) w.store h in
        elim (Bool-cases (env.db_fails w.tick)) [
          | inl fails ↦ rw fails h'
          | inr works ↦ rw works (ko s h')
        ];
  }

pub ruleset keeps_rules = (
  Keeps-pure, Keeps-raise, Keeps-lift, Keeps-call, Keeps-if, Keeps-now, Keeps-bind, Keeps-try_catch,
  Keeps-for_each,
)
