-- ===== src/Exec/Answers.antt =====
-- What holds of the value that a computation returns, if it returns one.
use safactory_server.Base.{◌≡◌, refl, subst}
use safactory_server.Store.Failure.{Failure, Outcome, ok, raised}
use safactory_server.Exec.{World, M, pure, raise, ◌>>=◌, continue, try_catch, recover}

pub record Answers {A : Type 0} (m : M A) (Q : A → Type 0) : Type 0 where
  pub at : (w : World) (a : A) → (m w).0 ≡ ok a → Q a

pub Answers-pure : {A : Type 0} {Q : A → Type 0} (a : A) → Q a → Answers (pure a) Q
unfolding pure
Answers-pure {A} {Q} a q = record { at = λ w b h. let e : a ≡ b = cc h in subst Q e q }

pub Answers-raise : {A : Type 0} {Q : A → Type 0} (e : Failure) → Answers (raise e) Q
unfolding raise
Answers-raise e = record { at = λ w b h. cc h }

-- A computation that nothing is known of.
pub Answers-any : {A : Type 0} (m : M A) → Answers m (λ a. Unit {0})
Answers-any m = record { at = λ w a h. tt }

module _ {A B : Type 0} {Q : B → Type 0} where
  continue-Answers :
      (f : A → M B) (w' : World) (o : Outcome A) (b : B)
      → ((a : A) → o ≡ ok a → Answers (f a) Q)
      → (continue o f w').0 ≡ ok b
      → Q b
  unfolding continue
  continue-Answers f w' (ok a) b step h = (step a refl).at w' b h
  continue-Answers f w' (raised e) b step h = cc h

  pub Answers-bind :
      {P : A → Type 0} (m : M A) (f : A → M B)
      → Answers m P
      → ((a : A) → P a → Answers (f a) Q)
      → Answers (m >>= f) Q
  unfolding ◌>>=◌
  Answers-bind m f first next = record {
    at = λ w b h. continue-Answers f (m w).1 (m w).0 b (λ a e. next a (first.at w a e)) h;
  }

module _ {A : Type 0} {Q : A → Type 0} where
  recover-Answers :
      (f : Failure → M A) (w' : World) (o : Outcome A) (b : A)
      → ((a : A) → o ≡ ok a → Q a)
      → ((e : Failure) → Answers (f e) Q)
      → (recover o f w').0 ≡ ok b
      → Q b
  unfolding recover
  recover-Answers f w' (ok a) b good caught h = let e : a ≡ b = cc h in subst Q e (good a refl)
  recover-Answers f w' (raised e) b good caught h = (caught e).at w' b h

  pub Answers-try_catch :
      (m : M A) (f : Failure → M A)
      → Answers m Q
      → ((e : Failure) → Answers (f e) Q)
      → Answers (try_catch m f) Q
  unfolding try_catch
  Answers-try_catch m f good caught = record {
    at = λ w b h. recover-Answers f (m w).1 (m w).0 b (λ a e. good.at w a e) caught h;
  }
