-- ===== src/Store/Action/Yields.antt =====
-- What holds of the value that an action returns, one rule for each way to build one.
use agent_cloud.Base.{ℕ, Bool, true, false, ◌≡◌, refl, subst, ap, if◌then◌else◌}
use agent_cloud.Base.Result.{Result, Error, ok, err}
use agent_cloud.Store.Rows.{State}
use agent_cloud.Store.Action.{Action, pure, raise, call, catch, handle, ◌>>=◌, continue}
use agent_cloud.Store.Action.Keeps.{IsFrame, Respects}

-- Whenever the action returns, what it returns satisfies `P`.
pub record Yields {A : Type 0} (P : A → Type 0) (m : Action A) : Type 0 where
  pub at : (s : State) (a : A) → (m s).0 ≡ ok a → P a

module _ {A : Type 0} {P : A → Type 0} where
  pub Yields-pure : (a : A) → P a → Yields P (pure a)
  Yields-pure a p = record { at = λ s b e. subst P (ok_injective e) p }
    where
      value : A → Result A → A
      value a (ok b) = b
      value a (err e) = a

      ok_injective : {a b : A} → ok a ≡ ok b → a ≡ b
      ok_injective {a} e = ap (value a) e

  pub Yields-call : (f : ℕ → Result A) → ((n : ℕ) (a : A) → f n ≡ ok a → P a) → Yields P (call f)
  Yields-call f h = record { at = λ s a e. h s.calls a e }

  pub Yields-if :
      (b : Bool) (m n : Action A)
      → (b ≡ true → Yields P m)
      → (b ≡ false → Yields P n)
      → Yields P (if b then m else n)
  Yields-if true m n km kn = km refl
  Yields-if false m n km kn = kn refl

-- Nothing is claimed of an action.
pub Yields-any : {B : Type 0} (m : Action B) → Yields (λ _. Unit) m
Yields-any m = record { at = λ s a e. tt }

module _ {A B : Type 0} {P : A → Type 0} {Q : B → Type 0} where
  continue_yields :
      (r : Result A) (f : A → Action B) (t : State) (b : B)
      → ((a : A) → r ≡ ok a → P a)
      → ((a : A) → P a → Yields Q (f a))
      → (continue r f t).0 ≡ ok b
      → Q b
  continue_yields (ok a) f t b kr kf e = (kf a (kr a refl)).at t b e
  continue_yields (err x) f t b kr kf e = cc

  pub Yields-bind :
      (m : Action A) (f : A → Action B)
      → Yields P m
      → ((a : A) → P a → Yields Q (f a))
      → Yields Q (m >>= f)
  Yields-bind m f km kf = record {
    at = λ s b e. continue_yields (m s).0 f (m s).1 b (λ a h. km.at s a h) kf e;
  }

module _ {A : Type 0} {P : A → Type 0} where
  handle_yields :
      (r : Result A) (h : Error → Action A) (t : State) (a : A)
      → ((a : A) → r ≡ ok a → P a)
      → ((e : Error) → Yields P (h e))
      → (handle r h t).0 ≡ ok a
      → P a
  handle_yields (ok b) h t a kr kh e = kr a e
  handle_yields (err x) h t a kr kh e = (kh x).at t a e

  pub Yields-catch :
      (m : Action A) (h : Error → Action A)
      → Yields P m
      → ((e : Error) → Yields P (h e))
      → Yields P (catch m h)
  Yields-catch m h km kh = record {
    at = λ s a e. handle_yields (m s).0 h (m s).1 a (λ b k. km.at s b k) kh e;
  }

  pub Yields-raise : (e : Error) → Yields P (raise e)
  Yields-raise e = record { at = λ s a h. cc }

-- A step whose value is known to satisfy `P` asks that of nothing else.
module _ {R : State → State → Type 0} (F : IsFrame R) {A B : Type 0} {P : A → Type 0} where
  continue_keeps :
      (s : State) (r : Result A) (f : A → Action B) (t : State)
      → R s t
      → ((a : A) → r ≡ ok a → P a)
      → ((a : A) → P a → Respects R (f a))
      → R s (continue r f t).1
  continue_keeps s (ok a) f t st p k = F.chain s t _ st ((k a (p a refl)).at t)
  continue_keeps s (err e) f t st p k = st

  pub Respects-bind_knowing :
      (m : Action A) (f : A → Action B)
      → Respects R m
      → Yields P m
      → ((a : A) → P a → Respects R (f a))
      → Respects R (m >>= f)
  Respects-bind_knowing m f km ym kf = record {
    at = λ s. continue_keeps s (m s).0 f (m s).1 (km.at s) (λ a h. ym.at s a h) kf;
  }
