-- ===== src/Store/Action/Keeps.antt =====
-- Relations between the states before and after an action, one rule for each way to build one.
use agent_cloud.Base.{ℕ, suc, Bool, true, false, ◌≡◌, refl, if◌then◌else◌}
use agent_cloud.Base.Result.{Result, Error, ok, err}
use agent_cloud.Store.Rows.{State}
use agent_cloud.Store.Action.{
  Action, pure, raise, lift, query, transaction, call, catch, handle, ◌>>=◌, continue, modify,
  finish,
}

-- A relation that an action may be asked to respect: nothing done is related, steps compose.
pub record IsFrame (R : State → State → Type 0) : Type 0 where
  pub stay : (s : State) → R s s
  pub chain : (s t u : State) → R s t → R t u → R s u
  pub called : (s : State) → R s (record s { calls = suc s.calls })

-- However the action ends, its final state is related to its first.
pub record Respects (R : State → State → Type 0) {A : Type 0} (m : Action A) : Type 0 where
  pub at : (s : State) → R s (m s).1

module _ {R : State → State → Type 0} (F : IsFrame R) {A : Type 0} where
  pub Respects-pure : (a : A) → Respects R (pure a)
  Respects-pure a = record { at = λ s. F.stay s }

  pub Respects-raise : (e : Error) → Respects R (raise {A = A} e)
  Respects-raise e = record { at = λ s. F.stay s }

  pub Respects-lift : (r : Result A) → Respects R (lift r)
  Respects-lift r = record { at = λ s. F.stay s }

  pub Respects-query : (f : State → A) → Respects R (query f)
  Respects-query f = record { at = λ s. F.stay s }

  pub Respects-call : (f : ℕ → Result A) → Respects R (call f)
  Respects-call f = record { at = λ s. F.called s }

  finish-related :
      (s : State) (r : Result (A × State))
      → ((a : A) (t : State) → r ≡ ok (a, t) → R s t)
      → R s (finish s r).1
  finish-related s (ok (a, t)) h = h a t refl
  finish-related s (err e) h = F.stay s

  -- A transaction needs an argument only for the states that it commits.
  pub Respects-transaction :
      (body : State → Result (A × State))
      → ((s : State) (a : A) (t : State) → body s ≡ ok (a, t) → R s t)
      → Respects R (transaction body)
  Respects-transaction body h = record { at = λ s. finish-related s (body s) (h s) }

  handle-related :
      (s : State) (r : Result A) (h : Error → Action A) (t : State)
      → R s t
      → ((e : Error) → Respects R (h e))
      → R s (handle r h t).1
  handle-related s (ok a) h t st k = st
  handle-related s (err e) h t st k = F.chain s t _ st ((k e).at t)

  pub Respects-catch :
      (m : Action A) (h : Error → Action A)
      → Respects R m
      → ((e : Error) → Respects R (h e))
      → Respects R (catch m h)
  Respects-catch m h km kh = record { at = λ s. handle-related s (m s).0 h (m s).1 (km.at s) kh }

  pub Respects-if :
      (b : Bool) (m n : Action A) → Respects R m → Respects R n → Respects R (if b then m else n)
  Respects-if true m n km kn = km
  Respects-if false m n km kn = kn

module _ {R : State → State → Type 0} (F : IsFrame R) {A B : Type 0} where
  continue-related :
      (s : State) (r : Result A) (f : A → Action B) (t : State)
      → R s t
      → ((a : A) → Respects R (f a))
      → R s (continue r f t).1
  continue-related s (ok a) f t st k = F.chain s t _ st ((k a).at t)
  continue-related s (err e) f t st k = st

  pub Respects-bind :
      (m : Action A) (f : A → Action B)
      → Respects R m
      → ((a : A) → Respects R (f a))
      → Respects R (m >>= f)
  Respects-bind m f km kf = record { at = λ s. continue-related s (m s).0 f (m s).1 (km.at s) kf }

pub Respects-modify :
    {R : State → State → Type 0} (f : State → State)
    → ((s : State) → R s (f s))
    → Respects R (modify f)
Respects-modify f h = record { at = h }
