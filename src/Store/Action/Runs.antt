-- ===== src/Store/Action/Runs.antt =====
-- The two ways in which a step of an action, or a transaction, can go.
use agent_cloud.Base.{◌≡◌, refl, ◌⊎◌, inl, inr}
use agent_cloud.Base.Result.{Result, ok, err}
use agent_cloud.Store.Rows.{State}
use agent_cloud.Store.Action.{Action, transaction, finish, ◌>>=◌, continue}

-- Stopped by an error after the first step, or gone on with what the first step returned.
abbrev pub Went : {A B : Type 0} → Action A → (A → Action B) → State → Result B × State → Type 0
Went {A} m f s r = (r.1 ≡ (m s).1) ⊎ ((a : A) × ((m s).0 ≡ ok a) × (r ≡ f a (m s).1))

continue-Went :
    {A B : Type 0} (r : Result A) (f : A → Action B) (t : State)
    → ((continue r f t).1 ≡ t) ⊎ ((a : A) × (r ≡ ok a) × (continue r f t ≡ f a t))
continue-Went (ok a) f t = inr (a, refl, refl)
continue-Went (err e) f t = inl refl

pub >>=-Went :
    {A B : Type 0} (m : Action A) (f : A → Action B) (s : State) → Went m f s ((m >>= f) s)
>>=-Went m f s = continue-Went (m s).0 f (m s).1

finish-Went :
    {A B : Type 0} (s : State) (r : Result (A × State)) (f : A → Action B)
    → ((continue (finish s r).0 f (finish s r).1).1 ≡ s)
      ⊎ ((a : A) × (t : State) × (r ≡ ok (a, t))
          × (continue (finish s r).0 f (finish s r).1 ≡ f a t))
finish-Went s (ok (a, t)) f = inr (a, t, refl, refl)
finish-Went s (err e) f = inl refl

-- A transaction that throws has written nothing, and nothing comes after it.
pub transaction-Went :
    {A B : Type 0} (body : State → Result (A × State)) (f : A → Action B) (s : State)
    → (((transaction body >>= f) s).1 ≡ s)
      ⊎ ((a : A) × (t : State) × (body s ≡ ok (a, t)) × ((transaction body >>= f) s ≡ f a t))
transaction-Went body f s = finish-Went s (body s) f

continue-ok :
    {A B : Type 0} (r : Result A) (f : A → Action B) (t : State) {b : B}
    → (continue r f t).0 ≡ ok b
    → (a : A) × (r ≡ ok a) × ((f a t).0 ≡ ok b)
continue-ok (ok a) f t h = (a, refl, h)
continue-ok (err e) f t h = cc

-- What returns a value has gone on.
pub >>=-ok :
    {A B : Type 0} (m : Action A) (f : A → Action B) (s : State) {b : B}
    → ((m >>= f) s).0 ≡ ok b
    → (a : A) × ((m s).0 ≡ ok a) × ((f a (m s).1).0 ≡ ok b)
>>=-ok m f s h = continue-ok (m s).0 f (m s).1 h
