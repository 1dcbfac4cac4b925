-- ===== src/Store/Action/Ends.antt =====
-- Actions whose last step is of a kind of its own: before it one relation holds, after it another.
use agent_cloud.Base.{Bool, true, false, ◌≡◌, refl, subst, ap, ◌⊎◌, inl, inr, if◌then◌else◌, ⊤}
use agent_cloud.Base.Result.{Result, Error, ok, err, require}
use agent_cloud.Contracts.Errors.{ErrorCode}
use agent_cloud.Store.Rows.{State}
use agent_cloud.Store.Action.{Action, pure, lift, catch, handle, ◌>>=◌, ◌>>◌, continue}
use agent_cloud.Store.Action.Keeps.{IsFrame, Respects}

-- `R` is what ordinary steps do; `Q` is what they and one last step do.
pub record IsStart (R Q : State → State → Type 0) : Type 0 where
  pub frame : IsFrame R
  pub idle : (s t : State) → R s t → Q s t
  pub before : (s t u : State) → R s t → Q t u → Q s u

-- `R` is what ordinary steps do; `Q` is what may be done once, with ordinary steps around it.
pub record IsEnding (R Q : State → State → Type 0) : Type 0 where
  pub frame : IsFrame R
  pub idle : (s t : State) → R s t → Q s t
  pub before : (s t u : State) → R s t → Q t u → Q s u
  pub after : (s t u : State) → Q s t → R t u → Q s u

pub IsEnding-IsStart : {R Q : State → State → Type 0} → IsEnding R Q → IsStart R Q
IsEnding-IsStart E = record { frame = E.frame; idle = E.idle; before = E.before }

module _ {R Q : State → State → Type 0} (E : IsStart R Q) {A : Type 0} where
  pub Respects-starts : (m : Action A) → Respects R m → Respects Q m
  Respects-starts m k = record { at = λ s. E.idle s _ (k.at s) }

  begun :
      {B : Type 0} (s : State) (r : Result A) (f : A → Action B) (t : State)
      → R s t
      → ((a : A) → Respects Q (f a))
      → Q s (continue r f t).1
  begun s (ok a) f t p k = E.before s t _ p ((k a).at t)
  begun s (err e) f t p k = E.idle s t p

  -- Ordinary steps before the last one.
  pub >>=-starts :
      {B : Type 0} (m : Action A) (f : A → Action B)
      → Respects R m
      → ((a : A) → Respects Q (f a))
      → Respects Q (m >>= f)
  >>=-starts m f km kf = record { at = λ s. begun s (m s).0 f (m s).1 (km.at s) kf }

  -- A step that a test guards.
  pub require-starts :
      (b : Bool) (code : ErrorCode) (m : Action A)
      → (b ≡ true → Respects Q m)
      → Respects Q (lift (require b code) >> m)
  require-starts true code m k = record { at = λ s. (k refl).at s }
  require-starts false code m k = record { at = λ s. E.idle s s (E.frame.stay s) }

-- A handler that keeps what its body has done.
module _ (Q : State → State → Type 0) {A : Type 0} where
  settled :
      (s : State) (r : Result A) (h : Error → Action A) (t : State)
      → Q s t
      → ((e : Error) (t : State) → Q s t → Q s (h e t).1)
      → Q s (handle r h t).1
  settled s (ok a) h t q k = q
  settled s (err e) h t q k = k e t q

  pub catch-settled :
      (m : Action A) (h : Error → Action A)
      → Respects Q m
      → ((e : Error) (s t : State) → Q s t → Q s (h e t).1)
      → Respects Q (catch m h)
  catch-settled m h km kh = record {
    at = λ s. settled s (m s).0 h (m s).1 (km.at s) λ e t. kh e s t;
  }

-- Ordinary steps only, or the last step is done and the value that is returned says so.
pub record Pauses (R Q : State → State → Type 0) {A : Type 0} (P : A → Type 0) (m : Action A)
    : Type 0 where
  pub at : (s : State) → R s (m s).1 ⊎ (Q s (m s).1 × ((a : A) → (m s).0 ≡ ok a → P a))

-- A frame is an ending of its own.
pub IsFrame-IsEnding : {R : State → State → Type 0} → IsFrame R → IsEnding R R
IsFrame-IsEnding F = record {
  frame = F;
  idle = λ s t r. r;
  before = λ s t u. F.chain s t u;
  after = λ s t u. F.chain s t u;
}

module _ {R Q : State → State → Type 0} (E : IsEnding R Q) {A : Type 0} where
  pub Respects-ends : (m : Action A) → Respects R m → Respects Q m
  Respects-ends m k = record { at = λ s. E.idle s _ (k.at s) }

  pub Pauses-ordinary : {P : A → Type 0} (m : Action A) → Respects R m → Pauses R Q P m
  Pauses-ordinary m k = record { at = λ s. inl (k.at s) }

  pub Pauses-if :
      {P : A → Type 0} (b : Bool) (m n : Action A)
      → Pauses R Q P m
      → Pauses R Q P n
      → Pauses R Q P (if b then m else n)
  Pauses-if true m n km kn = km
  Pauses-if false m n km kn = kn

  returned :
      (r : Result ⊤) (a : A) (t : State) {b : A} → (continue r (λ _. pure a) t).0 ≡ ok b → b ≡ a
  returned (ok _) a t {b} e = ap (value a) (sym_ok e)
    where
      value : A → Result A → A
      value a (ok x) = x
      value a (err x) = a

      sym_ok : {x y : A} → ok x ≡ ok y → ok y ≡ ok x
      sym_ok e = cc
  returned (err x) a t e = cc

  stays : (r : Result ⊤) (a : A) (t : State) → (continue r (λ _. pure a) t).1 ≡ t
  stays (ok _) a t = refl
  stays (err e) a t = refl

  -- The last step, and then a value that says that it is done.
  pub Pauses-done :
      {P : A → Type 0} (m : Action ⊤) (a : A) → Respects Q m → P a → Pauses R Q P (m >> pure a)
  Pauses-done {P} m a k p = record {
    at = λ s. inr (
      subst (Q s) (cc (stays (m s).0 a (m s).1)) (k.at s),
      λ b e. subst P (cc (returned (m s).0 a (m s).1 e)) p,
    );
  }

  pub if-ends :
      (b : Bool) (m n : Action A) → Respects Q m → Respects Q n → Respects Q (if b then m else n)
  if-ends true m n km kn = km
  if-ends false m n km kn = kn

  -- A handler has ordinary steps only.
  pub catch-ends :
      (m : Action A) (h : Error → Action A)
      → Respects Q m
      → ((e : Error) → Respects R (h e))
      → Respects Q (catch m h)
  catch-ends m h km kh = catch-settled Q m h km λ e s t q. E.after s t _ q ((kh e).at t)

module _ {R Q : State → State → Type 0} (E : IsEnding R Q) {A B : Type 0} where
  continued :
      (s : State) (r : Result A) (f : A → Action B) (t : State)
      → R s t
      → ((a : A) → Respects Q (f a))
      → Q s (continue r f t).1
  continued s (ok a) f t p k = E.before s t _ p ((k a).at t)
  continued s (err e) f t p k = E.idle s t p

  -- Ordinary steps before the last one.
  pub >>=-ends :
      (m : Action A) (f : A → Action B)
      → Respects R m
      → ((a : A) → Respects Q (f a))
      → Respects Q (m >>= f)
  >>=-ends m f km kf = >>=-starts (IsEnding-IsStart E) m f km kf

  paused :
      {P : B → Type 0} (s : State) (r : Result A) (f : A → Action B) (t : State)
      → R s t
      → ((a : A) → Pauses R Q P (f a))
      → R s (continue r f t).1
        ⊎ (Q s (continue r f t).1 × ((b : B) → (continue r f t).0 ≡ ok b → P b))
  paused s (ok a) f t p k = elim ((k a).at t) [
    | inl r ↦ inl (E.frame.chain s t _ p r)
    | inr (q, h) ↦ inr (E.before s t _ p q, h)
  ]
  paused s (err e) f t p k = inl p

  pub Pauses-bind :
      {P : B → Type 0} (m : Action A) (f : A → Action B)
      → Respects R m
      → ((a : A) → Pauses R Q P (f a))
      → Pauses R Q P (m >>= f)
  Pauses-bind m f km kf = record { at = λ s. paused s (m s).0 f (m s).1 (km.at s) kf }

  resumed :
      {P : A → Type 0} (s : State) (r : Result A) (f : A → Action B) (t : State)
      → Q s t
      → ((a : A) → r ≡ ok a → P a)
      → ((a : A) → P a → Respects R (f a))
      → Q s (continue r f t).1
  resumed s (ok a) f t q p k = E.after s t _ q ((k a (p a refl)).at t)
  resumed s (err e) f t q p k = q

  -- What follows a pause has ordinary steps only if the last step is done.
  pub Pauses-then :
      {P : A → Type 0} (m : Action A) (f : A → Action B)
      → Pauses R Q P m
      → ((a : A) → P a → Respects R (f a))
      → ((a : A) → Respects Q (f a))
      → Respects Q (m >>= f)
  Pauses-then m f km kr kq = record {
    at = λ s. elim (km.at s) [
      | inl r ↦ continued s (m s).0 f (m s).1 r kq
      | inr (q, p) ↦ resumed s (m s).0 f (m s).1 q p kr
    ];
  }
