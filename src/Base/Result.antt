-- ===== src/Base/Result.antt =====
-- Exceptions as values. A `CloudError` carries its failure; `fault` is any other exception.
use agent_cloud.Contracts.Errors.{Failure, ErrorCode}
use agent_cloud.Base.Tests.{⊤}
use mathlib.Core.Path.{◌≡◌, refl}
use mathlib.Core.Bool.{Bool, true, false}
use mathlib.Core.Logic.{◌⊎◌, inl, inr}
use mathlib.Core.Option.{Option, none, some}

pub data Error : Type 0 where
  cloud : Failure → Error
  fault : Error

pub data Result (A : Type 0) : Type 0 where
  ok : A → Result A
  err : Error → Result A

-- `throw new CloudError(code, message)`, which is not retryable unless it says so.
abbrev pub throw : {A : Type 0} → ErrorCode → Result A
throw code = err (cloud (record { code = code; retryable = false }))

abbrev pub throw_retryable : {A : Type 0} → ErrorCode → Result A
throw_retryable code = err (cloud (record { code = code; retryable = true }))

-- `if (!b) throw …`
abbrev pub require : Bool → ErrorCode → Result ⊤
require true code = ok tt
require false code = throw code

-- `if (b) throw …`
abbrev pub forbid : Bool → ErrorCode → Result ⊤
forbid true code = throw code
forbid false code = ok tt

-- A missing row is an error.
abbrev pub row_or : {A : Type 0} → Option A → ErrorCode → Result A
row_or none code = throw code
row_or (some a) code = ok a

infixl 5 ◌>>=◌ ◌>>◌
abbrev pub ◌>>=◌ : {A B : Type 0} → Result A → (A → Result B) → Result B
err e >>= next = err e
ok x >>= next = next x

abbrev pub ◌>>◌ : {A B : Type 0} → Result A → Result B → Result B
m >> k = m >>= λ _. k

-- Inversion of a successful step, for proofs in which the parts stay shut.
pub >>=-eq-ok :
    {A B : Type 0} (first : Result A) (next : A → Result B) {last : B}
    → (first >>= next) ≡ ok last
    → (x : A) × (first ≡ ok x) × (next x ≡ ok last)
>>=-eq-ok (err e) next h = cc
>>=-eq-ok (ok x) next h = (x, refl, h)

pub require-ok : (b : Bool) (code : ErrorCode) {u : ⊤} → require b code ≡ ok u → b ≡ true
require-ok true code h = refl
require-ok false code h = cc

pub forbid-ok : (b : Bool) (code : ErrorCode) {u : ⊤} → forbid b code ≡ ok u → b ≡ false
forbid-ok true code h = cc
forbid-ok false code h = refl

pub row_or-ok :
    {A : Type 0} (o : Option A) (code : ErrorCode) {a : A} → row_or o code ≡ ok a → o ≡ some a
row_or-ok none code h = cc
row_or-ok (some x) code h = cc

-- Where an error comes from.
pub >>=-eq-err :
    {A B : Type 0} (first : Result A) (next : A → Result B) {e : Error}
    → (first >>= next) ≡ err e
    → (first ≡ err e) ⊎ ((x : A) × (first ≡ ok x) × (next x ≡ err e))
>>=-eq-err (err e) next h = inl (cc)
>>=-eq-err (ok x) next h = inr (x, refl, h)

pub require-err :
    (b : Bool) (code : ErrorCode) {e : Error}
    → require b code ≡ err e
    → e ≡ cloud (record { code = code; retryable = false })
require-err true code h = cc
require-err false code h = cc

pub forbid-err :
    (b : Bool) (code : ErrorCode) {e : Error}
    → forbid b code ≡ err e
    → e ≡ cloud (record { code = code; retryable = false })
forbid-err true code h = cc
forbid-err false code h = cc

-- The same inversion, with the rest of the proof as a function of what the step returned.
pub ok-bind {ℓ} :
    {A B : Type 0} {P : Type ℓ} (first : Result A) (next : A → Result B) {last : B}
    → (first >>= next) ≡ ok last
    → ((x : A) → first ≡ ok x → next x ≡ ok last → P)
    → P
ok-bind (err e) next h rest = cc
ok-bind (ok x) next h rest = rest x refl h
