-- ===== src/Store/Action.antt =====
-- Handlers as state passing with exceptions. What was written before a throw stays written, except
-- inside a transaction, which writes everything or nothing.
pub mod Keeps
pub mod Yields
pub mod Runs
pub mod Ends
use agent_cloud.Base.{ℕ, suc, Bool, true, false, List, Option, none, some, if◌then◌else◌, ⊤}
use agent_cloud.Base.Result.{Result, Error, ok, err, cloud, fault}
use agent_cloud.Contracts.Errors.{ErrorCode, Failure}
use agent_cloud.Store.Rows.{State}

abbrev pub Action : Type 0 → Type 0
Action A = State → Result A × State

module _ {A : Type 0} where
  abbrev pub pure : A → Action A
  pure a s = (ok a, s)

  abbrev pub raise : Error → Action A
  raise e s = (err e, s)

  abbrev pub lift : Result A → Action A
  lift r s = (r, s)

  -- A query: `SELECT` and what is computed from it.
  abbrev pub query : (State → A) → Action A
  query f s = (ok (f s), s)

  abbrev pub finish : State → Result (A × State) → Result A × State
  finish before (ok (a, s)) = (ok a, s)
  finish before (err e) = (err e, before)

  -- `db.transaction`: a body that throws leaves no trace.
  abbrev pub transaction : (State → Result (A × State)) → Action A
  transaction body s = finish s (body s)

  -- One call of the provider.
  abbrev pub call : (ℕ → Result A) → Action A
  call f s = (f s.calls, record s { calls = suc s.calls })

  abbrev pub handle : Result A → (Error → Action A) → Action A
  handle (ok a) h s = (ok a, s)
  handle (err e) h s = h e s

  -- `try { m } catch (error) { h(error) }`
  abbrev pub catch : Action A → (Error → Action A) → Action A
  catch m h s = let (r, s') = m s in handle r h s'

module _ {A B : Type 0} where
  abbrev pub continue : Result A → (A → Action B) → Action B
  continue (ok a) f s = f a s
  continue (err e) f s = (err e, s)

  infixl 5 ◌>>=◌ ◌>>◌
  abbrev pub ◌>>=◌ : Action A → (A → Action B) → Action B
  ◌>>=◌ m f s = let (r, s') = m s in continue r f s'

  abbrev pub ◌>>◌ : Action A → Action B → Action B
  m >> k = m >>= λ _. k

-- An unconditional write.
abbrev pub modify : (State → State) → Action ⊤
modify f s = (ok tt, f s)
