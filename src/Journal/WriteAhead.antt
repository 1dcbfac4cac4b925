-- ===== src/Journal/WriteAhead.antt =====
-- The journal is written ahead of the provider and never loses an entry.
pub mod Steps
pub mod Priced
pub mod Effects
use agent_cloud.Base.{
  ℕ, List, [], ◌∷◌, ◌++◌, Bool, true, false, Option, none, some, ◌≡◌, refl, sym, ap, subst, ◌∙◌,
  ◌⊎◌, inl, inr, In, All, if◌then◌else◌, ◌==◌, nat_eq, nat_eqb, Bool-cases, arith, ⊤,
}
use agent_cloud.Base.Tables.{insert, update}
use agent_cloud.Base.Result.{Result, Error, ok, err, ok-bind, cloud, fault}
use agent_cloud.Contracts.Provider.{ProviderCommand, Submission, Labels, ResourceRef}
use agent_cloud.Contracts.Lifecycle.{Operation, OperationProgress}
use agent_cloud.Store.{Allocation, Attempt, State}
use agent_cloud.Store.Action.{Action, transaction}
use agent_cloud.Store.Action.Keeps.{
  IsFrame, Respects, Respects-pure, Respects-raise, Respects-lift, Respects-query, Respects-call,
  Respects-transaction, Respects-catch, Respects-if, Respects-bind, Respects-modify,
}
use agent_cloud.Journal.Resources.{claim_resource}
use agent_cloud.Journal.Prepare.{Effect, prepare_attempt, new_attempt}
use agent_cloud.Journal.Submit.{
  write_progress, set_progress, compare_price, check_price, send, set_outcome, claim_receipt,
  journal_effect,
}

-- An attempt keeps what was asked for, and by whom.
pub record Continues (a b : Attempt) : Type 0 where
  pub id : b.id ≡ a.id
  pub account_id : b.account_id ≡ a.account_id
  pub operation_id : b.operation_id ≡ a.operation_id
  pub sequence : b.sequence ≡ a.sequence
  pub command : b.command ≡ a.command
  pub created_at : b.created_at ≡ a.created_at

-- The second journal continues the first: entry by entry, and then further.
abbrev pub Evolves : List Attempt → List Attempt → Type 0
Evolves [] ys = Unit
Evolves (x ∷ xs) [] = ⊥
Evolves (x ∷ xs) (y ∷ ys) = Continues x y × Evolves xs ys

pub Continues-refl : (a : Attempt) → Continues a a
Continues-refl a = record {
  id = refl;
  account_id = refl;
  operation_id = refl;
  sequence = refl;
  command = refl;
  created_at = refl;
}

pub Continues-trans : {a b c : Attempt} → Continues a b → Continues b c → Continues a c
Continues-trans p q = record {
  id = q.id ∙ p.id;
  account_id = q.account_id ∙ p.account_id;
  operation_id = q.operation_id ∙ p.operation_id;
  sequence = q.sequence ∙ p.sequence;
  command = q.command ∙ p.command;
  created_at = q.created_at ∙ p.created_at;
}

pub Evolves-refl : (xs : List Attempt) → Evolves xs xs
Evolves-refl [] = tt
Evolves-refl (x ∷ xs) = (Continues-refl x, Evolves-refl xs)

pub Evolves-trans : (xs ys zs : List Attempt) → Evolves xs ys → Evolves ys zs → Evolves xs zs
Evolves-trans [] ys zs p q = tt
Evolves-trans (x ∷ xs) (y ∷ ys) (z ∷ zs) p q =
    (Continues-trans p.0 q.0, Evolves-trans xs ys zs p.1 q.1)
Evolves-trans (x ∷ xs) (y ∷ ys) [] p q = absurd q
Evolves-trans (x ∷ xs) [] zs p q = absurd p

pub Evolves-insert : (a : Attempt) (xs : List Attempt) → Evolves xs (insert a xs)
Evolves-insert a [] = tt
Evolves-insert a (x ∷ xs) = (Continues-refl x, Evolves-insert a xs)

pub Evolves-update :
    (p : Attempt → Bool) (f : Attempt → Attempt) (xs : List Attempt)
    → ((a : Attempt) → Continues a (f a))
    → Evolves xs (update p f xs)
Evolves-update p f [] h = tt
Evolves-update p f (x ∷ xs) h = elim (Bool-cases (p x)) [
  | inl e ↦ rw e (h x, Evolves-update p f xs h)
  | inr e ↦ rw e (Continues-refl x, Evolves-update p f xs h)
]

-- The journal goes on and nothing is sent.
pub record IsQuiet (s t : State) : Type 0 where
  pub attempts : Evolves s.attempts t.attempts
  pub submitted : t.submitted ≡ s.submitted

pub quiet : IsFrame IsQuiet
quiet = record {
  stay = λ s. record { attempts = Evolves-refl s.attempts; submitted = refl };
  chain = λ s t u p q. record {
    attempts = Evolves-trans s.attempts t.attempts u.attempts p.attempts q.attempts;
    submitted = q.submitted ∙ p.submitted;
  };
  called = λ s. record { attempts = Evolves-refl s.attempts; submitted = refl };
}

-- What was sent has an entry.
abbrev pub HasAttempt : List Attempt → ℕ × ProviderCommand → Type 0
HasAttempt attempts (id, command) =
    (a : Attempt) × In a attempts × (a.id ≡ id) × (a.command ≡ command)

-- Every command that was ever sent to the provider stands in the journal, under its attempt's id.
abbrev pub IsRecorded : State → Type 0
IsRecorded s = All (HasAttempt s.attempts) s.submitted

pub HasAttempt-Evolves :
    (xs ys : List Attempt) (p : ℕ × ProviderCommand)
    → Evolves xs ys
    → HasAttempt xs p
    → HasAttempt ys p
HasAttempt-Evolves [] ys p e (a, m, i, c) = absurd m
HasAttempt-Evolves (x ∷ xs) [] p e h = absurd e
HasAttempt-Evolves (x ∷ xs) (y ∷ ys) p e (a, inl m, i, c) = (
  y,
  inl refl,
  e.0.id ∙ ap (λ (q : Attempt). q.id) m ∙ i,
  e.0.command ∙ ap (λ (q : Attempt). q.command) m ∙ c,
)
HasAttempt-Evolves (x ∷ xs) (y ∷ ys) p e (a, inr m, i, c) =
    let (b, n, j, k) = HasAttempt-Evolves xs ys p e.1 (a, m, i, c) in (b, inr n, j, k)

pub All-HasAttempt :
    (xs ys : List Attempt) (sent : List (ℕ × ProviderCommand))
    → Evolves xs ys
    → All (HasAttempt xs) sent
    → All (HasAttempt ys) sent
All-HasAttempt xs ys [] e h = tt
All-HasAttempt xs ys (p ∷ sent) e h =
    (HasAttempt-Evolves xs ys p e h.0, All-HasAttempt xs ys sent e h.1)

pub IsQuiet-IsRecorded : (s t : State) → IsQuiet s t → IsRecorded s → IsRecorded t
IsQuiet-IsRecorded s t q h =
    subst (All (HasAttempt t.attempts)) (sym q.submitted)
      (All-HasAttempt s.attempts t.attempts s.submitted q.attempts h)
