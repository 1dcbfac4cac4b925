-- ===== src/Worker/Deletions.antt =====
-- How often a cleanup asks for the deletion of one object.
pub mod Limit
pub mod Ticks
use agent_cloud.Base.{
  ℕ, ◌+◌, ◌<◌, List, [], ◌∷◌, Bool, false, none, ◌≡◌, refl, sym, ap, subst, ◌∙◌, ◌⊎◌, inl, inr,
  ◌==◌, ◌&&◌, ◌||◌, nat_eq, leb, any, select, last, length, map, Bool-cases, arith,
}
use std.Path.{fun_ext}
use agent_cloud.Base.Tables.{map-update}
use agent_cloud.Contracts.Provider.{ProviderCommand, ResourceRef}
use agent_cloud.Contracts.Lifecycle.{Operation, OperationIntent, OperationProgress}
use agent_cloud.Store.{Allocation, Attempt, OwnedResource, OperatorRecovery, State}
use agent_cloud.Store.Action.Keeps.{IsFrame}
use agent_cloud.Store.Action.Ends.{IsEnding}
use agent_cloud.Journal.Resources.{record_absence, owned_ref}
use agent_cloud.Journal.Submit.{write_progress, set_progress, journal_effect}
use agent_cloud.Journal.Writes.{Writes}
use agent_cloud.Journal.WriteAhead.Steps.{IsUntouched, claim_resource-eq, prepare_attempt-eq}
use agent_cloud.Journal.WriteAhead.Effects.{journal_effect-SubmitsOnce}
use agent_cloud.Worker.Cleanup.{
  CleanupWork, targets, deletes, is_retry, cleanup_delete_limit, is_before, put, in_order,
  is_history, read_history, deletion_of, deletion_effect, deletions_of, inventory, write_retirement,
  advance_cleanup,
}
use agent_cloud.Worker.Frames.Cleaning.{CleanupFrame, IsAllowed, advance_cleanup-Respects}

-- What an attempt has asked for.
abbrev pub asked : Attempt → ℕ × (ℕ × ProviderCommand)
asked attempt = (attempt.id, (attempt.operation_id, attempt.command))

-- Nothing is sent, no attempt is added and none is changed in what it asks for, and no retry is granted.
pub record IsStill (s t : State) : Type 0 where
  pub submitted : t.submitted ≡ s.submitted
  pub attempts : map asked t.attempts ≡ map asked s.attempts
  pub recoveries : t.recoveries ≡ s.recoveries

pub still : IsFrame IsStill
still = record {
  stay = λ s. record { submitted = refl; attempts = refl; recoveries = refl };
  chain = λ s t u p q. record {
    submitted = q.submitted ∙ p.submitted;
    attempts = q.attempts ∙ p.attempts;
    recoveries = q.recoveries ∙ p.recoveries;
  };
  called = λ s. record { submitted = refl; attempts = refl; recoveries = refl };
}

-- The deletions of an object that a cleanup and the operation that it took over have asked for.
abbrev pub deletions : CleanupWork → (source_operation_id : ℕ) → ResourceRef → State → ℕ
deletions w source ref s = length (select (λ a. is_history w source a && targets ref a) s.attempts)

-- A deletion is sent, within the limit that the code has computed.
pub record IsDeletion (w : CleanupWork) (s t : State) : Type 0 where
  pub source : ℕ
  pub cleans : w.operation.intent ≡ OperationIntent.cleanup source
  pub resource : OwnedResource
  pub submitted :
      t.submitted
      ≡ (w.moment.new_attempt_id, deletion_of resource.kind resource.provider_id) ∷ s.submitted
  pub bounded :
      deletions w source (owned_ref resource) s
      < cleanup_delete_limit w.operation.id (owned_ref resource) s

abbrev pub StaysOrDeletes : CleanupWork → State → State → Type 0
StaysOrDeletes w s t = IsStill s t ⊎ IsDeletion w s t

-- Both numbers depend only on what the attempts ask for.
abbrev pub asks : CleanupWork → ℕ → ResourceRef → ℕ × (ℕ × ProviderCommand) → Bool
asks w source ref (id, (operation_id, command)) =
    (operation_id == w.operation.id || operation_id == source) && deletes ref command

abbrev grants : ResourceRef → OperatorRecovery → ℕ × (ℕ × ProviderCommand) → Bool
grants ref recovery (id, (operation_id, command)) = id == recovery.attempt_id && deletes ref command

length-select-map :
    {A B : Type 0} (f : A → B) (p : B → Bool) (xs : List A)
    → length (select (λ a. p (f a)) xs) ≡ length (select p (map f xs))
length-select-map f p [] = refl
length-select-map f p (x ∷ xs) = elim (Bool-cases (p (f x))) [
  | inl e ↦ rw (e, length-select-map f p xs) refl
  | inr e ↦ rw (e, length-select-map f p xs) refl
]

any-map :
    {A B : Type 0} (f : A → B) (p : B → Bool) (xs : List A)
    → any (λ a. p (f a)) xs ≡ any p (map f xs)
any-map f p [] = refl
any-map f p (x ∷ xs) = rw (any-map f p xs) refl

pub deletions-IsStill :
    (w : CleanupWork) (source : ℕ) (ref : ResourceRef) (s t : State)
    → IsStill s t
    → deletions w source ref t ≡ deletions w source ref s
deletions-IsStill w source ref s t q =
    length-select-map asked (asks w source ref) t.attempts
    ∙ ap (λ xs. length (select (asks w source ref) xs)) q.attempts
    ∙ sym (length-select-map asked (asks w source ref) s.attempts)

retries-eq :
    (id : ℕ) (ref : ResourceRef) (xs ys : List Attempt) (rows : List OperatorRecovery)
    → map asked ys ≡ map asked xs
    → length (select (is_retry id ref ys) rows) ≡ length (select (is_retry id ref xs) rows)
retries-eq id ref xs ys rows e =
    ap (λ test. length (select test rows))
      (fun_ext λ recovery.
        ap (λ b. recovery.operation_id == id && recovery.retries_delete && b)
          (any-map asked (grants ref recovery) ys
            ∙ ap (any (grants ref recovery)) e
            ∙ sym (any-map asked (grants ref recovery) xs)))

limit-IsStill :
    (id : ℕ) (ref : ResourceRef) (s t : State)
    → IsStill s t
    → cleanup_delete_limit id ref t ≡ cleanup_delete_limit id ref s
unfolding cleanup_delete_limit
limit-IsStill id ref s t q =
    ap (λ rows. 3 + length (select (is_retry id ref t.attempts) rows)) q.recoveries
    ∙ ap (λ n. 3 + n) (retries-eq id ref s.attempts t.attempts s.recoveries q.attempts)

pub deleting : (w : CleanupWork) → IsEnding IsStill (StaysOrDeletes w)
deleting w = record {
  frame = still;
  idle = λ s t q. inl q;
  before = λ s t u q p. elim p [
    | inl r ↦ inl (still.chain s t u q r)
    | inr d ↦ inr (record {
      source = d.source;
      cleans = d.cleans;
      resource = d.resource;
      submitted =
          d.submitted
          ∙ ap
              (λ xs.
                (w.moment.new_attempt_id, deletion_of d.resource.kind d.resource.provider_id) ∷ xs)
              q.submitted;
      bounded = omega (
        arith,
        d.bounded,
        deletions-IsStill w d.source (owned_ref d.resource) s t q,
        limit-IsStill w.operation.id (owned_ref d.resource) s t q,
      );
    })
  ];
  after = λ s t u p q. elim p [
    | inl r ↦ inl (still.chain s t u r q)
    | inr d ↦ inr (record {
      source = d.source;
      cleans = d.cleans;
      resource = d.resource;
      submitted = q.submitted ∙ d.submitted;
      bounded = d.bounded;
    })
  ];
}

IsUntouched-IsStill : (s t : State) → IsUntouched s t → t.recoveries ≡ s.recoveries → IsStill s t
IsUntouched-IsStill s t u r = record {
  submitted = u.submitted;
  attempts = ap (map asked) u.attempts;
  recoveries = r;
}

pub write_progress-IsStill :
    (operation : Operation) (p : OperationProgress) (s : State)
    → IsStill s (write_progress operation p s)
unfolding write_progress
write_progress-IsStill operation p s = record {
  submitted = ground arith;
  attempts = ground arith;
  recoveries = ground arith;
}

pub record_absence-IsStill :
    (now : ℕ) (allocation : Allocation) (resource : ResourceRef) (s : State)
    → IsStill s (record_absence now allocation resource s)
unfolding record_absence
record_absence-IsStill now allocation resource s = record {
  submitted = ground arith;
  attempts = ground arith;
  recoveries = ground arith;
}
