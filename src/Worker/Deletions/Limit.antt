-- ===== src/Worker/Deletions/Limit.antt =====
-- The limit on the deletions of one object, apart from the code that computes it.
use std.Path.{fun_ext}
use agent_cloud.Base.{
  ℕ, ◌+◌, ◌⊎◌, ◌==◌, ◌||◌, any, ◌<◌, ◌∷◌, Bool, true, false, ◌≡◌, refl, ap, ◌&&◌, nat_eq, select,
  length, arith,
}
use agent_cloud.Contracts.Provider.{ProviderCommand, ResourceKind, ResourceRef, resource_kind_eq}
use agent_cloud.Contracts.Lifecycle.{OperationIntent}
use agent_cloud.Store.{Attempt, OwnedResource, OperatorRecovery, State}
use agent_cloud.Journal.Resources.{owned_ref}
use agent_cloud.Worker.Cleanup.{CleanupWork, deletes, cleanup_delete_limit, deletion_of}
use agent_cloud.Worker.Deletions.{IsStill, IsDeletion, deletions}

-- A command that asks for the deletion of an object.
abbrev pub asks_to_delete : ResourceRef → ProviderCommand → Bool
asks_to_delete ref (ProviderCommand.destroy id) = ref.kind == ResourceKind.server && id == ref.id
asks_to_delete ref (ProviderCommand.delete_primary_ip id) =
    ref.kind == ResourceKind.primary_ip && id == ref.id
asks_to_delete ref _ = false

-- The deletions of an object that a cleanup and the operation that it took over have asked for.
abbrev pub asked_before : CleanupWork → (source_operation_id : ℕ) → ResourceRef → State → ℕ
asked_before w source ref s = length (
    select
      (λ (a : Attempt).
        (a.operation_id == w.operation.id || a.operation_id == source)
        && asks_to_delete ref a.command)
      s.attempts)

-- The retries of a deletion that an operator has granted to a cleanup.
abbrev pub granted : CleanupWork → ResourceRef → State → ℕ
granted w ref s = length (
    select
      (λ (r : OperatorRecovery).
        r.operation_id == w.operation.id
        && r.retries_delete
        && any (λ (a : Attempt). a.id == r.attempt_id && asks_to_delete ref a.command) s.attempts)
      s.recoveries)

-- A deletion is sent, for a cleanup that took over the operation `source`, of an object whose deletion had
-- been asked for less often than is allowed.
pub record DeletesWithin (w : CleanupWork) (s t : State) : Type 0 where
  pub source : ℕ
  pub cleans : w.operation.intent ≡ OperationIntent.cleanup source
  pub resource : OwnedResource
  pub command : ProviderCommand
  pub deletes_it : asks_to_delete (owned_ref resource) command ≡ true
  pub submitted : t.submitted ≡ (w.moment.new_attempt_id, command) ∷ s.submitted
  pub bounded : asked_before w source (owned_ref resource) s < 3 + granted w (owned_ref resource) s

abbrev pub StaysWithin : CleanupWork → State → State → Type 0
StaysWithin w s t = IsStill s t ⊎ DeletesWithin w s t

deletes-eq :
    (ref : ResourceRef) (command : ProviderCommand)
    → asks_to_delete ref command ≡ deletes ref command
deletes-eq ref (ProviderCommand.destroy id) = refl
deletes-eq ref (ProviderCommand.delete_primary_ip id) = refl
deletes-eq ref _ = refl

asked_before-eq :
    (w : CleanupWork) (source : ℕ) (ref : ResourceRef) (s : State)
    → asked_before w source ref s ≡ deletions w source ref s
asked_before-eq w source ref s =
    ap
      (λ (test : ProviderCommand → Bool). length (
        select
          (λ (a : Attempt).
            (a.operation_id == w.operation.id || a.operation_id == source) && test a.command)
          s.attempts))
      (fun_ext (deletes-eq ref))

granted-eq :
    (w : CleanupWork) (ref : ResourceRef) (s : State)
    → 3 + granted w ref s ≡ cleanup_delete_limit w.operation.id ref s
unfolding cleanup_delete_limit
granted-eq w ref s =
    ap
      (λ (test : ProviderCommand → Bool).
        3
        + length (
            select
              (λ (r : OperatorRecovery).
                r.operation_id == w.operation.id
                && r.retries_delete
                && any (λ (a : Attempt). a.id == r.attempt_id && test a.command) s.attempts)
              s.recoveries))
      (fun_ext (deletes-eq ref))

deletion_of-deletes :
    (kind : ResourceKind) (id : ℕ)
    → asks_to_delete (record { kind = kind; id = id }) (deletion_of kind id) ≡ true
deletion_of-deletes ResourceKind.server id = ground arith
deletion_of-deletes ResourceKind.primary_ip id = ground arith

pub IsDeletion-DeletesWithin :
    (w : CleanupWork) (s t : State) → IsDeletion w s t → DeletesWithin w s t
IsDeletion-DeletesWithin w s t d = record {
  source = d.source;
  cleans = d.cleans;
  resource = d.resource;
  command = deletion_of d.resource.kind d.resource.provider_id;
  deletes_it = deletion_of-deletes d.resource.kind d.resource.provider_id;
  submitted = d.submitted;
  bounded = omega (
    arith,
    d.bounded,
    asked_before-eq w d.source (owned_ref d.resource) s,
    granted-eq w (owned_ref d.resource) s,
  );
}
