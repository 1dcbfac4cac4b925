-- ===== src/Worker/Cleanup/History.antt =====
-- apps/control/src/machine-cleanup.ts: what a cleanup has at hand, and the settling of the effects that it
-- finds.
use agent_cloud.Base.{
  ℕ, ◌+◌, List, [], ◌∷◌, Bool, true, false, Option, none, some, ◌&&◌, ◌||◌, ◌==◌, nat_eq, ltb, leb,
  if◌then◌else◌, any, find, select, length, is_none, ⊤,
}
use agent_cloud.Base.Result.{forbid}
use agent_cloud.Contracts.Errors.{ErrorCode}
use agent_cloud.Contracts.Provider.{
  Labels, ProviderCommand, ResourceKind, ResourceRef, resource_kind_eq, MachineProvider,
}
use agent_cloud.Contracts.Lifecycle.{Operation, operation_kind_eq, OperationIntent}
use agent_cloud.Store.{Allocation, Attempt, OwnedResource, OperatorRecovery, State, Limits}
use agent_cloud.Store.Action.{Action, pure, lift, ◌>>◌}
use agent_cloud.Journal.Submit.{creation_labels}
use agent_cloud.Journal.Resolve.{Settlement, resolve_effect}
use agent_cloud.Worker.Work.{Moment, resources_of, changes}

pub record CleanupWork : Type 0 where
  pub operation : Operation
  pub allocation : Allocation
  pub provider : MachineProvider
  pub limits : Limits
  pub moment : Moment

abbrev pub is_deletion : ProviderCommand → Bool
is_deletion (ProviderCommand.destroy _) = true
is_deletion (ProviderCommand.delete_primary_ip _) = true
is_deletion _ = false

-- `targets`: a deletion of this object.
abbrev pub deletes : ResourceRef → ProviderCommand → Bool
deletes ref (ProviderCommand.destroy id) = ref.kind == ResourceKind.server && id == ref.id
deletes ref (ProviderCommand.delete_primary_ip id) =
    ref.kind == ResourceKind.primary_ip && id == ref.id
deletes ref _ = false

abbrev pub targets : ResourceRef → Attempt → Bool
targets ref attempt = deletes ref attempt.command

abbrev pub deletion_of : ResourceKind → (id : ℕ) → ProviderCommand
deletion_of ResourceKind.server id = ProviderCommand.destroy id
deletion_of ResourceKind.primary_ip id = ProviderCommand.delete_primary_ip id

abbrev pub is_retry : (operation_id : ℕ) → ResourceRef → List Attempt → OperatorRecovery → Bool
is_retry operation_id ref attempts recovery =
    recovery.operation_id == operation_id
    && recovery.retries_delete
    && any (λ (a : Attempt). a.id == recovery.attempt_id && targets ref a) attempts

-- The SQL function `cleanup_delete_limit`, for the deletion of an object: three deletions, and one
-- for each retry that an operator has granted.
unfoldable pub cleanup_delete_limit : (operation_id : ℕ) → ResourceRef → State → ℕ
cleanup_delete_limit operation_id ref s =
    3 + length (select (is_retry operation_id ref s.attempts) s.recoveries)

-- `ORDER BY created_at, sequence`
abbrev pub is_before : Attempt → Attempt → Bool
is_before a b =
    ltb a.created_at b.created_at || (a.created_at == b.created_at && leb a.sequence b.sequence)

abbrev pub put : Attempt → List Attempt → List Attempt
put a [] = a ∷ []
put a (b ∷ rest) = if is_before a b then a ∷ b ∷ rest else b ∷ put a rest

abbrev pub in_order : List Attempt → List Attempt
in_order [] = []
in_order (a ∷ rest) = put a (in_order rest)

-- The attempts of the cleanup and of the operation that it took over.
abbrev pub is_history : CleanupWork → (source_operation_id : ℕ) → Attempt → Bool
is_history w source attempt =
    attempt.operation_id == w.operation.id || attempt.operation_id == source

unfoldable pub read_history : CleanupWork → (source_operation_id : ℕ) → State → List Attempt
read_history w source s = in_order (select (is_history w source) s.attempts)

abbrev pub read_resources : CleanupWork → State → List OwnedResource
read_resources w s = resources_of w.allocation.id s.resources

abbrev pub cleans_up : (source_operation_id : ℕ) → OperationIntent → Bool
cleans_up source (OperationIntent.cleanup id) = id == source
cleans_up source _ = false

abbrev pub needs_target : ProviderCommand → Bool
needs_target (ProviderCommand.enable_backup _) = true
needs_target command = is_deletion command

abbrev pub own_labels : Option Labels → Labels
own_labels none = []
own_labels (some labels) = labels

abbrev pub expected : Option OwnedResource → ProviderCommand → Labels
expected (some row) command = row.labels
expected none command = own_labels (creation_labels command)

abbrev pub settlement_of : CleanupWork → Attempt → Labels → Settlement
settlement_of w attempt labels = record {
  operation = w.operation;
  allocation = w.allocation;
  attempt = attempt;
  provider = w.provider;
  expected_labels = labels;
  now = w.moment.now;
}

-- One turn of the loop over the effects that are not settled.
unfoldable pub resolve_one : CleanupWork → List OwnedResource → Attempt → Action ⊤
resolve_one w resources attempt =
    let target = find (changes attempt.command) resources in
    lift (forbid (needs_target attempt.command && is_none target) ErrorCode.permission_denied)
    >> resolve_effect (settlement_of w attempt (expected target attempt.command))

unfoldable pub resolve_all : CleanupWork → List OwnedResource → List Attempt → Action ⊤
unfolding resolve_one
resolve_all w resources [] = pure tt
resolve_all w resources (attempt ∷ rest) =
    resolve_one w resources attempt >> resolve_all w resources rest
