-- ===== src/Worker/Cleanup.antt =====
-- apps/control/src/machine-cleanup.ts, and `cleanupDeleteLimit` of apps/control/src/resource-journal.ts with
-- the SQL function that it calls: an admitted cleanup deletes what an allocation owns, and then ends it.
pub mod Check
pub mod History
use agent_cloud.Base.{
  ℕ, ◌+◌, List, [], ◌∷◌, Bool, true, false, Option, none, some, ◌&&◌, ◌||◌, not, ◌==◌, ◌!=◌, nat_eq,
  ltb, leb, if◌then◌else◌, any, find, select, last, length, is_none, is_some, ⊤,
}
use agent_cloud.Base.Tables.{update}
use agent_cloud.Base.Result.{Error, cloud, fault, row_or, require, forbid}
use agent_cloud.Contracts.Errors.{ErrorCode, Failure}
use agent_cloud.Contracts.Provider.{
  Labels, ProviderCommand, ProviderServer, ProviderPrimaryIp, Assignment, ResourceKind, ResourceRef,
  resource_kind_eq, Submission, AttemptOutcome, ProviderAction, MachineProvider,
  is_server_create_command,
}
use agent_cloud.Contracts.Lifecycle.{
  Operation, OperationKind, operation_kind_eq, OperationIntent, OperationProgress, BlockedReason,
  MachineState,
}
use agent_cloud.Store.{Allocation, Attempt, OwnedResource, OperationCleanup, AuditEvent, State}
use agent_cloud.Store.Action.{Action, pure, raise, lift, query, call, catch, modify, ◌>>=◌, ◌>>◌}
use agent_cloud.Journal.Resources.{matches_labels, owned_ref, record_absence}
use agent_cloud.Journal.Prepare.{Effect, Authorization, is_cleanup_of}
use agent_cloud.Journal.Submit.{set_progress, creation_labels, journal_effect}
use agent_cloud.Journal.Resolve.{Settlement, is_away, resolve_effect}
use agent_cloud.Worker.Work.{
  Moment, is_pending_attempt, is_present, is_kind_with, resources_of, changes, block, mismatch,
}
use agent_cloud.Worker.Complete.{retire, set_machine, ended}
unfoldable pub use History.*
unfoldable pub use Check.*

-- The action of a deletion that is under way.
abbrev pub running_action : Attempt → Option ℕ
running_action attempt =
    if is_pending_attempt attempt
    then elim attempt.outcome [
      | AttemptOutcome.submitted (Submission.accepted _ action_id) ↦ some action_id
      | _ ↦ none
    ]
    else none

abbrev pub has_succeeded : ProviderAction → Bool
has_succeeded ProviderAction.succeeded = true
has_succeeded _ = false

unfoldable pub await_action : CleanupWork → Option ℕ → Action Bool
await_action w none = pure true
await_action w (some action_id) = do
  action ← call (λ n. w.provider.get_action n action_id)
  pure (has_succeeded action)

abbrev pub delay_ms : (deletions : ℕ) → ℕ
delay_ms deletions = if deletions == 1 then 5000 else 30000

abbrev pub deletion_effect : CleanupWork → OwnedResource → Effect
deletion_effect w row = record {
  operation = w.operation;
  allocation = w.allocation;
  command = deletion_of row.kind row.provider_id;
  provider = w.provider;
  limits = w.limits;
  authorization = Authorization.admitted_cleanup;
  clock = w.moment.clock;
  now = w.moment.now;
  new_attempt_id = w.moment.new_attempt_id;
}

-- The bounds on how often, and how soon, a deletion is asked for again.
unfoldable pub pace : CleanupWork → OwnedResource → (deletions limit : ℕ) → (latest : ℕ) → Action ⊤
pace w row deletions limit latest =
    if leb limit deletions
    then block w.operation BlockedReason.cleanup_retry_exhausted
    else if ltb w.moment.now (latest + delay_ms deletions)
    then pure tt
    else journal_effect (deletion_effect w row)

unfoldable pub repeat_deletion :
    CleanupWork
    → OwnedResource
    → (previous : List Attempt) → Attempt
    → (may_go_on : Bool) → Action ⊤
unfolding pace
repeat_deletion w row previous latest false = pure tt
repeat_deletion w row previous latest true = do
  limit ← query (cleanup_delete_limit w.operation.id (owned_ref row))
  lift (require (leb 3 limit) ErrorCode.internal_error)
  pace w row (length previous) limit latest.created_at

unfoldable pub delete_after :
    CleanupWork → OwnedResource → (previous : List Attempt) → (latest : Option Attempt) → Action ⊤
unfolding await_action repeat_deletion
delete_after w row previous none = journal_effect (deletion_effect w row)
delete_after w row previous (some latest) =
    await_action w (running_action latest) >>= repeat_deletion w row previous latest

abbrev pub deletions_of : Inventory → OwnedResource → List Attempt
deletions_of i row = select (targets (owned_ref row)) i.history

unfoldable pub delete_if : CleanupWork → Inventory → OwnedResource → Bool → Action ⊤
unfolding delete_after
delete_if w i row false = pure tt
delete_if w i row true = delete_after w row (deletions_of i row) (last (deletions_of i row))

abbrev pub final_progress : OperationKind → ℕ → OperationProgress
final_progress OperationKind.create now = OperationProgress.cancelled now
final_progress _ now = OperationProgress.succeeded now

-- The transaction that ends the allocation.
unfoldable pub write_retirement : CleanupWork → State → State
write_retirement w s =
    ended w.operation (final_progress w.operation.kind w.moment.now) AuditEvent.cleanup_completed
      (record s {
        allocations =
            update (λ (a : Allocation). a.id == w.allocation.id && is_none a.retired_at)
              (retire w.moment.now) s.allocations;
        machines =
            set_machine w.operation.machine_id
              (λ m. record m { state = MachineState.destroyed w.moment.now }) s.machines;
      })

abbrev pub is_unfinished : Inventory → Bool
is_unfinished i = any is_pending_attempt i.history || any is_present i.resources

unfoldable pub delete_or_retire : CleanupWork → Inventory → Option OwnedResource → Action ⊤
unfolding may_delete delete_if write_retirement
delete_or_retire w i (some row) = may_delete w i row row.kind >>= delete_if w i row
delete_or_retire w i none = if is_unfinished i then pure tt else modify (write_retirement w)

-- What a cleanup reads after it has settled what it could.
abbrev pub inventory : CleanupWork → (source_operation_id : ℕ) → State → Inventory
inventory w source s = record { history = read_history w source s; resources = read_resources w s }

unfoldable pub take_stock : CleanupWork → (source_operation_id : ℕ) → Action ⊤
unfolding next_resource delete_or_retire
take_stock w source = do i ← query (inventory w source); delete_or_retire w i (next_resource i)

unfoldable pub advance_authorized : CleanupWork → (source_operation_id : ℕ) → Action ⊤
unfolding resolve_all take_stock
advance_authorized w source = do
  history ← query (read_history w source)
  resources ← query (read_resources w)
  resolve_all w resources (select is_pending_attempt history)
  take_stock w source

-- The row that admits the cleanup.
abbrev pub is_authority : Operation → Allocation → OperationCleanup → Bool
is_authority operation allocation row =
    is_cleanup_of operation.id row
    && row.account_id == operation.account_id
    && row.allocation_id == allocation.id

-- `advance`
unfoldable pub advance : CleanupWork → Action ⊤
unfolding advance_authorized
advance w = do
  row ← query (λ s. find (is_authority w.operation w.allocation) s.cleanups)
  authority ← lift (row_or row ErrorCode.permission_denied)
  lift (
      require (cleans_up authority.source_operation_id w.operation.intent)
        ErrorCode.permission_denied)
  advance_authorized w authority.source_operation_id

abbrev pub is_passing : Failure → Bool
is_passing failure = is_away failure.code && failure.retryable

unfoldable pub cleanup_failed : CleanupWork → Error → Action ⊤
cleanup_failed w fault = raise fault
cleanup_failed w (cloud failure) = if is_passing failure then pure tt else mismatch w.operation

unfoldable pub advance_cleanup : CleanupWork → Action ⊤
unfolding advance cleanup_failed
advance_cleanup w = catch (advance w) (cleanup_failed w)
