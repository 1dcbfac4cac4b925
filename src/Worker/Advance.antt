-- ===== src/Worker/Advance.antt =====
-- `advanceLocked` and `advanceOperation` of apps/control/src/advance-operation.ts: one tick of the worker on
-- one operation.
use agent_cloud.Base.{
  ℕ, List, [], ◌∷◌, true, Option, none, some, ◌==◌, nat_eq, if◌then◌else◌, any, find, ⊤,
}
use agent_cloud.Base.Result.{Error, cloud, fault, row_or, require}
use agent_cloud.Contracts.Errors.{ErrorCode, Failure}
use agent_cloud.Contracts.Catalog.{provider_kind_eq}
use agent_cloud.Contracts.Provider.{ProviderCommand, EffectResolution, Labels, MachineProvider}
use agent_cloud.Contracts.Lifecycle.{
  Operation, OperationIntent, LifecycleCommand, Machine, is_operation_terminal, is_cleanup,
}
use agent_cloud.Store.{Allocation, Attempt, OwnedResource, State, Limits}
use agent_cloud.Store.Action.{Action, pure, raise, lift, query, catch, ◌>>=◌, ◌>>◌}
use agent_cloud.Journal.Resources.{effect_labels}
use agent_cloud.Journal.Prepare.{has_id, attempts_of, is_ip_deletion}
use agent_cloud.Journal.Resolve.{Settlement, resolve_effect}
use agent_cloud.Worker.Work.{
  GuestProvisioning, Moment, Work, is_pending_attempt, is_reservation, is_machine, resources_of,
  changes, mismatch,
}
use agent_cloud.Worker.Complete.{fail}
use agent_cloud.Worker.Effects.{begin_failure, cleanup_ip, release_and_complete, if_released}
use agent_cloud.Worker.Create.{advance_create}
use agent_cloud.Worker.Act.{advance_action}
use agent_cloud.Worker.Cleanup.{CleanupWork, advance_cleanup, is_passing}

-- The input of `advanceOperation`.
pub record Tick : Type 0 where
  pub operation_id : ℕ
  pub provider : MachineProvider
  pub limits : Limits
  pub guest : GuestProvisioning
  pub moment : Moment

abbrev pub open_labels : Work → Option OwnedResource → Labels
open_labels work (some row) = row.labels
open_labels work none = effect_labels work.operation work.allocation

abbrev pub open_settlement : Work → Attempt → Settlement
open_settlement work attempt = record {
  operation = work.operation;
  allocation = work.allocation;
  attempt = attempt;
  provider = work.provider;
  expected_labels = open_labels work (find (changes attempt.command) work.resources);
  now = work.moment.now;
}

-- The first effect that has failed, with its error.
abbrev pub failed_effect : List Attempt → Option (ProviderCommand × Failure)
failed_effect [] = none
failed_effect (attempt ∷ rest) = elim attempt.resolution [
  | EffectResolution.failed failure ↦ some (attempt.command, failure)
  | _ ↦ failed_effect rest
]

unfoldable pub after_failure : Work → ProviderCommand → Failure → Action ⊤
after_failure work command failure =
    if is_ip_deletion command then release_and_complete work else begin_failure work failure

unfoldable pub carry_out : Work → LifecycleCommand → Action ⊤
carry_out work (LifecycleCommand.create _) = advance_create work
carry_out work (LifecycleCommand.act action) = advance_action work action

-- The handler takes the rows as they are after the failure.
unfoldable pub fail_as_recorded : Work → Failure → (history : List Attempt) → Action ⊤
fail_as_recorded work failure history =
    if any is_pending_attempt history
    then mismatch work.operation
    else (query (λ s. resources_of work.allocation.id s.resources) >>= λ resources.
        begin_failure (record work { history = history; resources = resources }) failure)

unfoldable pub recover : Work → Error → Action ⊤
unfolding fail_as_recorded
recover work fault = raise fault
recover work (cloud failure) =
    if is_passing failure
    then pure tt
    else (query (λ s. attempts_of work.operation.id s.attempts) >>= fail_as_recorded work failure)

unfoldable pub continue_run : Work → Option (ProviderCommand × Failure) → Action ⊤
unfolding after_failure carry_out recover
continue_run work (some (command, failure)) = after_failure work command failure
continue_run work none = catch (carry_out work work.operation.command) (recover work)

unfoldable pub by_intent : Work → OperationIntent → Action ⊤
unfolding continue_run
by_intent work (OperationIntent.compensate error) =
    cleanup_ip work >>= λ released. if_released released (fail work error true)
by_intent work _ = continue_run work (failed_effect work.history)

unfoldable pub settle_or_go_on : Work → Option Attempt → Action ⊤
unfolding by_intent
settle_or_go_on work (some attempt) = resolve_effect (open_settlement work attempt)
settle_or_go_on work none = by_intent work work.operation.intent

unfoldable pub advance_work : Work → Action ⊤
unfolding settle_or_go_on
advance_work work = settle_or_go_on work (find is_pending_attempt work.history)

abbrev pub gather : Tick → Operation → Machine → Allocation → State → Work
gather x operation machine allocation s = record {
  operation = operation;
  machine = machine;
  allocation = allocation;
  provider = x.provider;
  limits = x.limits;
  history = attempts_of operation.id s.attempts;
  resources = resources_of allocation.id s.resources;
  guest = x.guest;
  moment = x.moment;
}

abbrev pub cleanup_work : Tick → Operation → Allocation → CleanupWork
cleanup_work x operation allocation = record {
  operation = operation;
  allocation = allocation;
  provider = x.provider;
  limits = x.limits;
  moment = x.moment;
}

unfoldable pub advance_reserved : Tick → Operation → Machine → Allocation → Action ⊤
unfolding advance_work
advance_reserved x operation machine allocation =
    if is_cleanup operation.intent
    then advance_cleanup (cleanup_work x operation allocation)
    else (query (gather x operation machine allocation) >>= advance_work)

unfoldable pub advance_open : Tick → Operation → Action ⊤
unfolding advance_reserved
advance_open x operation = do
  row ← query (λ s. find (is_machine operation.machine_id) s.machines)
  machine ← lift (row_or row ErrorCode.internal_error)
  lift (require (machine.provider == x.provider.kind) ErrorCode.internal_error)
  reserved ← query (λ s. find (is_reservation machine.id) s.allocations)
  allocation ← lift (row_or reserved ErrorCode.internal_error)
  advance_reserved x operation machine allocation

unfoldable pub advance_found : Tick → Option Operation → Action ⊤
unfolding advance_open
advance_found x none = pure tt
advance_found x (some operation) =
    if is_operation_terminal operation then pure tt else advance_open x operation

unfoldable pub advance_locked : Tick → Action ⊤
unfolding advance_found
advance_locked x = query (λ s. find (has_id x.operation_id) s.operations) >>= advance_found x

unfoldable pub advance_existing : Tick → Option Operation → Action ⊤
unfolding advance_locked
advance_existing x none = pure tt
advance_existing x (some row) = advance_locked x

-- `advanceOperation`, which holds the lock of the machine while it works.
unfoldable pub advance_operation : Tick → Action ⊤
unfolding advance_existing
advance_operation x = query (λ s. find (has_id x.operation_id) s.operations) >>= advance_existing x
