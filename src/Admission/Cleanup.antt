-- ===== src/Admission/Cleanup.antt =====
-- `admitCleanup` of apps/control/src/cleanup-admission.ts: a destroy request takes over the machine's
-- create operation, or becomes an operation of its own, and closes access to the machine.
use agent_cloud.Base.{
  ℕ, ◌+◌, List, Option, none, some, Bool, false, ◌&&◌, not, ◌==◌, ◌!=◌, nat_eq, if◌then◌else◌, find,
  select,
}
use agent_cloud.Base.Tables.{insert, update}
use agent_cloud.Base.Result.{Result, ok, require, forbid, row_or, throw_retryable, ◌>>=◌, ◌>>◌}
use agent_cloud.Contracts.Errors.{ErrorCode}
use agent_cloud.Contracts.Policy.{Principal, Capability}
use agent_cloud.Contracts.Lifecycle.{
  Machine, MachineAction, LifecycleCommand, Operation, OperationIntent, OperationProgress,
  OperationKind, operation_kind_eq, is_cleanup, is_destroyed, is_operation_terminal,
}
use agent_cloud.Store.{Allocation, State, AuditEvent, Scope, scope_eq, Idempotency}
use agent_cloud.Auth.Authority.{load_principal}
use agent_cloud.Auth.Policy.{authorize}
use agent_cloud.Auth.Grants.{close_machine_access}
use agent_cloud.Admission.Reservation.{is_live}
use agent_cloud.Admission.Request.{Setting, matches_request, is_operation, enqueue}

-- A destroy command with what the transaction has read so far.
pub record CleanupRequest : Type 0 where
  pub principal : Principal
  pub machine : Machine
  pub allocation : Allocation
  pub source : Operation
  pub version : ℕ
  pub allow_data_loss : Bool

abbrev pub destroy_command : (version : ℕ) → (allow_data_loss : Bool) → LifecycleCommand
destroy_command version allow = LifecycleCommand.act (MachineAction.destroy version allow)

-- The operation that a cleanup becomes when none is active.
abbrev pub destroy_operation : Setting → CleanupRequest → Operation
destroy_operation env r = record {
  id = env.new_operation_id;
  account_id = r.principal.account_id;
  project_id = r.machine.project_id;
  machine_id = r.machine.id;
  grant_id = r.principal.grant_id;
  kind = OperationKind.destroy;
  command = destroy_command r.version r.allow_data_loss;
  offer = none;
  intent = OperationIntent.cleanup r.source.id;
  progress = OperationProgress.cleaning_up;
  created_at = env.now;
}

abbrev pub taken_over : (source_operation_id : ℕ) → Operation → Operation
taken_over source op = record op {
  intent = OperationIntent.cleanup source;
  progress = OperationProgress.cleaning_up;
}

-- The writes that every new cleanup makes beside those to `operations`.
abbrev pub grant_cleanup : Setting → CleanupRequest → (operation_id : ℕ) → State → State
grant_cleanup env r operation_id s = record s {
  cleanups =
      insert
        (record {
          operation_id = operation_id;
          source_operation_id = r.source.id;
          account_id = r.principal.account_id;
          allocation_id = r.allocation.id;
          grant_id = r.principal.grant_id;
          expected_version = r.version;
          created_at = env.now;
        })
        s.cleanups;
  machines =
      update (λ (m : Machine). m.id == r.machine.id)
        (λ m. record m { version = r.machine.version + 1 }) s.machines;
  audit =
      insert
        (record {
          account_id = r.principal.account_id;
          subject_id = operation_id;
          event = AuditEvent.cleanup_admitted;
        })
        s.audit;
}

-- The operation that cleans up, and the state with it: an active cleanup goes on as it is, an active
-- create is taken over, and otherwise a destroy operation is added.
unfoldable pub choose_cleanup :
    Setting → CleanupRequest → Option Operation → State → Operation × State
choose_cleanup env r (some op) s = if is_cleanup op.intent then (op, s) else (
  taken_over r.source.id op,
  grant_cleanup env r op.id (record s {
    operations = update (λ (o : Operation). o.id == op.id) (taken_over r.source.id) s.operations;
  }),
)
choose_cleanup env r none s = (
  destroy_operation env r,
  grant_cleanup env r env.new_operation_id
      (record s { operations = insert (destroy_operation env r) s.operations }),
)

-- Another kind of work that is still active refuses the cleanup.
abbrev pub refuses_cleanup : Option Operation → Bool
refuses_cleanup none = false
refuses_cleanup (some op) = op.kind != OperationKind.create && not (is_cleanup op.intent)

-- The machine's operation that has not ended, and the one that created it.
abbrev pub history : (machine_id : ℕ) → List Operation → List Operation
history machine_id = select (λ (o : Operation). o.machine_id == machine_id)

abbrev pub active_operation : (machine_id : ℕ) → List Operation → Option Operation
active_operation machine_id operations =
    find (λ (o : Operation). not (is_operation_terminal o)) (history machine_id operations)

abbrev pub source_operation : (machine_id : ℕ) → List Operation → Option Operation
source_operation machine_id operations =
    find (λ (o : Operation). o.kind == OperationKind.create) (history machine_id operations)

-- The key, the closed sessions and the job that end every cleanup admission.
unfoldable pub commit_cleanup :
    Setting → (key : ℕ) → CleanupRequest → Option Operation → State → Result (Operation × State)
unfolding choose_cleanup close_machine_access
commit_cleanup env key r active s =
    let (operation, t) = choose_cleanup env r active s in
    let keyed = record t {
      idempotency =
          insert
            (record {
              account_id = r.principal.account_id;
              scope = Scope.machine_actions r.machine.id;
              key = key;
              request_hash = env.request_hash (destroy_command r.version r.allow_data_loss);
              operation_id = operation.id;
            })
            t.idempotency;
    } in
    let closed = close_machine_access keyed r.principal.account_id r.machine.id in
    ok (operation, record closed { jobs = enqueue operation.id closed.jobs })

unfoldable pub admit_new_cleanup :
    Setting
    → State
    → Principal
    → Machine
    → (version : ℕ) → (allow_data_loss : Bool) → (key : ℕ) → Result (Operation × State)
unfolding commit_cleanup
admit_new_cleanup env s principal machine version allow key = do
  require (machine.version == version) ErrorCode.version_conflict
  allocation ←
      row_or (find (λ (a : Allocation). a.machine_id == machine.id && is_live a) s.allocations)
        ErrorCode.resource_busy
  forbid (is_destroyed machine.state) ErrorCode.resource_busy
  forbid (refuses_cleanup (active_operation machine.id s.operations)) ErrorCode.resource_busy
  source ← row_or (source_operation machine.id s.operations) ErrorCode.internal_error
  commit_cleanup env key
      (record {
        principal = principal;
        machine = machine;
        allocation = allocation;
        source = source;
        version = version;
        allow_data_loss = allow;
      })
      (active_operation machine.id s.operations) s

unfoldable pub replay_cleanup :
    Setting → State → Principal → LifecycleCommand → Idempotency → Result (Operation × State)
replay_cleanup env s principal command previous = do
  require (previous.request_hash == env.request_hash command) ErrorCode.idempotency_conflict
  operation ←
      row_or (find (is_operation previous.operation_id principal.account_id) s.operations)
        ErrorCode.internal_error
  ok (operation, s)

unfoldable pub answer_cleanup :
    Setting
    → State
    → Principal
    → Machine
    → (version : ℕ) → (allow_data_loss : Bool) → (key : ℕ) → Option Idempotency
    → Result (Operation × State)
unfolding admit_new_cleanup replay_cleanup
answer_cleanup env s principal machine version allow key (some previous) =
    replay_cleanup env s principal (destroy_command version allow) previous
answer_cleanup env s principal machine version allow key none =
    admit_new_cleanup env s principal machine version allow key

abbrev pub owned_machine : (machine_id account_id : ℕ) → State → Option Machine
owned_machine machine_id account_id s =
    find (λ (m : Machine). m.id == machine_id && m.account_id == account_id) s.machines

unfoldable pub admit_cleanup :
    Setting
    → (lock_free : Bool) → State
    → Principal
    → (machine_id version : ℕ) → (allow_data_loss : Bool) → (key : ℕ) → Result (Operation × State)
unfolding answer_cleanup
admit_cleanup env lock_free s caller machine_id version allow key = do
  row_or (owned_machine machine_id caller.account_id s) ErrorCode.not_found
  (if lock_free then ok tt else throw_retryable ErrorCode.resource_busy)
  principal ← load_principal s env.now caller.grant_id
  machine ← row_or (owned_machine machine_id principal.account_id s) ErrorCode.not_found
  authorize principal Capability.machine_destroy (some machine.project_id)
  require allow ErrorCode.data_loss_not_authorized
  authorize principal Capability.machine_destroy_data_loss (some machine.project_id)
  answer_cleanup env s principal machine version allow key (
      find (matches_request principal.account_id (Scope.machine_actions machine.id) key)
        s.idempotency)
