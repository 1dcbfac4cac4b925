-- ===== src/Admission/Admit.antt =====
-- `admit` of apps/control/src/lifecycle.ts, for requests without an image selection. The body is one
-- transaction, so it yields an operation with the new state, or an error and no state.
pub mod Prepare
use agent_cloud.Base.{
  ℕ, ◌+◌, ◌-◌, List, Option, none, some, Bool, false, ◌&&◌, ◌||◌, not, ◌==◌, ◌!=◌, nat_eq, ltb, max,
  find, any, is_none,
}
use agent_cloud.Base.Tables.{insert, update}
use agent_cloud.Base.Result.{Result, ok, require, forbid, row_or, ◌>>=◌, ◌>>◌}
use agent_cloud.Contracts.Errors.{ErrorCode}
use agent_cloud.Contracts.Policy.{Principal, Size, Region}
use agent_cloud.Contracts.Catalog.{CatalogItem, select_offer, provider_kind_eq, architecture_eq}
use agent_cloud.Contracts.Provider.{Power, power_eq}
use agent_cloud.Contracts.Lifecycle.{
  Machine, MachineSpec, MachineState, MachineAction, LifecycleCommand, Operation, OperationIntent,
  OperationProgress, is_destroyed, is_operation_terminal, expected_version, command_kind,
}
use agent_cloud.Store.{Account, Project, Allocation, NetworkProfile, State, AuditEvent, Idempotency}
use agent_cloud.Auth.Authority.{load_principal}
use agent_cloud.Admission.Command.{authorize_command}
use agent_cloud.Admission.Reservation.{Extra, assert_reservation, is_live}
use agent_cloud.Admission.Request.{
  Admission, admission_command, admission_scope, Setting, matches_request, is_operation,
  parse_offer, enqueue,
}
use agent_cloud.Admission.Cleanup.{admit_cleanup, owned_machine}
unfoldable pub use Prepare.*

abbrev pub new_operation : Setting → Principal → LifecycleCommand → Prepared → Operation
new_operation env principal command prepared = record {
  id = env.new_operation_id;
  account_id = principal.account_id;
  project_id = prepared.machine.project_id;
  machine_id = prepared.machine.id;
  grant_id = principal.grant_id;
  kind = command_kind command;
  command = command;
  offer = prepared.offer;
  intent = OperationIntent.run;
  progress = OperationProgress.queued;
  created_at = env.now;
}

-- The writes that end every new admission.
abbrev pub record_admission : Setting → Principal → (key : ℕ) → Admission → Prepared → State
record_admission env principal key request prepared =
    let command = admission_command request in
    let s = prepared.state in
    record s {
      operations = insert (new_operation env principal command prepared) s.operations;
      idempotency =
          insert
            (record {
              account_id = principal.account_id;
              scope = admission_scope request;
              key = key;
              request_hash = env.request_hash command;
              operation_id = env.new_operation_id;
            })
            s.idempotency;
      audit =
          insert
            (record {
              account_id = principal.account_id;
              subject_id = env.new_operation_id;
              event = AuditEvent.operation_admitted;
            })
            s.audit;
      jobs = enqueue env.new_operation_id s.jobs;
    }

-- The answer to a request whose key has been used.
unfoldable pub replay :
    Setting → State → Principal → LifecycleCommand → Idempotency → Result (Operation × State)
replay env s principal command previous = do
  require (previous.request_hash == env.request_hash command) ErrorCode.idempotency_conflict
  operation ←
      row_or (find (is_operation previous.operation_id principal.account_id) s.operations)
        ErrorCode.internal_error
  authorize_command principal operation.project_id command
  ok (operation, s)

unfoldable pub admit_fresh :
    Setting → State → Principal → Account → (key : ℕ) → Admission → Result (Operation × State)
unfolding prepare
admit_fresh env s principal account key request = do
  prepared ← prepare env s principal account request
  ok (
    new_operation env principal (admission_command request) prepared,
    record_admission env principal key request prepared,
  )

abbrev pub is_account : ℕ → Account → Bool
is_account id a = a.id == id

unfoldable pub answer :
    Setting
    → State
    → Principal
    → Account
    → (key : ℕ) → Admission
    → Option Idempotency
    → Result (Operation × State)
unfolding replay admit_fresh
answer env s principal account key request (some previous) =
    replay env s principal (admission_command request) previous
answer env s principal account key request none = admit_fresh env s principal account key request

unfoldable pub admit_locked :
    Setting → State → Principal → (key : ℕ) → Admission → Result (Operation × State)
unfolding answer
admit_locked env s caller key request = do
  account ← row_or (find (is_account caller.account_id) s.accounts) ErrorCode.unauthenticated
  principal ← load_principal s env.now caller.grant_id
  answer env s principal account key request
      (find (matches_request principal.account_id (admission_scope request) key) s.idempotency)

-- `lock_free`: whether the machine's advisory lock can be had, which only a cleanup asks for.
unfoldable pub admit :
    Setting
    → (lock_free : Bool) → State
    → Principal
    → (key : ℕ) → Admission
    → Result (Operation × State)
unfolding admit_locked
admit env lock_free s caller key
      (Admission.action machine_id (MachineAction.destroy version allow)) =
    admit_cleanup env lock_free s caller machine_id version allow key
admit env lock_free s caller key request = admit_locked env s caller key request
