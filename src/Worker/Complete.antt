-- ===== src/Worker/Complete.antt =====
-- `fail` and `complete` of apps/control/src/advance-operation.ts: how an operation ends.
use agent_cloud.Base.{
  ℕ, suc, ◌+◌, List, Bool, false, Option, none, some, ◌&&◌, ◌==◌, ◌!=◌, nat_eq, leb, if◌then◌else◌,
  any, find, is_some, ⊤,
}
use agent_cloud.Base.Tables.{insert, update}
use agent_cloud.Base.Result.{Result, ok, throw, row_or, forbid, ◌>>=◌, ◌>>◌}
use agent_cloud.Contracts.Errors.{ErrorCode, Failure}
use agent_cloud.Contracts.Policy.{Size}
use agent_cloud.Contracts.Catalog.{CatalogItem, ProviderKind, is_daily}
use agent_cloud.Contracts.Provider.{ProviderServer, BackupStatus, backup_status_eq}
use agent_cloud.Contracts.Lifecycle.{
  Operation, OperationKind, operation_kind_eq, OperationProgress, BlockedReason, GuestStage,
  Machine, MachineState, MachineAction, LifecycleCommand, GuestVerification,
}
use agent_cloud.Store.{Allocation, OwnedResource, AuditEvent, State}
use agent_cloud.Store.Action.{Action, modify, transaction}
use agent_cloud.Admission.Request.{parse_offer}
use agent_cloud.Journal.Prepare.{boot_minutes, has_id, set_progress_of}
use agent_cloud.Journal.Submit.{write_progress}
use agent_cloud.Worker.Work.{Work, is_present, is_reservation, is_machine}

abbrev pub set_machine : (id : ℕ) → (Machine → Machine) → List Machine → List Machine
set_machine id change = update (is_machine id) (λ m. record (change m) { version = suc m.version })

abbrev pub retire : (now : ℕ) → Allocation → Allocation
retire now allocation = record allocation { retired_at = some now }

-- What `fail` writes for a creation.
abbrev pub fail_creation : Machine → Failure → (allocation_absent : Bool) → ℕ → State → State
fail_creation machine error allocation_absent now s = record s {
  machines =
      set_machine machine.id (λ m. record m { state = MachineState.failed error }) s.machines;
  allocations =
      if allocation_absent
      then update (is_reservation machine.id) (retire now) s.allocations
      else s.allocations;
}

abbrev pub ended : Operation → OperationProgress → AuditEvent → State → State
ended operation progress event s = record s {
  operations = set_progress_of operation.id progress s.operations;
  audit =
      insert
        (record { account_id = operation.account_id; subject_id = operation.id; event = event })
        s.audit;
}

unfoldable pub write_failure :
    Operation → Machine → Failure → (allocation_absent : Bool) → ℕ → State → State
write_failure operation machine error allocation_absent now s =
    ended operation (OperationProgress.failed now error) AuditEvent.operation_failed (
      if operation.kind == OperationKind.create
      then fail_creation machine error allocation_absent now s
      else s)

-- `fail`: a transaction in which nothing throws.
unfoldable pub fail : Work → Failure → (allocation_absent : Bool) → Action ⊤
unfolding write_failure
fail work error allocation_absent =
    modify (write_failure work.operation work.machine error allocation_absent work.moment.now)

-- The input of `complete`.
pub record Completion : Type 0 where
  pub operation : Operation
  pub machine : Machine
  pub server : Option ProviderServer
  pub verification : Option GuestVerification
  pub now : ℕ

pub data Verdict : Type 0 where
  proceed superseded expired : Verdict

abbrev pub awaits_runtime : Option ProviderServer → OperationProgress → Bool
awaits_runtime (some server) (OperationProgress.waiting_guest id GuestStage.runtime) =
    id == server.id
awaits_runtime _ _ = false

abbrev pub judge_runtime : Completion → Operation → Verdict
judge_runtime c current =
    if awaits_runtime c.server current.progress
    then (if leb (current.created_at + boot_minutes) c.now
        then Verdict.expired
        else Verdict.proceed)
    else Verdict.superseded

-- A verification over SSH holds only for the operation as it is now.
unfoldable pub check_runtime : Completion → Option GuestVerification → State → Result Verdict
check_runtime c none s = ok Verdict.proceed
check_runtime c (some _) s =
    row_or (find (has_id c.operation.id) s.operations) ErrorCode.internal_error >>= λ current.
    ok (judge_runtime c current)

abbrev pub is_live_of : (allocation_id : ℕ) → OwnedResource → Bool
is_live_of id row = row.allocation_id == id && is_present row

unfoldable pub finish_destroy : Completion → Allocation → State → Result State
finish_destroy c allocation s = do
  forbid (is_some c.server) ErrorCode.provider_outcome_unknown
  forbid (any (is_live_of allocation.id) s.resources) ErrorCode.provider_outcome_unknown
  ok (record s {
    allocations = update (λ (a : Allocation). a.id == allocation.id) (retire c.now) s.allocations;
    machines =
        set_machine c.machine.id (λ m. record m { state = MachineState.destroyed c.now })
          s.machines;
  })

-- The offer that a creation or a resize was admitted with.
abbrev pub admitted_offer : Operation → LifecycleCommand → Result (Option CatalogItem)
admitted_offer stored (LifecycleCommand.create _) = parse_offer stored.offer >>= λ o. ok (some o)
admitted_offer stored (LifecycleCommand.act (MachineAction.resize _ _)) =
    parse_offer stored.offer >>= λ o. ok (some o)
admitted_offer stored _ = ok none

abbrev pub backups_missing : Option CatalogItem → ProviderServer → Bool
backups_missing none server = false
backups_missing (some offer) server =
    is_daily offer.provider_backups && server.backup_status != BackupStatus.enabled

abbrev pub new_size : Machine → LifecycleCommand → Size
new_size machine (LifecycleCommand.act (MachineAction.resize _ size)) = size
new_size machine _ = machine.spec.size

abbrev pub allocated_guest : MachineState → GuestVerification
allocated_guest (MachineState.allocated _ _ _ guest _) = guest
allocated_guest _ = GuestVerification.pending

abbrev pub kept_guest : Option GuestVerification → MachineState → GuestVerification
kept_guest (some verification) state = verification
kept_guest none state = allocated_guest state

abbrev pub guest_verification : Completion → ProviderKind → GuestVerification
guest_verification c ProviderKind.simulated = GuestVerification.simulated c.now
guest_verification c ProviderKind.hetzner = kept_guest c.verification c.machine.state

abbrev pub take_offer : Option CatalogItem → Allocation → Allocation
take_offer none allocation = allocation
take_offer (some offer) allocation = record allocation {
  offer = some offer;
  hourly_micros = offer.hourly_micros;
}

abbrev pub allocated_state : Completion → Allocation → ProviderServer → MachineState
allocated_state c allocation server =
    MachineState.allocated allocation.id server.id server.power
      (guest_verification c c.machine.provider) server.backup_status

unfoldable pub finish_server :
    Completion → Allocation → Option ProviderServer → State → Result State
finish_server c allocation none s = throw ErrorCode.provider_outcome_unknown
finish_server c allocation (some server) s = do
  stored ← row_or (find (has_id c.operation.id) s.operations) ErrorCode.internal_error
  offer ← admitted_offer stored stored.command
  forbid (backups_missing offer server) ErrorCode.provider_rejected
  ok (record s {
    allocations =
        update (λ (a : Allocation). a.id == allocation.id)
          (λ a. take_offer offer (record a { server_id = some server.id })) s.allocations;
    machines =
        set_machine c.machine.id
          (λ m. record m {
            spec = record c.machine.spec { size = new_size c.machine stored.command };
            state = allocated_state c allocation server;
          })
          s.machines;
  })

unfoldable pub finish_operation : Completion → State → Result (⊤ × State)
unfolding finish_destroy finish_server
finish_operation c s = do
  allocation ← row_or (find (is_reservation c.machine.id) s.allocations) ErrorCode.internal_error
  written ←
      if c.operation.kind == OperationKind.destroy
      then finish_destroy c allocation s
      else finish_server c allocation c.server s
  ok (
    tt,
    ended c.operation (OperationProgress.succeeded c.now) AuditEvent.operation_succeeded written,
  )

unfoldable pub follow : Completion → Verdict → State → Result (⊤ × State)
unfolding finish_operation
follow c Verdict.superseded s = ok (tt, s)
follow c Verdict.expired s = ok (
  tt,
  write_progress c.operation (OperationProgress.blocked BlockedReason.guest_deadline_exceeded) s,
)
follow c Verdict.proceed s = finish_operation c s

unfoldable pub commit_completion : Completion → State → Result (⊤ × State)
unfolding check_runtime follow
commit_completion c s = do verdict ← check_runtime c c.verification s; follow c verdict s

unfoldable pub complete : Completion → Action ⊤
unfolding commit_completion
complete c = transaction (commit_completion c)

abbrev pub completion : Work → Option ProviderServer → Option GuestVerification → Completion
completion work server verification = record {
  operation = work.operation;
  machine = work.machine;
  server = server;
  verification = verification;
  now = work.moment.now;
}
