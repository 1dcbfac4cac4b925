-- ===== src/Contracts/Lifecycle.antt =====
-- packages/contracts/src/lifecycle.ts: machines, the commands on them, and operations.
use agent_cloud.Base.{ℕ, Bool, true, false, Option, Eq, nat_eqb, ℕ_discrete, ◌≡◌, ◌↔◌, arith}
use agent_cloud.Contracts.Errors.{Failure}
use agent_cloud.Contracts.Policy.{Size, Region}
use agent_cloud.Contracts.Catalog.{CatalogItem, ProviderKind}
use agent_cloud.Contracts.Provider.{ResourceRef, Power, BackupStatus}

pub record MachineSpec : Type 0 where
  pub name : ℕ
  pub size : Size
  pub region : Region

pub data MachineAction : Type 0 where
  reboot power_off power_on : (expected_version : ℕ) → MachineAction
  resize : (expected_version : ℕ) → Size → MachineAction
  destroy : (expected_version : ℕ) → (allow_data_loss : Bool) → MachineAction

abbrev pub expected_version : MachineAction → ℕ
expected_version (MachineAction.reboot v) = v
expected_version (MachineAction.power_off v) = v
expected_version (MachineAction.power_on v) = v
expected_version (MachineAction.resize v _) = v
expected_version (MachineAction.destroy v _) = v

pub data LifecycleCommand : Type 0 where
  create : MachineSpec → LifecycleCommand
  act : MachineAction → LifecycleCommand

pub data OperationKind : Type 0 where
  create reboot power_off power_on resize destroy : OperationKind

abbrev pub operation_kind_code : OperationKind → ℕ
operation_kind_code OperationKind.create = 0
operation_kind_code OperationKind.reboot = 1
operation_kind_code OperationKind.power_off = 2
operation_kind_code OperationKind.power_on = 3
operation_kind_code OperationKind.resize = 4
operation_kind_code OperationKind.destroy = 5

pub operation_kind_code-injective :
    (a b : OperationKind)
    → (nat_eqb (operation_kind_code a) (operation_kind_code b) ≡ true) ↔ (a ≡ b)
operation_kind_code-injective a b = ground arith

instance abbrev pub operation_kind_eq : Eq OperationKind
operation_kind_eq = record {
  beq = λ a b. nat_eqb (operation_kind_code a) (operation_kind_code b);
  beq_iff = operation_kind_code-injective;
}

-- The kind `machine.${command.kind}`.
abbrev pub command_kind : LifecycleCommand → OperationKind
command_kind (LifecycleCommand.create _) = OperationKind.create
command_kind (LifecycleCommand.act (MachineAction.reboot _)) = OperationKind.reboot
command_kind (LifecycleCommand.act (MachineAction.power_off _)) = OperationKind.power_off
command_kind (LifecycleCommand.act (MachineAction.power_on _)) = OperationKind.power_on
command_kind (LifecycleCommand.act (MachineAction.resize _ _)) = OperationKind.resize
command_kind (LifecycleCommand.act (MachineAction.destroy _ _)) = OperationKind.destroy

pub data OperationIntent : Type 0 where
  run : OperationIntent
  compensate : Failure → OperationIntent
  cleanup : (source_operation_id : ℕ) → OperationIntent

abbrev pub is_cleanup : OperationIntent → Bool
is_cleanup (OperationIntent.cleanup _) = true
is_cleanup _ = false

pub data BlockedReason : Type 0 where
  provider_outcome_unknown duplicate_provider_resources provider_resource_mismatch : BlockedReason
  guest_unreachable guest_identity_mismatch guest_deadline_exceeded : BlockedReason
  guest_signing_exhausted cleanup_retry_exhausted : BlockedReason

pub data GuestStage : Type 0 where
  enrollment runtime : GuestStage

pub data OperationProgress : Type 0 where
  queued : OperationProgress
  submitting : (attempt_id : ℕ) → OperationProgress
  waiting_provider : (attempt_id action_id : ℕ) → ResourceRef → OperationProgress
  cleaning_up : OperationProgress
  verifying : ResourceRef → OperationProgress
  waiting_guest : (server_id : ℕ) → GuestStage → OperationProgress
  blocked : BlockedReason → OperationProgress
  succeeded cancelled : (completed_at : ℕ) → OperationProgress
  failed : (completed_at : ℕ) → Failure → OperationProgress

unfoldable pub OperationProgress-discrete : Discrete OperationProgress
OperationProgress-discrete = hlevel ℕ_discrete

-- The kinds 'succeeded', 'failed' and 'cancelled'.
abbrev pub is_terminal_progress : OperationProgress → Bool
is_terminal_progress (OperationProgress.succeeded _) = true
is_terminal_progress (OperationProgress.cancelled _) = true
is_terminal_progress (OperationProgress.failed _ _) = true
is_terminal_progress _ = false

-- A row of `operations`; `operationRecord` is the row without its command and offer.
pub record Operation : Type 0 where
  pub id : ℕ
  pub account_id : ℕ
  pub project_id : ℕ
  pub machine_id : ℕ
  pub grant_id : ℕ
  pub kind : OperationKind
  pub command : LifecycleCommand
  pub offer : Option CatalogItem
  pub intent : OperationIntent
  pub progress : OperationProgress
  pub created_at : ℕ

-- `isOperationTerminal`
abbrev pub is_operation_terminal : Operation → Bool
is_operation_terminal operation = is_terminal_progress operation.progress

pub data GuestVerification : Type 0 where
  pending : GuestVerification
  simulated : (verified_at : ℕ) → GuestVerification
  ssh : (verified_at image_version manifest_digest boot_id : ℕ) → GuestVerification

pub data MachineState : Type 0 where
  pending : MachineState
  provisioning : (allocation_id : ℕ) → MachineState
  allocated :
      (allocation_id server_id : ℕ) → Power → GuestVerification → BackupStatus → MachineState
  failed : Failure → MachineState
  destroyed : (destroyed_at : ℕ) → MachineState

abbrev pub is_destroyed : MachineState → Bool
is_destroyed (MachineState.destroyed _) = true
is_destroyed _ = false

pub record Machine : Type 0 where
  pub id : ℕ
  pub account_id : ℕ
  pub project_id : ℕ
  pub spec : MachineSpec
  pub provider : ProviderKind
  pub state : MachineState
  pub version : ℕ
  pub created_at : ℕ
