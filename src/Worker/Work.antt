-- ===== src/Worker/Work.antt =====
-- What one tick of the worker of apps/control/src/advance-operation.ts has at hand.
use agent_cloud.Base.{ℕ, List, Bool, false, Option, ◌&&◌, ◌==◌, nat_eq, find, select, is_none, ⊤}
use agent_cloud.Base.Result.{Result}
use agent_cloud.Contracts.Provider.{
  ProviderCommand, ProviderServer, ResourceKind, resource_kind_eq, MachineProvider,
}
use agent_cloud.Contracts.Lifecycle.{
  Operation, OperationProgress, BlockedReason, Machine, GuestVerification,
}
use agent_cloud.Store.{Allocation, Attempt, OwnedResource, Limits}
use agent_cloud.Store.Action.{Action}
use agent_cloud.Journal.Prepare.{Effect, Authorization}
use agent_cloud.Journal.Submit.{set_progress}
use agent_cloud.Journal.Resolve.{is_pending}

-- `RuntimeDecision` of apps/control/src/guest-readiness.ts.
pub data RuntimeDecision : Type 0 where
  ready : ProviderServer → (verification : GuestVerification) → RuntimeDecision
  waiting : RuntimeDecision
  blocked : BlockedReason → RuntimeDecision

-- What the worker is given to prepare and to probe guests. Each answer may depend on how many calls
-- came before, as those of a provider may. Images and references to a bootstrap are numbers.
pub record GuestPorts : Type 0 where
  pub resolve_image : ℕ → Allocation → Result ℕ
  pub prepare_bootstrap : ℕ → Allocation → Operation → (image : ℕ) → Result ℕ
  pub check : ℕ → Operation → Machine → Allocation → Result RuntimeDecision

pub data GuestProvisioning : Type 0 where
  disabled : GuestProvisioning
  enabled : GuestPorts → GuestProvisioning

-- The clock of the process, the clock of the database and the new id that one tick takes.
pub record Moment : Type 0 where
  pub clock : ℕ
  pub now : ℕ
  pub new_attempt_id : ℕ

pub record Work : Type 0 where
  pub operation : Operation
  pub machine : Machine
  pub allocation : Allocation
  pub provider : MachineProvider
  pub limits : Limits
  pub history : List Attempt
  pub resources : List OwnedResource
  pub guest : GuestProvisioning
  pub moment : Moment

abbrev pub is_pending_attempt : Attempt → Bool
is_pending_attempt attempt = is_pending attempt.resolution

abbrev pub resources_of : (allocation_id : ℕ) → List OwnedResource → List OwnedResource
resources_of id = select (λ (r : OwnedResource). r.allocation_id == id)

-- `!row.absentAt`
abbrev pub is_present : OwnedResource → Bool
is_present row = is_none row.absent_at

abbrev pub is_present_kind : ResourceKind → OwnedResource → Bool
is_present_kind kind row = row.kind == kind && is_present row

abbrev pub is_kind_with : ResourceKind → (provider_id : ℕ) → OwnedResource → Bool
is_kind_with kind id row = row.kind == kind && row.provider_id == id

-- The live reservation of a machine.
abbrev pub is_reservation : (machine_id : ℕ) → Allocation → Bool
is_reservation id allocation = allocation.machine_id == id && is_none allocation.retired_at

abbrev pub is_machine : (id : ℕ) → Machine → Bool
is_machine id machine = machine.id == id

-- `effectOf`, with the test of the command's kind.
unfoldable pub effect_of : (ProviderCommand → Bool) → List Attempt → Option Attempt
effect_of test history = find (λ (a : Attempt). test a.command) history

-- The object that a command changes, of which the labels of an owned resource are known.
abbrev pub changes : ProviderCommand → OwnedResource → Bool
changes (ProviderCommand.delete_primary_ip id) row = is_kind_with ResourceKind.primary_ip id row
changes (ProviderCommand.reboot id) row = is_kind_with ResourceKind.server id row
changes (ProviderCommand.power_off id) row = is_kind_with ResourceKind.server id row
changes (ProviderCommand.power_on id) row = is_kind_with ResourceKind.server id row
changes (ProviderCommand.enable_backup id) row = is_kind_with ResourceKind.server id row
changes (ProviderCommand.resize id _) row = is_kind_with ResourceKind.server id row
changes (ProviderCommand.destroy id) row = is_kind_with ResourceKind.server id row
changes _ row = false

abbrev pub block : Operation → BlockedReason → Action ⊤
block operation reason = set_progress operation (OperationProgress.blocked reason)

abbrev pub mismatch : Operation → Action ⊤
mismatch operation = block operation BlockedReason.provider_resource_mismatch

-- The input of `journalEffect`.
abbrev pub effect_for : Work → ProviderCommand → Authorization → Effect
effect_for work command authorization = record {
  operation = work.operation;
  allocation = work.allocation;
  command = command;
  provider = work.provider;
  limits = work.limits;
  authorization = authorization;
  clock = work.moment.clock;
  now = work.moment.now;
  new_attempt_id = work.moment.new_attempt_id;
}
