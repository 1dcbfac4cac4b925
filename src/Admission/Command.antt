-- ===== src/Admission/Command.antt =====
-- `authorizeCommand` of apps/control/src/lifecycle.ts.
use agent_cloud.Base.{ℕ, some, ◌&&◌, includes, ⊤}
use agent_cloud.Base.Result.{Result, require, ◌>>◌}
use agent_cloud.Contracts.Errors.{ErrorCode}
use agent_cloud.Contracts.Policy.{Principal, Capability, size_eq, region_eq}
use agent_cloud.Contracts.Lifecycle.{LifecycleCommand, MachineAction}
use agent_cloud.Auth.Policy.{authorize}

unfoldable pub authorize_command : Principal → (project_id : ℕ) → LifecycleCommand → Result ⊤
authorize_command principal project_id (LifecycleCommand.create spec) = do
  authorize principal Capability.machine_create (some project_id)
  require
      (includes principal.policy.sizes spec.size && includes principal.policy.regions spec.region)
      ErrorCode.permission_denied
authorize_command principal project_id
      (LifecycleCommand.act (MachineAction.destroy _ allow_data_loss)) =
    do
      authorize principal Capability.machine_destroy (some project_id)
      require allow_data_loss ErrorCode.data_loss_not_authorized
      authorize principal Capability.machine_destroy_data_loss (some project_id)
authorize_command principal project_id (LifecycleCommand.act (MachineAction.resize _ size)) = do
  authorize principal Capability.machine_operate (some project_id)
  require (includes principal.policy.sizes size) ErrorCode.permission_denied
authorize_command principal project_id (LifecycleCommand.act (MachineAction.reboot _)) =
    authorize principal Capability.machine_operate (some project_id)
authorize_command principal project_id (LifecycleCommand.act (MachineAction.power_on _)) =
    authorize principal Capability.machine_operate (some project_id)
authorize_command principal project_id (LifecycleCommand.act (MachineAction.power_off _)) =
    authorize principal Capability.machine_operate (some project_id)
