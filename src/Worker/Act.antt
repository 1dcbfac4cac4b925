-- ===== src/Worker/Act.antt =====
-- The other lifecycle commands, in `advanceLocked` of apps/control/src/advance-operation.ts: reboot, power,
-- resize and destroy.
use agent_cloud.Base.{
  ℕ, Bool, true, false, Option, none, some, ◌&&◌, ◌||◌, not, ◌==◌, ◌!=◌, nat_eq, option_eq,
  if◌then◌else◌, any, find, is_none, ⊤,
}
use agent_cloud.Base.Result.{throw}
use agent_cloud.Contracts.Errors.{ErrorCode}
use agent_cloud.Contracts.Catalog.{ProviderKind}
use agent_cloud.Contracts.Provider.{
  ProviderCommand, ProviderServer, ResourceKind, resource_kind_eq, ResourceObservation,
  EffectResolution,
}
use agent_cloud.Contracts.Lifecycle.{MachineAction, GuestStage}
use agent_cloud.Store.{is_managed, Attempt, OwnedResource}
use agent_cloud.Store.Action.{Action, pure, lift, call, modify, ◌>>=◌}
use agent_cloud.Admission.Request.{parse_offer}
use agent_cloud.Journal.Resources.{matches_labels, owned_ref, record_absence}
use agent_cloud.Journal.Prepare.{Authorization}
use agent_cloud.Journal.Submit.{journal_effect}
use agent_cloud.Worker.Work.{Work, is_present, is_present_kind, effect_of, mismatch, effect_for}
use agent_cloud.Worker.Complete.{complete, completion}
use agent_cloud.Worker.Effects.{ensure_provider_backups, release_and_complete}
use agent_cloud.Worker.Create.{await_guest}

-- `command.kind === lifecycle.kind`
abbrev pub carries_out : MachineAction → ProviderCommand → Bool
carries_out (MachineAction.reboot _) (ProviderCommand.reboot _) = true
carries_out (MachineAction.power_off _) (ProviderCommand.power_off _) = true
carries_out (MachineAction.power_on _) (ProviderCommand.power_on _) = true
carries_out (MachineAction.resize _ _) (ProviderCommand.resize _ _) = true
carries_out (MachineAction.destroy _ _) (ProviderCommand.destroy _) = true
carries_out _ _ = false

abbrev pub is_destroy : MachineAction → Bool
is_destroy (MachineAction.destroy _ _) = true
is_destroy _ = false

abbrev pub boots : MachineAction → Bool
boots (MachineAction.reboot _) = true
boots (MachineAction.power_on _) = true
boots _ = false

abbrev pub is_live_provider : ProviderKind → Bool
is_live_provider ProviderKind.hetzner = true
is_live_provider ProviderKind.simulated = false

abbrev pub complete_with : Work → Option ProviderServer → Action ⊤
complete_with work none = pure tt
complete_with work (some server) = complete (completion work (some server) none)

-- The server that a completion shows: after a resize with its backups enabled.
unfoldable pub verify_server :
    Work → MachineAction → ProviderServer → Action (Option ProviderServer)
verify_server work (MachineAction.resize _ _) server = do
  offer ← lift (parse_offer work.operation.offer)
  ensure_provider_backups work server offer
verify_server work _ server = pure (some server)

unfoldable pub finish_action : Work → MachineAction → ProviderServer → Action ⊤
unfolding verify_server
finish_action work action server =
    if is_live_provider work.provider.kind && boots action
    then await_guest work server GuestStage.runtime
    else (verify_server work action server >>= complete_with work)

unfoldable pub after_server : Work → MachineAction → ResourceObservation → Action ⊤
unfolding finish_action
after_server work action (ResourceObservation.saw_server server) = finish_action work action server
after_server work action _ = lift (throw ErrorCode.internal_error)

unfoldable pub after_effect : Work → MachineAction → EffectResolution → Action ⊤
unfolding after_server
after_effect work action (EffectResolution.confirmed observed) =
    if is_destroy action then release_and_complete work else after_server work action observed
after_effect work action _ = lift (throw ErrorCode.internal_error)

unfoldable pub action_command : Work → MachineAction → (server_id : ℕ) → Action ProviderCommand
action_command work (MachineAction.resize _ _) server_id = do
  offer ← lift (parse_offer work.operation.offer)
  pure (ProviderCommand.resize server_id offer.server_type)
action_command work (MachineAction.reboot _) server_id = pure (ProviderCommand.reboot server_id)
action_command work (MachineAction.power_off _) server_id =
    pure (ProviderCommand.power_off server_id)
action_command work (MachineAction.power_on _) server_id = pure (ProviderCommand.power_on server_id)
action_command work (MachineAction.destroy _ _) server_id = pure (ProviderCommand.destroy server_id)

abbrev pub has_ip : ProviderServer → OwnedResource → Bool
has_ip server row =
    row.kind == ResourceKind.primary_ip
    && some row.provider_id == server.primary_ip_id
    && is_present row

-- What is shown is not the owned server, or not with an owned address.
abbrev pub is_not_owned : Work → OwnedResource → ProviderServer → Bool
is_not_owned work row server =
    (server.id != row.provider_id || not (matches_labels server.labels row.labels))
    || (is_managed work.allocation.network_profile && not (any (has_ip server) work.resources))

unfoldable pub act_on : Work → MachineAction → OwnedResource → Option ProviderServer → Action ⊤
unfolding action_command
act_on work action row none =
    if is_destroy action
    then modify (record_absence work.moment.now work.allocation (owned_ref row))
    else lift (throw ErrorCode.provider_rejected)
act_on work action row (some server) =
    if is_not_owned work row server
    then mismatch work.operation
    else (action_command work action server.id >>= λ command.
        journal_effect (effect_for work command Authorization.fresh))

unfoldable pub submit_action :
    Work → MachineAction → Option OwnedResource → (server_id : Option ℕ) → Action ⊤
unfolding act_on
submit_action work action (some row) (some server_id) =
    call (λ n. work.provider.get_server n server_id) >>= act_on work action row
submit_action work action _ _ = lift (throw ErrorCode.provider_rejected)

unfoldable pub act_or_finish :
    Work → MachineAction → (server : Option OwnedResource) → (effect : Option Attempt) → Action ⊤
unfolding after_effect submit_action
act_or_finish work action server (some effect) = after_effect work action effect.resolution
act_or_finish work action server none = submit_action work action server work.allocation.server_id

unfoldable pub continue_action :
    Work → MachineAction → (server : Option OwnedResource) → (effect : Option Attempt) → Action ⊤
unfolding act_or_finish
continue_action work action server effect =
    if is_destroy action && is_none server
    then release_and_complete work
    else act_or_finish work action server effect

unfoldable pub advance_action : Work → MachineAction → Action ⊤
unfolding continue_action
advance_action work action =
    continue_action work action (find (is_present_kind ResourceKind.server) work.resources)
      (effect_of (carries_out action) work.history)
