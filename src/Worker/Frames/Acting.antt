-- ===== src/Worker/Frames/Acting.antt =====
-- The other lifecycle commands, write by write.
use agent_cloud.Base.{ℕ, Option, none, some, find, is_none, ◌&&◌}
use agent_cloud.Base.Result.{throw}
use agent_cloud.Contracts.Errors.{ErrorCode}
use agent_cloud.Contracts.Provider.{
  ProviderServer, ResourceKind, ResourceObservation, EffectResolution,
}
use agent_cloud.Contracts.Lifecycle.{MachineAction, GuestStage}
use agent_cloud.Store.{Attempt, OwnedResource, State}
use agent_cloud.Store.Action.{pure, lift, call}
use agent_cloud.Store.Action.Keeps.{
  IsFrame, Respects, Respects-pure, Respects-lift, Respects-call, Respects-bind,
}
use agent_cloud.Store.Action.Ends.{
  Pauses, Pauses-ordinary, Pauses-bind, Respects-ends, Pauses-then, >>=-ends, if-ends,
}
use agent_cloud.Admission.Request.{parse_offer}
use agent_cloud.Worker.Work.{Work, is_present_kind, effect_of}
use agent_cloud.Worker.Act.{
  carries_out, is_destroy, boots, after_server, act_or_finish, is_live_provider, complete_with,
  verify_server, finish_action, after_effect, action_command, is_not_owned, act_on, submit_action,
  continue_action, advance_action,
}
use agent_cloud.Worker.Frames.{
  WorkFrame, IsDone, block-Respects, absence-Respects, complete-Respects,
  ensure_provider_backups-Pauses, release_and_complete-Respects,
}
use agent_cloud.Worker.Frames.Creating.{await_guest-Respects}

module _ {R Q : State → State → Type 0} (work : Work) (W : WorkFrame R Q work) where
  abbrev F : IsFrame R
  F = W.ending.frame

  complete_with-Respects : (server : Option ProviderServer) → Respects R (complete_with work server)
  complete_with-Respects none = Respects-pure F tt
  complete_with-Respects (some server) = complete-Respects work W (some server) none

  unchanged : (server : ProviderServer) → Pauses R Q IsDone (pure (some server))
  unchanged server = Pauses-ordinary W.ending _ (Respects-pure F _)

  verify_server-Pauses :
      (action : MachineAction) (server : ProviderServer)
      → Pauses R Q IsDone (verify_server work action server)
  unfolding verify_server
  verify_server-Pauses (MachineAction.resize v size) server =
      Pauses-bind W.ending (lift (parse_offer work.operation.offer)) _ (Respects-lift F _)
        (ensure_provider_backups-Pauses work W server)
  verify_server-Pauses (MachineAction.reboot v) server = unchanged server
  verify_server-Pauses (MachineAction.power_off v) server = unchanged server
  verify_server-Pauses (MachineAction.power_on v) server = unchanged server
  verify_server-Pauses (MachineAction.destroy v loss) server = unchanged server

  finish_action-Respects :
      (action : MachineAction) (server : ProviderServer)
      → Respects Q (finish_action work action server)
  unfolding finish_action
  finish_action-Respects action server =
      if-ends W.ending (is_live_provider work.provider.kind && boots action) _ _
        (Respects-ends W.ending _ (await_guest-Respects work W server GuestStage.runtime))
        (Pauses-then W.ending (verify_server work action server) (complete_with work)
          (verify_server-Pauses action server) (λ server _. complete_with-Respects server)
          λ server. Respects-ends W.ending _ (complete_with-Respects server))

  refuse : {A : Type 0} (code : ErrorCode) → Respects Q (lift (throw {A = A} code))
  refuse code = Respects-ends W.ending _ (Respects-lift F _)

  action_command-Respects :
      (action : MachineAction) (id : ℕ) → Respects R (action_command work action id)
  unfolding action_command
  action_command-Respects (MachineAction.resize v size) id =
      Respects-bind F (lift (parse_offer work.operation.offer)) _ (Respects-lift F _)
        λ offer. Respects-pure F _
  action_command-Respects (MachineAction.reboot v) id = Respects-pure F _
  action_command-Respects (MachineAction.power_off v) id = Respects-pure F _
  action_command-Respects (MachineAction.power_on v) id = Respects-pure F _
  action_command-Respects (MachineAction.destroy v loss) id = Respects-pure F _

  act_on-Respects :
      (action : MachineAction) (row : OwnedResource) (server : Option ProviderServer)
      → Respects Q (act_on work action row server)
  unfolding act_on
  act_on-Respects action row (some server) =
      if-ends W.ending (is_not_owned work row server) _ _
        (Respects-ends W.ending _ (block-Respects work W _))
        (>>=-ends W.ending (action_command work action server.id) _
          (action_command-Respects action server.id) λ command. W.journal command _)
  act_on-Respects action row none =
      if-ends W.ending (is_destroy action) _ _
        (Respects-ends W.ending _ (absence-Respects work W row))
        (refuse ErrorCode.provider_rejected)

  submit_action-Respects :
      (action : MachineAction) (row : Option OwnedResource) (server_id : Option ℕ)
      → Respects Q (submit_action work action row server_id)
  unfolding submit_action
  submit_action-Respects action (some row) (some server_id) =
      >>=-ends W.ending (call (λ n. work.provider.get_server n server_id)) _ (Respects-call F _)
        (act_on-Respects action row)
  submit_action-Respects action (some row) none = refuse ErrorCode.provider_rejected
  submit_action-Respects action none server_id = refuse ErrorCode.provider_rejected

  after_server-Respects :
      (action : MachineAction) (observed : ResourceObservation)
      → Respects Q (after_server work action observed)
  unfolding after_server
  after_server-Respects action (ResourceObservation.saw_server server) =
      finish_action-Respects action server
  after_server-Respects action (ResourceObservation.saw_primary_ip ip) =
      refuse ErrorCode.internal_error
  after_server-Respects action (ResourceObservation.absent resource) =
      refuse ErrorCode.internal_error

  after_effect-Respects :
      (action : MachineAction) (resolution : EffectResolution)
      → Respects Q (after_effect work action resolution)
  unfolding after_effect
  after_effect-Respects action (EffectResolution.confirmed observed) =
      if-ends W.ending (is_destroy action) _ _ (release_and_complete-Respects work W)
        (after_server-Respects action observed)
  after_effect-Respects action EffectResolution.pending = refuse ErrorCode.internal_error
  after_effect-Respects action (EffectResolution.failed failure) = refuse ErrorCode.internal_error
  after_effect-Respects action (EffectResolution.operator_closed id) =
      refuse ErrorCode.internal_error
  after_effect-Respects action (EffectResolution.control_closed id) =
      refuse ErrorCode.internal_error

  act_or_finish-Respects :
      (action : MachineAction) (server : Option OwnedResource) (effect : Option Attempt)
      → Respects Q (act_or_finish work action server effect)
  unfolding act_or_finish
  act_or_finish-Respects action server (some effect) =
      after_effect-Respects action effect.resolution
  act_or_finish-Respects action server none =
      submit_action-Respects action server work.allocation.server_id

  continue_action-Respects :
      (action : MachineAction) (server : Option OwnedResource) (effect : Option Attempt)
      → Respects Q (continue_action work action server effect)
  unfolding continue_action
  continue_action-Respects action server effect =
      if-ends W.ending (is_destroy action && is_none server) _ _
        (release_and_complete-Respects work W) (act_or_finish-Respects action server effect)

  pub advance_action-Respects : (action : MachineAction) → Respects Q (advance_action work action)
  unfolding advance_action
  advance_action-Respects action =
      continue_action-Respects action (find (is_present_kind ResourceKind.server) work.resources)
        (effect_of (carries_out action) work.history)
