-- ===== src/Worker/Frames/Creating.antt =====
-- The creation of a machine, write by write.
use agent_cloud.Base.{ℕ, Bool, true, false, Option, none, some, find, ⊤}
use agent_cloud.Base.Result.{throw}
use agent_cloud.Contracts.Errors.{ErrorCode}
use agent_cloud.Contracts.Catalog.{CatalogItem, ProviderKind}
use agent_cloud.Contracts.Provider.{
  ProviderServer, ProviderPrimaryIp, ResourceKind, ResourceObservation, EffectResolution,
  is_server_create_command,
}
use agent_cloud.Contracts.Lifecycle.{OperationProgress, GuestStage}
use agent_cloud.Store.{NetworkProfile, Attempt, OwnedResource, State}
use agent_cloud.Store.Action.{pure, lift, query, call, modify}
use agent_cloud.Store.Action.Keeps.{
  IsFrame, Respects, Respects-pure, Respects-lift, Respects-query, Respects-call, Respects-if,
  Respects-bind,
}
use agent_cloud.Store.Action.Ends.{Respects-ends, Pauses-then, >>=-ends, if-ends}
use agent_cloud.Admission.Request.{parse_offer}
use agent_cloud.Journal.Resources.{owned_ref, record_absence}
use agent_cloud.Journal.Submit.{set_progress}
use agent_cloud.Worker.Work.{
  GuestPorts, GuestProvisioning, Work, is_present_kind, effect_of, mismatch,
}
use agent_cloud.Worker.Effects.{ensure_provider_backups}
use agent_cloud.Worker.Create.{
  choose_image, is_unfit_ip, inspect_ip, check_ip, guest_command, create_command, submit_creation,
  create_server, is_identity, stage, await_guest, finish_creation, after_creation,
  continue_creation, needs_ip, advance_create,
}
use agent_cloud.Worker.Frames.{
  WorkFrame, block-Respects, absence-Respects, complete-Respects, verify_runtime-Respects,
  ensure_provider_backups-Pauses,
}

module _ {R Q : State → State → Type 0} (work : Work) (W : WorkFrame R Q work) where
  abbrev F : IsFrame R
  F = W.ending.frame

  choose_image-Respects :
      (create : Option Attempt) (kind : ProviderKind) (guest : GuestProvisioning)
      → Respects R (choose_image work create kind guest)
  unfolding choose_image
  choose_image-Respects none ProviderKind.hetzner GuestProvisioning.disabled = Respects-lift F _
  choose_image-Respects none ProviderKind.hetzner (GuestProvisioning.enabled ports) =
      Respects-bind F (call (λ n. ports.resolve_image n work.allocation)) _ (Respects-call F _)
        λ image. Respects-pure F (some image)
  choose_image-Respects none ProviderKind.simulated guest = Respects-pure F none
  choose_image-Respects (some create) kind guest = Respects-pure F none

  inspect_ip-Respects :
      (row : OwnedResource) (ip : Option ProviderPrimaryIp) → Respects R (inspect_ip work row ip)
  unfolding inspect_ip
  inspect_ip-Respects row none =
      Respects-bind F (modify (record_absence work.moment.now work.allocation (owned_ref row))) _
        (absence-Respects work W row) λ _. Respects-lift F (throw ErrorCode.provider_rejected)
  inspect_ip-Respects row (some ip) =
      Respects-if F (is_unfit_ip row ip) _ _
        (Respects-bind F (mismatch work.operation) _ (block-Respects work W _)
          λ _. Respects-pure F false)
        (Respects-pure F true)

  check_ip-Respects :
      (profile : NetworkProfile) (ip : Option OwnedResource) → Respects R (check_ip work profile ip)
  unfolding check_ip
  check_ip-Respects NetworkProfile.legacy ip = Respects-pure F true
  check_ip-Respects NetworkProfile.managed_ipv4 none = Respects-lift F _
  check_ip-Respects NetworkProfile.managed_ipv4 (some row) =
      Respects-bind F (call (λ n. work.provider.get_primary_ip n row.provider_id)) _
        (Respects-call F _) (inspect_ip-Respects row)

  guest_command-Respects :
      (offer : CatalogItem) (profile : NetworkProfile) (ip : Option OwnedResource)
      (ports : GuestPorts) (image : ℕ)
      → Respects R (guest_command work offer profile ip ports image)
  unfolding guest_command
  guest_command-Respects offer NetworkProfile.managed_ipv4 (some row) ports image =
      Respects-bind F (call (λ n. ports.prepare_bootstrap n work.allocation work.operation image)) _
        (Respects-call F _) λ bootstrap. Respects-pure F _
  guest_command-Respects offer NetworkProfile.managed_ipv4 none ports image = Respects-lift F _
  guest_command-Respects offer NetworkProfile.legacy ip ports image = Respects-lift F _

  create_command-Respects :
      (offer : CatalogItem) (ip : Option OwnedResource) (guest : GuestProvisioning)
      (image : Option ℕ)
      → Respects R (create_command work offer ip guest image)
  unfolding create_command
  create_command-Respects offer ip (GuestProvisioning.enabled ports) (some image) =
      guest_command-Respects offer work.allocation.network_profile ip ports image
  create_command-Respects offer ip (GuestProvisioning.enabled ports) none = Respects-pure F _
  create_command-Respects offer ip GuestProvisioning.disabled image = Respects-pure F _

  submit_creation-Respects :
      (offer : CatalogItem) (ip : Option OwnedResource) (image : Option ℕ) (fit : Bool)
      → Respects Q (submit_creation work offer ip image fit)
  unfolding submit_creation
  submit_creation-Respects offer ip image false =
      Respects-ends W.ending (pure tt) (Respects-pure F tt)
  submit_creation-Respects offer ip image true =
      >>=-ends W.ending (create_command work offer ip work.guest image) _
        (create_command-Respects offer ip work.guest image) λ command. W.journal command _

  create_server-Respects :
      (offer : CatalogItem) (image : Option ℕ) → Respects Q (create_server work offer image)
  unfolding create_server
  create_server-Respects offer image =
      let ip = find (is_present_kind ResourceKind.primary_ip) work.resources in
      >>=-ends W.ending (check_ip work work.allocation.network_profile ip) _
        (check_ip-Respects work.allocation.network_profile ip)
        (submit_creation-Respects offer ip image)

  pub await_guest-Respects :
      (server : ProviderServer) (stage : GuestStage) → Respects R (await_guest work server stage)
  unfolding await_guest
  await_guest-Respects server stage =
      Respects-bind F
        (set_progress work.operation (OperationProgress.waiting_guest server.id stage)) _
        (W.writes.progress _) λ _. verify_runtime-Respects work W work.guest

  finish_creation-Respects :
      (created : ProviderServer) (kind : ProviderKind) (backed_up : Option ProviderServer)
      → Respects R (finish_creation work created kind backed_up)
  unfolding finish_creation
  finish_creation-Respects created kind none = Respects-pure F tt
  finish_creation-Respects created ProviderKind.hetzner (some server) =
      Respects-bind F (query (λ s. find (is_identity work.allocation.id) s.identities)) _
        (Respects-query F _) λ identity. await_guest-Respects created (stage identity)
  finish_creation-Respects created ProviderKind.simulated (some server) =
      complete-Respects work W (some server) none

  refuse : (code : ErrorCode) → Respects Q (lift (throw {A = ⊤} code))
  refuse code = Respects-ends W.ending _ (Respects-lift F _)

  after_creation-Respects :
      (offer : CatalogItem) (resolution : EffectResolution)
      → Respects Q (after_creation work offer resolution)
  unfolding after_creation
  after_creation-Respects offer
        (EffectResolution.confirmed (ResourceObservation.saw_server server)) =
      Pauses-then W.ending (ensure_provider_backups work server offer) _
        (ensure_provider_backups-Pauses work W server offer)
        (λ backed_up _. finish_creation-Respects server work.provider.kind backed_up)
        λ backed_up.
          Respects-ends W.ending _ (finish_creation-Respects server work.provider.kind backed_up)
  after_creation-Respects offer
        (EffectResolution.confirmed (ResourceObservation.saw_primary_ip i)) =
      refuse _
  after_creation-Respects offer (EffectResolution.confirmed (ResourceObservation.absent r)) =
      refuse _
  after_creation-Respects offer EffectResolution.pending = refuse _
  after_creation-Respects offer (EffectResolution.failed failure) = refuse _
  after_creation-Respects offer (EffectResolution.operator_closed id) = refuse _
  after_creation-Respects offer (EffectResolution.control_closed id) = refuse _

  continue_creation-Respects :
      (offer : CatalogItem) (image : Option ℕ) (create : Option Attempt)
      → Respects Q (continue_creation work offer image create)
  unfolding continue_creation
  continue_creation-Respects offer image none = create_server-Respects offer image
  continue_creation-Respects offer image (some create) =
      after_creation-Respects offer create.resolution

  pub advance_create-Respects : Respects Q (advance_create work)
  unfolding advance_create
  advance_create-Respects =
      let create = effect_of is_server_create_command work.history in
      >>=-ends W.ending (lift (parse_offer work.operation.offer)) _ (Respects-lift F _) λ offer.
        >>=-ends W.ending (choose_image work create work.provider.kind work.guest) _
          (choose_image-Respects create work.provider.kind work.guest)
          λ image.
            if-ends W.ending (needs_ip work) _ _ (W.journal _ _)
              (continue_creation-Respects offer image create)
