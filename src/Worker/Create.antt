-- ===== src/Worker/Create.antt =====
-- The creation of a machine, in `advanceLocked` of apps/control/src/advance-operation.ts: an address, the
-- server, its backups and its guest.
use agent_cloud.Base.{
  ℕ, Bool, true, false, Option, none, some, ◌&&◌, ◌||◌, not, ◌==◌, nat_eq, if◌then◌else◌, find,
  is_none, ⊤,
}
use agent_cloud.Base.Result.{throw}
use agent_cloud.Contracts.Errors.{ErrorCode}
use agent_cloud.Contracts.Policy.{region_code}
use agent_cloud.Contracts.Catalog.{CatalogItem, ProviderKind}
use agent_cloud.Contracts.Provider.{
  ProviderCommand, ProviderServer, ProviderPrimaryIp, ResourceKind, Network, ResourceObservation,
  EffectResolution, is_server_create_command,
}
use agent_cloud.Contracts.Lifecycle.{OperationProgress, GuestStage}
use agent_cloud.Store.{NetworkProfile, is_managed, Attempt, OwnedResource, GuestIdentity}
use agent_cloud.Store.Action.{Action, pure, lift, query, call, modify, ◌>>=◌, ◌>>◌}
use agent_cloud.Admission.Request.{parse_offer}
use agent_cloud.Journal.Resources.{effect_labels, owned_ref, record_absence}
use agent_cloud.Journal.Prepare.{Authorization}
use agent_cloud.Journal.Submit.{set_progress, journal_effect}
use agent_cloud.Worker.Work.{
  GuestPorts, GuestProvisioning, Work, is_present_kind, effect_of, mismatch, effect_for,
}
use agent_cloud.Worker.Complete.{complete, completion}
use agent_cloud.Worker.Effects.{verify_runtime, ensure_provider_backups, is_wrong_ip}

abbrev pub is_ip_creation : ProviderCommand → Bool
is_ip_creation (ProviderCommand.create_primary_ip _ _) = true
is_ip_creation _ = false

-- The image of a guest that is still to be created, which only a live provider needs.
unfoldable pub choose_image :
    Work → Option Attempt → ProviderKind → GuestProvisioning → Action (Option ℕ)
choose_image work none ProviderKind.hetzner GuestProvisioning.disabled =
    lift (throw ErrorCode.provider_rejected)
choose_image work none ProviderKind.hetzner (GuestProvisioning.enabled ports) = do
  image ← call (λ n. ports.resolve_image n work.allocation)
  pure (some image)
choose_image work _ _ _ = pure none

abbrev pub is_unfit_ip : OwnedResource → ProviderPrimaryIp → Bool
is_unfit_ip row ip = is_wrong_ip row ip || not ip.auto_delete

-- What the provider shows of the address that the server is to have.
unfoldable pub inspect_ip : Work → OwnedResource → Option ProviderPrimaryIp → Action Bool
inspect_ip work row none =
    modify (record_absence work.moment.now work.allocation (owned_ref row))
    >> lift (throw ErrorCode.provider_rejected)
inspect_ip work row (some ip) =
    if is_unfit_ip row ip then (mismatch work.operation >> pure false) else pure true

-- Whether the creation may go on with the address.
unfoldable pub check_ip : Work → NetworkProfile → Option OwnedResource → Action Bool
unfolding inspect_ip
check_ip work NetworkProfile.legacy ip = pure true
check_ip work NetworkProfile.managed_ipv4 none = lift (throw ErrorCode.internal_error)
check_ip work NetworkProfile.managed_ipv4 (some row) = do
  observed ← call (λ n. work.provider.get_primary_ip n row.provider_id)
  inspect_ip work row observed

abbrev pub network_of : Option OwnedResource → Network
network_of none = Network.legacy
network_of (some row) = Network.with_ip row.provider_id

unfoldable pub guest_command :
    Work
    → CatalogItem
    → NetworkProfile
    → Option OwnedResource
    → GuestPorts
    → (image : ℕ) → Action ProviderCommand
guest_command work offer NetworkProfile.managed_ipv4 (some row) ports image = do
  bootstrap ← call (λ n. ports.prepare_bootstrap n work.allocation work.operation image)
  pure (
      ProviderCommand.create_guest offer.server_type (region_code offer.region)
        (effect_labels work.operation work.allocation) row.provider_id bootstrap)
guest_command work offer _ _ ports image = lift (throw ErrorCode.provider_rejected)

-- An image has only been chosen for a live provider with guests.
unfoldable pub create_command :
    Work
    → CatalogItem
    → Option OwnedResource
    → GuestProvisioning
    → (image : Option ℕ) → Action ProviderCommand
unfolding guest_command
create_command work offer ip (GuestProvisioning.enabled ports) (some image) =
    guest_command work offer work.allocation.network_profile ip ports image
create_command work offer ip _ _ = pure (
    ProviderCommand.create offer.server_type (region_code offer.region)
      (effect_labels work.operation work.allocation) (network_of ip))

unfoldable pub submit_creation :
    Work → CatalogItem → Option OwnedResource → (image : Option ℕ) → (fit : Bool) → Action ⊤
unfolding create_command
submit_creation work offer ip image false = pure tt
submit_creation work offer ip image true = do
  command ← create_command work offer ip work.guest image
  journal_effect (effect_for work command Authorization.fresh)

unfoldable pub create_server : Work → CatalogItem → (image : Option ℕ) → Action ⊤
unfolding check_ip submit_creation
create_server work offer image =
    let ip = find (is_present_kind ResourceKind.primary_ip) work.resources in
    check_ip work work.allocation.network_profile ip >>= λ fit.
    submit_creation work offer ip image fit

abbrev pub is_identity : (allocation_id : ℕ) → GuestIdentity → Bool
is_identity id identity = identity.allocation_id == id

abbrev pub stage : Option GuestIdentity → GuestStage
stage none = GuestStage.enrollment
stage (some identity) = if identity.issued then GuestStage.runtime else GuestStage.enrollment

unfoldable pub await_guest : Work → ProviderServer → GuestStage → Action ⊤
await_guest work server stage =
    set_progress work.operation (OperationProgress.waiting_guest server.id stage)
    >> verify_runtime work work.guest

unfoldable pub finish_creation :
    Work
    → (created : ProviderServer) → ProviderKind
    → (backed_up : Option ProviderServer) → Action ⊤
unfolding await_guest
finish_creation work created kind none = pure tt
finish_creation work created ProviderKind.hetzner (some server) = do
  identity ← query (λ s. find (is_identity work.allocation.id) s.identities)
  await_guest work created (stage identity)
finish_creation work created ProviderKind.simulated (some server) =
    complete (completion work (some server) none)

unfoldable pub after_creation : Work → CatalogItem → EffectResolution → Action ⊤
unfolding finish_creation
after_creation work offer (EffectResolution.confirmed (ResourceObservation.saw_server server)) = do
  backed_up ← ensure_provider_backups work server offer
  finish_creation work server work.provider.kind backed_up
after_creation work offer _ = lift (throw ErrorCode.internal_error)

unfoldable pub continue_creation :
    Work → CatalogItem → (image : Option ℕ) → Option Attempt → Action ⊤
unfolding create_server after_creation
continue_creation work offer image none = create_server work offer image
continue_creation work offer image (some create) = after_creation work offer create.resolution

abbrev pub needs_ip : Work → Bool
needs_ip work =
    is_managed work.allocation.network_profile && is_none (effect_of is_ip_creation work.history)

unfoldable pub advance_create : Work → Action ⊤
unfolding choose_image continue_creation
advance_create work =
    let create = effect_of is_server_create_command work.history in
    lift (parse_offer work.operation.offer) >>= λ offer.
    choose_image work create work.provider.kind work.guest >>= λ image.
    if needs_ip work
    then journal_effect (
        effect_for work
          (ProviderCommand.create_primary_ip (region_code offer.region)
            (effect_labels work.operation work.allocation))
          Authorization.fresh)
    else continue_creation work offer image create
