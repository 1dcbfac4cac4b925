-- ===== src/Journal/Evaluate/Judge.antt =====
-- The judgements of `evaluate` of apps/control/src/effect-journal.ts on one answer of the provider.
use agent_cloud.Base.{
  ℕ, Bool, true, false, Option, none, some, ◌&&◌, ◌||◌, not, ◌==◌, ◌!=◌, nat_eq, option_eq,
  if◌then◌else◌,
}
use agent_cloud.Contracts.Errors.{Failure}
use agent_cloud.Contracts.Provider.{
  Labels, network_ip, ProviderCommand, ResourceKind, ResourceRef, ResourceObservation,
  ProviderServer, ProviderPrimaryIp, MachineProvider, Power, BackupStatus, power_eq,
  backup_status_eq, resource_kind_eq, is_server_create_command, is_unassigned,
}
use agent_cloud.Contracts.Lifecycle.{OperationProgress, BlockedReason}
use agent_cloud.Store.{Allocation, Attempt}
use agent_cloud.Journal.Resources.{matches_labels}

pub data Evaluation : Type 0 where
  confirmed : ResourceObservation → Evaluation
  failed : Failure → Evaluation
  pending : OperationProgress → Evaluation

-- The input of `evaluate`.
pub record Subject : Type 0 where
  pub allocation : Allocation
  pub recovering : Bool
  pub attempt : Attempt
  pub provider : MachineProvider
  pub expected_labels : Labels

abbrev pub blocked : BlockedReason → Evaluation
blocked reason = Evaluation.pending (OperationProgress.blocked reason)

abbrev pub mismatch : Evaluation
mismatch = blocked BlockedReason.provider_resource_mismatch

-- `pending()`
abbrev pub still_pending : (uncertain : Bool) → ResourceRef → Evaluation
still_pending true resource = blocked BlockedReason.provider_outcome_unknown
still_pending false resource = Evaluation.pending (OperationProgress.verifying resource)

abbrev pub is_creation : ProviderCommand → Bool
is_creation (ProviderCommand.create_primary_ip _ _) = true
is_creation command = is_server_create_command command

-- The exact object that a command names.
abbrev pub target : ProviderCommand → Option ResourceRef
target (ProviderCommand.delete_primary_ip id) =
    some (record { kind = ResourceKind.primary_ip; id = id })
target (ProviderCommand.reboot id) = some (record { kind = ResourceKind.server; id = id })
target (ProviderCommand.power_off id) = some (record { kind = ResourceKind.server; id = id })
target (ProviderCommand.power_on id) = some (record { kind = ResourceKind.server; id = id })
target (ProviderCommand.enable_backup id) = some (record { kind = ResourceKind.server; id = id })
target (ProviderCommand.resize id _) = some (record { kind = ResourceKind.server; id = id })
target (ProviderCommand.destroy id) = some (record { kind = ResourceKind.server; id = id })
target _ = none

abbrev pub is_wrong_ip : ResourceRef → Option ProviderPrimaryIp → Bool
is_wrong_ip resource none = false
is_wrong_ip resource (some ip) = ip.id != resource.id

-- The address that a deletion or a creation has left.
unfoldable pub judge_ip :
    Subject
    → (uncertain : Bool) → ResourceRef
    → ProviderCommand
    → Option ProviderPrimaryIp
    → Evaluation
judge_ip subject uncertain resource (ProviderCommand.delete_primary_ip _) none =
    Evaluation.confirmed (ResourceObservation.absent resource)
judge_ip subject uncertain resource (ProviderCommand.delete_primary_ip _) (some ip) =
    if not (matches_labels ip.labels subject.expected_labels) || not (is_unassigned ip.assignment)
    then mismatch
    else still_pending uncertain resource
judge_ip subject uncertain resource (ProviderCommand.create_primary_ip _ _) none =
    if subject.recovering && not uncertain
    then Evaluation.confirmed (ResourceObservation.absent resource)
    else still_pending uncertain resource
judge_ip subject uncertain resource (ProviderCommand.create_primary_ip region labels) (some ip) =
    if not (matches_labels ip.labels labels)
      || ip.region != region
      || not ip.auto_delete
      || not (is_unassigned ip.assignment)
    then mismatch
    else Evaluation.confirmed (ResourceObservation.saw_primary_ip ip)
judge_ip subject uncertain resource _ ip = mismatch

abbrev pub is_wrong_server : ResourceRef → Option ProviderServer → Bool
is_wrong_server resource none = false
is_wrong_server resource (some server) = server.id != resource.id

unfoldable pub judge_missing :
    Subject → (uncertain : Bool) → ResourceRef → ProviderCommand → Evaluation
judge_missing subject uncertain resource (ProviderCommand.destroy _) =
    Evaluation.confirmed (ResourceObservation.absent resource)
judge_missing subject uncertain resource command =
    if subject.recovering && not uncertain && is_server_create_command command
    then Evaluation.confirmed (ResourceObservation.absent resource)
    else still_pending uncertain resource

-- The server's state against the command's effect.
abbrev pub when_shown : Bool → Evaluation → ProviderServer → Evaluation
when_shown true waiting server = Evaluation.confirmed (ResourceObservation.saw_server server)
when_shown false waiting server = waiting

-- The two kinds of server creation differ in how they name the address.
abbrev pub judge_created :
    (server_type region : ℕ)
    → (ip : Option ℕ) → (waiting : Evaluation) → ProviderServer
    → Evaluation
judge_created server_type region ip waiting server =
    if server.server_type != server_type || server.region != region || server.primary_ip_id != ip
    then mismatch
    else when_shown (server.power == Power.running) waiting server

unfoldable pub judge_shown :
    (uncertain : Bool) → ResourceRef → ProviderCommand → ProviderServer → Evaluation
judge_shown uncertain resource (ProviderCommand.create server_type region _ network) server =
    judge_created server_type region (network_ip network) (still_pending uncertain resource) server
judge_shown uncertain resource (ProviderCommand.create_guest server_type region _ ip _) server =
    judge_created server_type region (some ip) (still_pending uncertain resource) server
judge_shown uncertain resource (ProviderCommand.resize _ server_type) server =
    when_shown (server.server_type == server_type) (still_pending uncertain resource) server
judge_shown uncertain resource (ProviderCommand.enable_backup _) server =
    when_shown (server.backup_status == BackupStatus.enabled) (still_pending uncertain resource)
      server
judge_shown uncertain resource (ProviderCommand.power_off _) server =
    when_shown (server.power == Power.off) (still_pending uncertain resource) server
judge_shown uncertain resource (ProviderCommand.power_on _) server =
    when_shown (server.power == Power.running) (still_pending uncertain resource) server
judge_shown uncertain resource (ProviderCommand.reboot _) server =
    when_shown (not uncertain && server.power == Power.running) (still_pending uncertain resource)
      server
judge_shown uncertain resource (ProviderCommand.destroy _) server = still_pending uncertain resource
judge_shown uncertain resource _ server = mismatch

abbrev pub required_labels : Subject → ProviderCommand → Labels
required_labels subject (ProviderCommand.create _ _ labels _) = labels
required_labels subject (ProviderCommand.create_guest _ _ labels _ _) = labels
required_labels subject _ = subject.expected_labels

unfoldable pub judge_server :
    Subject
    → (uncertain : Bool) → ResourceRef
    → ProviderCommand
    → Option ProviderServer
    → Evaluation
unfolding judge_missing judge_shown
judge_server subject uncertain resource command none =
    judge_missing subject uncertain resource command
judge_server subject uncertain resource command (some server) =
    if matches_labels server.labels (required_labels subject command)
    then judge_shown uncertain resource command server
    else mismatch

unfoldable pub judge_ip_answer :
    Subject → (uncertain : Bool) → ResourceRef → Option ProviderPrimaryIp → Evaluation
unfolding judge_ip
judge_ip_answer subject uncertain resource ip =
    if is_wrong_ip resource ip
    then mismatch
    else judge_ip subject uncertain resource subject.attempt.command ip

unfoldable pub judge_server_answer :
    Subject → (uncertain : Bool) → ResourceRef → Option ProviderServer → Evaluation
unfolding judge_server
judge_server_answer subject uncertain resource server =
    if is_wrong_server resource server
    then mismatch
    else judge_server subject uncertain resource subject.attempt.command server
