-- ===== src/Journal/Evidence.antt =====
-- What a settled effect rests on: the provider has shown it.
pub mod Judged
pub mod Evaluated
use agent_cloud.Base.{ℕ, List, Bool, true, false, Option, none, some, ◌≡◌, ◌⊎◌}
use agent_cloud.Base.Result.{Result, ok}
use agent_cloud.Contracts.Errors.{Failure}
use agent_cloud.Contracts.Provider.{
  network_ip, ProviderCommand, ResourceKind, ResourceRef, ResourceObservation, Submission,
  AttemptOutcome, ProviderAction, ProviderServer, ProviderPrimaryIp, MachineProvider, Power,
  BackupStatus, is_unassigned,
}
use agent_cloud.Journal.Resources.{matches_labels}
use agent_cloud.Journal.Evaluate.{Evaluation, Subject, required_labels}

-- The provider has said that the object is not there.
abbrev pub IsGone : MachineProvider → ResourceRef → Type 0
IsGone provider resource =
    ((n : ℕ) × (provider.get_server n resource.id ≡ ok none)
      × (resource.kind ≡ ResourceKind.server))
    ⊎ ((n : ℕ) × (provider.get_primary_ip n resource.id ≡ ok none)
        × (resource.kind ≡ ResourceKind.primary_ip))

-- The provider's receipt is definite.
abbrev pub is_definite : AttemptOutcome → Bool
is_definite (AttemptOutcome.submitted (Submission.accepted _ _)) = true
is_definite (AttemptOutcome.submitted (Submission.completed _)) = true
is_definite _ = false

-- What a command is for, as the server shows it. A server that runs says nothing about a reboot, so a
-- reboot also needs a definite receipt.
abbrev pub HasEffect : AttemptOutcome → ProviderCommand → ProviderServer → Type 0
HasEffect outcome (ProviderCommand.create server_type region _ network) server =
    (server.server_type ≡ server_type)
    × (server.region ≡ region)
    × (server.primary_ip_id ≡ network_ip network)
    × (server.power ≡ Power.running)
HasEffect outcome (ProviderCommand.create_guest server_type region _ ip _) server =
    (server.server_type ≡ server_type)
    × (server.region ≡ region)
    × (server.primary_ip_id ≡ some ip)
    × (server.power ≡ Power.running)
HasEffect outcome (ProviderCommand.resize _ server_type) server = server.server_type ≡ server_type
HasEffect outcome (ProviderCommand.enable_backup _) server =
    server.backup_status ≡ BackupStatus.enabled
HasEffect outcome (ProviderCommand.power_off _) server = server.power ≡ Power.off
HasEffect outcome (ProviderCommand.power_on _) server = server.power ≡ Power.running
HasEffect outcome (ProviderCommand.reboot _) server =
    (server.power ≡ Power.running) × (is_definite outcome ≡ true)
HasEffect outcome _ server = ⊥

abbrev pub HasAddress : ProviderCommand → ProviderPrimaryIp → Type 0
HasAddress (ProviderCommand.create_primary_ip region labels) ip =
    (matches_labels ip.labels labels ≡ true)
    × (ip.region ≡ region)
    × (ip.auto_delete ≡ true)
    × (is_unassigned ip.assignment ≡ true)
HasAddress _ ip = ⊥

-- The provider's own words for an observation that settles the attempt.
abbrev pub IsShown : Subject → ResourceObservation → Type 0
IsShown subject (ResourceObservation.absent resource) = IsGone subject.provider resource
IsShown subject (ResourceObservation.saw_server server) =
    ((n : ℕ) × (subject.provider.get_server n server.id ≡ ok (some server)))
    × (matches_labels server.labels (required_labels subject subject.attempt.command) ≡ true)
    × HasEffect subject.attempt.outcome subject.attempt.command server
IsShown subject (ResourceObservation.saw_primary_ip ip) =
    ((n : ℕ) × (subject.provider.get_primary_ip n ip.id ≡ ok (some ip)))
    × HasAddress subject.attempt.command ip

-- A failure is the provider's: its refusal of the command, or the end of the action that it accepted.
abbrev pub IsRefused : Subject → Failure → Type 0
IsRefused subject failure =
    (subject.attempt.outcome ≡ AttemptOutcome.submitted (Submission.rejected failure))
    ⊎ ((resource : ResourceRef) × (action_id n : ℕ) × (subject.attempt.outcome
          ≡ AttemptOutcome.submitted (Submission.accepted resource action_id))
        × (subject.provider.get_action n action_id ≡ ok (ProviderAction.failed failure)))

abbrev pub IsEvidence : Subject → Evaluation → Type 0
IsEvidence subject (Evaluation.confirmed observed) = IsShown subject observed
IsEvidence subject (Evaluation.failed failure) = IsRefused subject failure
IsEvidence subject (Evaluation.pending progress) = Unit
