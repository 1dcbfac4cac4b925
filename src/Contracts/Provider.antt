-- ===== src/Contracts/Provider.antt =====
-- packages/contracts/src/provider.ts and the resource references of ids.ts: what is asked of a cloud
-- provider and what it answers. Names of provider objects are display data and are left out.
use agent_cloud.Base.{
  ℕ, List, [], ◌∷◌, Bool, true, false, Option, none, some, Eq, ◌==◌, nat_eq, nat_eqb, if◌then◌else◌,
  ◌≡◌, ◌↔◌, arith,
}
use agent_cloud.Base.Result.{Result}
use agent_cloud.Contracts.Errors.{Failure}
use agent_cloud.Contracts.Catalog.{Catalog, ProviderKind}

pub data ResourceKind : Type 0 where
  server primary_ip : ResourceKind

abbrev pub resource_kind_code : ResourceKind → ℕ
resource_kind_code ResourceKind.server = 0
resource_kind_code ResourceKind.primary_ip = 1

pub resource_kind_code-injective :
    (a b : ResourceKind) → (nat_eqb (resource_kind_code a) (resource_kind_code b) ≡ true) ↔ (a ≡ b)
resource_kind_code-injective a b = ground arith

instance abbrev pub resource_kind_eq : Eq ResourceKind
resource_kind_eq = record {
  beq = λ a b. nat_eqb (resource_kind_code a) (resource_kind_code b);
  beq_iff = resource_kind_code-injective;
}

-- `resourceRefSchema`
pub record ResourceRef : Type 0 where
  pub kind : ResourceKind
  pub id : ℕ

-- `Record<string, string>`: a key that is listed twice has its first value.
abbrev pub Labels : Type 0
Labels = List (ℕ × ℕ)

abbrev pub lookup : ℕ → Labels → Option ℕ
lookup key [] = none
lookup key ((k, v) ∷ rest) = if k == key then some v else lookup key rest

-- `providerNetworkSchema`
pub data Network : Type 0 where
  legacy : Network
  with_ip : ℕ → Network

abbrev pub network_ip : Network → Option ℕ
network_ip Network.legacy = none
network_ip (Network.with_ip id) = some id

pub data ProviderCommand : Type 0 where
  create_primary_ip : (region : ℕ) (labels : Labels) → ProviderCommand
  delete_primary_ip : (primary_ip_id : ℕ) → ProviderCommand
  create : (server_type region : ℕ) (labels : Labels) (network : Network) → ProviderCommand
  create_guest : (server_type region : ℕ) (labels : Labels) (ip bootstrap : ℕ) → ProviderCommand
  reboot power_off power_on enable_backup : (server_id : ℕ) → ProviderCommand
  resize : (server_id server_type : ℕ) → ProviderCommand
  destroy : (server_id : ℕ) → ProviderCommand

-- `isServerCreateCommand`
abbrev pub is_server_create_command : ProviderCommand → Bool
is_server_create_command (ProviderCommand.create _ _ _ _) = true
is_server_create_command (ProviderCommand.create_guest _ _ _ _ _) = true
is_server_create_command _ = false

pub data Submission : Type 0 where
  accepted : ResourceRef → (action_id : ℕ) → Submission
  completed : ResourceRef → Submission
  rejected : Failure → Submission
  unknown : Submission

pub data ProviderAction : Type 0 where
  running succeeded : ProviderAction
  failed : Failure → ProviderAction

pub data Power : Type 0 where
  running off starting stopping unknown : Power

abbrev pub power_code : Power → ℕ
power_code Power.running = 0
power_code Power.off = 1
power_code Power.starting = 2
power_code Power.stopping = 3
power_code Power.unknown = 4

pub power_code-injective : (a b : Power) → (nat_eqb (power_code a) (power_code b) ≡ true) ↔ (a ≡ b)
power_code-injective a b = ground arith

instance abbrev pub power_eq : Eq Power
power_eq = record {
  beq = λ a b. nat_eqb (power_code a) (power_code b);
  beq_iff = power_code-injective;
}

pub data BackupStatus : Type 0 where
  unknown disabled enabled : BackupStatus

abbrev pub backup_status_code : BackupStatus → ℕ
backup_status_code BackupStatus.unknown = 0
backup_status_code BackupStatus.disabled = 1
backup_status_code BackupStatus.enabled = 2

pub backup_status_code-injective :
    (a b : BackupStatus) → (nat_eqb (backup_status_code a) (backup_status_code b) ≡ true) ↔ (a ≡ b)
backup_status_code-injective a b = ground arith

instance abbrev pub backup_status_eq : Eq BackupStatus
backup_status_eq = record {
  beq = λ a b. nat_eqb (backup_status_code a) (backup_status_code b);
  beq_iff = backup_status_code-injective;
}

pub record ProviderServer : Type 0 where
  pub id : ℕ
  pub server_type : ℕ
  pub region : ℕ
  pub power : Power
  pub labels : Labels
  pub primary_ip_id : Option ℕ
  pub backup_status : BackupStatus

pub data Assignment : Type 0 where
  unassigned : Assignment
  to_server : ℕ → Assignment

abbrev pub is_unassigned : Assignment → Bool
is_unassigned Assignment.unassigned = true
is_unassigned (Assignment.to_server _) = false

pub record ProviderPrimaryIp : Type 0 where
  pub id : ℕ
  pub region : ℕ
  pub labels : Labels
  pub auto_delete : Bool
  pub assignment : Assignment

pub data ResourceObservation : Type 0 where
  saw_server : ProviderServer → ResourceObservation
  saw_primary_ip : ProviderPrimaryIp → ResourceObservation
  absent : ResourceRef → ResourceObservation

pub data EffectResolution : Type 0 where
  pending : EffectResolution
  confirmed : ResourceObservation → EffectResolution
  failed : Failure → EffectResolution
  operator_closed control_closed : (recovery_id : ℕ) → EffectResolution

pub data AttemptOutcome : Type 0 where
  prepared : AttemptOutcome
  submitted : Submission → AttemptOutcome

-- `MachineProvider`, a service that is reached over the network. Each answer may depend on how many
-- calls came before (the first argument), so nothing ties two answers together.
pub record MachineProvider : Type 0 where
  pub kind : ProviderKind
  pub get_catalog : ℕ → Result Catalog
  pub submit : ℕ → (attempt_id : ℕ) → ProviderCommand → Result Submission
  pub get_action : ℕ → (action_id : ℕ) → Result ProviderAction
  pub get_server : ℕ → (server_id : ℕ) → Result (Option ProviderServer)
  pub find_servers : ℕ → Labels → Result (List ProviderServer)
  pub get_primary_ip : ℕ → (primary_ip_id : ℕ) → Result (Option ProviderPrimaryIp)
  pub find_primary_ips : ℕ → Labels → Result (List ProviderPrimaryIp)
