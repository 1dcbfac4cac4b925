-- ===== src/Examples/Data.antt =====
-- One small deployment: an account, its project, two credentials of which one is delegated, a catalog
-- with one offer, a machine that is being created, and a provider that answers.
use agent_cloud.Base.{[], ◌∷◌, true, none, some}
use agent_cloud.Base.Result.{ok}
use agent_cloud.Contracts.Policy.{Size, Region, Capability, Projects, GrantPolicy, Principal}
use agent_cloud.Contracts.Catalog.{
  ProviderKind, Architecture, ProviderBackups, PriceBasis, CatalogItem, Catalog,
}
use agent_cloud.Contracts.Provider.{
  ResourceKind, ResourceRef, Labels, Network, ProviderCommand, Submission, ProviderAction, Power,
  BackupStatus, ProviderServer, MachineProvider, AttemptOutcome, EffectResolution,
}
use agent_cloud.Contracts.Lifecycle.{
  MachineSpec, LifecycleCommand, OperationKind, OperationIntent, OperationProgress, Operation,
}
use agent_cloud.Store.{Account, Grant, NetworkProfile, Allocation, Attempt, State, Limits}
use agent_cloud.Admission.Request.{Setting}

abbrev pub policy : GrantPolicy
policy = record {
  capabilities = Capability.grant_manage ∷ Capability.machine_create ∷ [];
  projects = Projects.every;
  sizes = Size.small ∷ [];
  regions = Region.nbg1 ∷ [];
  max_machines = 2;
  currency = 1;
  max_hourly_micros = 100;
}

abbrev pub root : Grant
root = record {
  id = 1;
  account_id = 7;
  parent_id = none;
  token_hash = 11;
  policy = policy;
  expires_at = 100;
  revoked_at = none;
}

abbrev pub delegated : Grant
delegated = record {
  id = 2;
  account_id = 7;
  parent_id = some 1;
  token_hash = 12;
  policy = policy;
  expires_at = 90;
  revoked_at = none;
}

abbrev pub caller : Principal
caller = record { account_id = 7; grant_id = 2; policy = policy }

abbrev pub root_caller : Principal
root_caller = record { account_id = 7; grant_id = 1; policy = policy }

abbrev pub item : CatalogItem
item = record {
  size = Size.small;
  server_type = 22;
  region = Region.nbg1;
  architecture = Architecture.x86;
  disk_gb = 40;
  available = true;
  currency = 1;
  price_basis = PriceBasis.simulated;
  server_hourly_micros = 8;
  ipv4_hourly_micros = 2;
  provider_backups = ProviderBackups.disabled;
  hourly_micros = 10;
}

abbrev pub catalog : Catalog
catalog = record {
  provider = ProviderKind.simulated;
  currency = 1;
  pricing = PriceBasis.simulated;
  observed_at = 5;
  expires_at = 60;
  items = item ∷ [];
}

abbrev pub limits : Limits
limits = record { max_machines = 3; currency = 1; max_hourly_micros = 50 }

abbrev pub spec : MachineSpec
spec = record { name = 9; size = Size.small; region = Region.nbg1 }

abbrev pub account : Account
account = record { id = 7; currency = 1; max_machines = 2; max_hourly_micros = 40 }

abbrev pub empty : State
empty = record {
  accounts = account ∷ [];
  projects = record { id = 3; account_id = 7 } ∷ [];
  grants = root ∷ delegated ∷ [];
  machines = [];
  allocations = [];
  operations = [];
  cleanups = [];
  attempts = [];
  resources = [];
  idempotency = [];
  audit = [];
  sessions = [];
  identities = [];
  recoveries = [];
  schedules = [];
  schedule_runs = [];
  jobs = [];
  submitted = [];
  calls = 0;
}

abbrev pub setting : Setting
setting = record {
  provider = ProviderKind.simulated;
  catalog = catalog;
  limits = limits;
  request_hash = λ command. 77;
  now = 10;
  new_operation_id = 31;
  new_machine_id = 32;
  new_allocation_id = 33;
}

abbrev pub allocation : Allocation
allocation = record {
  id = 33;
  account_id = 7;
  machine_id = 32;
  provider = ProviderKind.simulated;
  server_id = none;
  network_profile = NetworkProfile.managed_ipv4;
  currency = 1;
  hourly_micros = 10;
  offer = some item;
  retired_at = none;
}

abbrev pub operation : Operation
operation = record {
  id = 31;
  account_id = 7;
  project_id = 3;
  machine_id = 32;
  grant_id = 2;
  kind = OperationKind.create;
  command = LifecycleCommand.create spec;
  offer = some item;
  intent = OperationIntent.run;
  progress = OperationProgress.queued;
  created_at = 10;
}

abbrev pub admitted : State
admitted = record empty { allocations = allocation ∷ []; operations = operation ∷ [] }

abbrev pub labels : Labels
labels = (0, 0) ∷ (4, 31) ∷ []

abbrev pub command : ProviderCommand
command = ProviderCommand.create 22 5 labels Network.legacy

abbrev pub server_ref : ResourceRef
server_ref = record { kind = ResourceKind.server; id = 50 }

abbrev pub server : ProviderServer
server = record {
  id = 50;
  server_type = 22;
  region = 5;
  power = Power.running;
  labels = labels;
  primary_ip_id = none;
  backup_status = BackupStatus.disabled;
}

-- It creates the server at once, and shows it.
abbrev pub provider : MachineProvider
provider = record {
  kind = ProviderKind.simulated;
  get_catalog = λ n. ok catalog;
  submit = λ n id c. ok (Submission.completed server_ref);
  get_action = λ n id. ok ProviderAction.succeeded;
  get_server = λ n id. ok (some server);
  find_servers = λ n wanted. ok (server ∷ []);
  get_primary_ip = λ n id. ok none;
  find_primary_ips = λ n wanted. ok [];
}

abbrev pub attempt : Attempt
attempt = record {
  id = 60;
  account_id = 7;
  operation_id = 31;
  sequence = 1;
  command = command;
  outcome = AttemptOutcome.submitted (Submission.completed server_ref);
  resolution = EffectResolution.pending;
  created_at = 20;
}
