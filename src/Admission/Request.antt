-- ===== src/Admission/Request.antt =====
-- What an admission is given, in apps/control/src/lifecycle.ts: the request, the deployment's settings,
-- the clock, the new random ids and the SHA-256 of the request's JSON.
use agent_cloud.Base.{
  ℕ, List, Bool, Option, none, some, ◌&&◌, ◌==◌, nat_eq, if◌then◌else◌, includes,
}
use agent_cloud.Base.Tables.{insert}
use agent_cloud.Base.Result.{Result, ok, err, fault}
use agent_cloud.Contracts.Catalog.{Catalog, CatalogItem, ProviderKind, item_valid}
use agent_cloud.Contracts.Lifecycle.{MachineSpec, MachineAction, LifecycleCommand, Operation}
use agent_cloud.Store.{Limits, Scope, Idempotency, scope_eq}

pub data Admission : Type 0 where
  create : (project_id : ℕ) → MachineSpec → Admission
  action : (machine_id : ℕ) → MachineAction → Admission

abbrev pub admission_command : Admission → LifecycleCommand
admission_command (Admission.create _ spec) = LifecycleCommand.create spec
admission_command (Admission.action _ command) = LifecycleCommand.act command

abbrev pub admission_scope : Admission → Scope
admission_scope (Admission.create project_id _) = Scope.project_machines project_id
admission_scope (Admission.action machine_id _) = Scope.machine_actions machine_id

pub record Setting : Type 0 where
  pub provider : ProviderKind
  pub catalog : Catalog
  pub limits : Limits
  pub request_hash : LifecycleCommand → ℕ
  pub now : ℕ
  pub new_operation_id : ℕ
  pub new_machine_id : ℕ
  pub new_allocation_id : ℕ

abbrev pub matches_request : (account_id : ℕ) → Scope → (key : ℕ) → Idempotency → Bool
matches_request account_id scope key row =
    row.account_id == account_id && row.scope == scope && row.key == key

abbrev pub is_operation : (id account_id : ℕ) → Operation → Bool
is_operation id account_id op = op.id == id && op.account_id == account_id

-- `catalogItemSchema.parse`: anything else is an exception that is no `CloudError`.
abbrev pub parse_offer : Option CatalogItem → Result CatalogItem
parse_offer none = err fault
parse_offer (some item) = if item_valid item then ok item else err fault

-- `enqueueOperation`: a job with the key of one that waits replaces it.
abbrev pub enqueue : ℕ → List ℕ → List ℕ
enqueue operation_id jobs = if includes jobs operation_id then jobs else insert operation_id jobs
