-- ===== src/Store/Rows.antt =====
-- The rows of packages/db/src/schema.ts and the state of one deployment: its database, and the
-- trace of what it has asked of its provider.
use agent_cloud.Base.{ℕ, List, Option, Bool, Eq, nat_eqb, ◌≡◌, ◌↔◌, true, false, arith}
use agent_cloud.Contracts.Errors.{Failure}
use agent_cloud.Contracts.Policy.{GrantPolicy}
use agent_cloud.Contracts.Catalog.{CatalogItem, ProviderKind}
use agent_cloud.Contracts.Provider.{
  ResourceKind, ResourceRef, Labels, ProviderCommand, AttemptOutcome, EffectResolution,
}
use agent_cloud.Contracts.Lifecycle.{Machine, Operation, OperationProgress}

pub record Account : Type 0 where
  pub id : ℕ
  pub currency : ℕ
  pub max_machines : ℕ
  pub max_hourly_micros : ℕ

pub record Project : Type 0 where
  pub id : ℕ
  pub account_id : ℕ

pub record Grant : Type 0 where
  pub id : ℕ
  pub account_id : ℕ
  pub parent_id : Option ℕ
  pub token_hash : ℕ
  pub policy : GrantPolicy
  pub expires_at : ℕ
  pub revoked_at : Option ℕ

pub data NetworkProfile : Type 0 where
  legacy managed_ipv4 : NetworkProfile

abbrev pub is_managed : NetworkProfile → Bool
is_managed NetworkProfile.legacy = false
is_managed NetworkProfile.managed_ipv4 = true

pub record Allocation : Type 0 where
  pub id : ℕ
  pub account_id : ℕ
  pub machine_id : ℕ
  pub provider : ProviderKind
  pub server_id : Option ℕ
  pub network_profile : NetworkProfile
  pub currency : ℕ
  pub hourly_micros : ℕ
  pub offer : Option CatalogItem
  pub retired_at : Option ℕ

pub record OperationCleanup : Type 0 where
  pub operation_id : ℕ
  pub source_operation_id : ℕ
  pub account_id : ℕ
  pub allocation_id : ℕ
  pub grant_id : ℕ
  pub expected_version : ℕ
  pub created_at : ℕ

-- `provider_attempts`
pub record Attempt : Type 0 where
  pub id : ℕ
  pub account_id : ℕ
  pub operation_id : ℕ
  pub sequence : ℕ
  pub command : ProviderCommand
  pub outcome : AttemptOutcome
  pub resolution : EffectResolution
  pub created_at : ℕ

-- `provider_resources`
pub record OwnedResource : Type 0 where
  pub provider : ProviderKind
  pub kind : ResourceKind
  pub provider_id : ℕ
  pub account_id : ℕ
  pub allocation_id : ℕ
  pub labels : Labels
  pub absent_at : Option ℕ

-- `operator_recoveries`: whether the request was a `retry_delete`.
pub record OperatorRecovery : Type 0 where
  pub operation_id : ℕ
  pub attempt_id : ℕ
  pub retries_delete : Bool

-- The scopes `project:<id>:machines` and `machine:<id>:actions`.
pub data Scope : Type 0 where
  project_machines machine_actions : ℕ → Scope

abbrev pub scope_eqb : Scope → Scope → Bool
scope_eqb (Scope.project_machines a) (Scope.project_machines b) = nat_eqb a b
scope_eqb (Scope.machine_actions a) (Scope.machine_actions b) = nat_eqb a b
scope_eqb _ _ = false

pub scope_eqb_iff : (a b : Scope) → (scope_eqb a b ≡ true) ↔ (a ≡ b)
scope_eqb_iff a b = ground arith

instance abbrev pub scope_eq : Eq Scope
scope_eq = record { beq = scope_eqb; beq_iff = scope_eqb_iff }

pub record Idempotency : Type 0 where
  pub account_id : ℕ
  pub scope : Scope
  pub key : ℕ
  pub request_hash : ℕ
  pub operation_id : ℕ

pub data AuditEvent : Type 0 where
  operation_admitted operation_failed operation_succeeded : AuditEvent
  operation_progress : OperationProgress → AuditEvent
  effect_resolved : (attempt_id : ℕ) → AuditEvent
  absence_confirmed : ResourceRef → AuditEvent
  cleanup_admitted cleanup_completed grant_revoked : AuditEvent
  schedule_created schedule_disabled : AuditEvent

pub record Audit : Type 0 where
  pub account_id : ℕ
  pub subject_id : ℕ
  pub event : AuditEvent

pub data CloseReason : Type 0 where
  authorization_changed target_changed : CloseReason

pub record AccessSession : Type 0 where
  pub id : ℕ
  pub account_id : ℕ
  pub grant_id : ℕ
  pub machine_id : ℕ
  pub closed : Option CloseReason

-- `guest_identities`: whether the allocation's guest has been issued an identity.
pub record GuestIdentity : Type 0 where
  pub allocation_id : ℕ
  pub issued : Bool

-- `attemptSchema` of apps/control/src/backup-schedules.ts
pub data ScheduleAttempt : Type 0 where
  none_yet : ScheduleAttempt
  admitted : (at backup_id : ℕ) → ScheduleAttempt
  refused : (at : ℕ) → Failure → ScheduleAttempt

-- `backup_schedules`; a recipe is a number, with its app.
pub record BackupSchedule : Type 0 where
  pub id : ℕ
  pub account_id : ℕ
  pub project_id : ℕ
  pub machine_id : ℕ
  pub allocation_id : ℕ
  pub grant_id : ℕ
  pub digest : ℕ
  pub app : ℕ
  pub recipe : ℕ
  pub next_run_at : ℕ
  pub disabled_at : Option ℕ
  pub last_attempt : ScheduleAttempt
  pub created_at : ℕ

-- `backup_schedule_runs`
pub record ScheduleRun : Type 0 where
  pub account_id : ℕ
  pub schedule_id : ℕ
  pub backup_id : ℕ
  pub due_at : ℕ

-- `jobs` are the operations handed to the job queue; `submitted` is every command that was sent to
-- the provider, with its attempt; `calls` counts the provider's answers.
pub record State : Type 0 where
  pub accounts : List Account
  pub projects : List Project
  pub grants : List Grant
  pub machines : List Machine
  pub allocations : List Allocation
  pub operations : List Operation
  pub cleanups : List OperationCleanup
  pub attempts : List Attempt
  pub resources : List OwnedResource
  pub idempotency : List Idempotency
  pub audit : List Audit
  pub sessions : List AccessSession
  pub identities : List GuestIdentity
  pub recoveries : List OperatorRecovery
  pub schedules : List BackupSchedule
  pub schedule_runs : List ScheduleRun
  pub jobs : List ℕ
  pub submitted : List (ℕ × ProviderCommand)
  pub calls : ℕ

-- `Config['limits']`
pub record Limits : Type 0 where
  pub max_machines : ℕ
  pub currency : ℕ
  pub max_hourly_micros : ℕ
