-- ===== src/Journal/Prepare.antt =====
-- The part of `journalEffect` of apps/control/src/effect-journal.ts that runs before the provider is
-- asked: the checks, and the transaction that writes the attempt.
use agent_cloud.Base.{
  ℕ, ◌+◌, List, Bool, true, false, Option, none, some, ◌&&◌, ◌||◌, ◌==◌, ◌!=◌, nat_eq, leb, ltb,
  min, if◌then◌else◌, any, find, length, select, is_some, ⊤,
}
use agent_cloud.Base.Tables.{insert, update}
use agent_cloud.Base.Result.{Result, ok, row_or, require, forbid, ◌>>=◌, ◌>>◌}
use agent_cloud.Contracts.Errors.{ErrorCode}
use agent_cloud.Contracts.Policy.{Principal}
use agent_cloud.Contracts.Catalog.{
  Catalog, CatalogItem, ProviderKind, provider_kind_eq, architecture_eq, select_offer,
}
use agent_cloud.Contracts.Provider.{
  ProviderCommand, ResourceKind, ResourceRef, resource_kind_eq, AttemptOutcome, EffectResolution,
  MachineProvider,
}
use agent_cloud.Contracts.Lifecycle.{
  Operation, OperationKind, operation_kind_eq, OperationProgress, is_cleanup,
}
use agent_cloud.Store.{Account, Allocation, Attempt, OperationCleanup, State, Limits}
use agent_cloud.Auth.Authority.{load_principal}
use agent_cloud.Admission.Command.{authorize_command}
use agent_cloud.Admission.Reservation.{active, owned_by, other_currency, price}
use agent_cloud.Admission.Request.{parse_offer}
use agent_cloud.Journal.Resources.{is_live_resource}

pub data Authorization : Type 0 where
  fresh cleanup admitted_cleanup : Authorization

-- The input of `journalEffect`, with the clocks of the process and of the database and the new id.
pub record Effect : Type 0 where
  pub operation : Operation
  pub allocation : Allocation
  pub command : ProviderCommand
  pub provider : MachineProvider
  pub limits : Limits
  pub authorization : Authorization
  pub clock : ℕ
  pub now : ℕ
  pub new_attempt_id : ℕ

abbrev pub resource_kind : ProviderCommand → ResourceKind
resource_kind (ProviderCommand.create_primary_ip _ _) = ResourceKind.primary_ip
resource_kind (ProviderCommand.delete_primary_ip _) = ResourceKind.primary_ip
resource_kind _ = ResourceKind.server

abbrev pub is_monetary : ProviderCommand → Bool
is_monetary (ProviderCommand.create_primary_ip _ _) = true
is_monetary (ProviderCommand.create _ _ _ _) = true
is_monetary (ProviderCommand.create_guest _ _ _ _ _) = true
is_monetary (ProviderCommand.resize _ _) = true
is_monetary (ProviderCommand.enable_backup _) = true
is_monetary _ = false

abbrev pub has_id : ℕ → Operation → Bool
has_id id op = op.id == id

-- The tests of a fresh catalog against the admitted offer.
unfoldable pub check_current : Allocation → CatalogItem → Catalog → (clock : ℕ) → Result ⊤
check_current allocation offer catalog clock = do
  current ← select_offer catalog offer.size offer.region clock
  forbid
      (catalog.provider != allocation.provider
        || current.server_type != offer.server_type
        || current.architecture != offer.architecture
        || current.disk_gb != offer.disk_gb)
      ErrorCode.capacity_unavailable
  forbid (current.currency != offer.currency || ltb offer.hourly_micros current.hourly_micros)
      ErrorCode.budget_exceeded

-- Whether the limits no longer cover what is reserved.
abbrev pub limits_lapsed : State → Limits → Account → Principal → CatalogItem → Bool
limits_lapsed s limits account principal offer =
    let live = active s.allocations in
    let owned = owned_by account.id live in
    limits.currency != offer.currency
    || account.currency != offer.currency
    || principal.policy.currency != offer.currency
    || other_currency offer.currency live
    || ltb limits.max_machines (length live)
    || ltb limits.max_hourly_micros (price live)
    || ltb (min account.max_machines principal.policy.max_machines) (length owned)
    || ltb (min account.max_hourly_micros principal.policy.max_hourly_micros) (price owned)

abbrev pub boot_minutes : ℕ
boot_minutes = 1800000

abbrev pub is_boot : OperationKind → Bool
is_boot OperationKind.create = true
is_boot OperationKind.reboot = true
is_boot OperationKind.power_on = true
is_boot _ = false

abbrev pub has_deadline : ProviderKind → OperationKind → Bool
has_deadline ProviderKind.hetzner kind = is_boot kind
has_deadline ProviderKind.simulated kind = false

abbrev pub is_cleanup_of : (operation_id : ℕ) → OperationCleanup → Bool
is_cleanup_of id row = row.operation_id == id

-- The limits are only tested for a command that costs money.
unfoldable pub authorize_money : State → Effect → Account → Principal → Operation → Result ⊤
authorize_money s e account principal stored =
    if is_monetary e.command
    then (parse_offer stored.offer >>= λ offer.
        forbid (limits_lapsed s e.limits account principal offer) ErrorCode.budget_exceeded)
    else ok tt

unfoldable pub authorize_fresh : State → Effect → Account → Operation → Result ⊤
unfolding authorize_money
authorize_fresh s e account stored = do
  forbid (is_cleanup stored.intent) ErrorCode.resource_busy
  forbid (is_some (find (is_cleanup_of e.operation.id) s.cleanups)) ErrorCode.resource_busy
  forbid
      (has_deadline e.provider.kind e.operation.kind
        && leb (stored.created_at + boot_minutes) e.now)
      ErrorCode.provider_rejected
  principal ← load_principal s e.now e.operation.grant_id
  authorize_command principal e.operation.project_id stored.command
  authorize_money s e account principal stored

abbrev pub deleted_resource : ProviderCommand → Option ResourceRef
deleted_resource (ProviderCommand.destroy id) =
    some (record { kind = ResourceKind.server; id = id })
deleted_resource (ProviderCommand.delete_primary_ip id) =
    some (record { kind = ResourceKind.primary_ip; id = id })
deleted_resource _ = none

abbrev pub admits_cleanup : Operation → Allocation → OperationCleanup → Bool
admits_cleanup operation allocation row =
    is_cleanup_of operation.id row
    && row.account_id == allocation.account_id
    && row.allocation_id == allocation.id

unfoldable pub authorize_admitted : State → Effect → Result ⊤
authorize_admitted s e = do
  row_or (find (admits_cleanup e.operation e.allocation) s.cleanups) ErrorCode.permission_denied
  resource ← row_or (deleted_resource e.command) ErrorCode.permission_denied
  require (any (is_live_resource e.allocation resource) s.resources) ErrorCode.permission_denied

abbrev pub is_ip_deletion : ProviderCommand → Bool
is_ip_deletion (ProviderCommand.delete_primary_ip _) = true
is_ip_deletion _ = false

unfoldable pub authorize_effect : State → Effect → Account → Operation → Authorization → Result ⊤
unfolding authorize_fresh authorize_admitted
authorize_effect s e account stored Authorization.fresh = authorize_fresh s e account stored
authorize_effect s e account stored Authorization.admitted_cleanup = authorize_admitted s e
authorize_effect s e account stored Authorization.cleanup =
    require (is_ip_deletion e.command) ErrorCode.internal_error

abbrev pub set_progress_of :
    (operation_id : ℕ) → OperationProgress → List Operation → List Operation
set_progress_of id progress = update (has_id id) (λ op. record op { progress = progress })

abbrev pub attempts_of : (operation_id : ℕ) → List Attempt → List Attempt
attempts_of id = select (λ (a : Attempt). a.operation_id == id)

abbrev pub new_attempt : Effect → List Attempt → Attempt
new_attempt e attempts = record {
  id = e.new_attempt_id;
  account_id = e.operation.account_id;
  operation_id = e.operation.id;
  sequence = length (attempts_of e.operation.id attempts) + 1;
  command = e.command;
  outcome = AttemptOutcome.prepared;
  resolution = EffectResolution.pending;
  created_at = e.now;
}

-- The transaction.
unfoldable pub prepare_attempt : Effect → State → Result (⊤ × State)
unfolding authorize_effect
prepare_attempt e s = do
  account ←
      row_or (find (λ (a : Account). a.id == e.operation.account_id) s.accounts)
        ErrorCode.internal_error
  stored ← row_or (find (has_id e.operation.id) s.operations) ErrorCode.internal_error
  authorize_effect s e account stored e.authorization
  ok (
    tt,
    record s {
      attempts = insert (new_attempt e s.attempts) s.attempts;
      operations =
          set_progress_of e.operation.id (OperationProgress.submitting e.new_attempt_id)
            s.operations;
    },
  )
