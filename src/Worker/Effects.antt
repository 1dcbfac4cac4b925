-- ===== src/Worker/Effects.antt =====
-- The steps that the lifecycles of apps/control/src/advance-operation.ts share: `verifyRuntime`,
-- `ensureProviderBackups`, `beginFailure` and `cleanupIp`.
use agent_cloud.Base.{
  ℕ, Bool, true, false, Option, none, some, ◌&&◌, ◌||◌, not, ◌==◌, ◌!=◌, nat_eq, if◌then◌else◌, any,
  find, is_some, ⊤,
}
use agent_cloud.Base.Tables.{update}
use agent_cloud.Contracts.Errors.{Failure}
use agent_cloud.Contracts.Catalog.{CatalogItem, is_daily}
use agent_cloud.Contracts.Provider.{
  ProviderCommand, ProviderServer, ProviderPrimaryIp, BackupStatus, backup_status_eq, ResourceKind,
  Submission, AttemptOutcome, is_server_create_command, is_unassigned,
}
use agent_cloud.Contracts.Lifecycle.{
  Operation, OperationKind, operation_kind_eq, OperationProgress, OperationIntent, BlockedReason,
}
use agent_cloud.Store.{Attempt, OwnedResource, State}
use agent_cloud.Store.Action.{Action, pure, call, modify, ◌>>=◌, ◌>>◌}
use agent_cloud.Journal.Resources.{matches_labels, owned_ref, record_absence}
use agent_cloud.Journal.Prepare.{Authorization, has_id}
use agent_cloud.Journal.Submit.{set_progress, journal_effect}
use agent_cloud.Worker.Work.{
  RuntimeDecision, GuestProvisioning, Work, is_present, is_present_kind, is_kind_with, effect_of,
  block, mismatch, effect_for,
}
use agent_cloud.Worker.Complete.{fail, complete, completion}

unfoldable pub heed : Work → RuntimeDecision → Action ⊤
unfolding complete
heed work RuntimeDecision.waiting = pure tt
heed work (RuntimeDecision.blocked reason) = block work.operation reason
heed work (RuntimeDecision.ready server verification) =
    complete (completion work (some server) (some verification))

unfoldable pub verify_runtime : Work → GuestProvisioning → Action ⊤
unfolding heed
verify_runtime work GuestProvisioning.disabled =
    block work.operation BlockedReason.guest_unreachable
verify_runtime work (GuestProvisioning.enabled ports) =
    call (λ n. ports.check n work.operation work.machine work.allocation) >>= heed work

abbrev pub is_enable_backup : ProviderCommand → Bool
is_enable_backup (ProviderCommand.enable_backup _) = true
is_enable_backup _ = false

abbrev pub is_present_server : ProviderServer → OwnedResource → Bool
is_present_server server row = is_kind_with ResourceKind.server server.id row && is_present row

abbrev pub is_other_server : ProviderServer → OwnedResource → ProviderServer → Bool
is_other_server server row observed =
    observed.id != server.id || not (matches_labels observed.labels row.labels)

-- The part of `ensureProviderBackups` that knows the owned server and what the provider shows of it.
unfoldable pub secure_backups :
    Work → ProviderServer → OwnedResource → ProviderServer → Action (Option ProviderServer)
secure_backups work server row observed =
    if is_other_server server row observed
    then (mismatch work.operation >> pure none)
    else if observed.backup_status == BackupStatus.enabled
    then pure (some observed)
    else if observed.backup_status == BackupStatus.unknown
        || is_some (effect_of is_enable_backup work.history)
    then (mismatch work.operation >> pure none)
    else (journal_effect
          (effect_for work (ProviderCommand.enable_backup server.id) Authorization.fresh)
        >> pure none)

unfoldable pub compare_backups :
    Work
    → ProviderServer
    → Option OwnedResource
    → Option ProviderServer
    → Action (Option ProviderServer)
unfolding secure_backups
compare_backups work server (some row) (some observed) = secure_backups work server row observed
compare_backups work server _ _ = mismatch work.operation >> pure none

unfoldable pub ensure_provider_backups :
    Work → ProviderServer → CatalogItem → Action (Option ProviderServer)
unfolding compare_backups
ensure_provider_backups work server offer =
    if is_daily offer.provider_backups
    then (call (λ n. work.provider.get_server n server.id) >>= λ observed.
        compare_backups work server (find (is_present_server server) work.resources) observed)
    else pure (some server)

-- A creation may have made a server unless the provider has refused it.
abbrev pub may_exist : Option Attempt → Bool
may_exist none = false
may_exist (some create) = elim create.outcome [
  | AttemptOutcome.submitted (Submission.rejected _) ↦ false
  | _ ↦ true
]

abbrev pub compensate : Failure → Operation → Operation
compensate error operation = record operation { intent = OperationIntent.compensate error }

unfoldable pub write_compensation : Operation → Failure → State → State
write_compensation operation error s = record s {
  operations = update (has_id operation.id) (compensate error) s.operations;
}

unfoldable pub fail_creating : Work → Failure → (possible_vm owns_some : Bool) → Action ⊤
unfolding write_compensation fail
fail_creating work error possible_vm owns_some =
    if not possible_vm && owns_some
    then (modify (write_compensation work.operation error)
        >> set_progress work.operation OperationProgress.cleaning_up)
    else fail work error (not possible_vm && not owns_some)

unfoldable pub begin_failure : Work → Failure → Action ⊤
unfolding fail_creating fail
begin_failure work error =
    if work.operation.kind == OperationKind.create
    then fail_creating work error (may_exist (effect_of is_server_create_command work.history))
        (any is_present work.resources)
    else fail work error false

abbrev pub is_wrong_ip : OwnedResource → ProviderPrimaryIp → Bool
is_wrong_ip row ip =
    ip.id != row.provider_id
    || not (matches_labels ip.labels row.labels)
    || not (is_unassigned ip.assignment)

abbrev pub deletes_ip : (primary_ip_id : ℕ) → ProviderCommand → Bool
deletes_ip id (ProviderCommand.delete_primary_ip primary_ip_id) = primary_ip_id == id
deletes_ip id _ = false

unfoldable pub delete_ip : Work → OwnedResource → ProviderPrimaryIp → Action ⊤
delete_ip work row ip =
    if is_wrong_ip row ip
    then mismatch work.operation
    else if is_some (effect_of (deletes_ip ip.id) work.history)
    then block work.operation BlockedReason.provider_outcome_unknown
    else journal_effect
        (effect_for work (ProviderCommand.delete_primary_ip ip.id) Authorization.cleanup)

unfoldable pub confront_ip : Work → OwnedResource → Option ProviderPrimaryIp → Action ⊤
unfolding delete_ip
confront_ip work row none = modify (record_absence work.moment.now work.allocation (owned_ref row))
confront_ip work row (some ip) = delete_ip work row ip

unfoldable pub release_ip : Work → Option OwnedResource → Action Bool
unfolding confront_ip
release_ip work none = pure true
release_ip work (some row) = call (λ n. work.provider.get_primary_ip n row.provider_id) >>= λ ip.
    confront_ip work row ip >> pure false

-- `cleanupIp`: whether no address is left.
unfoldable pub cleanup_ip : Work → Action Bool
unfolding release_ip
cleanup_ip work = release_ip work (find (is_present_kind ResourceKind.primary_ip) work.resources)

abbrev pub if_released : Bool → Action ⊤ → Action ⊤
if_released true next = next
if_released false next = pure tt

-- `if (await cleanupIp(work)) await complete({ ...work, server: null })`
unfoldable pub release_and_complete : Work → Action ⊤
unfolding cleanup_ip
release_and_complete work =
    cleanup_ip work >>= λ released. if_released released (complete (completion work none none))
