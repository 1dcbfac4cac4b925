-- ===== src/Worker/Cleanup/Check.antt =====
-- apps/control/src/machine-cleanup.ts: which object a cleanup deletes next, and whether it may be deleted.
use agent_cloud.Base.{
  ℕ, List, Bool, true, false, Option, none, some, ◌&&◌, ◌||◌, not, ◌==◌, ◌!=◌, nat_eq,
  if◌then◌else◌, any, find, select, is_some, ⊤,
}
use agent_cloud.Contracts.Provider.{
  ProviderServer, ProviderPrimaryIp, Assignment, ResourceKind, resource_kind_eq,
  is_server_create_command,
}
use agent_cloud.Contracts.Lifecycle.{operation_kind_eq, OperationProgress}
use agent_cloud.Store.{Attempt, OwnedResource}
use agent_cloud.Store.Action.{Action, pure, call, modify, ◌>>=◌, ◌>>◌}
use agent_cloud.Journal.Resources.{matches_labels, owned_ref, record_absence}
use agent_cloud.Journal.Submit.{set_progress}
use agent_cloud.Worker.Work.{is_pending_attempt, is_present, is_kind_with, mismatch}
use agent_cloud.Worker.Cleanup.History.{CleanupWork}

-- What one tick of a cleanup knows once the effects are settled as far as they can be.
pub record Inventory : Type 0 where
  pub history : List Attempt
  pub resources : List OwnedResource

abbrev pub live : Inventory → List OwnedResource
live i = select is_present i.resources

abbrev pub is_pending_vm : Attempt → Bool
is_pending_vm attempt = is_pending_attempt attempt && is_server_create_command attempt.command

abbrev pub pending_vm : Inventory → Bool
pending_vm i = any is_pending_vm i.history

abbrev pub is_of_kind : ResourceKind → OwnedResource → Bool
is_of_kind kind row = row.kind == kind

abbrev pub or_else : {A : Type 0} → Option A → Option A → Option A
or_else (some a) other = some a
or_else none other = other

-- A server before an address, and no address while a server may still come to be.
unfoldable pub next_resource : Inventory → Option OwnedResource
next_resource i =
    or_else (find (is_of_kind ResourceKind.server) (live i))
      (if pending_vm i then none else find (is_of_kind ResourceKind.primary_ip) (live i))

abbrev pub is_absent_server : (server_id : ℕ) → OwnedResource → Bool
is_absent_server id row = is_kind_with ResourceKind.server id row && is_some row.absent_at

abbrev pub halt : Action ⊤ → Action Bool
halt m = m >> pure false

abbrev pub is_other_ip : OwnedResource → ProviderPrimaryIp → Bool
is_other_ip row ip = ip.id != row.provider_id || not (matches_labels ip.labels row.labels)

abbrev pub is_other_server : OwnedResource → ProviderServer → Bool
is_other_server row server =
    server.id != row.provider_id || not (matches_labels server.labels row.labels)

-- The provider may show an address as assigned for a while after its server is gone.
unfoldable pub await_release : CleanupWork → Inventory → OwnedResource → Assignment → Action Bool
await_release w i row Assignment.unassigned = pure true
await_release w i row (Assignment.to_server id) =
    if is_some (find (is_absent_server id) i.resources)
    then halt (set_progress w.operation (OperationProgress.verifying (owned_ref row)))
    else halt (mismatch w.operation)

unfoldable pub may_delete_ip :
    CleanupWork → Inventory → OwnedResource → Option ProviderPrimaryIp → Action Bool
unfolding await_release
may_delete_ip w i row none =
    halt (modify (record_absence w.moment.now w.allocation (owned_ref row)))
may_delete_ip w i row (some ip) =
    if is_other_ip row ip then halt (mismatch w.operation) else await_release w i row ip.assignment

abbrev pub is_assigned_to : (server_id : ℕ) → Assignment → Bool
is_assigned_to id Assignment.unassigned = false
is_assigned_to id (Assignment.to_server server_id) = server_id == id

abbrev pub is_attached : OwnedResource → ProviderServer → ProviderPrimaryIp → Bool
is_attached row server ip = not (is_other_ip row ip) && is_assigned_to server.id ip.assignment

-- A deletion of the server must not delete an address that a creation can still use.
unfoldable pub judge_attached :
    CleanupWork
    → Inventory
    → ProviderServer
    → Option OwnedResource
    → Option ProviderPrimaryIp
    → Action Bool
judge_attached w i server (some row) (some ip) =
    if is_attached row server ip
    then pure (not (pending_vm i && ip.auto_delete))
    else halt (mismatch w.operation)
judge_attached w i server _ _ = halt (mismatch w.operation)

abbrev pub is_live_ip : (primary_ip_id : ℕ) → OwnedResource → Bool
is_live_ip id row = is_kind_with ResourceKind.primary_ip id row && is_present row

unfoldable pub check_attached : CleanupWork → Inventory → ProviderServer → Option ℕ → Action Bool
unfolding judge_attached
check_attached w i server none = pure true
check_attached w i server (some ip_id) = do
  ip ← call (λ n. w.provider.get_primary_ip n ip_id)
  judge_attached w i server (find (is_live_ip ip_id) i.resources) ip

unfoldable pub may_delete_server :
    CleanupWork → Inventory → OwnedResource → Option ProviderServer → Action Bool
unfolding check_attached
may_delete_server w i row none =
    halt (modify (record_absence w.moment.now w.allocation (owned_ref row)))
may_delete_server w i row (some server) =
    if is_other_server row server
    then halt (mismatch w.operation)
    else check_attached w i server server.primary_ip_id

-- Whether the object that the provider shows may be deleted.
unfoldable pub may_delete : CleanupWork → Inventory → OwnedResource → ResourceKind → Action Bool
unfolding may_delete_ip may_delete_server
may_delete w i row ResourceKind.server =
    call (λ n. w.provider.get_server n row.provider_id) >>= may_delete_server w i row
may_delete w i row ResourceKind.primary_ip =
    call (λ n. w.provider.get_primary_ip n row.provider_id) >>= may_delete_ip w i row
