-- ===== src/Simulated/Actions.antt =====
-- apps/control/src/simulated-provider.ts, `getAction`: an action that is due is carried out when it is asked for.
use agent_cloud.Base.{
  ℕ, List, Bool, Option, none, some, ◌&&◌, not, nat_eq, ltb, if◌then◌else◌, find, is_some,
}
use agent_cloud.Base.Tables.{update}
use agent_cloud.Base.Result.{Result, ok, err, fault}
use agent_cloud.Contracts.Provider.{
  ProviderCommand, ProviderAction, ProviderServer, Power, BackupStatus, Assignment,
}
use agent_cloud.Simulated.{
  rejected_failure, is_server_row, is_ip_row, is_action_row, remove, Simulation, ServerRow, IpRow,
  ActionRow, Cloud,
}

abbrev pub row_power : ProviderCommand → Power
row_power (ProviderCommand.power_off _) = Power.off
row_power _ = Power.running

abbrev pub set_server_value : ℕ → (ProviderServer → ProviderServer) → Cloud → Cloud
set_server_value id change cloud = record cloud {
  servers =
      update (is_server_row id) (λ (r : ServerRow). record r { value = change r.value })
        cloud.servers;
}

abbrev pub unassign : IpRow → IpRow
unassign row = record row { value = record row.value { assignment = Assignment.unassigned } }

-- The address of a server that is gone.
unfoldable pub release_address : (retain : Bool) → Option IpRow → Cloud → Cloud
release_address retain none cloud = cloud
release_address retain (some row) cloud =
    if row.value.auto_delete && not retain
    then record cloud { ips = remove (is_ip_row row.value.id) cloud.ips }
    else record cloud { ips = update (is_ip_row row.value.id) unassign cloud.ips }

abbrev pub ip_of : Option ℕ → List IpRow → Option IpRow
ip_of none ips = none
ip_of (some id) ips = find (is_ip_row id) ips

unfoldable pub destroy_server : (retain : Bool) → ℕ → ProviderServer → Cloud → Cloud
unfolding release_address
destroy_server retain id server cloud =
    release_address retain (ip_of server.primary_ip_id cloud.ips)
      (record cloud { servers = remove (is_server_row id) cloud.servers })

unfoldable pub apply_command :
    (retain : Bool) → ℕ → ProviderCommand → ProviderServer → Cloud → Result Cloud
unfolding destroy_server
apply_command retain id (ProviderCommand.destroy _) server cloud =
    ok (destroy_server retain id server cloud)
apply_command retain id (ProviderCommand.resize _ server_type) server cloud =
    ok (set_server_value id (λ _. record server { server_type = server_type }) cloud)
apply_command retain id (ProviderCommand.enable_backup _) server cloud =
    ok (set_server_value id (λ _. record server { backup_status = BackupStatus.enabled }) cloud)
apply_command retain id (ProviderCommand.create_primary_ip _ _) server cloud = err fault
apply_command retain id (ProviderCommand.delete_primary_ip _) server cloud = err fault
apply_command retain id command server cloud =
    ok (set_server_value id (λ _. record server { power = row_power command }) cloud)

unfoldable pub apply_to : (retain : Bool) → ActionRow → Option ServerRow → Cloud → Result Cloud
unfolding apply_command
apply_to retain row none cloud = ok cloud
apply_to retain row (some stored) cloud =
    apply_command retain row.server_id row.command stored.value cloud

unfoldable pub apply_action : (retain : Bool) → ActionRow → ProviderAction → Cloud → Result Cloud
unfolding apply_to
apply_action retain row ProviderAction.succeeded cloud =
    apply_to retain row (find (is_server_row row.server_id) cloud.servers) cloud
apply_action retain row _ cloud = ok cloud

abbrev pub complete_row : (now : ℕ) → ActionRow → ActionRow
complete_row now row = record row { completed_at = some now }

abbrev pub conclude_action :
    (now : ℕ) → ActionRow → Cloud → Result Cloud → Result ProviderAction × Cloud
conclude_action now row before (ok cloud) = (
  ok row.result,
  record cloud { actions = update (is_action_row row.id) (complete_row now) cloud.actions },
)
conclude_action now row before (err e) = (err e, before)

unfoldable pub read_action :
    Simulation → (now : ℕ) → ActionRow → Cloud → Result ProviderAction × Cloud
unfolding apply_action
read_action sim now row cloud =
    if ltb now row.ready_at
    then (ok ProviderAction.running, cloud)
    else if is_some row.completed_at
    then (ok row.result, cloud)
    else conclude_action now row cloud (apply_action sim.retain_primary_ips row row.result cloud)

unfoldable pub found_action :
    Simulation → (now : ℕ) → Option ActionRow → Cloud → Result ProviderAction × Cloud
unfolding read_action
found_action sim now none cloud = (ok (ProviderAction.failed rejected_failure), cloud)
found_action sim now (some row) cloud = read_action sim now row cloud

-- `getAction`
unfoldable pub get_action : Simulation → (now action_id : ℕ) → Cloud → Result ProviderAction × Cloud
unfolding found_action
get_action sim now action_id cloud =
    found_action sim now (find (is_action_row action_id) cloud.actions) cloud
