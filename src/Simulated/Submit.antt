-- ===== src/Simulated/Submit.antt =====
-- apps/control/src/simulated-provider.ts, `submit` with `submitIp`.
use agent_cloud.Base.{
  ℕ, ◌+◌, List, Bool, true, false, Option, none, some, ◌&&◌, not, nat_eq, if◌then◌else◌, find,
  is_some,
}
use agent_cloud.Base.Tables.{insert, update}
use agent_cloud.Contracts.Provider.{
  Labels, network_ip, ProviderCommand, Submission, ProviderAction, ProviderServer,
  ProviderPrimaryIp, Power, BackupStatus, Assignment, is_unassigned, ResourceKind,
}
use agent_cloud.Simulated.{
  rejected_failure, rejection, visibility, is_duplicate, told, is_ip_row, remove, SimulationFault,
  Simulation, ServerRow, IpRow, ActionRow, Cloud, Draw,
}
use agent_cloud.Simulated.Actions.{get_action}

abbrev pub new_ip : ℕ → (region : ℕ) → Labels → ProviderPrimaryIp
new_ip id region labels = record {
  id = id;
  region = region;
  labels = labels;
  auto_delete = true;
  assignment = Assignment.unassigned;
}

abbrev pub ip_completed : ℕ → Submission
ip_completed id = Submission.completed (record { kind = ResourceKind.primary_ip; id = id })

unfoldable pub create_ip :
    SimulationFault → Draw → (region : ℕ) → Labels → Cloud → Submission × Cloud
create_ip f x region labels cloud =
    let row : IpRow = record {
      id = x.id;
      value = new_ip x.id region labels;
      visible_at = x.now + visibility f;
    } in
    let twin : IpRow = record {
      id = x.duplicate_id;
      value = new_ip x.duplicate_id region labels;
      visible_at = x.now + visibility f;
    } in
    (
      told f (ip_completed x.id),
      record cloud {
        ips = if is_duplicate f then insert twin (insert row cloud.ips) else insert row cloud.ips;
      },
    )

abbrev pub is_in_use : Option IpRow → Bool
is_in_use none = false
is_in_use (some row) = not (is_unassigned row.value.assignment)

unfoldable pub delete_address : SimulationFault → ℕ → Cloud → Submission × Cloud
delete_address f id cloud =
    if is_in_use (find (is_ip_row id) cloud.ips)
    then (rejection, cloud)
    else (told f (ip_completed id), record cloud { ips = remove (is_ip_row id) cloud.ips })

-- What a fault does before anything is done.
abbrev pub refused_ip : SimulationFault → Option Submission
refused_ip SimulationFault.timeout_before_submit = some Submission.unknown
refused_ip SimulationFault.reject = some rejection
refused_ip SimulationFault.action_failure = some rejection
refused_ip _ = none

abbrev pub refused_server : SimulationFault → Option Submission
refused_server SimulationFault.timeout_before_submit = some Submission.unknown
refused_server SimulationFault.reject = some rejection
refused_server _ = none

abbrev pub unless_refused : Option Submission → Cloud → Submission × Cloud → Submission × Cloud
unless_refused (some answer) cloud done = (answer, cloud)
unless_refused none cloud done = done

abbrev pub action_result : SimulationFault → ProviderAction
action_result SimulationFault.action_failure = ProviderAction.failed rejected_failure
action_result _ = ProviderAction.succeeded

abbrev pub new_action : Simulation → Draw → (server_id : ℕ) → ProviderCommand → ActionRow
new_action sim x server_id command = record {
  id = x.action_id;
  server_id = server_id;
  command = command;
  result = action_result sim.server_fault;
  ready_at = x.now + sim.action_delay_ms;
  completed_at = none;
}

abbrev pub new_server :
    ℕ → (server_type region : ℕ) → Labels → (ip : Option ℕ) → Power → ProviderServer
new_server id server_type region labels ip power = record {
  id = id;
  server_type = server_type;
  region = region;
  power = power;
  labels = labels;
  primary_ip_id = ip;
  backup_status = BackupStatus.disabled;
}

abbrev pub assign : (server_id : ℕ) → IpRow → IpRow
assign server_id row = record row {
  value = record row.value { assignment = Assignment.to_server server_id };
}

abbrev pub assigned : Option ℕ → (server_id : ℕ) → List IpRow → List IpRow
assigned none server_id ips = ips
assigned (some id) server_id ips = update (is_ip_row id) (assign server_id) ips

-- An address that a server is to have must be there and free.
abbrev pub is_free : Option ℕ → List IpRow → Bool
is_free none ips = true
is_free (some id) ips =
    is_some (find (is_ip_row id) ips) && not (is_in_use (find (is_ip_row id) ips))

abbrev pub server_row : SimulationFault → Draw → ℕ → ProviderServer → ServerRow
server_row f x id server = record { id = id; value = server; visible_at = x.now + visibility f }

-- The rows that a creation adds: with the fault, a twin without an address.
unfoldable pub created_servers :
    SimulationFault
    → Draw
    → (server_type region : ℕ) → Labels
    → Option ℕ
    → List ServerRow
    → List ServerRow
created_servers f x server_type region labels ip rows =
    let made =
      insert (server_row f x x.id (new_server x.id server_type region labels ip Power.starting))
        rows in
    if is_duplicate f
    then insert
        (server_row f x x.duplicate_id
          (new_server x.duplicate_id server_type region labels none Power.running))
        made
    else made

abbrev pub loses_answer : SimulationFault → Bool
loses_answer (SimulationFault.lose_response _) = true
loses_answer SimulationFault.duplicate_create = true
loses_answer _ = false

-- After the transaction: with a lost answer the action is carried out at once if it is ready.
unfoldable pub acknowledge : Simulation → Draw → (server_id : ℕ) → Cloud → Submission × Cloud
unfolding get_action
acknowledge sim x server_id cloud =
    if loses_answer sim.server_fault
    then (Submission.unknown, (get_action sim x.now x.action_id cloud).1)
    else (
      Submission.accepted (record { kind = ResourceKind.server; id = server_id }) x.action_id,
      cloud,
    )

unfoldable pub accept_creation :
    Simulation
    → Draw
    → ProviderCommand
    → (server_type region : ℕ) → Labels
    → Option ℕ
    → Cloud
    → Submission × Cloud
unfolding acknowledge created_servers
accept_creation sim x command server_type region labels ip cloud =
    if is_free ip cloud.ips
    then acknowledge sim x x.id (record cloud {
      ips = assigned ip x.id cloud.ips;
      servers = created_servers sim.server_fault x server_type region labels ip cloud.servers;
      actions = insert (new_action sim x x.id command) cloud.actions;
    })
    else (rejection, cloud)

unfoldable pub change_server :
    Simulation → Draw → ProviderCommand → (server_id : ℕ) → Cloud → Submission × Cloud
unfolding acknowledge
change_server sim x command server_id cloud =
    acknowledge sim x server_id
      (record cloud { actions = insert (new_action sim x server_id command) cloud.actions })

unfoldable pub submit_server : Simulation → Draw → ProviderCommand → Cloud → Submission × Cloud
unfolding accept_creation change_server
submit_server sim x (ProviderCommand.create server_type region labels network) cloud =
    accept_creation sim x (ProviderCommand.create server_type region labels network) server_type
      region labels (network_ip network) cloud
submit_server sim x (ProviderCommand.create_guest server_type region labels ip bootstrap) cloud =
    accept_creation sim x (ProviderCommand.create_guest server_type region labels ip bootstrap)
      server_type region labels (some ip) cloud
submit_server sim x (ProviderCommand.reboot id) cloud =
    change_server sim x (ProviderCommand.reboot id) id cloud
submit_server sim x (ProviderCommand.power_off id) cloud =
    change_server sim x (ProviderCommand.power_off id) id cloud
submit_server sim x (ProviderCommand.power_on id) cloud =
    change_server sim x (ProviderCommand.power_on id) id cloud
submit_server sim x (ProviderCommand.enable_backup id) cloud =
    change_server sim x (ProviderCommand.enable_backup id) id cloud
submit_server sim x (ProviderCommand.resize id server_type) cloud =
    change_server sim x (ProviderCommand.resize id server_type) id cloud
submit_server sim x (ProviderCommand.destroy id) cloud =
    change_server sim x (ProviderCommand.destroy id) id cloud
submit_server sim x _ cloud = (rejection, cloud)

-- `submit`, with `submitIp`
unfoldable pub submit : Simulation → Draw → ProviderCommand → Cloud → Submission × Cloud
unfolding create_ip delete_address submit_server
submit sim x (ProviderCommand.create_primary_ip region labels) cloud =
    unless_refused (refused_ip sim.primary_ip_fault) cloud
      (create_ip sim.primary_ip_fault x region labels cloud)
submit sim x (ProviderCommand.delete_primary_ip id) cloud =
    unless_refused (refused_ip sim.primary_ip_fault) cloud
      (delete_address sim.primary_ip_fault id cloud)
submit sim x command cloud =
    unless_refused (refused_server sim.server_fault) cloud (submit_server sim x command cloud)
