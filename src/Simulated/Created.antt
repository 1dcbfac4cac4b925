-- ===== src/Simulated/Created.antt =====
-- apps/control/src/simulated-provider.ts: a creation that no fault is asked for.
use agent_cloud.Base.{ℕ, true, none, some, ◌≡◌, refl, ◌+◌, ◌≤◌, find, arith, and_split}
use agent_cloud.Base.Tables.{insert, update, find-update-some}
use agent_cloud.Base.Result.{ok}
use agent_cloud.Contracts.Provider.{
  Labels, Network, network_ip, Power, ProviderAction, ProviderCommand, Submission, ResourceKind,
}
use agent_cloud.Simulated.{
  Simulation, SimulationFault, Draw, ServerRow, ActionRow, Cloud, is_server_row, is_action_row,
  shows_server, get_server,
}
use agent_cloud.Simulated.Actions.{apply_command, apply_to, apply_action, get_action}
use agent_cloud.Simulated.Submit.{
  new_server, new_action, server_row, created_servers, assigned, is_free, accept_creation,
  acknowledge, submit_server, submit,
}
use agent_cloud.Simulated.Due.{find_inserted, find_less, read_due, not_early}

-- A creation.
abbrev started :
    (sim : Simulation) → Draw → (server_type region : ℕ) → Labels → Network → Cloud → Cloud
started sim x server_type region labels network cloud = record cloud {
  ips = assigned (network_ip network) x.id cloud.ips;
  servers =
      insert
        (server_row sim.server_fault x x.id
          (new_server x.id server_type region labels (network_ip network) Power.starting))
        cloud.servers;
  actions =
      insert (new_action sim x x.id (ProviderCommand.create server_type region labels network))
        cloud.actions;
}

submit-create :
    (sim : Simulation) (x : Draw) (server_type region : ℕ) (labels : Labels) (network : Network)
    (cloud : Cloud)
    → sim.server_fault ≡ SimulationFault.no_fault
    → is_free (network_ip network) cloud.ips ≡ true
    → submit sim x (ProviderCommand.create server_type region labels network) cloud ≡ (
      Submission.accepted (record { kind = ResourceKind.server; id = x.id }) x.action_id,
      started sim x server_type region labels network cloud,
    )
unfolding submit submit_server accept_creation acknowledge created_servers
submit-create sim x server_type region labels network cloud e free = rw (e, free) refl

abbrev run : ℕ → (server_type region : ℕ) → Labels → Network → ServerRow → ServerRow
run id server_type region labels network row = record row {
  value = new_server id server_type region labels (network_ip network) Power.running;
}

started-carried :
    (sim : Simulation) (x : Draw) (server_type region : ℕ) (labels : Labels) (network : Network)
    (cloud : Cloud) (later : ℕ)
    → sim.server_fault ≡ SimulationFault.no_fault
    → find (is_server_row x.id) cloud.servers ≡ none
    → find (is_action_row x.action_id) cloud.actions ≡ none
    → x.now + sim.action_delay_ms ≤ later
    → ((get_action sim later x.action_id (started sim x server_type region labels network cloud)).0
        ≡ ok ProviderAction.succeeded)
      × ((get_action sim later x.action_id
            (started sim x server_type region labels network cloud)).1.servers
          ≡ update
              (is_server_row x.id)
              (run x.id server_type region labels network)
              (started sim x server_type region labels network cloud).servers)
unfolding apply_action apply_to apply_command
started-carried sim x server_type region labels network cloud later e fresh new due =
    rw
      (read_due sim later x.action_id action (started sim x server_type region labels network cloud)
        found (not_early x.now sim.action_delay_ms later due) refl)
      (rw e (rw stored (refl, refl)))
  where
    action : ActionRow
    action = new_action sim x x.id (ProviderCommand.create server_type region labels network)

    self : is_action_row x.action_id action ≡ true
    self = ground arith

    found :
        find
          (is_action_row x.action_id)
          (started sim x server_type region labels network cloud).actions
        ≡ some action
    found = find_inserted _ action cloud.actions new self

    server : ServerRow
    server =
        server_row SimulationFault.no_fault x x.id
          (new_server x.id server_type region labels (network_ip network) Power.starting)

    self_server : is_server_row x.id server ≡ true
    self_server = ground arith

    stored : find (is_server_row x.id) (insert server cloud.servers) ≡ some server
    stored = find_inserted _ server cloud.servers fresh self_server

started-shown :
    (sim : Simulation) (x : Draw) (server_type region : ℕ) (labels : Labels) (network : Network)
    (cloud after : Cloud) (later : ℕ)
    → sim.server_fault ≡ SimulationFault.no_fault
    → find (is_server_row x.id) cloud.servers ≡ none
    → x.now + sim.action_delay_ms ≤ later
    → after.servers
      ≡ update
          (is_server_row x.id)
          (run x.id server_type region labels network)
          (started sim x server_type region labels network cloud).servers
    → get_server later x.id after
      ≡ some (new_server x.id server_type region labels (network_ip network) Power.running)
unfolding get_server
started-shown sim x server_type region labels network cloud after later e fresh due g =
    rw (g, e)
      (rw
        (
          find-update-some (shows_server x.id later) (is_server_row x.id)
              (run x.id server_type region labels network) (insert server cloud.servers) (λ _. refl)
              found,
          own,
        )
        refl)
  where
    server : ServerRow
    server =
        server_row SimulationFault.no_fault x x.id
          (new_server x.id server_type region labels (network_ip network) Power.starting)

    own : is_server_row x.id server ≡ true
    own = ground arith

    shown : shows_server x.id later server ≡ true
    shown = ground arith

    found : find (shows_server x.id later) (insert server cloud.servers) ≡ some server
    found =
        find_inserted _ server cloud.servers
          (find_less (is_server_row x.id) (shows_server x.id later) cloud.servers
            (λ row h. (and_split (is_server_row x.id row) _ h).0) fresh)
          shown

-- A creation without faults that finds its address there and free is accepted. Asked for once the delay has
-- passed, its action has succeeded, and from then on the server is shown running, with its type, region,
-- labels and address, if the ids drawn were fresh.
pub submit-creates :
    (sim : Simulation) (x : Draw) (server_type region : ℕ) (labels : Labels) (network : Network)
    (cloud : Cloud) (later : ℕ)
    → sim.server_fault ≡ SimulationFault.no_fault
    → is_free (network_ip network) cloud.ips ≡ true
    → find (is_server_row x.id) cloud.servers ≡ none
    → find (is_action_row x.action_id) cloud.actions ≡ none
    → x.now + sim.action_delay_ms ≤ later
    → ((submit sim x (ProviderCommand.create server_type region labels network) cloud).0
        ≡ Submission.accepted (record { kind = ResourceKind.server; id = x.id }) x.action_id)
      × ((get_action sim later x.action_id
            (submit sim x (ProviderCommand.create server_type region labels network) cloud).1).0
          ≡ ok ProviderAction.succeeded)
      × (get_server later x.id
            (get_action sim later x.action_id
              (submit sim x (ProviderCommand.create server_type region labels network) cloud).1).1
          ≡ some (new_server x.id server_type region labels (network_ip network) Power.running))
submit-creates sim x server_type region labels network cloud later e free fresh new due =
    let carried =
      started-carried sim x server_type region labels network cloud later e fresh new due in
    rw (submit-create sim x server_type region labels network cloud e free) (
      refl,
      carried.0,
      started-shown sim x server_type region labels network cloud
          (get_action sim later x.action_id
            (started sim x server_type region labels network cloud)).1
          later e fresh due carried.1,
    )
