-- ===== src/Simulated/Destroyed.antt =====
-- apps/control/src/simulated-provider.ts: a destruction that no fault is asked for.
use agent_cloud.Base.{
  ℕ, Bool, true, Option, none, some, ◌≡◌, refl, ◌+◌, ◌≤◌, find, arith, and_split,
}
use agent_cloud.Base.Tables.{insert}
use agent_cloud.Base.Result.{ok}
use agent_cloud.Contracts.Provider.{
  ProviderAction, ProviderCommand, ProviderServer, Submission, ResourceKind,
}
use agent_cloud.Simulated.{
  Simulation, SimulationFault, Draw, ServerRow, IpRow, ActionRow, Cloud, is_server_row,
  is_action_row, remove, shows_server, get_server,
}
use agent_cloud.Simulated.Actions.{
  release_address, destroy_server, ip_of, apply_command, apply_to, apply_action, conclude_action,
  get_action,
}
use agent_cloud.Simulated.Submit.{new_action, change_server, acknowledge, submit_server, submit}
use agent_cloud.Simulated.Due.{find_inserted, find_less, find-remove, read_due, not_early}

release_address-servers :
    (retain : Bool) (row : Option IpRow) (cloud : Cloud)
    → (release_address retain row cloud).servers ≡ cloud.servers
unfolding release_address
release_address-servers retain none cloud = refl
release_address-servers retain (some row) cloud = ground arith

destroy_server-servers :
    (retain : Bool) (id : ℕ) (server : ProviderServer) (cloud : Cloud)
    → (destroy_server retain id server cloud).servers ≡ remove (is_server_row id) cloud.servers
unfolding destroy_server
destroy_server-servers retain id server cloud =
    release_address-servers retain (ip_of server.primary_ip_id cloud.ips) _

-- No row of that id is left, and so none is shown.
hidden :
    (id moment : ℕ) (cloud : Cloud)
    → find (is_server_row id) cloud.servers ≡ none
    → get_server moment id cloud ≡ none
unfolding get_server
hidden id moment cloud gone =
    rw
      (find_less (is_server_row id) (shows_server id moment) cloud.servers
        (λ row h. (and_split (is_server_row id row) _ h).0) gone)
      refl

finished-destroys :
    (retain : Bool) (now id moment : ℕ) (row : ActionRow) (stored : Option ServerRow)
    (cloud : Cloud)
    → row.command ≡ ProviderCommand.destroy id
    → row.server_id ≡ id
    → find (is_server_row id) cloud.servers ≡ stored
    → ((conclude_action now row cloud (apply_to retain row stored cloud)).0 ≡ ok row.result)
      × (get_server moment id (conclude_action now row cloud (apply_to retain row stored cloud)).1
          ≡ none)
unfolding apply_to apply_command
finished-destroys retain now id moment row none cloud c s found = (refl, hidden id moment _ found)
finished-destroys retain now id moment row (some stored) cloud c s found =
    rw (c, s)
      (
        refl,
        hidden id moment _ (
            rw (destroy_server-servers retain id stored.value cloud)
              (find-remove (is_server_row id) cloud.servers)),
      )

submit-destroy :
    (sim : Simulation) (x : Draw) (id : ℕ) (cloud : Cloud)
    → sim.server_fault ≡ SimulationFault.no_fault
    → submit sim x (ProviderCommand.destroy id) cloud ≡ (
      Submission.accepted (record { kind = ResourceKind.server; id = id }) x.action_id,
      record cloud {
        actions = insert (new_action sim x id (ProviderCommand.destroy id)) cloud.actions;
      },
    )
unfolding submit submit_server change_server acknowledge
submit-destroy sim x id cloud e = rw e refl

-- A destruction without faults is accepted, whether the server is there or not. Asked for once the delay has
-- passed, its action has succeeded, and then no server of that id is shown at any moment, if the id drawn for
-- the action was fresh.
pub submit-destroys :
    (sim : Simulation) (x : Draw) (id : ℕ) (cloud : Cloud) (later moment : ℕ)
    → sim.server_fault ≡ SimulationFault.no_fault
    → find (is_action_row x.action_id) cloud.actions ≡ none
    → x.now + sim.action_delay_ms ≤ later
    → ((submit sim x (ProviderCommand.destroy id) cloud).0
        ≡ Submission.accepted (record { kind = ResourceKind.server; id = id }) x.action_id)
      × ((get_action sim later x.action_id (submit sim x (ProviderCommand.destroy id) cloud).1).0
          ≡ ok ProviderAction.succeeded)
      × (get_server moment id
            (get_action sim later x.action_id (submit sim x (ProviderCommand.destroy id) cloud).1).1
          ≡ none)
unfolding apply_action
submit-destroys sim x id cloud later moment e new due =
    let carried : ActionRow = record (new_action sim x id (ProviderCommand.destroy id)) {
      result = ProviderAction.succeeded;
    } in
    let done =
      finished-destroys sim.retain_primary_ips later id moment carried
        (find (is_server_row id) cloud.servers)
        (record cloud { actions = insert carried cloud.actions }) refl refl refl in
    rw (submit-destroy sim x id cloud e) (
      rw
        (
          read_due sim later x.action_id action sent found
              (not_early x.now sim.action_delay_ms later due) refl,
          e,
        )
        (refl, done.0, done.1))
  where
    action : ActionRow
    action = new_action sim x id (ProviderCommand.destroy id)

    sent : Cloud
    sent = record cloud { actions = insert action cloud.actions }

    self : is_action_row x.action_id action ≡ true
    self = ground arith

    found : find (is_action_row x.action_id) sent.actions ≡ some action
    found = find_inserted _ action cloud.actions new self
