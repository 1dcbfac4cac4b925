-- ===== src/Simulated/Once.antt =====
-- apps/control/src/simulated-provider.ts, `getAction`: an action is carried out once.
use agent_cloud.Base.{
  ℕ, List, Bool, true, false, Option, none, some, ◌≡◌, ◌≢◌, refl, ◌∙◌, inl, inr, nat_eq, ltb, find,
  is_some, Bool-cases, Option-cases, arith, ◌≤◌,
}
use agent_cloud.Base.Tables.{update, find-update-some}
use agent_cloud.Base.Result.{Result, ok, err}
use agent_cloud.Contracts.Provider.{ProviderAction, ProviderCommand, ProviderServer}
use agent_cloud.Simulated.{
  Simulation, ServerRow, IpRow, ActionRow, Cloud, is_server_row, is_action_row,
}
use agent_cloud.Simulated.Actions.{
  release_address, destroy_server, ip_of, apply_command, apply_to, apply_action, complete_row,
  conclude_action, read_action, get_action,
}

-- Carrying a command out changes servers and addresses only.
release_address-actions :
    (retain : Bool) (row : Option IpRow) (cloud : Cloud)
    → (release_address retain row cloud).actions ≡ cloud.actions
unfolding release_address
release_address-actions retain none cloud = refl
release_address-actions retain (some row) cloud = ground arith

abbrev actions_of : List ActionRow → Result Cloud → List ActionRow
actions_of rows (ok cloud) = cloud.actions
actions_of rows (err e) = rows

apply_command-actions :
    (retain : Bool) (id : ℕ) (command : ProviderCommand) (server : ProviderServer) (cloud : Cloud)
    → actions_of cloud.actions (apply_command retain id command server cloud) ≡ cloud.actions
unfolding apply_command destroy_server
apply_command-actions retain id (ProviderCommand.destroy _) server cloud =
    release_address-actions retain (ip_of server.primary_ip_id cloud.ips) _
apply_command-actions retain id (ProviderCommand.create_primary_ip _ _) server cloud = refl
apply_command-actions retain id (ProviderCommand.delete_primary_ip _) server cloud = refl
apply_command-actions retain id _ server cloud = refl

apply_to-actions :
    (retain : Bool) (row : ActionRow) (stored : Option ServerRow) (cloud : Cloud)
    → actions_of cloud.actions (apply_to retain row stored cloud) ≡ cloud.actions
unfolding apply_to
apply_to-actions retain row none cloud = refl
apply_to-actions retain row (some stored) cloud =
    apply_command-actions retain row.server_id row.command stored.value cloud

apply_action-actions :
    (retain : Bool) (row : ActionRow) (result : ProviderAction) (cloud : Cloud)
    → actions_of cloud.actions (apply_action retain row result cloud) ≡ cloud.actions
unfolding apply_action
apply_action-actions retain row ProviderAction.succeeded cloud =
    apply_to-actions retain row (find (is_server_row row.server_id) cloud.servers) cloud
apply_action-actions retain row _ cloud = refl

-- Asking again for an action that was due.
due_later :
    {now later : ℕ} (row : ActionRow)
    → ltb now row.ready_at ≡ false
    → now ≤ later
    → ltb later row.ready_at ≡ false
due_later row due h = ground arith

read_again :
    (sim : Simulation) (later : ℕ) (row : ActionRow) (cloud : Cloud)
    → ltb later row.ready_at ≡ false
    → is_some row.completed_at ≡ true
    → read_action sim later row cloud ≡ (ok row.result, cloud)
unfolding read_action
read_again sim later row cloud due done = rw (due, done) refl

finish_again :
    (sim : Simulation) (now later action_id : ℕ) (row : ActionRow) (cloud : Cloud)
    (done : Result Cloud)
    → find (is_action_row action_id) cloud.actions ≡ some row
    → ltb later row.ready_at ≡ false
    → is_some row.completed_at ≡ false
    → apply_action sim.retain_primary_ips row row.result cloud ≡ done
    → actions_of cloud.actions done ≡ cloud.actions
    → get_action sim later action_id (conclude_action now row cloud done).1
      ≡ conclude_action now row cloud done
unfolding get_action
finish_again sim now later action_id row cloud (ok after) found due open_yet e same =
    rw stored (read_again sim later (complete_row now row) _ due refl)
  where
    id_eq : is_action_row row.id row ≡ true
    id_eq = ground arith

    stored :
        find
          (is_action_row action_id)
          (update (is_action_row row.id) (complete_row now) after.actions)
        ≡ some (complete_row now row)
    stored = rw same (
        find-update-some (is_action_row action_id) (is_action_row row.id) (complete_row now)
          cloud.actions (λ _. refl) found
        ∙ rw id_eq refl)
finish_again sim now later action_id row cloud (err _) found due open_yet e same =
    rw found (rw (due, open_yet, e) refl)

read_again_same :
    (sim : Simulation) (now later action_id : ℕ) (row : ActionRow) (cloud : Cloud)
    → find (is_action_row action_id) cloud.actions ≡ some row
    → now ≤ later
    → (read_action sim now row cloud).0 ≢ ok ProviderAction.running
    → get_action sim later action_id (read_action sim now row cloud).1
      ≡ read_action sim now row cloud
unfolding read_action get_action
read_again_same sim now later action_id row cloud found h =
    elim (Bool-cases (ltb now row.ready_at)) [
      | inl early ↦ rw early (λ known. absurd (known refl))
      | inr due ↦ rw due (elim (Bool-cases (is_some row.completed_at)) [
        | inl done ↦
            rw done (λ _. rw found (read_again sim later row cloud (due_later row due h) done))
        | inr open_yet ↦ rw open_yet (λ _.
            finish_again sim now later action_id row cloud _ found (due_later row due h) open_yet
              refl (apply_action-actions sim.retain_primary_ips row row.result cloud))
      ])
    ]

-- Once an action is known to have succeeded or failed, asking for it again at that moment or later gives the
-- same answer and changes nothing: it is carried out once.
pub get_action-again :
    (sim : Simulation) (now later action_id : ℕ) (cloud : Cloud)
    → now ≤ later
    → (get_action sim now action_id cloud).0 ≢ ok ProviderAction.running
    → get_action sim later action_id (get_action sim now action_id cloud).1
      ≡ get_action sim now action_id cloud
unfolding get_action
get_action-again sim now later action_id cloud h =
    elim (Option-cases (find (is_action_row action_id) cloud.actions)) [
      | inl e ↦ rw e (λ _. rw e refl)
      | inr w ↦ rw w.1 (read_again_same sim now later action_id w.0 cloud w.1 h)
    ]
