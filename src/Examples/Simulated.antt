-- ===== src/Examples/Simulated.antt =====
-- Runs of the simulated provider.
use agent_cloud.Base.{[], none, some, false, ◌≡◌, refl, ◌≢◌, arith}
use agent_cloud.Base.Result.{ok}
use agent_cloud.Contracts.Provider.{
  Network, Power, ProviderAction, ProviderCommand, Submission, ResourceKind,
}
use agent_cloud.Simulated.{Simulation, SimulationFault, Draw, Cloud, get_server}
use agent_cloud.Simulated.Actions.{get_action}
use agent_cloud.Simulated.Submit.{submit, new_server}
use agent_cloud.Simulated.Once.{get_action-again}
use agent_cloud.Simulated.Created.{submit-creates}
use agent_cloud.Simulated.Destroyed.{submit-destroys}

abbrev slow : Simulation
slow = record {
  server_fault = SimulationFault.no_fault;
  primary_ip_fault = SimulationFault.no_fault;
  action_delay_ms = 50;
  retain_primary_ips = false;
}

abbrev first : Draw
first = record { now = 100; id = 1; duplicate_id = 2; action_id = 3 }

abbrev second : Draw
second = record { now = 200; id = 4; duplicate_id = 5; action_id = 6 }

abbrev third : Draw
third = record { now = 300; id = 7; duplicate_id = 8; action_id = 9 }

abbrev nothing : Cloud
nothing = record { servers = []; ips = []; actions = [] }

abbrev addressed : Cloud
addressed = (submit slow first (ProviderCommand.create_primary_ip 4 []) nothing).1

abbrev created : Cloud
created = (submit slow second (ProviderCommand.create 5 4 [] (Network.with_ip 1)) addressed).1

abbrev running : Cloud
running = (get_action slow 250 6 created).1

abbrev sent : Cloud
sent = (submit slow third (ProviderCommand.destroy 4) running).1

submit-creates_example :
    ((submit slow second (ProviderCommand.create 5 4 [] (Network.with_ip 1)) addressed).0
      ≡ Submission.accepted (record { kind = ResourceKind.server; id = 4 }) 6)
    × ((get_action slow 260 6 created).0 ≡ ok ProviderAction.succeeded)
    × (get_server 260 4 (get_action slow 260 6 created).1
        ≡ some (new_server 4 5 4 [] (some 1) Power.running))
unfolding submit
submit-creates_example =
    submit-creates slow second 5 4 [] (Network.with_ip 1) addressed 260 refl refl refl refl
      (omega arith)

submit-destroys_example :
    ((submit slow third (ProviderCommand.destroy 4) running).0
      ≡ Submission.accepted (record { kind = ResourceKind.server; id = 4 }) 9)
    × ((get_action slow 400 9 sent).0 ≡ ok ProviderAction.succeeded)
    × (get_server 500 4 (get_action slow 400 9 sent).1 ≡ none)
unfolding submit get_action
submit-destroys_example = submit-destroys slow third 4 running 400 500 refl refl (omega arith)

get_action-again_example :
    get_action slow 450 9 (get_action slow 400 9 sent).1 ≡ get_action slow 400 9 sent
unfolding submit get_action
get_action-again_example = get_action-again slow 400 450 9 sent (omega arith) succeeds
  where
    succeeds : (get_action slow 400 9 sent).0 ≢ ok ProviderAction.running
    succeeds e = cc
