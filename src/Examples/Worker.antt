-- ===== src/Examples/Worker.antt =====
-- Runs of the worker.
use agent_cloud.Base.{[], ◌∷◌, true, none, some, ◌≡◌, refl, find, ◌⊎◌, length, ⊤}
use agent_cloud.Base.Result.{Result, ok, err}
use agent_cloud.Contracts.Catalog.{ProviderKind}
use agent_cloud.Contracts.Lifecycle.{
  Operation, OperationKind, OperationIntent, OperationProgress, LifecycleCommand, MachineAction,
  Machine, MachineState,
}
use agent_cloud.Contracts.Provider.{ResourceKind, ProviderCommand}
use agent_cloud.Store.{Allocation, OwnedResource, NetworkProfile, State}
use agent_cloud.Journal.Prepare.{has_id}
use agent_cloud.Journal.Resources.{matches_labels}
use agent_cloud.Journal.Submit.{journal_effect}
use agent_cloud.Auth.Authority.{load_principal}
use agent_cloud.Auth.Policy.{authorize}
use agent_cloud.Admission.Command.{authorize_command}
use agent_cloud.Contracts.Catalog.{item_valid, select_offer}
use agent_cloud.Contracts.Policy.{Capability-discrete}
use agent_cloud.Worker.Create.{advance_create}
use agent_cloud.Journal.WriteAhead.{IsRecorded}
use agent_cloud.Worker.Work.{effect_of, GuestProvisioning, Moment}
use agent_cloud.Worker.Complete.{Completion, commit_completion}
use agent_cloud.Worker.Cleanup.{CleanupWork, read_history, advance_cleanup}
use agent_cloud.Worker.Advance.{Tick, advance_operation}
use agent_cloud.Worker.WriteAhead.{
  AsksOnce, advance_operation-AsksOnce, advance_operation-IsRecorded,
}
use agent_cloud.Worker.Isolation.Ticks.{Ticks, Ticks-is_terminal, Ticks-IsRecorded}
use agent_cloud.Worker.Retirement.{
  KeepsRetirements, RetiresOnlyEmpty, advance_cleanup-RetiresOnlyEmpty,
}
use agent_cloud.Worker.Retirement.Destroy.{DestroysEmpty, commit_completion-RetiresOnlyEmpty}
use agent_cloud.Worker.Deletions.Limit.{StaysWithin}
use agent_cloud.Worker.Deletions.Ticks.{advance_cleanup-StaysWithin}
use agent_cloud.Examples.Data.{admitted, operation, allocation, provider, limits, labels, spec}

abbrev moment : Moment
moment = record { clock = 20; now = 20; new_attempt_id = 60 }

abbrev pub machine : Machine
machine = record {
  id = 32;
  account_id = 7;
  project_id = 3;
  spec = spec;
  provider = ProviderKind.simulated;
  state = MachineState.provisioning 33;
  version = 1;
  created_at = 10;
}

abbrev reserved : Allocation
reserved = record allocation { network_profile = NetworkProfile.legacy }

abbrev running : State
running = record admitted { machines = machine ∷ []; allocations = reserved ∷ [] }

abbrev first : Tick
first = record {
  operation_id = 31;
  provider = provider;
  limits = limits;
  guest = GuestProvisioning.disabled;
  moment = moment;
}

advance_operation-AsksOnce_example : AsksOnce running (advance_operation first running).1
advance_operation-AsksOnce_example = advance_operation-AsksOnce first running

advance_operation-IsRecorded_example : IsRecorded (advance_operation first running).1
advance_operation-IsRecorded_example = advance_operation-IsRecorded first running tt

abbrev finished : Operation
finished = record operation { progress = OperationProgress.succeeded 15 }

abbrev settled : State
settled = record running { operations = finished ∷ [] }

Ticks-is_terminal_example :
    find (has_id 31) (advance_operation first settled).1.operations ≡ some finished
Ticks-is_terminal_example =
    Ticks-is_terminal settled (advance_operation first settled).1 31 finished
      (Ticks.tick Ticks.none_yet first) refl refl

Ticks-IsRecorded_example : IsRecorded (advance_operation first running).1
Ticks-IsRecorded_example =
    Ticks-IsRecorded running (advance_operation first running).1 (Ticks.tick Ticks.none_yet first)
      tt

abbrev destroying : Operation
destroying = record operation {
  kind = OperationKind.destroy;
  command = LifecycleCommand.act (MachineAction.destroy 1 true);
  intent = OperationIntent.cleanup 30;
}

abbrev cleaning : CleanupWork
cleaning = record {
  operation = destroying;
  allocation = reserved;
  provider = provider;
  limits = limits;
  moment = moment;
}

abbrev owned : OwnedResource
owned = record {
  provider = ProviderKind.simulated;
  kind = ResourceKind.server;
  provider_id = 50;
  account_id = 7;
  allocation_id = 33;
  labels = labels;
  absent_at = none;
}

abbrev cleaned : State
cleaned = record running {
  operations = destroying ∷ [];
  resources = owned ∷ [];
  cleanups =
      record {
        operation_id = 31;
        source_operation_id = 30;
        account_id = 7;
        allocation_id = 33;
        grant_id = 2;
        expected_version = 1;
        created_at = 15;
      }
      ∷ [];
}

advance_cleanup-StaysWithin_example :
    StaysWithin cleaning cleaned (advance_cleanup cleaning cleaned).1
advance_cleanup-StaysWithin_example = advance_cleanup-StaysWithin cleaning cleaned

abbrev completing : Completion
completing = record {
  operation = destroying;
  machine = machine;
  server = none;
  verification = none;
  now = 20;
}

abbrev emptied : State
emptied = record cleaned { resources = [] }

advance_cleanup-RetiresOnlyEmpty_example :
    RetiresOnlyEmpty cleaning emptied (advance_cleanup cleaning emptied).1
advance_cleanup-RetiresOnlyEmpty_example = advance_cleanup-RetiresOnlyEmpty cleaning emptied

abbrev state_of : Result (⊤ × State) → State
state_of (ok (_, s)) = s
state_of (err _) = emptied

commit_completion-RetiresOnlyEmpty_example :
    KeepsRetirements emptied (state_of (commit_completion completing emptied))
    ⊎ DestroysEmpty completing reserved emptied (state_of (commit_completion completing emptied))
unfolding commit_completion
commit_completion-RetiresOnlyEmpty_example =
    commit_completion-RetiresOnlyEmpty completing emptied
      (state_of (commit_completion completing emptied)) reserved refl refl refl

-- One tick of the cleanup asks for the deletion of the server that is still there.
cleanup_deletes :
    (advance_cleanup cleaning cleaned).1.submitted ≡ (60, ProviderCommand.destroy 50) ∷ []
unfolding advance_cleanup read_history matches_labels journal_effect
cleanup_deletes = refl

-- The first tick of a creation asks for the server.
creation_asks : length (advance_operation first running).1.submitted ≡ 1
unfolding advance_operation advance_create item_valid effect_of journal_effect select_offer
    load_principal authorize_command authorize Capability-discrete
creation_asks = refl
