-- ===== src/Examples/Schedules.antt =====
-- Runs of the daily backups.
use agent_cloud.Base.{[], ◌∷◌, true, none, ◌≡◌, refl, ◌⊎◌, ◌+◌, ltb, arith}
use agent_cloud.Base.Result.{Result, ok, err, fault}
use agent_cloud.Contracts.Policy.{GrantPolicy, Principal, Capability, Capability-discrete}
use agent_cloud.Contracts.Provider.{Power, BackupStatus}
use agent_cloud.Contracts.Lifecycle.{Machine, MachineState, GuestVerification}
use agent_cloud.Store.{Grant, BackupSchedule, ScheduleAttempt, State}
use agent_cloud.Auth.Authority.{load_authority}
use agent_cloud.Auth.Policy.{authorize}
use agent_cloud.Schedules.{
  Scheduling, ScheduleRequest, capture_due, create_schedule, advance_schedule,
}
use agent_cloud.Schedules.Steps.{IsOrderly, Scheduled, Scheduled-IsOrderly}
use agent_cloud.Schedules.Paced.{IsRecordedRun, advance_schedule-again}
use agent_cloud.Examples.Data.{policy, root, empty, account}
use agent_cloud.Examples.Worker.{machine}

abbrev keeper : GrantPolicy
keeper = record policy { capabilities = Capability.backup_create ∷ [] }

abbrev keeper_grant : Grant
keeper_grant = record root { policy = keeper }

abbrev keeping : Principal
keeping = record { account_id = 7; grant_id = 1; policy = keeper }

abbrev guest : Machine
guest = record machine {
  state =
      MachineState.allocated 33 50 Power.running (GuestVerification.ssh 1 2 3 4)
        BackupStatus.disabled;
}

abbrev ready : State
ready = record empty { grants = keeper_grant ∷ []; machines = guest ∷ [] }

abbrev scheduling : Scheduling
scheduling = record {
  now = 20;
  digest = λ machine_id request. 5;
  capture = λ n principal machine_id recipe. ok 80;
}

abbrev request : ScheduleRequest
request = record { id = 70; app = 1; recipe = 2 }

abbrev state_of : Result (BackupSchedule × State) → State
state_of (ok (_, s)) = s
state_of (err _) = ready

abbrev schedule : BackupSchedule
schedule = record {
  id = 70;
  account_id = 7;
  project_id = 3;
  machine_id = 32;
  allocation_id = 33;
  grant_id = 1;
  digest = 5;
  app = 1;
  recipe = 2;
  next_run_at = 20;
  disabled_at = none;
  last_attempt = ScheduleAttempt.none_yet;
  created_at = 20;
}

ready-IsOrderly : IsOrderly ready
ready-IsOrderly = (λ a b m. absurd m, λ id. omega arith)

abbrev daily : State
daily = state_of (create_schedule scheduling keeping 32 request ready)

Scheduled-IsOrderly_example : IsOrderly daily
unfolding create_schedule load_authority authorize Capability-discrete
Scheduled-IsOrderly_example =
    Scheduled-IsOrderly ready daily
      (Scheduled.created Scheduled.untouched scheduling keeping 32 request schedule refl)
      ready-IsOrderly

advance_schedule-again_example :
    ((capture_due scheduling schedule daily ≡ err fault)
      × (advance_schedule scheduling 70 daily ≡ err fault))
    ⊎ ((t : State) × (advance_schedule scheduling 70 daily ≡ ok (tt, t))
        × IsRecordedRun scheduling schedule daily t
        × ((later : Scheduling)
            → ltb later.now (20 + 86400000) ≡ true
            → advance_schedule later 70 t ≡ ok (tt, t)))
unfolding create_schedule load_authority authorize Capability-discrete
advance_schedule-again_example =
    advance_schedule-again scheduling 70 daily schedule account refl refl refl
