-- ===== src/Worker/Isolation.antt =====
-- What one tick of the worker leaves alone.
pub mod Local
pub mod Ticks
use agent_cloud.Base.{
  ℕ, List, [], ◌∷◌, Bool, true, false, Option, some, ◌≡◌, refl, sym, ap, subst, ◌∙◌, ◌==◌, ◌!=◌,
  ◌&&◌, is_none, nat_eq, nat_eqb, select, any, find, if◌then◌else◌, Bool-cases, inl, inr, arith, ⊤,
}
use agent_cloud.Base.Tables.{insert, update, select-insert-false, select-update}
use agent_cloud.Base.Result.{Result, ok, err, ok-bind, row_or, forbid}
use agent_cloud.Contracts.Errors.{ErrorCode, Failure}
use agent_cloud.Contracts.Provider.{ResourceRef, Labels, ProviderCommand, Submission}
use agent_cloud.Contracts.Lifecycle.{Operation, OperationProgress, Machine, MachineState}
use agent_cloud.Store.{
  Account, Project, Grant, OperationCleanup, Idempotency, AccessSession, GuestIdentity,
  OperatorRecovery, Allocation, Attempt, OwnedResource, Audit, AuditEvent, State,
}
use agent_cloud.Store.Action.Keeps.{IsFrame, Respects}
use agent_cloud.Store.Action.Ends.{IsFrame-IsEnding}
use agent_cloud.Journal.Resources.{
  claim_resource, insert_resource, new_resource, is_resource, is_bound_elsewhere, is_live_resource,
  record_absence, set_server,
}
use agent_cloud.Journal.Prepare.{
  Effect, prepare_attempt, has_id, set_progress_of, authorize_effect, new_attempt,
}
use agent_cloud.Journal.Submit.{write_progress, set_progress, progress_differs}
use agent_cloud.Journal.WriteAhead.Steps.{claimed_rows, claim_resource-eq, prepare_attempt-writes}
use agent_cloud.Journal.Writes.{Writes, Submits, journal_effect-Respects}
use agent_cloud.Worker.Work.{Work, is_machine}
use agent_cloud.Worker.Complete.{set_machine, ended, retire}
use agent_cloud.Worker.Effects.{write_compensation}
use agent_cloud.Worker.Cleanup.{CleanupWork, write_retirement}
use agent_cloud.Worker.Advance.{Tick, advance_operation}
use agent_cloud.Worker.Frames.{WorkFrame}
use agent_cloud.Worker.Frames.Cleaning.{CleanupFrame}
use agent_cloud.Worker.Frames.Ending.{Finals, write_failure-related, commit_completion-related}
use agent_cloud.Worker.Frames.Whole.{Found, advance_operation-related}

abbrev pub other_operations : (operation_id : ℕ) → State → List Operation
other_operations id s = select (λ (o : Operation). o.id != id) s.operations

abbrev pub other_machines : (machine_id : ℕ) → State → List Machine
other_machines id s = select (λ (m : Machine). m.id != id) s.machines

abbrev pub other_resources : (allocation_id : ℕ) → State → List OwnedResource
other_resources id s = select (λ (r : OwnedResource). r.allocation_id != id) s.resources

-- Nothing is written but to one operation, one machine, the resources of one allocation, and to the
-- tables of allocations, attempts, audit events and the trace.
pub record IsLocal (operation_id machine_id allocation_id : ℕ) (s t : State) : Type 0 where
  pub operations : other_operations operation_id t ≡ other_operations operation_id s
  pub machines : other_machines machine_id t ≡ other_machines machine_id s
  pub resources : other_resources allocation_id t ≡ other_resources allocation_id s
  pub accounts : t.accounts ≡ s.accounts
  pub projects : t.projects ≡ s.projects
  pub grants : t.grants ≡ s.grants
  pub cleanups : t.cleanups ≡ s.cleanups
  pub idempotency : t.idempotency ≡ s.idempotency
  pub sessions : t.sessions ≡ s.sessions
  pub identities : t.identities ≡ s.identities
  pub recoveries : t.recoveries ≡ s.recoveries
  pub schedules : t.schedules ≡ s.schedules
  pub schedule_runs : t.schedule_runs ≡ s.schedule_runs
  pub jobs : t.jobs ≡ s.jobs

module _ (operation_id machine_id allocation_id : ℕ) where
  abbrev L : State → State → Type 0
  L = IsLocal operation_id machine_id allocation_id

  pub local_frame : IsFrame L
  local_frame = record {
    stay = λ s. record {
      operations = refl;
      machines = refl;
      resources = refl;
      accounts = refl;
      projects = refl;
      grants = refl;
      cleanups = refl;
      idempotency = refl;
      sessions = refl;
      identities = refl;
      recoveries = refl;
      schedules = refl;
      schedule_runs = refl;
      jobs = refl;
    };
    chain = λ s t u p q. record {
      operations = q.operations ∙ p.operations;
      machines = q.machines ∙ p.machines;
      resources = q.resources ∙ p.resources;
      accounts = q.accounts ∙ p.accounts;
      projects = q.projects ∙ p.projects;
      grants = q.grants ∙ p.grants;
      cleanups = q.cleanups ∙ p.cleanups;
      idempotency = q.idempotency ∙ p.idempotency;
      sessions = q.sessions ∙ p.sessions;
      identities = q.identities ∙ p.identities;
      recoveries = q.recoveries ∙ p.recoveries;
      schedules = q.schedules ∙ p.schedules;
      schedule_runs = q.schedule_runs ∙ p.schedule_runs;
      jobs = q.jobs ∙ p.jobs;
    };
    called = λ s. record {
      operations = refl;
      machines = refl;
      resources = refl;
      accounts = refl;
      projects = refl;
      grants = refl;
      cleanups = refl;
      idempotency = refl;
      sessions = refl;
      identities = refl;
      recoveries = refl;
      schedules = refl;
      schedule_runs = refl;
      jobs = refl;
    };
  }

  -- A write to the operation, to the machine, or to the resources.
  pub on_operation :
      (change : Operation → Operation) (s : State)
      → ((o : Operation) → (change o).id ≡ o.id)
      → L s (record s { operations = update (has_id operation_id) change s.operations })
  on_operation change s same = record {
    operations = select-update _ (has_id operation_id) change s.operations λ o e.
        (ground arith, subst (λ i. (i != operation_id) ≡ false) (sym (same o)) (ground arith));
    machines = refl;
    resources = refl;
    accounts = refl;
    projects = refl;
    grants = refl;
    cleanups = refl;
    idempotency = refl;
    sessions = refl;
    identities = refl;
    recoveries = refl;
    schedules = refl;
    schedule_runs = refl;
    jobs = refl;
  }

  pub on_machine :
      (change : Machine → Machine) (s : State)
      → ((m : Machine) → (change m).id ≡ m.id)
      → L s (record s { machines = set_machine machine_id change s.machines })
  on_machine change s same = record {
    operations = refl;
    machines =
        select-update _ (is_machine machine_id) _ s.machines λ m e.
          (ground arith, subst (λ i. (i != machine_id) ≡ false) (sym (same m)) (ground arith));
    resources = refl;
    accounts = refl;
    projects = refl;
    grants = refl;
    cleanups = refl;
    idempotency = refl;
    sessions = refl;
    identities = refl;
    recoveries = refl;
    schedules = refl;
    schedule_runs = refl;
    jobs = refl;
  }

  pub on_resources :
      (rows : List OwnedResource) (s : State)
      → select (λ (r : OwnedResource). r.allocation_id != allocation_id) rows
        ≡ other_resources allocation_id s
      → L s (record s { resources = rows })
  on_resources rows s same = record {
    operations = refl;
    machines = refl;
    resources = same;
    accounts = refl;
    projects = refl;
    grants = refl;
    cleanups = refl;
    idempotency = refl;
    sessions = refl;
    identities = refl;
    recoveries = refl;
    schedules = refl;
    schedule_runs = refl;
    jobs = refl;
  }
