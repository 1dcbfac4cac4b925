-- ===== src/Worker/Isolation/Local.antt =====
-- Every write of a tick is local to its operation, its machine and its allocation.
use agent_cloud.Base.{
  ℕ, List, some, ◌≡◌, refl, sym, subst, ◌==◌, ◌!=◌, ◌&&◌, is_none, nat_eq, select, any, Bool-cases,
  inl, inr, arith, ⊤,
}
use agent_cloud.Base.Tables.{insert, update, select-insert-false, select-update}
use agent_cloud.Base.Result.{ok}
use agent_cloud.Contracts.Errors.{Failure}
use agent_cloud.Contracts.Provider.{ResourceRef, Labels, ProviderCommand}
use agent_cloud.Contracts.Lifecycle.{Operation, OperationProgress, Machine, MachineState}
use agent_cloud.Store.{Allocation, Attempt, OwnedResource, Audit, AuditEvent, State}
use agent_cloud.Store.Action.Keeps.{IsFrame}
use agent_cloud.Journal.Resources.{
  claim_resource, insert_resource, new_resource, is_resource, is_live_resource, record_absence,
  set_server,
}
use agent_cloud.Journal.Prepare.{Effect, prepare_attempt, has_id, set_progress_of, new_attempt}
use agent_cloud.Journal.Submit.{write_progress, set_progress, progress_differs}
use agent_cloud.Journal.WriteAhead.Steps.{claimed_rows, claim_resource-eq, prepare_attempt-writes}
use agent_cloud.Journal.Writes.{Writes}
use agent_cloud.Worker.Complete.{set_machine, ended, retire}
use agent_cloud.Worker.Effects.{write_compensation}
use agent_cloud.Worker.Cleanup.{CleanupWork, write_retirement}
use agent_cloud.Worker.Frames.Ending.{Finals}
use agent_cloud.Worker.Isolation.{
  IsLocal, other_resources, local_frame, on_operation, on_machine, on_resources,
}

module _ (operation : Operation) (machine_id : ℕ) (allocation : Allocation) where
  abbrev K : State → State → Type 0
  K = IsLocal operation.id machine_id allocation.id

  abbrev G : IsFrame K
  G = local_frame operation.id machine_id allocation.id

  update_operation :
      (change : Operation → Operation) (s : State)
      → ((o : Operation) → (change o).id ≡ o.id)
      → K s (record s { operations = update (has_id operation.id) change s.operations })
  update_operation = on_operation operation.id machine_id allocation.id

  progress-local : (p : OperationProgress) (s : State) → K s (write_progress operation p s)
  unfolding write_progress
  progress-local p s = elim (Bool-cases (any (progress_differs operation.id p) s.operations)) [
    | inl e ↦ rw e (audited (update_operation (λ o. record o { progress = p }) s λ o. refl))
    | inr e ↦ rw e (G.stay s)
  ]
    where
      audited : {t : State} {audit : List Audit} → K s t → K s (record t { audit = audit })
      audited k = record {
        operations = k.operations;
        machines = k.machines;
        resources = k.resources;
        accounts = k.accounts;
        projects = k.projects;
        grants = k.grants;
        cleanups = k.cleanups;
        idempotency = k.idempotency;
        sessions = k.sessions;
        identities = k.identities;
        recoveries = k.recoveries;
        schedules = k.schedules;
        schedule_runs = k.schedule_runs;
        jobs = k.jobs;
      }

  -- Only the resources, allocations, attempts, audit, trace and count may differ.
  with_resources :
      (s t : State) (rows : List OwnedResource)
      → K (record s { resources = rows }) t
      → select (λ (r : OwnedResource). r.allocation_id != allocation.id) rows
        ≡ other_resources allocation.id s
      → K s t
  with_resources s t rows k same =
      G.chain s (record s { resources = rows }) t
        (on_resources operation.id machine_id allocation.id rows s same) k

  insert_resource-select :
      (resource : ResourceRef) (labels : Labels) (xs : List OwnedResource)
      → select
          (λ (r : OwnedResource). r.allocation_id != allocation.id)
          (insert_resource
            (new_resource allocation resource labels)
            (is_resource allocation resource)
            xs)
        ≡ select (λ (r : OwnedResource). r.allocation_id != allocation.id) xs
  unfolding insert_resource
  insert_resource-select resource labels xs =
      elim (Bool-cases (any (is_resource allocation resource) xs)) [
        | inl e ↦ rw e refl
        | inr e ↦
            rw e (select-insert-false _ (new_resource allocation resource labels) xs (ground arith))
      ]

  same_tables :
      (s : State) (rows : List OwnedResource) (allocations : List Allocation)
      → K (record s { resources = rows }) (record s { resources = rows; allocations = allocations })
  same_tables s rows allocations = record {
    operations = refl;
    machines = refl;
    resources = refl;
    accounts = refl;
    projects = refl;
    grants = refl;
    cleanups = refl;
    idempotency = refl;
    sessions = refl;
    identities = refl;
    recoveries = refl;
    schedules = refl;
    schedule_runs = refl;
    jobs = refl;
  }

  claim-local :
      (resource : ResourceRef) (labels : Labels) (s : State) (u : ⊤) (t : State)
      → claim_resource allocation resource labels s ≡ ok (u, t)
      → K s t
  claim-local resource labels s u t h =
      let rows = claimed_rows allocation resource labels s.resources in
      subst (K s) (claim_resource-eq allocation resource labels s h) (
        with_resources s _ rows (same_tables s rows (set_server allocation resource s.allocations))
          (insert_resource-select resource labels s.resources))

  -- A write to the tables that a tick shares.
  pub shared :
      (s : State) (allocations : List Allocation) (attempts : List Attempt) (audit : List Audit)
      (submitted : List (ℕ × ProviderCommand))
      → K s (record s {
        allocations = allocations;
        attempts = attempts;
        audit = audit;
        submitted = submitted;
      })
  shared s allocations attempts audit submitted = record {
    operations = refl;
    machines = refl;
    resources = refl;
    accounts = refl;
    projects = refl;
    grants = refl;
    cleanups = refl;
    idempotency = refl;
    sessions = refl;
    identities = refl;
    recoveries = refl;
    schedules = refl;
    schedule_runs = refl;
    jobs = refl;
  }

  absence-local :
      (now : ℕ) (resource : ResourceRef) (s : State)
      → K s (record_absence now allocation resource s)
  unfolding record_absence
  absence-local now resource s =
      elim (Bool-cases (any (is_live_resource allocation resource) s.resources)) [
        | inl e ↦ rw e (
            with_resources s _ _ (shared (record s { resources = absent }) _ _ _ _) (
              select-update _ (is_live_resource allocation resource) _ s.resources
                λ r d. (ground arith, ground arith)))
        | inr e ↦ rw e (G.stay s)
      ]
    where
      absent : List OwnedResource
      absent =
          update (is_live_resource allocation resource)
            (λ (r : OwnedResource). record r { absent_at = some now }) s.resources

  pub IsLocal-Writes : Writes K operation allocation
  unfolding set_progress
  IsLocal-Writes = record {
    frame = G;
    progress = λ p. record { at = progress-local p };
    claim = claim-local;
    absence = absence-local;
    marked = λ id resolution s. shared s _ _ _ _;
  }

  ends-local :
      (p : OperationProgress) (event : AuditEvent) (s : State) → K s (ended operation p event s)
  ends-local p event s =
      G.chain s (record s { operations = set_progress_of operation.id p s.operations }) _
        (update_operation (λ o. record o { progress = p }) s λ o. refl) (shared _ _ _ _ _)

  pub IsLocal-Finals : (machine : Machine) → machine.id ≡ machine_id → Finals K operation machine
  IsLocal-Finals machine own = record {
    frame = G;
    progress = progress-local;
    ends = ends-local;
    machines = λ change s same.
        subst (λ id. K s (record s { machines = set_machine id change s.machines })) (sym own)
          (on_machine operation.id machine_id allocation.id change s same);
    allocations = λ test change s _. shared s _ _ _ _;
  }

  pub compensation-local :
      (error : Failure) (s : State) → K s (write_compensation operation error s)
  unfolding write_compensation
  compensation-local error s = update_operation _ s λ o. refl

  pub prepared-local :
      (e : Effect)
      → e.operation.id ≡ operation.id
      → (s : State) (u : ⊤) (t : State) → prepare_attempt e s ≡ ok (u, t)
      → K s t
  prepared-local e own s u t h =
      let added : State = record s { attempts = insert (new_attempt e s.attempts) s.attempts } in
      subst (K s) (prepare_attempt-writes e s h) (
        G.chain s added _ (shared s _ _ _ _) (
          subst
            (λ id. K added (record added {
              operations =
                  set_progress_of id (OperationProgress.submitting e.new_attempt_id) s.operations;
            }))
            (sym own) (update_operation _ added λ o. refl)))

pub retirement-IsLocal :
    (w : CleanupWork) (machine_id : ℕ)
    → w.operation.machine_id ≡ machine_id
    → (s : State) → IsLocal w.operation.id machine_id w.allocation.id s (write_retirement w s)
unfolding write_retirement
retirement-IsLocal w machine_id own s =
    let retired =
      update (λ (a : Allocation). a.id == w.allocation.id && is_none a.retired_at)
        (retire w.moment.now) s.allocations in
    let m : IsLocal w.operation.id machine_id w.allocation.id (record s { allocations = retired })
        (record s {
          allocations = retired;
          machines =
              set_machine w.operation.machine_id
                (λ m. record m { state = MachineState.destroyed w.moment.now }) s.machines;
        }) =
      subst
        (λ id.
          IsLocal w.operation.id machine_id w.allocation.id (record s { allocations = retired })
            (record s {
              allocations = retired;
              machines =
                  set_machine id (λ m. record m { state = MachineState.destroyed w.moment.now })
                    s.machines;
            }))
        (sym own)
        (on_machine w.operation.id machine_id w.allocation.id
          (λ m. record m { state = MachineState.destroyed w.moment.now })
          (record s { allocations = retired }) λ m. refl) in
    G.chain s _ _ (shared w.operation machine_id w.allocation s retired _ _ _)
      (G.chain _ _ _ m (ends-local w.operation machine_id w.allocation _ _ _))
  where
    G : IsFrame (IsLocal w.operation.id machine_id w.allocation.id)
    G = local_frame w.operation.id machine_id w.allocation.id
