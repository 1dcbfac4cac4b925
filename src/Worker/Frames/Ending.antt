-- ===== src/Worker/Frames/Ending.antt =====
-- The transactions that end an operation, write by write.
use agent_cloud.Base.{
  ℕ, Bool, true, false, Option, none, some, ◌≡◌, refl, subst, ap, ◌==◌, nat_eq, any, find, is_some,
  if◌then◌else◌, Bool-cases, if-cases, inl, inr, ⊤,
}
use agent_cloud.Base.Tables.{update}
use agent_cloud.Base.Result.{Result, ok, err, ok-bind, row_or, forbid}
use agent_cloud.Contracts.Errors.{ErrorCode, Failure}
use agent_cloud.Contracts.Catalog.{CatalogItem}
use agent_cloud.Contracts.Provider.{ProviderServer}
use agent_cloud.Contracts.Lifecycle.{
  Operation, OperationKind, operation_kind_eq, OperationProgress, Machine, MachineState,
  GuestVerification,
}
use agent_cloud.Store.{Allocation, AuditEvent, State}
use agent_cloud.Store.Action.Keeps.{IsFrame}
use agent_cloud.Journal.Prepare.{has_id}
use agent_cloud.Journal.Submit.{write_progress}
use agent_cloud.Worker.Work.{is_reservation}
use agent_cloud.Worker.Complete.{
  Completion, Verdict, set_machine, retire, ended, fail_creation, write_failure, check_runtime,
  is_live_of, finish_destroy, admitted_offer, backups_missing, take_offer, new_size,
  allocated_state, finish_server, finish_operation, follow, commit_completion,
}

-- An allocation keeps what it is of.
pub record Keeps (a b : Allocation) : Type 0 where
  pub id : b.id ≡ a.id
  pub account_id : b.account_id ≡ a.account_id
  pub machine_id : b.machine_id ≡ a.machine_id
  pub provider : b.provider ≡ a.provider
  pub network_profile : b.network_profile ≡ a.network_profile
  pub currency : b.currency ≡ a.currency

pub Keeps-refl : (a : Allocation) → Keeps a a
Keeps-refl a = record {
  id = refl;
  account_id = refl;
  machine_id = refl;
  provider = refl;
  network_profile = refl;
  currency = refl;
}

-- The writes of an end.
pub record Finals (R : State → State → Type 0) (operation : Operation) (machine : Machine)
    : Type 0 where
  pub frame : IsFrame R
  pub progress : (p : OperationProgress) (s : State) → R s (write_progress operation p s)
  pub ends :
      (p : OperationProgress) (event : AuditEvent) (s : State) → R s (ended operation p event s)
  pub machines :
      (change : Machine → Machine) (s : State)
      → ((m : Machine) → (change m).id ≡ m.id)
      → R s (record s { machines = set_machine machine.id change s.machines })
  pub allocations :
      (test : Allocation → Bool) (change : Allocation → Allocation) (s : State)
      → ((a : Allocation) → Keeps a (change a))
      → R s (record s { allocations = update test change s.allocations })

retire-Keeps : (now : ℕ) (a : Allocation) → Keeps a (retire now a)
retire-Keeps now a = record {
  id = refl;
  account_id = refl;
  machine_id = refl;
  provider = refl;
  network_profile = refl;
  currency = refl;
}

take_offer-Keeps :
    (offer : Option CatalogItem) (id : ℕ) (a : Allocation)
    → Keeps a (take_offer offer (record a { server_id = some id }))
take_offer-Keeps none id a = record {
  id = refl;
  account_id = refl;
  machine_id = refl;
  provider = refl;
  network_profile = refl;
  currency = refl;
}
take_offer-Keeps (some offer) id a = record {
  id = refl;
  account_id = refl;
  machine_id = refl;
  provider = refl;
  network_profile = refl;
  currency = refl;
}

module _ {R : State → State → Type 0} (operation : Operation) (machine : Machine)
    (W : Finals R operation machine) where
  abbrev F : IsFrame R
  F = W.frame

  -- Both tables at once.
  both :
      (test : Allocation → Bool) (change : Allocation → Allocation) (write : Machine → Machine)
      (s : State)
      → ((a : Allocation) → Keeps a (change a))
      → ((m : Machine) → (write m).id ≡ m.id)
      → R s (record s {
        allocations = update test change s.allocations;
        machines = set_machine machine.id write s.machines;
      })
  both test change write s keep same =
      F.chain s (record s { allocations = update test change s.allocations }) _
        (W.allocations test change s keep)
        (W.machines write (record s { allocations = update test change s.allocations }) same)

  fail_creation-related :
      (error : Failure) (allocation_absent : Bool) (now : ℕ) (s : State)
      → R s (fail_creation machine error allocation_absent now s)
  fail_creation-related error true now s =
      both (is_reservation machine.id) (retire now)
        (λ m. record m { state = MachineState.failed error }) s (retire-Keeps now) λ m. refl
  fail_creation-related error false now s =
      W.machines (λ m. record m { state = MachineState.failed error }) s λ m. refl

  pub write_failure-related :
      (error : Failure) (allocation_absent : Bool) (now : ℕ) (s : State)
      → R s (write_failure operation machine error allocation_absent now s)
  unfolding write_failure
  write_failure-related error allocation_absent now s =
      elim (Bool-cases (operation.kind == OperationKind.create)) [
        | inl e ↦ rw e (
            F.chain s (fail_creation machine error allocation_absent now s) _
              (fail_creation-related error allocation_absent now s) (W.ends _ _ _))
        | inr e ↦ rw e (W.ends _ _ s)
      ]

  abbrev written : Result State → State → State
  written (ok t) s = t
  written (err e) s = s

  abbrev committed : Result (⊤ × State) → State → State
  committed (ok (_, t)) s = t
  committed (err e) s = s

  module _ (server : Option ProviderServer) (verification : Option GuestVerification)
      (now : ℕ) where
    abbrev c : Completion
    c = record {
      operation = operation;
      machine = machine;
      server = server;
      verification = verification;
      now = now;
    }

    finish_destroy-related :
        (allocation : Allocation) (s t : State) → finish_destroy c allocation s ≡ ok t → R s t
    unfolding finish_destroy
    finish_destroy-related allocation s t h =
        ok-bind (forbid (is_some server) ErrorCode.provider_outcome_unknown) _ h λ _ _ h1.
          ok-bind
            (forbid (any (is_live_of allocation.id) s.resources) ErrorCode.provider_outcome_unknown)
            _ h1
            λ _ _ h2. subst (R s) (ap (λ r. written r s) h2) (
              both (λ a. a.id == allocation.id) (retire now)
                (λ m. record m { state = MachineState.destroyed now }) s (retire-Keeps now)
                λ m. refl)

    finish_server-related :
        (allocation : Allocation) (shown : Option ProviderServer) (s t : State)
        → finish_server c allocation shown s ≡ ok t
        → R s t
    unfolding finish_server
    finish_server-related allocation none s t h = cc
    finish_server-related allocation (some server) s t h =
        ok-bind (row_or (find (has_id operation.id) s.operations) ErrorCode.internal_error) _ h
          λ stored _ h1. ok-bind (admitted_offer stored stored.command) _ h1 λ offer _ h2.
            ok-bind (forbid (backups_missing offer server) ErrorCode.provider_rejected) _ h2
              λ _ _ h3. subst (R s) (ap (λ r. written r s) h3) (
                both (λ a. a.id == allocation.id)
                  (λ a. take_offer offer (record a { server_id = some server.id }))
                  (λ m. record m {
                    spec = record machine.spec { size = new_size machine stored.command };
                    state = allocated_state c allocation server;
                  })
                  s (take_offer-Keeps offer server.id) λ m. refl)

    finish_operation-related : (s t : State) → finish_operation c s ≡ ok (tt, t) → R s t
    unfolding finish_operation
    finish_operation-related s t h =
        ok-bind (row_or (find (is_reservation machine.id) s.allocations) ErrorCode.internal_error) _
          h
          λ allocation _ h1.
            ok-bind
              (if operation.kind == OperationKind.destroy
                then finish_destroy c allocation s
                else finish_server c allocation server s)
              _ h1
              λ mid h2 h3. subst (R s) (ap (λ r. committed r s) h3) (
                F.chain s mid _
                  (if-cases (operation.kind == OperationKind.destroy)
                    (finish_destroy c allocation s) (finish_server c allocation server s) h2
                    (finish_destroy-related allocation s mid)
                    (finish_server-related allocation server s mid))
                  (W.ends _ _ mid))

    follow-related : (verdict : Verdict) (s t : State) → follow c verdict s ≡ ok (tt, t) → R s t
    unfolding follow
    follow-related Verdict.superseded s t h = subst (R s) (ap (λ r. committed r s) h) (F.stay s)
    follow-related Verdict.expired s t h = subst (R s) (ap (λ r. committed r s) h) (W.progress _ s)
    follow-related Verdict.proceed s t h = finish_operation-related s t h

    pub commit_completion-related : (s t : State) → commit_completion c s ≡ ok (tt, t) → R s t
    unfolding commit_completion
    commit_completion-related s t h =
        ok-bind (check_runtime c verification s) _ h λ verdict _. follow-related verdict s t
