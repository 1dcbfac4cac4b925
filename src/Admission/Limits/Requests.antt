-- ===== src/Admission/Limits/Requests.antt =====
-- What one admitted request leaves reserved.
use agent_cloud.Base.{
  ℕ, List, [], Option, none, some, ◌||◌, ◌≡◌, refl, arith, ◌==◌, ◌!=◌, nat_eq, ltb, max, any, In,
  find, find-In, ◌⊎◌, inl, inr, subst, sym, ap, is_none,
}
use agent_cloud.Base.Tables.{insert}
use agent_cloud.Base.Result.{ok-bind, Result, ok, err, require, forbid, row_or, row_or-ok}
use agent_cloud.Contracts.Errors.{ErrorCode}
use agent_cloud.Contracts.Policy.{Principal, Size}
use agent_cloud.Contracts.Lifecycle.{
  Operation, Machine, MachineSpec, MachineAction, LifecycleCommand, expected_version, is_destroyed,
}
use agent_cloud.Contracts.Catalog.{CatalogItem, architecture_eq}
use agent_cloud.Store.{Account, Allocation, State, Idempotency}
use agent_cloud.Admission.Command.{authorize_command}
use agent_cloud.Admission.Reservation.{assert_reservation}
use agent_cloud.Admission.Request.{Admission, Setting, admission_command, parse_offer, is_operation}
use agent_cloud.Admission.Budget.{
  IsCovered, nothing_more, assert_reservation-IsCovered, insert-IsCovered, reserve-IsCovered,
}
use agent_cloud.Admission.Budget.Tables.{IsKeyed}
use agent_cloud.Admission.Admit.{
  Prepared, new_allocation, quote, prepare_create, prepare_resize, prepare_offer, prepare_action,
  prepare, admit_fresh, replay, answer, is_powered_off, has_name, is_project, one_more, larger,
  reserve, is_busy, holds,
}
use agent_cloud.Admission.Cleanup.{owned_machine}

abbrev pub result_allocations : Result (Operation × State) → List Allocation
result_allocations (ok r) = r.1.allocations
result_allocations (err _) = []

module _ (env : Setting) (principal : Principal) (account : Account) where
  -- The reservations are untouched, or they are within all limits.
  abbrev pub IsWithinLimits : List Allocation → List Allocation → Type 0
  IsWithinLimits before after =
      (after ≡ before)
      ⊎ IsCovered env.limits account principal (nothing_more env.limits.currency) after

  prepare_create-IsWithinLimits :
      (s : State) (project_id : ℕ) (spec : MachineSpec) {p : Prepared}
      → prepare_create env s principal account project_id spec ≡ ok p
      → IsWithinLimits s.allocations p.state.allocations
  unfolding prepare_create
  prepare_create-IsWithinLimits s project_id spec {p} h =
      ok-bind (authorize_command principal project_id (LifecycleCommand.create spec)) _ h λ _ _ h1.
        ok-bind
          (row_or (find (is_project project_id principal.account_id) s.projects)
            ErrorCode.not_found)
          _ h1
          λ _ _ h2.
            ok-bind
              (forbid (any (has_name project_id spec.name) s.machines) ErrorCode.resource_busy) _ h2
              λ _ _ h3. ok-bind (quote env spec.size spec.region) _ h3 λ offer _ h4.
                ok-bind (assert_reservation s principal account env.limits (one_more offer)) _ h4
                  λ _ fits h5.
                    let c =
                      assert_reservation-IsCovered s principal account env.limits (one_more offer)
                        fits in
                    let a = new_allocation env principal offer in
                    let stored : insert a s.allocations ≡ p.state.allocations =
                      ap allocations_of h5 in
                    inr (
                      subst
                        (IsCovered env.limits account principal (nothing_more env.limits.currency))
                        stored
                        (subst
                          (λ n.
                            IsCovered env.limits account principal (nothing_more n)
                              (insert a s.allocations))
                          (sym c.agreed.0)
                          (insert-IsCovered env.limits account principal a s.allocations refl refl
                            c)))
    where
      allocations_of : Result Prepared → List Allocation
      allocations_of (ok p) = p.state.allocations
      allocations_of (err _) = []

  prepare_resize-IsWithinLimits :
      (s : State) (machine : Machine) (allocation : Allocation) (size : Size)
      {r : CatalogItem × State}
      → IsKeyed s.allocations
      → In allocation s.allocations
      → prepare_resize env s principal account machine allocation size ≡ ok r
      → IsWithinLimits s.allocations r.1.allocations
  unfolding prepare_resize
  prepare_resize-IsWithinLimits s machine allocation size {r} keyed m h =
      ok-bind (require (is_powered_off machine.state) ErrorCode.resource_busy) _ h λ _ _ h1.
        ok-bind (quote env size machine.spec.region) _ h1 λ offer _ h2.
          ok-bind (parse_offer allocation.offer) _ h2 λ current _ h3.
            ok-bind (forbid (offer.architecture != current.architecture) ErrorCode.invalid_input) _
              h3
              λ _ _ h4.
                ok-bind (forbid (ltb offer.disk_gb current.disk_gb) ErrorCode.invalid_input) _ h4
                  λ _ _ h5.
                    ok-bind
                      (assert_reservation s principal account env.limits (larger allocation offer))
                      _ h5
                      λ _ fits h6.
                        let c =
                          assert_reservation-IsCovered s principal account env.limits
                            (larger allocation offer) fits in
                        let micros = max allocation.hourly_micros offer.hourly_micros in
                        let stored : reserve allocation.id micros s.allocations ≡ r.1.allocations =
                          ap allocations_of h6 in
                        inr (
                          subst
                            (IsCovered env.limits account principal
                              (nothing_more env.limits.currency))
                            stored
                            (subst
                              (λ n.
                                IsCovered env.limits account principal (nothing_more n)
                                  (reserve allocation.id micros s.allocations))
                              (sym c.agreed.0)
                              (reserve-IsCovered env.limits account principal offer.currency micros
                                allocation s.allocations keyed m (omega arith) c)))
    where
      allocations_of : Result (CatalogItem × State) → List Allocation
      allocations_of (ok r) = r.1.allocations
      allocations_of (err _) = []

  prepare_offer-IsWithinLimits :
      (s : State) (machine : Machine) (allocation : Allocation) (action : MachineAction)
      {r : Option CatalogItem × State}
      → IsKeyed s.allocations
      → In allocation s.allocations
      → prepare_offer env s principal account machine allocation action ≡ ok r
      → IsWithinLimits s.allocations r.1.allocations
  unfolding prepare_offer
  prepare_offer-IsWithinLimits s machine allocation (MachineAction.resize v size) {r} keyed m h =
      ok-bind (prepare_resize env s principal account machine allocation size) _ h λ q e h1.
        subst (λ t. IsWithinLimits s.allocations t) (ap allocations_of h1)
          (prepare_resize-IsWithinLimits s machine allocation size keyed m e)
    where
      allocations_of : Result (Option CatalogItem × State) → List Allocation
      allocations_of (ok r) = r.1.allocations
      allocations_of (err _) = []
  prepare_offer-IsWithinLimits s machine allocation action {r} keyed m h = inl (ground arith)

  prepare_action-IsWithinLimits :
      (s : State) (machine_id : ℕ) (action : MachineAction) {p : Prepared}
      → IsKeyed s.allocations
      → prepare_action env s principal account machine_id action ≡ ok p
      → IsWithinLimits s.allocations p.state.allocations
  unfolding prepare_action
  prepare_action-IsWithinLimits s machine_id action {p} keyed h =
      ok-bind (row_or (owned_machine machine_id principal.account_id s) ErrorCode.not_found) _ h
        λ machine _ h1.
          ok-bind (authorize_command principal machine.project_id (LifecycleCommand.act action)) _
            h1
            λ _ _ h2.
              ok-bind
                (require (machine.version == expected_version action) ErrorCode.version_conflict) _
                h2
                λ _ _ h3.
                  ok-bind (forbid (any (is_busy machine.id) s.operations) ErrorCode.resource_busy) _
                    h3
                    λ _ _ h4.
                      ok-bind
                        (row_or (find (holds machine.id) s.allocations) ErrorCode.resource_busy) _
                        h4
                        λ allocation found h5.
                          ok-bind
                            (forbid (is_none allocation.server_id || is_destroyed machine.state)
                              ErrorCode.resource_busy)
                            _ h5
                            λ _ _ h6.
                              ok-bind
                                (prepare_offer env s principal account machine allocation action) _
                                h6
                                λ r offered h7.
                                  subst (λ t. IsWithinLimits s.allocations t) (ap allocations_of h7)
                                    (prepare_offer-IsWithinLimits s machine allocation action keyed
                                      (find-In (holds machine.id) s.allocations
                                        (row_or-ok _ ErrorCode.resource_busy found))
                                      offered)
    where
      allocations_of : Result Prepared → List Allocation
      allocations_of (ok p) = p.state.allocations
      allocations_of (err _) = []

  admit_fresh-IsWithinLimits :
      (s : State) (key : ℕ) (request : Admission) {r : Operation × State}
      → IsKeyed s.allocations
      → admit_fresh env s principal account key request ≡ ok r
      → IsWithinLimits s.allocations r.1.allocations
  unfolding admit_fresh prepare
  admit_fresh-IsWithinLimits s key (Admission.create project_id spec) {r} keyed h =
      ok-bind (prepare_create env s principal account project_id spec) _ h λ p e h1.
        subst (IsWithinLimits s.allocations) (ap result_allocations h1)
          (prepare_create-IsWithinLimits s project_id spec e)
  admit_fresh-IsWithinLimits s key (Admission.action machine_id action) {r} keyed h =
      ok-bind (prepare_action env s principal account machine_id action) _ h λ p e h1.
        subst (IsWithinLimits s.allocations) (ap result_allocations h1)
          (prepare_action-IsWithinLimits s machine_id action keyed e)

  pub answer-IsWithinLimits :
      (s : State) (key : ℕ) (request : Admission) (previous : Option Idempotency)
      {r : Operation × State}
      → IsKeyed s.allocations
      → answer env s principal account key request previous ≡ ok r
      → IsWithinLimits s.allocations r.1.allocations
  unfolding answer replay
  answer-IsWithinLimits s key request none keyed h =
      admit_fresh-IsWithinLimits s key request keyed h
  answer-IsWithinLimits s key request (some previous) {r} keyed h =
      ok-bind
        (require (previous.request_hash == env.request_hash (admission_command request))
          ErrorCode.idempotency_conflict)
        _ h
        λ _ _ h1.
          ok-bind
            (row_or (find (is_operation previous.operation_id principal.account_id) s.operations)
              ErrorCode.internal_error)
            _ h1
            λ op _ h2.
              ok-bind (authorize_command principal op.project_id (admission_command request)) _ h2
                λ _ _ h3. inl (sym (ap result_allocations h3))
