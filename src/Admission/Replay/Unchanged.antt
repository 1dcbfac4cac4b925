-- ===== src/Admission/Replay/Unchanged.antt =====
-- What the preparation of a request leaves as it was.
use agent_cloud.Base.{
  ℕ, Option, ◌||◌, ◌≡◌, refl, ap, subst, ◌==◌, ◌!=◌, nat_eq, find, any, ltb, is_none,
}
use agent_cloud.Base.Result.{Result, ok, err, forbid, require, row_or, ok-bind}
use agent_cloud.Contracts.Errors.{ErrorCode}
use agent_cloud.Contracts.Policy.{Principal, Size}
use agent_cloud.Contracts.Catalog.{CatalogItem, architecture_eq}
use agent_cloud.Contracts.Lifecycle.{
  LifecycleCommand, MachineAction, MachineSpec, Machine, expected_version, is_destroyed,
}
use agent_cloud.Store.{Account, Allocation, State, scope_eq}
use agent_cloud.Admission.Command.{authorize_command}
use agent_cloud.Admission.Reservation.{assert_reservation}
use agent_cloud.Admission.Request.{Admission, Setting, admission_command, parse_offer}
use agent_cloud.Admission.Cleanup.{owned_machine}
use agent_cloud.Admission.Admit.{
  Prepared, prepare, prepare_create, prepare_action, prepare_offer, prepare_resize, quote,
  is_project, has_name, one_more, larger, is_powered_off, is_busy, holds,
}

-- The tables that decide about a second request are as they were.
pub record IsSame (s t : State) : Type 0 where
  pub accounts : t.accounts ≡ s.accounts
  pub grants : t.grants ≡ s.grants
  pub operations : t.operations ≡ s.operations
  pub idempotency : t.idempotency ≡ s.idempotency

-- So they are in what was prepared, and the command is permitted on the machine's project.
abbrev pub IsPrepared : State → Principal → LifecycleCommand → Prepared → Type 0
IsPrepared s principal command p =
    IsSame s p.state × (authorize_command principal p.machine.project_id command ≡ ok tt)

abbrev prepared_or : Prepared → Result Prepared → Prepared
prepared_or p (ok q) = q
prepared_or p (err _) = p

abbrev offered_or :
    Option CatalogItem × State → Result (Option CatalogItem × State) → Option CatalogItem × State
offered_or p (ok q) = q
offered_or p (err _) = p

abbrev quoted_or : CatalogItem × State → Result (CatalogItem × State) → CatalogItem × State
quoted_or p (ok q) = q
quoted_or p (err _) = p

module _ (env : Setting) (principal : Principal) (account : Account) where
  prepare_create-IsPrepared :
      (s : State) (project_id : ℕ) (spec : MachineSpec) (p : Prepared)
      → prepare_create env s principal account project_id spec ≡ ok p
      → IsPrepared s principal (LifecycleCommand.create spec) p
  unfolding prepare_create
  prepare_create-IsPrepared s project_id spec p h =
      ok-bind (authorize_command principal project_id (LifecycleCommand.create spec)) _ h
        λ _ allowed h1.
          ok-bind
            (row_or (find (is_project project_id principal.account_id) s.projects)
              ErrorCode.not_found)
            _ h1
            λ _ _ h2.
              ok-bind
                (forbid (any (has_name project_id spec.name) s.machines) ErrorCode.resource_busy) _
                h2
                λ _ _ h3. ok-bind (quote env spec.size spec.region) _ h3 λ offer _ h4.
                  ok-bind (assert_reservation s principal account env.limits (one_more offer)) _ h4
                    λ _ _ h5.
                      subst (IsPrepared s principal (LifecycleCommand.create spec))
                        (ap (prepared_or p) h5)
                        (
                          record {
                            accounts = refl;
                            grants = refl;
                            operations = refl;
                            idempotency = refl;
                          },
                          allowed,
                        )

  prepare_resize-IsSame :
      (s : State) (machine : Machine) (allocation : Allocation) (size : Size)
      (r : CatalogItem × State)
      → prepare_resize env s principal account machine allocation size ≡ ok r
      → IsSame s r.1
  unfolding prepare_resize
  prepare_resize-IsSame s machine allocation size r h =
      ok-bind (require (is_powered_off machine.state) ErrorCode.resource_busy) _ h λ _ _ h1.
        ok-bind (quote env size machine.spec.region) _ h1 λ offer _ h2.
          ok-bind (parse_offer allocation.offer) _ h2 λ current _ h3.
            ok-bind (forbid (offer.architecture != current.architecture) ErrorCode.invalid_input) _
              h3
              λ _ _ h4.
                ok-bind (forbid (ltb offer.disk_gb current.disk_gb) ErrorCode.invalid_input) _ h4
                  λ _ _ h5.
                    ok-bind
                      (assert_reservation s principal account env.limits (larger allocation offer))
                      _ h5
                      λ _ _ h6.
                        subst (λ (q : CatalogItem × State). IsSame s q.1) (ap (quoted_or r) h6)
                          (record {
                            accounts = refl;
                            grants = refl;
                            operations = refl;
                            idempotency = refl;
                          })

  prepare_offer-IsSame :
      (s : State) (machine : Machine) (allocation : Allocation) (action : MachineAction)
      (r : Option CatalogItem × State)
      → prepare_offer env s principal account machine allocation action ≡ ok r
      → IsSame s r.1
  unfolding prepare_offer
  prepare_offer-IsSame s machine allocation (MachineAction.resize v size) r h =
      ok-bind (prepare_resize env s principal account machine allocation size) _ h λ q e h1.
        subst (λ (x : Option CatalogItem × State). IsSame s x.1) (ap (offered_or r) h1)
          (prepare_resize-IsSame s machine allocation size q e)
  prepare_offer-IsSame s machine allocation action r h =
      subst (λ (x : Option CatalogItem × State). IsSame s x.1) (ap (offered_or r) h)
        (record { accounts = refl; grants = refl; operations = refl; idempotency = refl })

  prepare_action-IsPrepared :
      (s : State) (machine_id : ℕ) (action : MachineAction) (p : Prepared)
      → prepare_action env s principal account machine_id action ≡ ok p
      → IsPrepared s principal (LifecycleCommand.act action) p
  unfolding prepare_action
  prepare_action-IsPrepared s machine_id action p h =
      ok-bind (row_or (owned_machine machine_id principal.account_id s) ErrorCode.not_found) _ h
        λ machine _ h1.
          ok-bind (authorize_command principal machine.project_id (LifecycleCommand.act action)) _
            h1
            λ _ allowed h2.
              ok-bind
                (require (machine.version == expected_version action) ErrorCode.version_conflict) _
                h2
                λ _ _ h3.
                  ok-bind (forbid (any (is_busy machine.id) s.operations) ErrorCode.resource_busy) _
                    h3
                    λ _ _ h4.
                      ok-bind
                        (row_or (find (holds machine.id) s.allocations) ErrorCode.resource_busy) _
                        h4
                        λ allocation _ h5.
                          ok-bind
                            (forbid (is_none allocation.server_id || is_destroyed machine.state)
                              ErrorCode.resource_busy)
                            _ h5
                            λ _ _ h6.
                              ok-bind
                                (prepare_offer env s principal account machine allocation action) _
                                h6
                                λ r offered h7.
                                  let same =
                                    prepare_offer-IsSame s machine allocation action r offered in
                                  subst (IsPrepared s principal (LifecycleCommand.act action))
                                    (ap (prepared_or p) h7)
                                    (
                                      record {
                                        accounts = same.accounts;
                                        grants = same.grants;
                                        operations = same.operations;
                                        idempotency = same.idempotency;
                                      },
                                      allowed,
                                    )

  pub prepare-IsPrepared :
      (s : State) (request : Admission) (p : Prepared)
      → prepare env s principal account request ≡ ok p
      → IsPrepared s principal (admission_command request) p
  unfolding prepare
  prepare-IsPrepared s (Admission.create project_id spec) p h =
      prepare_create-IsPrepared s project_id spec p h
  prepare-IsPrepared s (Admission.action machine_id action) p h =
      prepare_action-IsPrepared s machine_id action p h
