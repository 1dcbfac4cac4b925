-- ===== src/Admission/Exclusive.antt =====
-- Admission and the operations that are under way on a machine.
use agent_cloud.Base.{
  ℕ, ◌+◌, ◌≤◌, List, [], ◌∷◌, Bool, true, false, ◌||◌, not, ◌≡◌, refl, sym, ap, subst, ◌==◌, nat_eq,
  nat_eqb_iff, find, any, select, length, is_none, arith, Bool-cases, Option-cases, inl, inr,
  and_split,
}
use agent_cloud.Base.Tables.{insert}
use agent_cloud.Base.Result.{Result, ok, err, forbid, forbid-ok, require, row_or, ok-bind}
use agent_cloud.Contracts.Errors.{ErrorCode}
use agent_cloud.Contracts.Policy.{Principal}
use agent_cloud.Contracts.Lifecycle.{
  LifecycleCommand, MachineAction, MachineSpec, Operation, expected_version, is_destroyed,
  is_operation_terminal,
}
use agent_cloud.Store.{Account, State}
use agent_cloud.Auth.Authority.{load_principal}
use agent_cloud.Admission.Command.{authorize_command}
use agent_cloud.Admission.Reservation.{assert_reservation}
use agent_cloud.Admission.Request.{
  Admission, Setting, admission_command, admission_scope, matches_request, is_operation,
}
use agent_cloud.Admission.Cleanup.{owned_machine}
use agent_cloud.Admission.Admit.{
  Prepared, prepare, prepare_create, prepare_action, prepare_offer, quote, is_project, has_name,
  one_more, is_busy, holds, new_operation, replay, admit_fresh, answer, is_account, admit_locked,
}
use agent_cloud.Admission.Replay.Unchanged.{prepare-IsPrepared}

-- No machine has two operations under way.
abbrev pub IsExclusive : List Operation → Type 0
IsExclusive operations = (machine_id : ℕ) → length (select (is_busy machine_id) operations) ≤ 1

select-free : (p : Operation → Bool) (xs : List Operation) → any p xs ≡ false → select p xs ≡ []
select-free p [] h = refl
select-free p (x ∷ xs) h = elim (Bool-cases (p x)) [
  | inl e ↦ ground arith
  | inr e ↦ rw e (select-free p xs (rw e at h))
]

abbrev one_if : Bool → ℕ
one_if true = 1
one_if false = 0

length-select-insert :
    (p : Operation → Bool) (op : Operation) (xs : List Operation)
    → length (select p (insert op xs)) ≡ length (select p xs) + one_if (p op)
length-select-insert p op [] = ground arith
length-select-insert p op (x ∷ xs) = ground (arith, length-select-insert p op xs)

insert-IsExclusive :
    (op : Operation) (xs : List Operation)
    → any (is_busy op.machine_id) xs ≡ false
    → IsExclusive xs
    → IsExclusive (insert op xs)
insert-IsExclusive op xs free once machine_id = elim (Bool-cases (is_busy machine_id op)) [
  | inl e ↦
      let (here, _) = and_split (op.machine_id == machine_id) (not (is_operation_terminal op)) e in
      let same = (nat_eqb_iff op.machine_id machine_id).0 here in
      let none_yet =
        select-free (is_busy machine_id) xs (subst (λ m. any (is_busy m) xs ≡ false) same free) in
      omega
        (arith, length-select-insert (is_busy machine_id) op xs, ap length none_yet, ap one_if e)
  | inr e ↦
      omega (arith, once machine_id, length-select-insert (is_busy machine_id) op xs, ap one_if e)
]

abbrev machine_of : ℕ → Result Prepared → ℕ
machine_of id (ok p) = p.machine.id
machine_of id (err _) = id

abbrev admitted_or : Operation × State → Result (Operation × State) → Operation × State
admitted_or r (ok q) = q
admitted_or r (err _) = r

module _ (env : Setting) (principal : Principal) (account : Account) (s : State)
    (unused : any (is_busy env.new_machine_id) s.operations ≡ false) where
  prepare_create-free :
      (project_id : ℕ) (spec : MachineSpec) (p : Prepared)
      → prepare_create env s principal account project_id spec ≡ ok p
      → any (is_busy p.machine.id) s.operations ≡ false
  unfolding prepare_create
  prepare_create-free project_id spec p h =
      ok-bind (authorize_command principal project_id (LifecycleCommand.create spec)) _ h λ _ _ h1.
        ok-bind
          (row_or (find (is_project project_id principal.account_id) s.projects)
            ErrorCode.not_found)
          _ h1
          λ _ _ h2.
            ok-bind
              (forbid (any (has_name project_id spec.name) s.machines) ErrorCode.resource_busy) _ h2
              λ _ _ h3. ok-bind (quote env spec.size spec.region) _ h3 λ offer _ h4.
                ok-bind (assert_reservation s principal account env.limits (one_more offer)) _ h4
                  λ _ _ h5.
                    subst (λ m. any (is_busy m) s.operations ≡ false)
                      (ap (machine_of p.machine.id) h5) unused

  prepare_action-free :
      (machine_id : ℕ) (action : MachineAction) (p : Prepared)
      → prepare_action env s principal account machine_id action ≡ ok p
      → any (is_busy p.machine.id) s.operations ≡ false
  unfolding prepare_action
  prepare_action-free machine_id action p h =
      ok-bind (row_or (owned_machine machine_id principal.account_id s) ErrorCode.not_found) _ h
        λ machine _ h1.
          ok-bind (authorize_command principal machine.project_id (LifecycleCommand.act action)) _
            h1
            λ _ _ h2.
              ok-bind
                (require (machine.version == expected_version action) ErrorCode.version_conflict) _
                h2
                λ _ _ h3.
                  ok-bind (forbid (any (is_busy machine.id) s.operations) ErrorCode.resource_busy) _
                    h3
                    λ _ free h4.
                      ok-bind
                        (row_or (find (holds machine.id) s.allocations) ErrorCode.resource_busy) _
                        h4
                        λ allocation _ h5.
                          ok-bind
                            (forbid (is_none allocation.server_id || is_destroyed machine.state)
                              ErrorCode.resource_busy)
                            _ h5
                            λ _ _ h6.
                              ok-bind
                                (prepare_offer env s principal account machine allocation action) _
                                h6
                                λ r _ h7.
                                  subst (λ m. any (is_busy m) s.operations ≡ false)
                                    (ap (machine_of p.machine.id) h7)
                                    (forbid-ok (any (is_busy machine.id) s.operations)
                                      ErrorCode.resource_busy free)

  prepare-free :
      (request : Admission) (p : Prepared)
      → prepare env s principal account request ≡ ok p
      → any (is_busy p.machine.id) s.operations ≡ false
  unfolding prepare
  prepare-free (Admission.create project_id spec) p h = prepare_create-free project_id spec p h
  prepare-free (Admission.action machine_id action) p h = prepare_action-free machine_id action p h

  admit_fresh-IsExclusive :
      (key : ℕ) (request : Admission) (r : Operation × State)
      → IsExclusive s.operations
      → admit_fresh env s principal account key request ≡ ok r
      → IsExclusive r.1.operations
  unfolding admit_fresh
  admit_fresh-IsExclusive key request r once h =
      ok-bind (prepare env s principal account request) _ h λ p prepared h1.
        let (same, _) = prepare-IsPrepared env principal account s request p prepared in
        let op = new_operation env principal (admission_command request) p in
        subst (λ (x : Operation × State). IsExclusive x.1.operations) (ap (admitted_or r) h1)
          (subst (λ xs. IsExclusive (insert op xs)) (sym same.operations)
            (insert-IsExclusive op s.operations (prepare-free request p prepared) once))

-- Admitting a request other than a destroy request keeps it so that no machine has two operations under
-- way. (The id that was drawn for a new machine must not be that of a machine with an operation under
-- way.)
pub admit_locked-IsExclusive :
    (env : Setting) (s t : State) (caller : Principal) (key : ℕ) (request : Admission)
    (op : Operation)
    → any (is_busy env.new_machine_id) s.operations ≡ false
    → IsExclusive s.operations
    → admit_locked env s caller key request ≡ ok (op, t)
    → IsExclusive t.operations
unfolding admit_locked answer replay
admit_locked-IsExclusive env s t caller key request op unused once h =
    ok-bind (row_or (find (is_account caller.account_id) s.accounts) ErrorCode.unauthenticated) _ h
      λ account _ h1. ok-bind (load_principal s env.now caller.grant_id) _ h1 λ principal _ h2.
        elim (Option-cases (
          find (matches_request principal.account_id (admission_scope request) key)
            s.idempotency)) [
              | inl unknown ↦
                  admit_fresh-IsExclusive env principal account s unused key request (op, t) once
                    (rw unknown at h2)
              | inr (previous, known) ↦
                  ok-bind
                    (require (previous.request_hash == env.request_hash (admission_command request))
                      ErrorCode.idempotency_conflict)
                    _ (rw known at h2)
                    λ _ _ h3.
                      ok-bind
                        (row_or
                          (find (is_operation previous.operation_id principal.account_id)
                            s.operations)
                          ErrorCode.internal_error)
                        _ h3
                        λ held _ h4.
                          ok-bind
                            (authorize_command principal held.project_id
                              (admission_command request))
                            _ h4
                            λ _ _ h5.
                              subst (λ (x : Operation × State). IsExclusive x.1.operations)
                                (ap (admitted_or (op, t)) h5) once
            ]
