-- ===== src/Admission/Limits/Cleanups.antt =====
-- A cleanup leaves the reservations alone.
use agent_cloud.Base.{
  ℕ, Option, none, some, Bool, ◌≡◌, ◌==◌, nat_eq, find, inl, inr, Bool-cases, sym, ap,
  if◌then◌else◌,
}
use agent_cloud.Base.Result.{throw_retryable, ok-bind, ok, require, forbid, row_or}
use agent_cloud.Contracts.Errors.{ErrorCode}
use agent_cloud.Contracts.Policy.{Principal, Capability}
use agent_cloud.Contracts.Lifecycle.{Operation, Machine, is_destroyed, is_cleanup}
use agent_cloud.Contracts.Catalog.{architecture_eq}
use agent_cloud.Store.{State, Idempotency}
use agent_cloud.Auth.Authority.{load_principal}
use agent_cloud.Auth.Policy.{authorize}
use agent_cloud.Auth.Grants.{close_machine_access}
use agent_cloud.Admission.Request.{Setting, is_operation}
use agent_cloud.Admission.Admit.{holds}
use agent_cloud.Admission.Cleanup.{
  admit_cleanup, admit_new_cleanup, replay_cleanup, choose_cleanup, owned_machine, CleanupRequest,
  commit_cleanup, answer_cleanup, active_operation, source_operation, refuses_cleanup,
  destroy_command,
}
use agent_cloud.Admission.Limits.Requests.{result_allocations}

commit_cleanup-allocations :
    (env : Setting) (key : ℕ) (r : CleanupRequest) (active : Option Operation) (s : State)
    {q : Operation × State}
    → commit_cleanup env key r active s ≡ ok q
    → q.1.allocations ≡ s.allocations
unfolding commit_cleanup choose_cleanup close_machine_access
commit_cleanup-allocations env key r none s h = sym (ap result_allocations h)
commit_cleanup-allocations env key r (some op) s {q} h = elim (Bool-cases (is_cleanup op.intent)) [
  | inl e ↦ sym (ap result_allocations (rw (e, commit_cleanup, choose_cleanup) at h))
  | inr e ↦ sym (ap result_allocations (rw (e, commit_cleanup, choose_cleanup) at h))
]

admit_new_cleanup-allocations :
    (env : Setting) (s : State) (principal : Principal) (machine : Machine) (version : ℕ)
    (allow : Bool) (key : ℕ) {q : Operation × State}
    → admit_new_cleanup env s principal machine version allow key ≡ ok q
    → q.1.allocations ≡ s.allocations
unfolding admit_new_cleanup
admit_new_cleanup-allocations env s principal machine version allow key h =
    ok-bind (require (machine.version == version) ErrorCode.version_conflict) _ h λ _ _ h1.
      ok-bind (row_or (find (holds machine.id) s.allocations) ErrorCode.resource_busy) _ h1
        λ allocation _ h2.
          ok-bind (forbid (is_destroyed machine.state) ErrorCode.resource_busy) _ h2 λ _ _ h3.
            ok-bind
              (forbid (refuses_cleanup (active_operation machine.id s.operations))
                ErrorCode.resource_busy)
              _ h3
              λ _ _ h4.
                ok-bind (row_or (source_operation machine.id s.operations) ErrorCode.internal_error)
                  _ h4
                  λ source _ h5.
                    let r : CleanupRequest = record {
                      principal = principal;
                      machine = machine;
                      allocation = allocation;
                      source = source;
                      version = version;
                      allow_data_loss = allow;
                    } in
                    commit_cleanup-allocations env key r (active_operation machine.id s.operations)
                      s h5

answer_cleanup-allocations :
    (env : Setting) (s : State) (principal : Principal) (machine : Machine) (version : ℕ)
    (allow : Bool) (key : ℕ) (previous : Option Idempotency) {q : Operation × State}
    → answer_cleanup env s principal machine version allow key previous ≡ ok q
    → q.1.allocations ≡ s.allocations
unfolding answer_cleanup replay_cleanup
answer_cleanup-allocations env s principal machine version allow key none h =
    admit_new_cleanup-allocations env s principal machine version allow key h
answer_cleanup-allocations env s principal machine version allow key (some previous) h =
    ok-bind
      (require (previous.request_hash == env.request_hash (destroy_command version allow))
        ErrorCode.idempotency_conflict)
      _ h
      λ _ _ h1.
        ok-bind
          (row_or (find (is_operation previous.operation_id principal.account_id) s.operations)
            ErrorCode.internal_error)
          _ h1 λ op _ h2. sym (ap result_allocations h2)

pub admit_cleanup-allocations :
    (env : Setting) (free : Bool) (s : State) (caller : Principal) (machine_id version : ℕ)
    (allow : Bool) (key : ℕ) {q : Operation × State}
    → admit_cleanup env free s caller machine_id version allow key ≡ ok q
    → q.1.allocations ≡ s.allocations
unfolding admit_cleanup
admit_cleanup-allocations env free s caller machine_id version allow key h =
    ok-bind (row_or (owned_machine machine_id caller.account_id s) ErrorCode.not_found) _ h
      λ _ _ h1.
        ok-bind (if free then ok tt else throw_retryable ErrorCode.resource_busy) _ h1 λ _ _ h2.
          ok-bind (load_principal s env.now caller.grant_id) _ h2 λ principal _ h3.
            ok-bind (row_or (owned_machine machine_id principal.account_id s) ErrorCode.not_found) _
              h3
              λ machine _ h4.
                ok-bind (authorize principal Capability.machine_destroy (some machine.project_id)) _
                  h4
                  λ _ _ h5.
                    ok-bind (require allow ErrorCode.data_loss_not_authorized) _ h5 λ _ _ h6.
                      ok-bind
                        (authorize principal Capability.machine_destroy_data_loss
                          (some machine.project_id))
                        _ h6
                        λ _ _ h7.
                          answer_cleanup-allocations env s principal machine version allow key _ h7
