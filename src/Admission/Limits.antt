-- ===== src/Admission/Limits.antt =====
-- Every way through `admit` keeps what is reserved within the limits.
pub mod Cleanups
pub mod Requests
use agent_cloud.Base.{
  ℕ, List, [], Option, none, some, Bool, ◌||◌, ◌≡◌, refl, arith, ◌==◌, ◌!=◌, nat_eq, ltb, max, any,
  In, find, find-In, ◌⊎◌, inl, inr, Bool-cases, subst, sym, ap, if◌then◌else◌, is_none,
}
use agent_cloud.Base.Tables.{insert}
use agent_cloud.Base.Result.{
  throw_retryable, ok-bind, Result, ok, err, require, forbid, row_or, row_or-ok,
}
use agent_cloud.Contracts.Errors.{ErrorCode}
use agent_cloud.Contracts.Policy.{Principal, Size, Capability}
use agent_cloud.Contracts.Lifecycle.{
  Operation, Machine, MachineSpec, MachineAction, LifecycleCommand, expected_version, is_destroyed,
  is_cleanup,
}
use agent_cloud.Contracts.Catalog.{CatalogItem, architecture_eq}
use agent_cloud.Store.{Account, Allocation, State, Idempotency}
use agent_cloud.Auth.Authority.{load_principal}
use agent_cloud.Auth.Policy.{authorize}
use agent_cloud.Auth.Grants.{close_machine_access}
use agent_cloud.Admission.Command.{authorize_command}
use agent_cloud.Admission.Reservation.{assert_reservation}
use agent_cloud.Admission.Request.{Admission, Setting, admission_command, parse_offer, is_operation}
use agent_cloud.Admission.Budget.{
  IsCovered, nothing_more, assert_reservation-IsCovered, insert-IsCovered, reserve-IsCovered,
}
use agent_cloud.Admission.Budget.Tables.{IsKeyed}
use agent_cloud.Admission.Admit.{
  Prepared, new_allocation, quote, prepare_create, prepare_resize, prepare_offer, prepare_action,
  prepare, admit_fresh, admit_locked, admit, replay, answer, is_account, is_powered_off, has_name,
  is_project, one_more, larger, reserve, is_busy, holds,
}
use agent_cloud.Admission.Cleanup.{
  admit_cleanup, admit_new_cleanup, replay_cleanup, choose_cleanup, owned_machine, CleanupRequest,
  commit_cleanup, answer_cleanup, active_operation, source_operation, refuses_cleanup,
  destroy_command,
}
use agent_cloud.Admission.Limits.Requests.{result_allocations, answer-IsWithinLimits}
use agent_cloud.Admission.Limits.Cleanups.{admit_cleanup-allocations}

-- What `admit` leaves reserved: nothing has changed, or all of it is covered by the limits of the
-- deployment and of the account and credential that were read.
abbrev pub StaysCovered : Setting → State → Principal → State → Type 0
StaysCovered env s caller t =
    (t.allocations ≡ s.allocations)
    ⊎ ((account : Account) × (principal : Principal) × (find (is_account caller.account_id)
            s.accounts
          ≡ some account)
        × (load_principal s env.now caller.grant_id ≡ ok principal)
        × IsCovered env.limits account principal (nothing_more env.limits.currency) t.allocations)

admit_locked-StaysCovered :
    (env : Setting) (s t : State) (caller : Principal) (key : ℕ) (request : Admission)
    (op : Operation)
    → IsKeyed s.allocations
    → admit_locked env s caller key request ≡ ok (op, t)
    → StaysCovered env s caller t
unfolding admit_locked
admit_locked-StaysCovered env s t caller key request op keyed h =
    ok-bind (row_or (find (is_account caller.account_id) s.accounts) ErrorCode.unauthenticated) _ h
      λ account found h1.
        ok-bind (load_principal s env.now caller.grant_id) _ h1 λ principal loaded h2.
          elim (answer-IsWithinLimits env principal account s key request _ keyed h2) [
            | inl same ↦ inl same
            | inr c ↦
                inr (account, principal, row_or-ok _ ErrorCode.unauthenticated found, loaded, c)
          ]

-- An admitted request leaves the reservations as they were, or leaves the live allocations of the
-- deployment and of the account within the deployment's, the account's and the credential's limits on
-- machines and on hourly price, all in one currency. (Allocation ids must be distinct.)
pub admit-StaysCovered :
    (env : Setting) (free : Bool) (s t : State) (caller : Principal) (key : ℕ) (request : Admission)
    (op : Operation)
    → IsKeyed s.allocations
    → admit env free s caller key request ≡ ok (op, t)
    → StaysCovered env s caller t
unfolding admit
admit-StaysCovered env free s t caller key
      (Admission.action machine_id (MachineAction.destroy v allow)) op keyed h =
    inl (admit_cleanup-allocations env free s caller machine_id v allow key h)
admit-StaysCovered env free s t caller key request op keyed h =
    admit_locked-StaysCovered env s t caller key request op keyed h
