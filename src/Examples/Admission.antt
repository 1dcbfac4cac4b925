-- ===== src/Examples/Admission.antt =====
-- Runs of admission.
use agent_cloud.Base.{arith, true, ◌≡◌, ◌↔◌, refl}
use agent_cloud.Base.Result.{Result, ok, err}
use agent_cloud.Auth.Authority.{load_principal}
use agent_cloud.Auth.Policy.{authorize}
use agent_cloud.Admission.Command.{authorize_command}
use agent_cloud.Contracts.Catalog.{select_offer}
use agent_cloud.Contracts.Policy.{Capability-discrete}
use agent_cloud.Contracts.Lifecycle.{Operation}
use agent_cloud.Store.{State}
use agent_cloud.Admission.Reservation.{assert_reservation}
use agent_cloud.Admission.Budget.{IsCovered, assert_reservation_iff}
use agent_cloud.Admission.Replay.{admit_locked-again}
use agent_cloud.Admission.Exclusive.{IsExclusive, admit_locked-IsExclusive}
use agent_cloud.Admission.Request.{Admission, Setting}
use agent_cloud.Admission.Admit.{admit, admit_locked, quote, one_more}
use agent_cloud.Admission.Limits.{StaysCovered, admit-StaysCovered}
use agent_cloud.Examples.Data.{
  empty, admitted, setting, caller, account, limits, item, spec, operation,
}

abbrev request : Admission
request = Admission.create 3 spec

abbrev state_of : Result (Operation × State) → State
state_of (ok (_, s)) = s
state_of (err _) = empty

abbrev after : State
after = state_of (admit setting true empty caller 5 request)

admit-StaysCovered_example : StaysCovered setting empty caller after
unfolding admit Capability-discrete load_principal authorize_command authorize quote select_offer
    assert_reservation
admit-StaysCovered_example =
    admit-StaysCovered setting true empty after caller 5 request operation tt refl

assert_reservation_iff_example :
    (assert_reservation admitted caller account limits (one_more item) ≡ ok tt)
    ↔ IsCovered limits account caller (one_more item) admitted.allocations
assert_reservation_iff_example =
    assert_reservation_iff admitted caller account limits (one_more item)

abbrev later : Setting
later = record setting { now = 20 }

admit_locked-again_example : admit_locked later after caller 5 request ≡ ok (operation, after)
unfolding admit Capability-discrete load_principal authorize_command authorize quote select_offer
    assert_reservation
admit_locked-again_example =
    admit_locked-again setting later caller 5 request refl empty after operation (λ account. refl)
      refl refl

admit_locked-IsExclusive_example : IsExclusive after.operations
unfolding admit Capability-discrete load_principal authorize_command authorize quote select_offer
    assert_reservation
admit_locked-IsExclusive_example =
    admit_locked-IsExclusive setting empty after caller 5 request operation refl
      (λ machine. omega arith) refl
