-- ===== src/Admission/Reservation.antt =====
-- `assertReservation` of apps/control/src/lifecycle.ts: what the unretired allocations reserve, and the
-- limits of the deployment, the account and the credential.
use agent_cloud.Base.{
  ℕ, ◌+◌, List, Bool, ◌||◌, ◌==◌, ◌!=◌, nat_eq, ltb, length, sum_by, select, any, is_none, min, ⊤,
}
use agent_cloud.Base.Result.{Result, forbid, ◌>>◌}
use agent_cloud.Contracts.Errors.{ErrorCode}
use agent_cloud.Contracts.Policy.{Principal}
use agent_cloud.Store.{Account, Allocation, State, Limits}

abbrev pub is_live : Allocation → Bool
is_live a = is_none a.retired_at

-- `SELECT … FROM allocations WHERE retired_at IS NULL`
abbrev pub active : List Allocation → List Allocation
active = select is_live

abbrev pub owned_by : (account_id : ℕ) → List Allocation → List Allocation
owned_by account_id = select (λ (a : Allocation). a.account_id == account_id)

abbrev pub price : List Allocation → ℕ
price = sum_by (λ (a : Allocation). a.hourly_micros)

abbrev pub other_currency : (currency : ℕ) → List Allocation → Bool
other_currency currency = any (λ (a : Allocation). a.currency != currency)

-- Which machines and money a request adds.
pub record Extra : Type 0 where
  pub machines : ℕ
  pub price : ℕ
  pub currency : ℕ

-- The three tests of `assertReservation`.
abbrev pub currency_differs : List Allocation → Principal → Account → Limits → Extra → Bool
currency_differs live principal account limits extra =
    account.currency != extra.currency
    || principal.policy.currency != extra.currency
    || limits.currency != extra.currency
    || other_currency extra.currency live

abbrev pub machines_exceed : List Allocation → Principal → Account → Limits → Extra → Bool
machines_exceed live principal account limits extra =
    ltb (min account.max_machines principal.policy.max_machines)
      (length (owned_by principal.account_id live) + extra.machines)
    || ltb limits.max_machines (length live + extra.machines)

abbrev pub micros_exceed : List Allocation → Principal → Account → Limits → Extra → Bool
micros_exceed live principal account limits extra =
    ltb (min account.max_hourly_micros principal.policy.max_hourly_micros)
      (price (owned_by principal.account_id live) + extra.price)
    || ltb limits.max_hourly_micros (price live + extra.price)

unfoldable pub assert_reservation : State → Principal → Account → Limits → Extra → Result ⊤
assert_reservation s principal account limits extra =
    let live = active s.allocations in
    do
      forbid (currency_differs live principal account limits extra) ErrorCode.budget_exceeded
      forbid (machines_exceed live principal account limits extra) ErrorCode.quota_exceeded
      forbid (micros_exceed live principal account limits extra) ErrorCode.budget_exceeded
