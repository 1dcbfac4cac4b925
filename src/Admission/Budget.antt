-- ===== src/Admission/Budget.antt =====
-- What an admitted request may reserve: after every admission the live allocations are within the
-- limits of the deployment, of the account and of the credential.
pub mod Tables
use agent_cloud.Base.{
  ℕ, suc, ◌+◌, ◌-◌, List, [], ◌∷◌, ◌++◌, Option, none, some, Bool, true, false, ◌&&◌, ◌||◌, not,
  ◌≡◌, refl, ◌≤◌, ◌≢◌, arith, ◌==◌, ◌!=◌, nat_eq, leb, ltb, min, max, length, length-append, sum_by,
  select, any, All, In, find, ⊤, ◌↔◌, ◌⊎◌, inl, inr, Bool-cases, Option-cases, subst, sym, ap, ◌∙◌,
  if◌then◌else◌,
}
use agent_cloud.Base.Tables.{insert, update}
use agent_cloud.Base.Result.{
  Result, ok, require, forbid, row_or, forbid-ok, require-ok, row_or-ok, >>=-eq-ok, ◌>>=◌, ◌>>◌,
}
use agent_cloud.Contracts.Errors.{ErrorCode}
use agent_cloud.Contracts.Policy.{Principal}
use agent_cloud.Contracts.Lifecycle.{Operation, MachineSpec, MachineAction, LifecycleCommand}
use agent_cloud.Contracts.Catalog.{CatalogItem}
use agent_cloud.Store.{Account, Project, Allocation, State, Limits}
use agent_cloud.Auth.Authority.{load_principal}
use agent_cloud.Admission.Command.{authorize_command}
use agent_cloud.Admission.Reservation.{
  is_live, active, owned_by, price, other_currency, Extra, assert_reservation, currency_differs,
  machines_exceed, micros_exceed,
}
use agent_cloud.Admission.Request.{
  Admission, Setting, matches_request, admission_scope, admission_command,
}
use Tables.{
  IsKeyed, select-append, select-select, sum_by-append, length-reserve, All-reserve, price-reserve,
}
use agent_cloud.Admission.Admit.{
  reserve, Prepared, new_machine, new_allocation, quote, prepare_create, prepare, admit_fresh,
  admit_locked, admit, replay,
}

-- The reservations of `allocations` with `extra` beside them are covered.
pub record IsCovered (limits : Limits) (account : Account) (principal : Principal) (extra : Extra)
    (allocations : List Allocation) : Type 0 where
  pub machines : length (active allocations) + extra.machines ≤ limits.max_machines
  pub micros : price (active allocations) + extra.price ≤ limits.max_hourly_micros
  pub owned_machines :
      length (owned_by principal.account_id (active allocations)) + extra.machines
      ≤ min account.max_machines principal.policy.max_machines
  pub owned_micros :
      price (owned_by principal.account_id (active allocations)) + extra.price
      ≤ min account.max_hourly_micros principal.policy.max_hourly_micros
  pub currency : All (λ (a : Allocation). a.currency ≡ extra.currency) (active allocations)
  pub agreed :
      (limits.currency ≡ extra.currency)
      × (account.currency ≡ extra.currency)
      × (principal.policy.currency ≡ extra.currency)

pub not_other-All :
    (currency : ℕ) (xs : List Allocation)
    → other_currency currency xs ≡ false
    → All (λ (a : Allocation). a.currency ≡ currency) xs
not_other-All currency [] h = tt
not_other-All currency (x ∷ xs) h = (ground arith, not_other-All currency xs (ground arith))

All-not_other :
    (currency : ℕ) (xs : List Allocation)
    → All (λ (a : Allocation). a.currency ≡ currency) xs
    → other_currency currency xs ≡ false
All-not_other currency [] h = refl
All-not_other currency (x ∷ xs) h = ground (arith, All-not_other currency xs h.1)

module _ (live : List Allocation) (principal : Principal) (account : Account) (limits : Limits)
    (extra : Extra) where
  currency_differs_lem :
      currency_differs live principal account limits extra ≡ false
      → (account.currency ≡ extra.currency)
        × (principal.policy.currency ≡ extra.currency)
        × (limits.currency ≡ extra.currency)
        × (other_currency extra.currency live ≡ false)
  currency_differs_lem h = ground arith

  machines_exceed_lem :
      machines_exceed live principal account limits extra ≡ false
      → (length (owned_by principal.account_id live) + extra.machines
          ≤ min account.max_machines principal.policy.max_machines)
        × (length live + extra.machines ≤ limits.max_machines)
  machines_exceed_lem h = ground arith

  micros_exceed_lem :
      micros_exceed live principal account limits extra ≡ false
      → (price (owned_by principal.account_id live) + extra.price
          ≤ min account.max_hourly_micros principal.policy.max_hourly_micros)
        × (price live + extra.price ≤ limits.max_hourly_micros)
  micros_exceed_lem h = ground arith

  none_exceeds :
      (account.currency ≡ extra.currency)
      → (principal.policy.currency ≡ extra.currency)
      → (limits.currency ≡ extra.currency)
      → (other_currency extra.currency live ≡ false)
      → (length (owned_by principal.account_id live) + extra.machines
          ≤ min account.max_machines principal.policy.max_machines)
      → (length live + extra.machines ≤ limits.max_machines)
      → (price (owned_by principal.account_id live) + extra.price
          ≤ min account.max_hourly_micros principal.policy.max_hourly_micros)
      → (price live + extra.price ≤ limits.max_hourly_micros)
      → (currency_differs live principal account limits extra ≡ false)
        × (machines_exceed live principal account limits extra ≡ false)
        × (micros_exceed live principal account limits extra ≡ false)
  none_exceeds a b c d e f g h = (ground arith, ground arith, ground arith)

pub assert_reservation-IsCovered :
    (s : State) (principal : Principal) (account : Account) (limits : Limits) (extra : Extra)
    {u : ⊤}
    → assert_reservation s principal account limits extra ≡ ok u
    → IsCovered limits account principal extra s.allocations
unfolding assert_reservation
assert_reservation-IsCovered s principal account limits extra h =
    let live = active s.allocations in
    let (_, h1, h') =
      >>=-eq-ok
        (forbid (currency_differs live principal account limits extra) ErrorCode.budget_exceeded) _
        h in
    let (_, h2, h3) =
      >>=-eq-ok
        (forbid (machines_exceed live principal account limits extra) ErrorCode.quota_exceeded) _
        h' in
    let (a, b, c, d) =
      currency_differs_lem live principal account limits extra
        (forbid-ok _ ErrorCode.budget_exceeded h1) in
    let (e, f) =
      machines_exceed_lem live principal account limits extra
        (forbid-ok _ ErrorCode.quota_exceeded h2) in
    let (g, i) =
      micros_exceed_lem live principal account limits extra
        (forbid-ok _ ErrorCode.budget_exceeded h3) in
    record {
      machines = f;
      micros = i;
      owned_machines = e;
      owned_micros = g;
      currency = not_other-All extra.currency live d;
      agreed = (c, a, b);
    }

-- `assertReservation` lets a request pass exactly when the reservations with it are covered.
pub assert_reservation_iff :
    (s : State) (principal : Principal) (account : Account) (limits : Limits) (extra : Extra)
    → (assert_reservation s principal account limits extra ≡ ok tt)
      ↔ IsCovered limits account principal extra s.allocations
unfolding assert_reservation
assert_reservation_iff s principal account limits extra = (
  λ h. assert_reservation-IsCovered s principal account limits extra h,
  λ c.
      let (x, y, z) =
        none_exceeds (active s.allocations) principal account limits extra c.agreed.1 c.agreed.2
          c.agreed.0 (All-not_other extra.currency (active s.allocations) c.currency)
          c.owned_machines c.machines c.owned_micros c.micros in
      rw (x, y, z) refl,
)

abbrev pub nothing_more : (currency : ℕ) → Extra
nothing_more currency = record { machines = 0; price = 0; currency = currency }

abbrev owned : (account_id : ℕ) → Allocation → Bool
owned account_id a = a.account_id == account_id

All-append_one :
    (P : Allocation → Type 0) (xs : List Allocation) (a : Allocation)
    → All P xs
    → P a
    → All P (xs ++ a ∷ [])
All-append_one P [] a h pa = (pa, tt)
All-append_one P (x ∷ xs) a h pa = (h.0, All-append_one P xs a h.1 pa)

active-insert :
    (xs : List Allocation) (a : Allocation)
    → is_live a ≡ true
    → active (insert a xs) ≡ active xs ++ a ∷ []
active-insert xs a live = select-append is_live is_live xs (a ∷ []) ∙ rw live refl

owned-insert :
    (account_id : ℕ) (xs : List Allocation) (a : Allocation)
    → a.account_id ≡ account_id
    → owned_by account_id (xs ++ a ∷ []) ≡ owned_by account_id xs ++ a ∷ []
owned-insert account_id xs a e =
    select-append (owned account_id) (owned account_id) xs (a ∷ []) ∙ rw (owned_lem e) refl
  where
    owned_lem : a.account_id ≡ account_id → owned account_id a ≡ true
    owned_lem e = ground arith

-- A covered request stays covered once its allocation is in the table.
pub insert-IsCovered :
    (limits : Limits) (account : Account) (principal : Principal) (a : Allocation)
    (xs : List Allocation)
    → is_live a ≡ true
    → a.account_id ≡ principal.account_id
    → IsCovered limits account principal
        (record { machines = 1; price = a.hourly_micros; currency = a.currency })
        xs
    → IsCovered limits account principal (nothing_more a.currency) (insert a xs)
insert-IsCovered limits account principal a xs live mine c =
    let e = active-insert xs a live in
    let o =
      ap (owned_by principal.account_id) e ∙ owned-insert principal.account_id (active xs) a mine in
    record {
      machines =
          rw e (omega (arith, c.machines, length-append {A = Allocation} (active xs) (a ∷ [])));
      micros = rw e (omega (arith, c.micros, sum_by-append (active xs) (a ∷ [])));
      owned_machines = rw o (
          omega (
            arith,
            c.owned_machines,
            length-append {A = Allocation} (owned_by principal.account_id (active xs)) (a ∷ []),
          ));
      owned_micros = rw o (
          omega (
            arith,
            c.owned_micros,
            sum_by-append (owned_by principal.account_id (active xs)) (a ∷ []),
          ));
      currency = rw e (All-append_one _ (active xs) a c.currency refl);
      agreed = c.agreed;
    }

-- So does one that only raises a price.
pub reserve-IsCovered :
    (limits : Limits) (account : Account) (principal : Principal) (currency micros : ℕ)
    (a : Allocation) (xs : List Allocation)
    → IsKeyed xs
    → In a xs
    → a.hourly_micros ≤ micros
    → IsCovered limits account principal
        (record { machines = 0; price = micros - a.hourly_micros; currency = currency })
        xs
    → IsCovered limits account principal (nothing_more currency) (reserve a.id micros xs)
reserve-IsCovered limits account principal currency micros a xs keyed m le c =
    let both = λ (b : Allocation). is_live b && owned principal.account_id b in
    let same = select-select is_live (owned principal.account_id) xs in
    let same' = select-select is_live (owned principal.account_id) (reserve a.id micros xs) in
    record {
      machines = omega (arith, c.machines, length-reserve is_live (λ b n. refl) a.id micros xs);
      micros =
          omega
            (arith, c.micros, price-reserve is_live (λ b n. refl) a.id micros a xs keyed m refl le);
      owned_machines = rw same' (
          omega (
            arith,
            (rw same at c.owned_machines),
            length-reserve both (λ b n. refl) a.id micros xs,
          ));
      owned_micros = rw same' (
          omega (
            arith,
            (rw same at c.owned_micros),
            price-reserve both (λ b n. refl) a.id micros a xs keyed m refl le,
          ));
      currency = All-reserve is_live (λ b n. refl) a.id micros _ xs (λ b p. p) c.currency;
      agreed = c.agreed;
    }
