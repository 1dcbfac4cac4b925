-- ===== src/Journal/Authorized.antt =====
-- What the checks of `journalEffect` establish before an attempt is written.
use agent_cloud.Base.{
  [], ◌∷◌, ℕ, ◌+◌, ◌≤◌, ◌<◌, List, Bool, true, false, Option, none, some, ◌&&◌, ◌≡◌, refl, inl, inr,
  ◌==◌, nat_eq, leb, min, any, find, length, In, All, arith, is_some, Bool-cases, ⊤,
}
use agent_cloud.Base.Result.{ok, ok-bind, forbid, forbid-ok, require-ok, row_or, row_or-ok}
use agent_cloud.Contracts.Errors.{ErrorCode}
use agent_cloud.Contracts.Policy.{Principal}
use agent_cloud.Contracts.Catalog.{CatalogItem}
use agent_cloud.Contracts.Provider.{ResourceRef}
use agent_cloud.Contracts.Lifecycle.{Operation, is_cleanup}
use agent_cloud.Store.{Account, Allocation, OperationCleanup, OwnedResource, State, Limits}
use agent_cloud.Auth.Authority.{load_principal}
use agent_cloud.Admission.Command.{authorize_command}
use agent_cloud.Admission.Reservation.{active, owned_by, price}
use agent_cloud.Admission.Request.{parse_offer}
use agent_cloud.Admission.Budget.{not_other-All}
use agent_cloud.Journal.Resources.{is_live_resource}
use agent_cloud.Journal.Prepare.{
  Effect, Authorization, prepare_attempt, authorize_effect, authorize_fresh, authorize_money,
  authorize_admitted, is_monetary, limits_lapsed, is_cleanup_of, has_deadline, boot_minutes,
  deleted_resource, admits_cleanup, has_id, is_ip_deletion,
}
use agent_cloud.Journal.WriteAhead.Steps.{prepare_attempt-eq}

-- The reservations of the account and of the deployment stand within the limits, in one currency.
pub record StaysWithin (limits : Limits) (account : Account) (principal : Principal) (currency : ℕ)
    (allocations : List Allocation) : Type 0 where
  pub machines : length (active allocations) ≤ limits.max_machines
  pub micros : price (active allocations) ≤ limits.max_hourly_micros
  pub owned_machines :
      length (owned_by account.id (active allocations))
      ≤ min account.max_machines principal.policy.max_machines
  pub owned_micros :
      price (owned_by account.id (active allocations))
      ≤ min account.max_hourly_micros principal.policy.max_hourly_micros
  pub same_currency : All (λ (a : Allocation). a.currency ≡ currency) (active allocations)
  pub agreed :
      (limits.currency ≡ currency)
      × (account.currency ≡ currency)
      × (principal.policy.currency ≡ currency)

limits_lapsed-StaysWithin :
    (s : State) (limits : Limits) (account : Account) (principal : Principal) (offer : CatalogItem)
    → limits_lapsed s limits account principal offer ≡ false
    → StaysWithin limits account principal offer.currency s.allocations
limits_lapsed-StaysWithin s limits account principal offer h = record {
  machines = ground arith;
  micros = ground arith;
  owned_machines = ground arith;
  owned_micros = ground arith;
  same_currency = not_other-All offer.currency (active s.allocations) (ground arith);
  agreed = (ground arith, ground arith, ground arith);
}

-- The authority of fresh machine work: nobody has replaced it by a cleanup, its boot deadline has not
-- passed, its credential still loads and still permits the stored command, and what costs money is
-- still within the limits.
pub record IsAuthorized (s : State) (e : Effect) (account : Account) (stored : Operation)
    : Type 0 where
  pub intent : is_cleanup stored.intent ≡ false
  pub no_cleanup : find (is_cleanup_of e.operation.id) s.cleanups ≡ none
  pub in_time :
      has_deadline e.provider.kind e.operation.kind ≡ true
      → e.now < stored.created_at + boot_minutes
  pub principal : Principal
  pub loaded : load_principal s e.now e.operation.grant_id ≡ ok principal
  pub permitted : authorize_command principal e.operation.project_id stored.command ≡ ok tt
  pub covered :
      is_monetary e.command ≡ true
      → (offer : CatalogItem) × (parse_offer stored.offer ≡ ok offer)
        × StaysWithin e.limits account principal offer.currency s.allocations

authorize_money-StaysWithin :
    (s : State) (e : Effect) (account : Account) (principal : Principal) (stored : Operation)
    {u : ⊤}
    → authorize_money s e account principal stored ≡ ok u
    → is_monetary e.command ≡ true
    → (offer : CatalogItem) × (parse_offer stored.offer ≡ ok offer)
      × StaysWithin e.limits account principal offer.currency s.allocations
unfolding authorize_money
authorize_money-StaysWithin s e account principal stored h m =
    ok-bind (parse_offer stored.offer) _ (rw m at h) λ offer p h1. (
      offer,
      p,
      limits_lapsed-StaysWithin s e.limits account principal offer
          (forbid-ok _ ErrorCode.budget_exceeded h1),
    )

is_some-none : {A : Type 0} (o : Option A) → is_some o ≡ false → o ≡ none
is_some-none none h = refl
is_some-none (some a) h = cc

authorize_fresh-IsAuthorized :
    (s : State) (e : Effect) (account : Account) (stored : Operation) {u : ⊤}
    → authorize_fresh s e account stored ≡ ok u
    → IsAuthorized s e account stored
unfolding authorize_fresh
authorize_fresh-IsAuthorized s e account stored h =
    let late =
      has_deadline e.provider.kind e.operation.kind
      && leb (stored.created_at + boot_minutes) e.now in
    ok-bind (forbid (is_cleanup stored.intent) ErrorCode.resource_busy) _ h λ _ a h1.
      ok-bind
        (forbid (is_some (find (is_cleanup_of e.operation.id) s.cleanups)) ErrorCode.resource_busy)
        _ h1
        λ _ b h2. ok-bind (forbid late ErrorCode.provider_rejected) _ h2 λ _ c h3.
          ok-bind (load_principal s e.now e.operation.grant_id) _ h3 λ principal d h4.
            ok-bind (authorize_command principal e.operation.project_id stored.command) _ h4
              λ _ f h5.
                let in_time = forbid-ok late ErrorCode.provider_rejected c in
                record {
                  intent = forbid-ok _ ErrorCode.resource_busy a;
                  no_cleanup = is_some-none _ (forbid-ok _ ErrorCode.resource_busy b);
                  in_time = λ t. ground arith;
                  principal = principal;
                  loaded = d;
                  permitted = f;
                  covered = λ m. authorize_money-StaysWithin s e account principal stored h5 m;
                }

-- The authority of an admitted cleanup: a row that covers the allocation, and a live resource of that
-- allocation that is exactly the one to be deleted.
pub record IsAdmittedCleanup (s : State) (e : Effect) : Type 0 where
  pub row : OperationCleanup
  pub admitted : find (admits_cleanup e.operation e.allocation) s.cleanups ≡ some row
  pub resource : ResourceRef
  pub deleted : deleted_resource e.command ≡ some resource
  pub owned : OwnedResource
  pub held : In owned s.resources
  pub live : is_live_resource e.allocation resource owned ≡ true

any-In :
    {A : Type 0} (p : A → Bool) (xs : List A) → any p xs ≡ true → (a : A) × In a xs × (p a ≡ true)
any-In p [] h = cc
any-In p (x ∷ xs) h = elim (Bool-cases (p x)) [
  | inl e ↦ (x, inl refl, e)
  | inr e ↦ let (a, m, q) = any-In p xs (rw e at h) in (a, inr m, q)
]

authorize_admitted-IsAdmittedCleanup :
    (s : State) (e : Effect) {u : ⊤} → authorize_admitted s e ≡ ok u → IsAdmittedCleanup s e
unfolding authorize_admitted
authorize_admitted-IsAdmittedCleanup s e h =
    ok-bind
      (row_or (find (admits_cleanup e.operation e.allocation) s.cleanups)
        ErrorCode.permission_denied)
      _ h
      λ row a h1.
        ok-bind (row_or (deleted_resource e.command) ErrorCode.permission_denied) _ h1
          λ resource b h2.
            let (owned, held, live) =
              any-In (is_live_resource e.allocation resource) s.resources
                (require-ok _ ErrorCode.permission_denied h2) in
            record {
              row = row;
              admitted = row_or-ok _ ErrorCode.permission_denied a;
              resource = resource;
              deleted = row_or-ok _ ErrorCode.permission_denied b;
              owned = owned;
              held = held;
              live = live;
            }

-- The authority that each kind of submission has.
abbrev pub HasAuthority : State → Effect → Account → Operation → Authorization → Type 0
HasAuthority s e account stored Authorization.fresh = IsAuthorized s e account stored
HasAuthority s e account stored Authorization.admitted_cleanup = IsAdmittedCleanup s e
HasAuthority s e account stored Authorization.cleanup = is_ip_deletion e.command ≡ true

authorize_effect-HasAuthority :
    (s : State) (e : Effect) (account : Account) (stored : Operation)
    (authorization : Authorization) {u : ⊤}
    → authorize_effect s e account stored authorization ≡ ok u
    → HasAuthority s e account stored authorization
unfolding authorize_effect
authorize_effect-HasAuthority s e account stored Authorization.fresh h =
    authorize_fresh-IsAuthorized s e account stored h
authorize_effect-HasAuthority s e account stored Authorization.admitted_cleanup h =
    authorize_admitted-IsAdmittedCleanup s e h
authorize_effect-HasAuthority s e account stored Authorization.cleanup h =
    require-ok _ ErrorCode.internal_error h

-- An attempt is only written for an operation and an account that exist, on the authority that the
-- submission claims: for fresh work the checks of `IsAuthorized`, for an admitted cleanup those of
-- `IsAdmittedCleanup`, and without either only the deletion of an address.
pub prepare_attempt-HasAuthority :
    (e : Effect) (s t : State)
    → prepare_attempt e s ≡ ok (tt, t)
    → (account : Account) × (stored : Operation) × (find
          (λ (a : Account). a.id == e.operation.account_id)
          s.accounts
        ≡ some account)
      × (find (has_id e.operation.id) s.operations ≡ some stored)
      × HasAuthority s e account stored e.authorization
prepare_attempt-HasAuthority e s t h =
    let (account, stored, p, q, r, _, _) = prepare_attempt-eq e s h in
    (account, stored, p, q, authorize_effect-HasAuthority s e account stored e.authorization r)
