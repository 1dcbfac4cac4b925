-- ===== src/Journal/WriteAhead/Priced.antt =====
-- `journalEffect` of apps/control/src/effect-journal.ts: the comparison of prices before a command that costs
-- money.
use agent_cloud.Base.{
  ℕ, ◌≤◌, Eq, Bool, false, Option, none, some, ◌≡◌, refl, ap, ◌⊎◌, inl, inr, ◌!=◌, ◌||◌, nat_eq,
  ltb, find, Bool-cases, arith,
}
use agent_cloud.Base.Result.{Result, ok, err, fault, forbid, forbid-ok, ok-bind}
use agent_cloud.Contracts.Errors.{ErrorCode}
use agent_cloud.Contracts.Catalog.{
  CatalogItem, item_valid, Catalog, select_offer, provider_kind_eq, architecture_eq,
}
use agent_cloud.Contracts.Provider.{ProviderCommand}
use agent_cloud.Contracts.Lifecycle.{Operation}
use agent_cloud.Store.{Allocation, State}
use agent_cloud.Store.Action.{lift, call, ◌>>=◌}
use agent_cloud.Store.Action.Runs.{>>=-ok}
use agent_cloud.Admission.Request.{parse_offer}
use agent_cloud.Journal.Prepare.{Effect, is_monetary, has_id, check_current}
use agent_cloud.Journal.Submit.{stored_offer, compare_price, check_price}

-- What a catalog now offers is the server that was admitted, at no higher a price.
pub record IsOffered (allocation : Allocation) (offer : CatalogItem) (catalog : Catalog) (clock : ℕ)
    : Type 0 where
  pub current : CatalogItem
  pub selected : select_offer catalog offer.size offer.region clock ≡ ok current
  pub provider : catalog.provider ≡ allocation.provider
  pub server_type : current.server_type ≡ offer.server_type
  pub architecture : current.architecture ≡ offer.architecture
  pub disk_gb : current.disk_gb ≡ offer.disk_gb
  pub currency : current.currency ≡ offer.currency
  pub price : current.hourly_micros ≤ offer.hourly_micros

-- The operation has an offer stored, and the provider has answered with a catalog that still has it.
pub record IsPriced (e : Effect) (s : State) : Type 0 where
  pub stored : Operation
  pub offer : CatalogItem
  pub catalog : Catalog
  pub found : find (has_id e.operation.id) s.operations ≡ some stored
  pub admitted : stored.offer ≡ some offer
  pub answered : e.provider.get_catalog s.calls ≡ ok catalog
  pub offered : IsOffered e.allocation offer catalog e.clock

none_of :
    (a b c d : Bool)
    → (a || b || c || d) ≡ false
    → (a ≡ false) × (b ≡ false) × (c ≡ false) × (d ≡ false)
none_of a b c d h = ground arith

neither : (a b : Bool) → (a || b) ≡ false → (a ≡ false) × (b ≡ false)
neither a b h = ground arith

same : {A : Type 0} ⦃e : Eq A⦄ (a b : A) → (a != b) ≡ false → a ≡ b
same ⦃e⦄ a b h = (e.beq_iff a b).0 (ground arith)

check_current-IsOffered :
    (allocation : Allocation) (offer : CatalogItem) (catalog : Catalog) (clock : ℕ)
    → check_current allocation offer catalog clock ≡ ok tt
    → IsOffered allocation offer catalog clock
unfolding check_current
check_current-IsOffered allocation offer catalog clock h =
    ok-bind (select_offer catalog offer.size offer.region clock) _ h λ current selected h1.
      ok-bind
        (forbid
          (catalog.provider != allocation.provider
            || current.server_type != offer.server_type
            || current.architecture != offer.architecture
            || current.disk_gb != offer.disk_gb)
          ErrorCode.capacity_unavailable)
        _ h1
        λ _ kept h2.
          let (provider, server_type, architecture, disk) =
            none_of (catalog.provider != allocation.provider)
              (current.server_type != offer.server_type)
              (current.architecture != offer.architecture) (current.disk_gb != offer.disk_gb)
              (forbid-ok _ ErrorCode.capacity_unavailable kept) in
          let (currency, price) =
            neither (current.currency != offer.currency)
              (ltb offer.hourly_micros current.hourly_micros)
              (forbid-ok _ ErrorCode.budget_exceeded h2) in
          record {
            current = current;
            selected = selected;
            provider = same _ _ provider;
            server_type = same _ _ server_type;
            architecture = same _ _ architecture;
            disk_gb = same _ _ disk;
            currency = same _ _ currency;
            price = (ground arith);
          }

parse_offer-ok :
    (o : Option CatalogItem) (offer : CatalogItem) → parse_offer o ≡ ok offer → o ≡ some offer
parse_offer-ok none offer h = cc
parse_offer-ok (some item) offer h = elim (Bool-cases (item_valid item)) [
  | inl e ↦ ap some (ap item_of (rw e at h))
  | inr e ↦ absurd (refused (rw e at h))
]
  where
    item_of : Result CatalogItem → CatalogItem
    item_of (ok i) = i
    item_of (err _) = item

    refused : err fault ≡ ok offer → ⊥
    refused g = cc

stored_offer-some :
    (o : Option Operation) (offer : CatalogItem)
    → stored_offer o ≡ some offer
    → (stored : Operation) × (o ≡ some stored) × (stored.offer ≡ some offer)
stored_offer-some none offer h = cc
stored_offer-some (some stored) offer h = (stored, refl, h)

compare_price-IsPriced : (e : Effect) (s : State) → (compare_price e s).0 ≡ ok tt → IsPriced e s
unfolding compare_price
compare_price-IsPriced e s h =
    let (offer, parsed, h1) =
      >>=-ok (lift (parse_offer (stored_offer (find (has_id e.operation.id) s.operations))))
        (λ offer. call e.provider.get_catalog >>= λ catalog.
          lift (check_current e.allocation offer catalog e.clock))
        s h in
    let (catalog, answered, checked) =
      >>=-ok (call e.provider.get_catalog)
        (λ catalog. lift (check_current e.allocation offer catalog e.clock)) s h1 in
    let (stored, found, admitted) =
      stored_offer-some (find (has_id e.operation.id) s.operations) offer
        (parse_offer-ok (stored_offer (find (has_id e.operation.id) s.operations)) offer parsed) in
    record {
      stored = stored;
      offer = offer;
      catalog = catalog;
      found = found;
      admitted = admitted;
      answered = answered;
      offered = check_current-IsOffered e.allocation offer catalog e.clock checked;
    }

-- A command that costs nothing more than what is there: all but the creations, a resize and the backups.
abbrev pub IsFree : ProviderCommand → Type 0
IsFree (ProviderCommand.delete_primary_ip _) = Unit
IsFree (ProviderCommand.reboot _) = Unit
IsFree (ProviderCommand.power_off _) = Unit
IsFree (ProviderCommand.power_on _) = Unit
IsFree (ProviderCommand.destroy _) = Unit
IsFree _ = ⊥

not_monetary : (command : ProviderCommand) → is_monetary command ≡ false → IsFree command
not_monetary (ProviderCommand.create_primary_ip _ _) h = cc
not_monetary (ProviderCommand.create _ _ _ _) h = cc
not_monetary (ProviderCommand.create_guest _ _ _ _ _) h = cc
not_monetary (ProviderCommand.resize _ _) h = cc
not_monetary (ProviderCommand.enable_backup _) h = cc
not_monetary _ h = tt

-- A command that is submitted costs nothing, or its price has been compared.
pub check_price-IsPriced :
    (e : Effect) (s : State) → (check_price e s).0 ≡ ok tt → IsFree e.command ⊎ IsPriced e s
unfolding check_price
check_price-IsPriced e s = elim (Bool-cases (is_monetary e.command)) [
  | inl d ↦ rw d (λ h. inr (compare_price-IsPriced e s h))
  | inr d ↦ λ h. inl (not_monetary e.command d)
]
