-- ===== src/Contracts/Catalog.antt =====
-- packages/contracts/src/catalog.ts. Prices are micro-units per hour, currencies and server types are
-- compared only, instants are milliseconds. A size's memory and its CPU count are display data and
-- are left out.
use agent_cloud.Base.{
  ℕ, ◌+◌, List, [], ◌∷◌, Bool, true, false, ◌&&◌, ◌||◌, Option, none, some, ltb, leb, Eq, ◌==◌,
  nat_eq, nat_eqb, if◌then◌else◌, find, not, all, ◌≡◌, ◌↔◌, arith,
}
use agent_cloud.Base.Result.{Result, ok, throw_retryable}
use agent_cloud.Contracts.Errors.{ErrorCode}
use agent_cloud.Contracts.Policy.{Size, Region, size_eq, region_eq}

pub data ProviderKind : Type 0 where
  simulated hetzner : ProviderKind

pub data Architecture : Type 0 where
  x86 arm : Architecture

abbrev pub provider_kind_code : ProviderKind → ℕ
provider_kind_code ProviderKind.simulated = 0
provider_kind_code ProviderKind.hetzner = 1

pub provider_kind_code-injective :
    (a b : ProviderKind) → (nat_eqb (provider_kind_code a) (provider_kind_code b) ≡ true) ↔ (a ≡ b)
provider_kind_code-injective a b = ground arith

instance abbrev pub provider_kind_eq : Eq ProviderKind
provider_kind_eq = record {
  beq = λ a b. nat_eqb (provider_kind_code a) (provider_kind_code b);
  beq_iff = provider_kind_code-injective;
}

abbrev pub architecture_code : Architecture → ℕ
architecture_code Architecture.x86 = 0
architecture_code Architecture.arm = 1

pub architecture_code-injective :
    (a b : Architecture) → (nat_eqb (architecture_code a) (architecture_code b) ≡ true) ↔ (a ≡ b)
architecture_code-injective a b = ground arith

instance abbrev pub architecture_eq : Eq Architecture
architecture_eq = record {
  beq = λ a b. nat_eqb (architecture_code a) (architecture_code b);
  beq_iff = architecture_code-injective;
}

-- `providerBackupsSchema`
pub data ProviderBackups : Type 0 where
  disabled : ProviderBackups
  daily : ℕ → ProviderBackups

pub data PriceBasis : Type 0 where
  simulated account_gross legacy_estimate : PriceBasis

abbrev pub price_basis_code : PriceBasis → ℕ
price_basis_code PriceBasis.simulated = 0
price_basis_code PriceBasis.account_gross = 1
price_basis_code PriceBasis.legacy_estimate = 2

pub price_basis_code-injective :
    (a b : PriceBasis) → (nat_eqb (price_basis_code a) (price_basis_code b) ≡ true) ↔ (a ≡ b)
price_basis_code-injective a b = ground arith

instance abbrev pub price_basis_eq : Eq PriceBasis
price_basis_eq = record {
  beq = λ a b. nat_eqb (price_basis_code a) (price_basis_code b);
  beq_iff = price_basis_code-injective;
}

pub record CatalogItem : Type 0 where
  pub size : Size
  pub server_type : ℕ
  pub region : Region
  pub architecture : Architecture
  pub disk_gb : ℕ
  pub available : Bool
  pub currency : ℕ
  pub price_basis : PriceBasis
  pub server_hourly_micros : ℕ
  pub ipv4_hourly_micros : ℕ
  pub provider_backups : ProviderBackups
  pub hourly_micros : ℕ

abbrev pub max_micros : ℕ
max_micros = 2147483647

abbrev pub backup_micros : ProviderBackups → ℕ
backup_micros ProviderBackups.disabled = 0
backup_micros (ProviderBackups.daily micros) = micros

abbrev pub is_daily : ProviderBackups → Bool
is_daily ProviderBackups.disabled = false
is_daily (ProviderBackups.daily _) = true

-- The checks of `catalogItemSchema`: every price is a `microsSchema`, and the reservation covers the
-- VM, its IPv4 and the enabled provider backups.
unfoldable pub item_valid : CatalogItem → Bool
item_valid item =
    leb server_hourly_micros max_micros
    && leb ipv4_hourly_micros max_micros
    && leb (backup_micros provider_backups) max_micros
    && leb hourly_micros max_micros
    && ltb 0 disk_gb
    && hourly_micros == server_hourly_micros + ipv4_hourly_micros + backup_micros provider_backups
  where
    open item use {
      server_hourly_micros, ipv4_hourly_micros, provider_backups, hourly_micros, disk_gb,
    }

pub record Catalog : Type 0 where
  pub provider : ProviderKind
  pub currency : ℕ
  pub pricing : PriceBasis
  pub observed_at : ℕ
  pub expires_at : ℕ
  pub items : List CatalogItem

abbrev pub offers : Size → Region → CatalogItem → Bool
offers size region item = item.size == size && item.region == region

-- The `superRefine` of `catalogResponseSchema` over the items: one offer for each size and region, in
-- the catalog's currency and price basis.
unfoldable pub items_valid : Catalog → List CatalogItem → Bool
items_valid c [] = true
items_valid c (item ∷ rest) =
    item.currency == c.currency
    && item.price_basis == c.pricing
    && all (λ other. not (offers item.size item.region other)) rest
    && items_valid c rest

unfoldable pub catalog_valid : Catalog → Bool
unfolding items_valid item_valid
catalog_valid c = all item_valid c.items && items_valid c c.items && ltb c.observed_at c.expires_at

-- The `!offer?.available` test.
abbrev available_offer : Option CatalogItem → Result CatalogItem
available_offer none = throw_retryable ErrorCode.capacity_unavailable
available_offer (some offer) =
    if offer.available then ok offer else throw_retryable ErrorCode.capacity_unavailable

-- `selectOffer`
unfoldable pub select_offer : Catalog → Size → Region → ℕ → Result CatalogItem
select_offer catalog size region now =
    if leb catalog.expires_at now || ltb (now + 5000) catalog.observed_at
    then throw_retryable ErrorCode.provider_unavailable
    else available_offer (find (offers size region) catalog.items)
