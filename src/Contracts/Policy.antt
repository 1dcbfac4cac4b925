-- ===== src/Contracts/Policy.antt =====
-- packages/contracts/src/auth.ts and the enums of catalog.ts: capabilities, credential policies and
-- the principal that a request acts as.
use agent_cloud.Base.{ℕ, List, true, Eq, of_discrete, nat_eqb, ◌≡◌, ◌↔◌, arith}

pub data Size : Type 0 where
  small medium large : Size

pub data Region : Type 0 where
  nbg1 fsn1 hel1 : Region

pub data Capability : Type 0 where
  project_read project_create machine_read machine_create : Capability
  machine_operate machine_destroy machine_destroy_data_loss machine_exec : Capability
  deploy_write route_publish backup_read backup_create : Capability
  backup_restore backup_purge grant_manage usage_read : Capability

unfoldable pub Capability-discrete : Discrete Capability
Capability-discrete = hlevel

abbrev pub size_code : Size → ℕ
size_code Size.small = 0
size_code Size.medium = 1
size_code Size.large = 2

pub size_code-injective : (a b : Size) → (nat_eqb (size_code a) (size_code b) ≡ true) ↔ (a ≡ b)
size_code-injective a b = ground arith

instance abbrev pub size_eq : Eq Size
size_eq = record { beq = λ a b. nat_eqb (size_code a) (size_code b); beq_iff = size_code-injective }

abbrev pub region_code : Region → ℕ
region_code Region.nbg1 = 0
region_code Region.fsn1 = 1
region_code Region.hel1 = 2

pub region_code-injective :
    (a b : Region) → (nat_eqb (region_code a) (region_code b) ≡ true) ↔ (a ≡ b)
region_code-injective a b = ground arith

instance abbrev pub region_eq : Eq Region
region_eq = record {
  beq = λ a b. nat_eqb (region_code a) (region_code b);
  beq_iff = region_code-injective;
}

instance abbrev pub capability_eq : Eq Capability
capability_eq = of_discrete Capability-discrete

pub data Projects : Type 0 where
  every : Projects
  selected : List ℕ → Projects

pub record GrantPolicy : Type 0 where
  pub capabilities : List Capability
  pub projects : Projects
  pub sizes : List Size
  pub regions : List Region
  pub max_machines : ℕ
  pub currency : ℕ
  pub max_hourly_micros : ℕ

pub record Principal : Type 0 where
  pub account_id : ℕ
  pub grant_id : ℕ
  pub policy : GrantPolicy
