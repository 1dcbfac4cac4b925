-- ===== src/Contracts/PolicySchema.antt =====
-- packages/contracts/src/auth.ts, `grantPolicySchema`: the checks of a stored policy beyond the shape of its
-- data. A currency is a number here, so its format has no counterpart.
use agent_cloud.Base.{
  ℕ, ◌≤◌, List, [], ◌∷◌, Bool, true, false, ◌&&◌, not, ◌≡◌, ◌≢◌, refl, leb, if◌then◌else◌, arith,
  Bool-cases, inl, inr, ⊤,
}
use agent_cloud.Base.Result.{Result, ok, err, fault}
use agent_cloud.Contracts.Policy.{GrantPolicy, Projects}
use agent_cloud.Contracts.Catalog.{max_micros}

abbrev pub is_empty {ℓ} : {A : Type ℓ} → List A → Bool
is_empty [] = true
is_empty (x ∷ xs) = false

abbrev pub projects_valid : Projects → Bool
projects_valid Projects.every = true
projects_valid (Projects.selected ids) = not (is_empty ids)

unfoldable pub policy_valid : GrantPolicy → Bool
policy_valid policy =
    projects_valid policy.projects
    && not (is_empty policy.sizes)
    && not (is_empty policy.regions)
    && leb policy.max_machines 1000
    && leb policy.max_hourly_micros max_micros

-- `grantPolicySchema.parse`
unfoldable pub parse_policy : GrantPolicy → Result ⊤
unfolding policy_valid
parse_policy policy = if policy_valid policy then ok tt else err fault

-- A selection of projects names one.
abbrev pub IsSelection : Projects → Type 0
IsSelection Projects.every = Unit
IsSelection (Projects.selected ids) = ids ≢ []

-- A policy selects a project, a size and a region, and its limits are in range.
pub record IsPolicy (policy : GrantPolicy) : Type 0 where
  pub projects : IsSelection policy.projects
  pub sizes : policy.sizes ≢ []
  pub regions : policy.regions ≢ []
  pub max_machines : policy.max_machines ≤ 1000
  pub max_hourly_micros : policy.max_hourly_micros ≤ 2147483647

not_empty {ℓ} : {A : Type ℓ} (xs : List A) → not (is_empty xs) ≡ true → xs ≢ []
not_empty [] h e = cc
not_empty (x ∷ xs) h e = cc

filled {ℓ} : {A : Type ℓ} (xs : List A) → xs ≢ [] → not (is_empty xs) ≡ true
filled [] h = absurd (h refl)
filled (x ∷ xs) h = refl

selects : (projects : Projects) → projects_valid projects ≡ true → IsSelection projects
selects Projects.every h = tt
selects (Projects.selected ids) h = not_empty ids h

selected_valid : (projects : Projects) → IsSelection projects → projects_valid projects ≡ true
selected_valid Projects.every h = refl
selected_valid (Projects.selected ids) h = filled ids h

all_of :
    (a b c d e : Bool)
    → (a && b && c && d && e) ≡ true
    → (a ≡ true) × (b ≡ true) × (c ≡ true) × (d ≡ true) × (e ≡ true)
all_of a b c d e h = ground arith

pub policy_valid-IsPolicy : (policy : GrantPolicy) → policy_valid policy ≡ true → IsPolicy policy
unfolding policy_valid
policy_valid-IsPolicy policy h =
    let (projects, sizes, regions, machines, micros) =
      all_of (projects_valid policy.projects) (not (is_empty policy.sizes))
        (not (is_empty policy.regions)) (leb policy.max_machines 1000)
        (leb policy.max_hourly_micros max_micros) h in
    record {
      projects = selects policy.projects projects;
      sizes = not_empty policy.sizes sizes;
      regions = not_empty policy.regions regions;
      max_machines = ground arith;
      max_hourly_micros = ground arith;
    }

pub IsPolicy-policy_valid : (policy : GrantPolicy) → IsPolicy policy → policy_valid policy ≡ true
unfolding policy_valid
IsPolicy-policy_valid policy p =
    rw
      (
        selected_valid policy.projects p.projects,
        filled policy.sizes p.sizes,
        filled policy.regions p.regions,
      )
      (in_range policy.max_machines policy.max_hourly_micros p.max_machines p.max_hourly_micros)
  where
    in_range : (m h : ℕ) → m ≤ 1000 → h ≤ 2147483647 → (leb m 1000 && leb h max_micros) ≡ true
    in_range m h p q = ground arith

pub parse_policy-IsPolicy :
    (policy : GrantPolicy) {u : ⊤} → parse_policy policy ≡ ok u → IsPolicy policy
unfolding parse_policy
parse_policy-IsPolicy policy h = elim (Bool-cases (policy_valid policy)) [
  | inl e ↦ policy_valid-IsPolicy policy e
  | inr e ↦ absurd (refused (rw e at h))
]
  where
    refused : {u : ⊤} → err fault ≡ ok u → ⊥
    refused g = cc
