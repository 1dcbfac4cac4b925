-- ===== src/Auth/Policy.antt =====
-- `authorize` and `assertPolicySubset` of apps/control/src/auth.ts.
use agent_cloud.Base.{
  ℕ, Option, none, some, Bool, true, false, ◌||◌, not, ◌!=◌, nat_eq, ltb, includes, all, any, ⊤,
}
use agent_cloud.Base.Result.{Result, forbid, require, ◌>>◌}
use agent_cloud.Contracts.Errors.{ErrorCode}
use agent_cloud.Contracts.Policy.{
  Principal, GrantPolicy, Projects, Capability, size_eq, region_eq, capability_eq,
}

abbrev pub project_allowed : Projects → ℕ → Bool
project_allowed Projects.every project_id = true
project_allowed (Projects.selected ids) project_id = includes ids project_id

abbrev pub project_in_scope : Projects → Option ℕ → Bool
project_in_scope projects none = true
project_in_scope projects (some project_id) = project_allowed projects project_id

unfoldable pub authorize : Principal → Capability → (project_id : Option ℕ) → Result ⊤
authorize principal capability project_id = do
  require (includes principal.policy.capabilities capability) ErrorCode.permission_denied
  require (project_in_scope principal.policy.projects project_id) ErrorCode.not_found

-- `projectsAllowed`
abbrev pub projects_within : (child parent : Projects) → Bool
projects_within child Projects.every = true
projects_within Projects.every (Projects.selected ids) = false
projects_within (Projects.selected chosen) (Projects.selected ids) =
    all (λ id. includes ids id) chosen

unfoldable pub policy_exceeds : (child parent : GrantPolicy) → Bool
policy_exceeds child parent =
    not (projects_within child.projects parent.projects)
    || child.currency != parent.currency
    || any (λ capability. not (includes parent.capabilities capability)) child.capabilities
    || any (λ size. not (includes parent.sizes size)) child.sizes
    || any (λ region. not (includes parent.regions region)) child.regions
    || ltb parent.max_machines child.max_machines
    || ltb parent.max_hourly_micros child.max_hourly_micros

unfoldable pub assert_policy_subset : (child parent : GrantPolicy) → Result ⊤
unfolding policy_exceeds
assert_policy_subset child parent = forbid (policy_exceeds child parent) ErrorCode.permission_denied
