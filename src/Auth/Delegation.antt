-- ===== src/Auth/Delegation.antt =====
-- What `assertPolicySubset` guarantees: a delegated credential can do nothing that its parent cannot.
use agent_cloud.Base.{
  ℕ, List, [], ◌∷◌, Option, none, some, true, false, not, ◌≡◌, refl, ◌≤◌, arith, nat_eq, Eq,
  includes, includes-In, In-includes, In, any, all-In, inl, inr, ⊤, subst, ◌∙◌,
}
use agent_cloud.Base.Result.{ok, forbid-ok, require-ok, >>=-eq-ok, require}
use agent_cloud.Contracts.Errors.{ErrorCode}
use agent_cloud.Contracts.Policy.{
  Size, Region, Principal, GrantPolicy, Projects, Capability, size_eq, region_eq, capability_eq,
}
use agent_cloud.Auth.Policy.{
  project_allowed, project_in_scope, projects_within, authorize, policy_exceeds,
  assert_policy_subset,
}

-- Everything that `child` admits, `parent` admits too.
pub record IsWithin (child parent : GrantPolicy) : Type 0 where
  pub capabilities : (c : Capability) → In c child.capabilities → In c parent.capabilities
  pub sizes : (c : Size) → In c child.sizes → In c parent.sizes
  pub regions : (c : Region) → In c child.regions → In c parent.regions
  pub projects :
      (id : ℕ)
      → project_allowed child.projects id ≡ true
      → project_allowed parent.projects id ≡ true
  pub currency : child.currency ≡ parent.currency
  pub machines : child.max_machines ≤ parent.max_machines
  pub micros : child.max_hourly_micros ≤ parent.max_hourly_micros

-- No element misses the other list.
not-any-In :
    {A : Type 0} ⦃e : Eq A⦄ (xs ys : List A)
    → any (λ x. not (includes ys x)) xs ≡ false
    → (a : A) → In a xs
    → In a ys
not-any-In [] ys h a m = absurd m
not-any-In (x ∷ xs) ys h a (inl p) = subst (λ z. In z ys) p (includes-In ys x (ground arith))
not-any-In (x ∷ xs) ys h a (inr m) = not-any-In xs ys (ground arith) a m

projects_within_sound :
    (child parent : Projects)
    → projects_within child parent ≡ true
    → (id : ℕ) → project_allowed child id ≡ true
    → project_allowed parent id ≡ true
projects_within_sound child Projects.every h id p = refl
projects_within_sound Projects.every (Projects.selected ids) h id p = cc
projects_within_sound (Projects.selected chosen) (Projects.selected ids) h id p =
    all-In (λ x. includes ids x) chosen id h (includes-In chosen id p)

-- A policy that `assertPolicySubset` accepts admits nothing that its parent does not: no capability, size,
-- region or project more, the same currency, and no more machines or money.
pub assert_policy_subset-IsWithin :
    (child parent : GrantPolicy) {u : ⊤}
    → assert_policy_subset child parent ≡ ok u
    → IsWithin child parent
unfolding assert_policy_subset policy_exceeds
assert_policy_subset-IsWithin child parent h =
    let within : policy_exceeds child parent ≡ false = forbid-ok _ ErrorCode.permission_denied h in
    record {
      capabilities = not-any-In child.capabilities parent.capabilities (ground arith);
      sizes = not-any-In child.sizes parent.sizes (ground arith);
      regions = not-any-In child.regions parent.regions (ground arith);
      projects = projects_within_sound child.projects parent.projects (ground arith);
      currency = ground arith;
      machines = ground arith;
      micros = ground arith;
    }

pub IsWithin-trans : (a b c : GrantPolicy) → IsWithin a b → IsWithin b c → IsWithin a c
IsWithin-trans a b c ab bc = record {
  capabilities = λ x m. bc.capabilities x (ab.capabilities x m);
  sizes = λ x m. bc.sizes x (ab.sizes x m);
  regions = λ x m. bc.regions x (ab.regions x m);
  projects = λ id p. bc.projects id (ab.projects id p);
  currency = ab.currency ∙ bc.currency;
  machines = omega (arith, ab.machines, bc.machines);
  micros = omega (arith, ab.micros, bc.micros);
}

in_scope-IsWithin :
    (child parent : GrantPolicy) (project : Option ℕ)
    → IsWithin child parent
    → project_in_scope child.projects project ≡ true
    → project_in_scope parent.projects project ≡ true
in_scope-IsWithin child parent none w h = refl
in_scope-IsWithin child parent (some id) w h = w.projects id h

-- Whatever `authorize` lets a credential do under a policy that `assertPolicySubset` has accepted, it
-- lets the parent credential do.
pub authorize-assert_policy_subset :
    (child parent : Principal) (capability : Capability) (project : Option ℕ) {u v : ⊤}
    → assert_policy_subset child.policy parent.policy ≡ ok u
    → authorize child capability project ≡ ok v
    → authorize parent capability project ≡ ok tt
unfolding authorize
authorize-assert_policy_subset child parent capability project subset h =
    let w = assert_policy_subset-IsWithin child.policy parent.policy subset in
    let (_, has, scoped) =
      >>=-eq-ok
        (require (includes child.policy.capabilities capability) ErrorCode.permission_denied) _ h in
    let has' = require-ok _ ErrorCode.permission_denied has in
    let scoped' = require-ok _ ErrorCode.not_found scoped in
    rw
      (
        In-includes parent.policy.capabilities capability
            (w.capabilities capability (includes-In child.policy.capabilities capability has')),
        in_scope-IsWithin child.policy parent.policy project w scoped',
      )
      refl
