-- ===== src/Examples/Auth.antt =====
-- Runs of the credential checks.
use agent_cloud.Base.{
  ℕ, some, ◌≡◌, refl, inl, inr, arith, ◌+◌, ⊤, In, find, ◌≤◌, ◌≢◌, ◌∙◌, ap, sym, subst,
}
use agent_cloud.Base.Result.{Result, ok, err, throw}
use agent_cloud.Contracts.Errors.{ErrorCode}
use agent_cloud.Contracts.Policy.{Capability, Capability-discrete}
use agent_cloud.Contracts.PolicySchema.{IsPolicy}
use agent_cloud.Store.{Grant, State}
use agent_cloud.Auth.Authority.{Authority, max_depth, ancestry, load_authority}
use agent_cloud.Auth.Policy.{authorize, assert_policy_subset}
use agent_cloud.Auth.Grants.{GrantRequest, issue_grant, revoke_grant, is_descendant}
use agent_cloud.Auth.Chain.{Describes, load_authority_sound, load_authority_complete}
use agent_cloud.Auth.Revoke.{unauthenticated, load_authority_error, load_authority-revoke_grant}
use agent_cloud.Auth.Delegation.{
  IsWithin, assert_policy_subset-IsWithin, authorize-assert_policy_subset,
}
use agent_cloud.Auth.Issue.Ancestries.{has_id}
use agent_cloud.Auth.Issue.{IsDelegated, issue_grant-IsDelegated, load_authority-issue_grant}
use agent_cloud.Examples.Data.{policy, root, delegated, caller, root_caller, empty}

abbrev authority : Authority
authority = record { principal = caller; checked_at = 10; expires_at = 90; delegation_depth = 2 }

load_authority_sound_example : Describes 10 2 (ancestry max_depth empty.grants (some 2)) authority
unfolding load_authority
load_authority_sound_example = load_authority_sound empty 10 2 refl

policy-IsPolicy : IsPolicy policy
policy-IsPolicy = record {
  projects = tt;
  sizes = λ e. cc;
  regions = λ e. cc;
  max_machines = omega arith;
  max_hourly_micros = omega arith;
}

load_authority_complete_example : (a : Authority) × (load_authority empty 10 2 ≡ ok a)
unfolding load_authority
load_authority_complete_example =
    load_authority_complete empty 10 2 7
      (refl, refl, refl, omega arith, (refl, refl, refl, omega arith, tt)) (refl, (refl, tt))
      (policy-IsPolicy, (policy-IsPolicy, tt))

load_authority_error_example : unauthenticated ≡ unauthenticated
unfolding load_authority
load_authority_error_example = load_authority_error empty 95 2 unauthenticated refl

state_after : Result (⊤ × State) → State
state_after (ok (_, s)) = s
state_after (err _) = empty

abbrev revoked : State
revoked = state_after (revoke_grant empty 10 root_caller 1)

load_authority-revoke_grant_example : load_authority revoked 20 2 ≡ throw ErrorCode.unauthenticated
unfolding revoke_grant ancestry state_after is_descendant
load_authority-revoke_grant_example =
    load_authority-revoke_grant empty revoked 10 20 1 2 root_caller root refl refl refl
      (inr (inl refl))

assert_policy_subset-IsWithin_example : IsWithin policy policy
unfolding assert_policy_subset Capability-discrete
assert_policy_subset-IsWithin_example = assert_policy_subset-IsWithin policy policy refl

authorize-assert_policy_subset_example :
    authorize root_caller Capability.machine_create (some 3) ≡ ok tt
unfolding assert_policy_subset authorize Capability-discrete
authorize-assert_policy_subset_example =
    authorize-assert_policy_subset caller root_caller Capability.machine_create (some 3) refl refl

abbrev request : GrantRequest
request = record { policy = policy; expires_at = 80; new_id = 4; new_token_hash = 14 }

abbrev issued_state : Result (ℕ × State) → State
issued_state (ok (_, s)) = s
issued_state (err _) = empty

abbrev issued : State
issued = issued_state (issue_grant empty 10 caller request)

policy_IsWithin : IsWithin policy policy
policy_IsWithin = record {
  capabilities = λ c m. m;
  sizes = λ c m. m;
  regions = λ c m. m;
  projects = λ id e. e;
  currency = refl;
  machines = omega arith;
  micros = omega arith;
}

below_root :
    (p : ℕ) (parent : Grant)
    → delegated.parent_id ≡ some p
    → find (has_id p) empty.grants ≡ some parent
    → IsWithin policy parent.policy × (7 ≡ parent.account_id) × (90 ≤ parent.expires_at)
below_root p parent named found =
    let one : 1 ≡ p = cc named in
    let at_one : some root ≡ some parent =
      subst (λ i. find (has_id i) empty.grants ≡ some parent) (sym one) found in
    let row : root ≡ parent = cc at_one in
    subst (λ (x : Grant). IsWithin policy x.policy × (7 ≡ x.account_id) × (90 ≤ x.expires_at)) row
      (policy_IsWithin, refl, omega arith)

empty_IsDelegated : IsDelegated empty.grants
empty_IsDelegated g p parent (inl e) named found = cc (ap (λ (x : Grant). x.parent_id) e, named)
empty_IsDelegated g p parent (inr (inl e)) named found =
    subst
      (λ (x : Grant).
        IsWithin x.policy parent.policy
        × (x.account_id ≡ parent.account_id)
        × (x.expires_at ≤ parent.expires_at))
      e (below_root p parent (ap (λ (x : Grant). x.parent_id) e ∙ named) found)
empty_IsDelegated g p parent (inr (inr n)) named found = absurd n

unnamed : (g : Grant) → In g empty.grants → g.parent_id ≢ some 4
unnamed g (inl e) n = cc (ap (λ (x : Grant). x.parent_id) e, n)
unnamed g (inr (inl e)) n =
    let differ : some 1 ≡ some 4 = ap (λ (x : Grant). x.parent_id) e ∙ n in cc differ
unnamed g (inr (inr m)) n = absurd m

issue_grant-IsDelegated_example : IsDelegated issued.grants
unfolding issue_grant Capability-discrete load_authority authorize assert_policy_subset
issue_grant-IsDelegated_example =
    issue_grant-IsDelegated empty issued 10 4 caller request empty_IsDelegated
      (record { unheld = refl; unnamed = unnamed }) refl

load_authority-issue_grant_example :
    (a b : Authority) × (load_authority empty 10 2 ≡ ok a)
    × (load_authority issued 10 4 ≡ ok b)
    × (b.delegation_depth ≡ a.delegation_depth + 1)
unfolding issue_grant Capability-discrete load_authority authorize assert_policy_subset
load_authority-issue_grant_example =
    load_authority-issue_grant empty issued 10 4 caller request
      (record { unheld = refl; unnamed = unnamed }) refl
