-- ===== src/Auth/Issue.antt =====
-- What `issueGrant` adds to the tree of credentials.
pub mod Ancestries
use agent_cloud.Base.{
  ℕ, zero, suc, ◌+◌, List, [], ◌∷◌, ◌++◌, Option, none, some, Bool, ◌||◌, ◌≡◌, refl, ◌≤◌, ◌<◌, ◌≢◌,
  arith, nat_eq, ◌==◌, includes, In, find, find-In, In-append_cases, Option-cases, inl, inr, leb,
  ltb, find-append_none, find-append_some, subst, sym, ap, ◌∙◌, length, All,
}
use agent_cloud.Base.Result.{ok, forbid, forbid-ok, >>=-eq-ok}
use agent_cloud.Base.Tables.{insert}
use agent_cloud.Contracts.Errors.{ErrorCode}
use agent_cloud.Contracts.Policy.{Principal, Capability}
use agent_cloud.Contracts.PolicySchema.{IsPolicy, parse_policy, parse_policy-IsPolicy}
use agent_cloud.Store.{Grant, State}
use agent_cloud.Auth.Authority.{
  Authority, load_authority, max_depth, ancestry, judge_chain, observe_chain,
}
use agent_cloud.Auth.Chain.{
  IsLive, IsFresh, judge_chain-ok, observe_chain-ok, earliest-le, load_authority_sound,
  load_authority_complete,
}
use agent_cloud.Auth.Policy.{authorize, assert_policy_subset}
use agent_cloud.Auth.Delegation.{IsWithin, assert_policy_subset-IsWithin}
use agent_cloud.Auth.Grants.{GrantRequest, new_grant, issue_grant}
use agent_cloud.Auth.Issue.Ancestries.{
  has_id, ancestry-append, ancestry-shorter, ancestry-In, unheld-ne, IsFresh-more, All-mono,
}

-- Each delegated credential stays within its parent: in its policy, its account and its lifetime.
abbrev pub IsDelegated : List Grant → Type 0
IsDelegated grants =
    (g : Grant) (p : ℕ) (parent : Grant)
    → In g grants
    → g.parent_id ≡ some p
    → find (has_id p) grants ≡ some parent
    → IsWithin g.policy parent.policy
      × (g.account_id ≡ parent.account_id)
      × (g.expires_at ≤ parent.expires_at)

-- An id that no credential has, or names as its parent.
pub record IsUnused (id : ℕ) (grants : List Grant) : Type 0 where
  pub unheld : find (has_id id) grants ≡ none
  pub unnamed : (g : Grant) → In g grants → g.parent_id ≢ some id

-- What a successful `issueGrant` has checked, and the state that it leaves.
pub record Issued (s t : State) (now : ℕ) (caller : Principal) (request : GrantRequest)
    : Type 0 where
  pub authority : Authority
  pub loaded : load_authority s now caller.grant_id ≡ ok authority
  pub allowed : authorize authority.principal Capability.grant_manage none ≡ ok tt
  pub shallow : authority.delegation_depth < max_depth
  pub within : IsWithin request.policy authority.principal.policy
  pub lifetime : (request.expires_at ≤ authority.expires_at) × (now < request.expires_at)
  pub valid : IsPolicy request.policy
  pub grants : t.grants ≡ insert (new_grant authority.principal request) s.grants

pub issue_grant-Issued :
    (s t : State) (now id : ℕ) (caller : Principal) (request : GrantRequest)
    → issue_grant s now caller request ≡ ok (id, t)
    → Issued s t now caller request
unfolding issue_grant
issue_grant-Issued s t now id caller request h =
    let (a, loaded, h1) = >>=-eq-ok (load_authority s now caller.grant_id) _ h in
    let (_, allowed, h2) = >>=-eq-ok (authorize a.principal Capability.grant_manage none) _ h1 in
    let (_, shallow, h3) =
      >>=-eq-ok (forbid (leb max_depth a.delegation_depth) ErrorCode.permission_denied) _ h2 in
    let (_, subset, h4) = >>=-eq-ok (assert_policy_subset request.policy a.principal.policy) _ h3 in
    let (_, timely, h5) =
      >>=-eq-ok
        (forbid (ltb a.expires_at request.expires_at || leb request.expires_at a.checked_at)
          ErrorCode.invalid_input)
        _ h4 in
    let (_, _, _, checked, _, _, _, _) = load_authority_sound s now caller.grant_id loaded in
    let (_, parsed, h6) = >>=-eq-ok (parse_policy request.policy) _ h5 in
    let in_time = forbid-ok _ ErrorCode.invalid_input timely in
    let not_deep = forbid-ok _ ErrorCode.permission_denied shallow in
    record {
      authority = a;
      loaded = loaded;
      allowed = allowed;
      shallow = ground arith;
      within = assert_policy_subset-IsWithin request.policy a.principal.policy subset;
      lifetime = ground arith;
      valid = parse_policy-IsPolicy request.policy parsed;
      grants = ground arith;
    }

-- The row of an accepted credential.
accepted_row :
    (s : State) (now grant_id : ℕ) (a : Authority)
    → load_authority s now grant_id ≡ ok a
    → (g : Grant) × (find (has_id grant_id) s.grants ≡ some g)
      × (a.principal.account_id ≡ g.account_id)
      × (a.principal.policy ≡ g.policy)
      × (a.expires_at ≤ g.expires_at)
unfolding load_authority ancestry
accepted_row s now grant_id a h = elim (Option-cases (find (has_id grant_id) s.grants)) [
  | inl e ↦ absurd (no_chain (rw (e, load_authority, ancestry) at h))
  | inr (g, e) ↦
      let (_, _, same) =
        judge_chain-ok now grant_id g (ancestry 31 s.grants g.parent_id)
          (observe_chain-ok now grant_id (g ∷ ancestry 31 s.grants g.parent_id)
            (rw (e, load_authority, ancestry) at h)).1 in
      (
        g,
        e,
        ap (λ (x : Authority). x.principal.account_id) same,
        ap (λ (x : Authority). x.principal.policy) same,
        omega (
          arith,
          ap (λ (x : Authority). x.expires_at) same,
          earliest-le (g ∷ ancestry 31 s.grants g.parent_id) g.expires_at,
        ),
      )
]
  where
    no_chain : observe_chain now grant_id [] ≡ ok a → ⊥
    no_chain e = never (observe_chain-ok now grant_id [] e).1
      where
        never : judge_chain now grant_id [] ≡ ok a → ⊥
        never d = cc

-- A search of the new row alone.
find_only : (n row : Grant) (p : ℕ) → find (has_id p) (n ∷ []) ≡ some row → (n ≡ row) × (p ≡ n.id)
find_only n row p h = ground arith

-- The new row is within the caller's row.
new_row_delegated :
    (s t : State) (now : ℕ) (caller : Principal) (request : GrantRequest)
    (i : Issued s t now caller request) (p : ℕ) (parent : Grant)
    → some i.authority.principal.grant_id ≡ some p
    → find (has_id p) (insert (new_grant i.authority.principal request) s.grants) ≡ some parent
    → IsWithin request.policy parent.policy
      × (i.authority.principal.account_id ≡ parent.account_id)
      × (request.expires_at ≤ parent.expires_at)
new_row_delegated s t now caller request i p parent named found =
    let a = i.authority in
    let n = new_grant a.principal request in
    let (_, _, same, _, _, _, _, _) = load_authority_sound s now caller.grant_id i.loaded in
    let (row, e, account, policy, expiry) = accepted_row s now caller.grant_id a i.loaded in
    let at_p : caller.grant_id ≡ p = cc (same, named) in
    let e' = subst (λ x. find (has_id x) s.grants ≡ some row) at_p e in
    let row_parent : row ≡ parent = cc (find-append_some (has_id p) s.grants (n ∷ []) e', found) in
    subst
      (λ x.
        IsWithin request.policy x.policy
        × (a.principal.account_id ≡ x.account_id)
        × (request.expires_at ≤ x.expires_at))
      row_parent
      (subst (IsWithin request.policy) policy i.within, account, omega (arith, i.lifetime))

-- `issueGrant` keeps the tree well delegated: each credential within its parent in policy, account
-- and lifetime. The new id must be one that no credential has or names.
pub issue_grant-IsDelegated :
    (s t : State) (now id : ℕ) (caller : Principal) (request : GrantRequest)
    → IsDelegated s.grants
    → IsUnused request.new_id s.grants
    → issue_grant s now caller request ≡ ok (id, t)
    → IsDelegated t.grants
issue_grant-IsDelegated s t now id caller request d unused h =
    let i = issue_grant-Issued s t now id caller request h in
    let n = new_grant i.authority.principal request in
    subst IsDelegated (sym i.grants) λ g p parent m named found.
      elim (In-append_cases s.grants (n ∷ []) g m) [
        | inl old ↦ elim (Option-cases (find (has_id p) s.grants)) [
          | inl e ↦ absurd (
              unused.unnamed g old (
                named
                ∙ ap some
                    (find_only n parent p
                      (sym (find-append_none (has_id p) s.grants (n ∷ []) e) ∙ found)).1))
          | inr (row, e) ↦
              d g p parent old named
                (e ∙ sym (find-append_some (has_id p) s.grants (n ∷ []) e) ∙ found)
        ]
        | inr (inl new) ↦
            subst
              (λ x.
                IsWithin x.policy parent.policy
                × (x.account_id ≡ parent.account_id)
                × (x.expires_at ≤ parent.expires_at))
              new
              (new_row_delegated s t now caller request i p parent
                (ap (λ (x : Grant). x.parent_id) new ∙ named) found)
        | inr (inr nothing) ↦ absurd nothing
      ]

-- The ancestry of the new credential.
Issued-chain :
    (s t : State) (now : ℕ) (caller : Principal) (request : GrantRequest)
    (i : Issued s t now caller request)
    → IsUnused request.new_id s.grants
    → ancestry max_depth t.grants (some request.new_id)
      ≡ new_grant i.authority.principal request ∷ ancestry max_depth s.grants (some caller.grant_id)
unfolding ancestry
Issued-chain s t now caller request i unused =
    let n = new_grant i.authority.principal request in
    let (live, _, same, _, depth, _, _, _) = load_authority_sound s now caller.grant_id i.loaded in
    let shorter =
      ancestry-shorter 31 s.grants (some caller.grant_id) (omega (arith, depth, i.shallow)) in
    let live' =
      subst (IsLive i.authority.principal.account_id now (some caller.grant_id)) (sym shorter)
        live in
    let longer =
      ancestry-append 31 s.grants (n ∷ []) (some caller.grant_id) i.authority.principal.account_id
        now live' in
    let found : find (has_id request.new_id) (s.grants ++ n ∷ []) ≡ some n =
      find-append_none (has_id request.new_id) s.grants (n ∷ []) unused.unheld ∙ ground arith in
    rw i.grants (
      rw (found, ancestry)
        (ap (λ r. n ∷ r)
          (ap (λ x. ancestry 31 (s.grants ++ n ∷ []) (some x)) same ∙ longer ∙ shorter)))

-- A credential that `issueGrant` has issued is accepted at once: its id loads, one level below the
-- credential that issued it.
pub load_authority-issue_grant :
    (s t : State) (now id : ℕ) (caller : Principal) (request : GrantRequest)
    → IsUnused request.new_id s.grants
    → issue_grant s now caller request ≡ ok (id, t)
    → (a b : Authority) × (load_authority s now caller.grant_id ≡ ok a)
      × (load_authority t now request.new_id ≡ ok b)
      × (b.delegation_depth ≡ a.delegation_depth + 1)
load_authority-issue_grant s t now id caller request unused h =
    let i = issue_grant-Issued s t now id caller request h in
    let n = new_grant i.authority.principal request in
    let (live, fresh, same, _, depth, _, _, valid) =
      load_authority_sound s now caller.grant_id i.loaded in
    let chain = ancestry max_depth s.grants (some caller.grant_id) in
    let account = i.authority.principal.account_id in
    let chained = Issued-chain s t now caller request i unused in
    let (b, loads) =
      load_authority_complete t now request.new_id account
        (subst (IsLive account now (some request.new_id)) (sym chained) (
          refl,
          refl,
          refl,
          i.lifetime.1,
          subst (λ x. IsLive account now (some x) chain) (sym same) live,
        ))
        (subst (IsFresh []) (sym chained) (
          refl,
          IsFresh-more request.new_id [] (request.new_id ∷ []) chain (λ x. ground arith)
              (All-mono chain (λ g m. unheld-ne request.new_id s.grants g unused.unheld m)
                (ancestry-In max_depth s.grants (some caller.grant_id)))
              fresh,
        ))
        (subst (All (λ g. IsPolicy g.policy)) (sym chained) (i.valid, valid)) in
    let (_, _, _, _, deeper, _, _, _) = load_authority_sound t now request.new_id loads in
    (i.authority, b, i.loaded, loads, omega (arith, deeper, depth, ap length chained))
