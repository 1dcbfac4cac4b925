-- ===== src/Auth/Chain.antt =====
-- What `loadAuthority` accepts, against a description of live ancestries that does not follow its loop.
use agent_cloud.Base.{
  ℕ, zero, suc, List, [], ◌∷◌, Option, none, some, true, false, all, and_split, ◌≡◌, refl, ◌≤◌, ◌<◌,
  arith, nat_eq, includes, length, ltb, if◌then◌else◌, All, Option-cases, inl, inr, sym, subst,
  find, ◌==◌,
}
use agent_cloud.Base.Result.{ok, require, require-ok, >>=-eq-ok}
use agent_cloud.Contracts.Errors.{ErrorCode}
use agent_cloud.Contracts.PolicySchema.{IsPolicy, policy_valid-IsPolicy, IsPolicy-policy_valid}
use agent_cloud.Store.{Grant, State}
use agent_cloud.Auth.Authority.{
  Authority, max_depth, ancestry, check_chain, judge_chain, stores_policy, observe_chain,
  load_authority, leaf_authority,
}

-- Row by row: each is the one that the row below names as its parent, belongs to the account, is not
-- revoked and expires later than `now`; the last row has no parent.
abbrev pub IsLive : (account now : ℕ) → Option ℕ → List Grant → Type 0
IsLive account now none [] = Unit
IsLive account now (some id) [] = ⊥
IsLive account now none (g ∷ rest) = ⊥
IsLive account now (some id) (g ∷ rest) =
    (g.id ≡ id)
    × (g.account_id ≡ account)
    × (g.revoked_at ≡ none)
    × (now < g.expires_at)
    × IsLive account now g.parent_id rest

-- No row comes twice, nor one of `seen`.
abbrev pub IsFresh : (seen : List ℕ) → List Grant → Type 0
IsFresh seen [] = Unit
IsFresh seen (g ∷ rest) = (includes seen g.id ≡ false) × IsFresh (g.id ∷ seen) rest

-- The earliest expiry among the rows and `bound`.
abbrev pub earliest : List Grant → ℕ → ℕ
earliest [] bound = bound
earliest (g ∷ rest) bound = earliest rest (if ltb g.expires_at bound then g.expires_at else bound)

pub earliest-le : (chain : List Grant) (bound : ℕ) → earliest chain bound ≤ bound
earliest-le [] bound = omega arith
earliest-le (g ∷ rest) bound =
    ground (arith, earliest-le rest (if ltb g.expires_at bound then g.expires_at else bound))

pub earliest-All :
    (chain : List Grant) (bound : ℕ) → All (λ g. earliest chain bound ≤ g.expires_at) chain
earliest-All chain bound = go chain bound (earliest chain bound) (omega arith)
  where
    go : (rest : List Grant) (b e : ℕ) → e ≤ earliest rest b → All (λ g. e ≤ g.expires_at) rest
    go [] b e h = tt
    go (g ∷ rest) b e h = (
      ground (arith, earliest-le rest (if ltb g.expires_at b then g.expires_at else b)),
      go rest (if ltb g.expires_at b then g.expires_at else b) e h,
    )

-- The loop succeeds on live chains that repeat nothing, and then returns "no further parent" and the
-- earliest expiry.
check_chain_sound :
    (account now : ℕ) (chain : List Grant) (expected : Option ℕ) (seen : List ℕ) (bound : ℕ)
    (result : Option ℕ × ℕ)
    → check_chain account now chain expected seen bound ≡ ok result
    → result.0 ≡ none
    → IsLive account now expected chain × IsFresh seen chain × (result.1 ≡ earliest chain bound)
unfolding check_chain
check_chain_sound account now [] none seen bound result h e = ground arith
check_chain_sound account now [] (some id) seen bound result h e = ground arith
check_chain_sound account now (g ∷ rest) none seen bound result h e = ground arith
check_chain_sound account now (g ∷ rest) (some id) seen bound result h e = ground (
  arith,
  check_chain_sound account now rest g.parent_id (g.id ∷ seen)
      (if ltb g.expires_at bound then g.expires_at else bound) result,
)

check_chain_complete :
    (account now : ℕ) (chain : List Grant) (expected : Option ℕ) (seen : List ℕ) (bound : ℕ)
    → IsLive account now expected chain
    → IsFresh seen chain
    → check_chain account now chain expected seen bound ≡ ok (none, earliest chain bound)
unfolding check_chain
check_chain_complete account now [] none seen bound l f = refl
check_chain_complete account now [] (some id) seen bound l f = absurd l
check_chain_complete account now (g ∷ rest) none seen bound l f = absurd l
check_chain_complete account now (g ∷ rest) (some id) seen bound l f = ground (
  arith,
  check_chain_complete account now rest g.parent_id (g.id ∷ seen)
      (if ltb g.expires_at bound then g.expires_at else bound) l.4 f.1,
)

length-ancestry :
    (depth : ℕ) (grants : List Grant) (id : Option ℕ) → length (ancestry depth grants id) ≤ depth
unfolding ancestry
length-ancestry zero grants id = omega arith
length-ancestry (suc depth) grants none = omega arith
length-ancestry (suc depth) grants (some id) =
    elim (Option-cases (find (λ (g : Grant). g.id == id) grants)) [
      | inl e ↦ rw (e, length) (omega arith)
      | inr (g, e) ↦ rw (e, length) (omega (arith, length-ancestry depth grants g.parent_id))
    ]

pub judge_chain-ok :
    (now grant_id : ℕ) (leaf : Grant) (rest : List Grant) {a : Authority}
    → judge_chain now grant_id (leaf ∷ rest) ≡ ok a
    → IsLive leaf.account_id now (some grant_id) (leaf ∷ rest)
      × IsFresh [] (leaf ∷ rest)
      × (a ≡ leaf_authority now leaf rest (earliest (leaf ∷ rest) leaf.expires_at))
unfolding judge_chain
judge_chain-ok now grant_id leaf rest {a} h =
    let chain = leaf ∷ rest in
    let (end, looped, h') =
      >>=-eq-ok (check_chain leaf.account_id now chain (some grant_id) [] leaf.expires_at) _ h in
    let (live, fresh, bound) =
      check_chain_sound leaf.account_id now chain (some grant_id) [] leaf.expires_at end looped
        (ground arith) in
    (live, fresh, ground arith)

-- What an accepted credential with this ancestry is told.
abbrev pub Describes : (now grant_id : ℕ) → List Grant → Authority → Type 0
Describes now grant_id chain a =
    IsLive a.principal.account_id now (some grant_id) chain
    × IsFresh [] chain
    × (a.principal.grant_id ≡ grant_id)
    × (a.checked_at ≡ now)
    × (a.delegation_depth ≡ length chain)
    × (a.delegation_depth ≤ max_depth)
    × All (λ g. a.expires_at ≤ g.expires_at) chain
    × All (λ g. IsPolicy g.policy) chain

all-IsPolicy :
    (chain : List Grant) → all stores_policy chain ≡ true → All (λ g. IsPolicy g.policy) chain
all-IsPolicy [] h = tt
all-IsPolicy (g ∷ rest) h =
    let (here, there) = and_split (stores_policy g) (all stores_policy rest) h in
    (policy_valid-IsPolicy g.policy here, all-IsPolicy rest there)

IsPolicy-all :
    (chain : List Grant) → All (λ g. IsPolicy g.policy) chain → all stores_policy chain ≡ true
IsPolicy-all [] h = refl
IsPolicy-all (g ∷ rest) h = rw (IsPolicy-policy_valid g.policy h.0) (IsPolicy-all rest h.1)

judge_chain-Describes :
    (now grant_id : ℕ) (chain : List Grant) {a : Authority}
    → length chain ≤ max_depth
    → All (λ g. IsPolicy g.policy) chain
    → judge_chain now grant_id chain ≡ ok a
    → Describes now grant_id chain a
unfolding judge_chain
judge_chain-Describes now grant_id [] short valid h = cc
judge_chain-Describes now grant_id (leaf ∷ rest) short valid h =
    let (live, fresh, e) = judge_chain-ok now grant_id leaf rest h in
    subst (Describes now grant_id (leaf ∷ rest)) (sym e)
      (live, fresh, live.0, refl, refl, short, earliest-All (leaf ∷ rest) leaf.expires_at, valid)

-- What has been accepted has passed the check of its rows.
pub observe_chain-ok :
    (now grant_id : ℕ) (chain : List Grant) {a : Authority}
    → observe_chain now grant_id chain ≡ ok a
    → (all stores_policy chain ≡ true) × (judge_chain now grant_id chain ≡ ok a)
unfolding observe_chain
observe_chain-ok now grant_id chain h =
    let (_, valid, h') =
      >>=-eq-ok (require (all stores_policy chain) ErrorCode.unauthenticated) _ h in
    (require-ok (all stores_policy chain) ErrorCode.unauthenticated valid, h')

-- When `loadAuthority` accepts a credential, its ancestry is live and repeats nothing, the principal
-- is the credential's own account and id, the depth is the number of credentials in the ancestry, at
-- most 32, the reported expiry is no later than that of any of them, and each of them has a policy that
-- selects a project, a size and a region and keeps its limits in range.
pub load_authority_sound :
    (s : State) (now grant_id : ℕ) {a : Authority}
    → load_authority s now grant_id ≡ ok a
    → Describes now grant_id (ancestry max_depth s.grants (some grant_id)) a
unfolding load_authority
load_authority_sound s now grant_id h =
    let chain = ancestry max_depth s.grants (some grant_id) in
    let (valid, judged) = observe_chain-ok now grant_id chain h in
    judge_chain-Describes now grant_id chain (length-ancestry max_depth s.grants (some grant_id))
      (all-IsPolicy chain valid) judged

-- `loadAuthority` accepts every credential whose ancestry is live, within one account, repeats nothing and
-- has such policies: with `load_authority_sound`, it accepts exactly these.
pub load_authority_complete :
    (s : State) (now grant_id account : ℕ)
    → IsLive account now (some grant_id) (ancestry max_depth s.grants (some grant_id))
    → IsFresh [] (ancestry max_depth s.grants (some grant_id))
    → All (λ g. IsPolicy g.policy) (ancestry max_depth s.grants (some grant_id))
    → (a : Authority) × (load_authority s now grant_id ≡ ok a)
unfolding load_authority observe_chain
load_authority_complete s now grant_id account live fresh valid =
    let (a, e) = judged (ancestry max_depth s.grants (some grant_id)) live fresh in
    (a, rw (IsPolicy-all (ancestry max_depth s.grants (some grant_id)) valid) e)
  where
    judged :
        (chain : List Grant)
        → IsLive account now (some grant_id) chain
        → IsFresh [] chain
        → (a : Authority) × (judge_chain now grant_id chain ≡ ok a)
    judged [] live fresh = absurd live
    judged (leaf ∷ rest) live fresh = (
      leaf_authority now leaf rest (earliest (leaf ∷ rest) leaf.expires_at),
      ground (
        arith,
        check_chain_complete leaf.account_id now (leaf ∷ rest) (some grant_id) [] leaf.expires_at,
      ),
    )
