-- ===== src/Auth/Authority.antt =====
-- `loadAuthority`, `loadPrincipal` and `authenticate` of apps/control/src/auth.ts: the ancestry of a
-- credential, read in one statement, and the checks on it.
use agent_cloud.Base.{
  ℕ, zero, suc, List, [], ◌∷◌, Option, none, some, Bool, false, ◌&&◌, ◌||◌, not, ◌==◌, nat_eq, leb,
  ltb, if◌then◌else◌, find, includes, length, is_some, all,
}
use agent_cloud.Base.Result.{Result, ok, throw, require, forbid, row_or, ◌>>=◌, ◌>>◌}
use agent_cloud.Contracts.Errors.{ErrorCode}
use agent_cloud.Contracts.Policy.{Principal}
use agent_cloud.Contracts.PolicySchema.{policy_valid}
use agent_cloud.Store.{Grant, State}

pub record Authority : Type 0 where
  pub principal : Principal
  pub checked_at : ℕ
  pub expires_at : ℕ
  pub delegation_depth : ℕ

abbrev pub max_depth : ℕ
max_depth = 32

-- The recursive query: the grant, its parent, and so on, at most `depth` rows. The id is the key of
-- `grants`, so each step finds one row at most.
unfoldable pub ancestry : (depth : ℕ) → List Grant → Option ℕ → List Grant
ancestry zero grants id = []
ancestry (suc depth) grants none = []
ancestry (suc depth) grants (some id) = elim (find (λ (g : Grant). g.id == id) grants) [
  | none ↦ []
  | some g ↦ g ∷ ancestry depth grants g.parent_id
]

abbrev is_expected : Option ℕ → ℕ → Bool
is_expected none id = false
is_expected (some e) id = e == id

-- The test in the loop over the chain, negated.
abbrev pub link_ok :
    (account checked_at : ℕ) → (expected : Option ℕ) → (seen : List ℕ) → Grant → Bool
link_ok account checked_at expected seen g =
    not (includes seen g.id)
    && is_expected expected g.id
    && g.account_id == account
    && not (is_some g.revoked_at)
    && ltb checked_at g.expires_at

-- The loop: each row must be the parent of the one before, unexpired, not revoked and of the same
-- account. It returns the next expected id and the earliest expiry.
unfoldable pub check_chain :
    (account checked_at : ℕ)
    → List Grant
    → (expected : Option ℕ) → (seen : List ℕ) → (expires_at : ℕ) → Result (Option ℕ × ℕ)
check_chain account now [] expected seen expires_at = ok (expected, expires_at)
check_chain account now (g ∷ rest) expected seen expires_at =
    require (link_ok account now expected seen g) ErrorCode.unauthenticated
    >> check_chain account now rest g.parent_id (g.id ∷ seen)
        (if ltb g.expires_at expires_at then g.expires_at else expires_at)

-- The answer for a chain that begins with `leaf`.
abbrev pub leaf_authority :
    (now : ℕ) (leaf : Grant) (rest : List Grant) (expires_at : ℕ) → Authority
leaf_authority now leaf rest expires_at = record {
  principal = record { account_id = leaf.account_id; grant_id = leaf.id; policy = leaf.policy };
  checked_at = now;
  expires_at = expires_at;
  delegation_depth = length (leaf ∷ rest);
}

-- The part of `loadAuthority` after the query and the check of its rows.
unfoldable pub judge_chain : (now grant_id : ℕ) → List Grant → Result Authority
unfolding check_chain
judge_chain now grant_id [] = throw ErrorCode.unauthenticated
judge_chain now grant_id (leaf ∷ rest) = do
  end ← check_chain leaf.account_id now (leaf ∷ rest) (some grant_id) [] leaf.expires_at
  forbid (is_some end.0) ErrorCode.unauthenticated
  ok (leaf_authority now leaf rest end.1)

-- The check of `authorityObservationSchema` on a row of the chain.
abbrev pub stores_policy : Grant → Bool
stores_policy g = policy_valid g.policy

-- The rest of `loadAuthority`, for the chain that the query has found.
unfoldable pub observe_chain : (now grant_id : ℕ) → List Grant → Result Authority
unfolding judge_chain policy_valid
observe_chain now grant_id chain =
    require (all stores_policy chain) ErrorCode.unauthenticated >> judge_chain now grant_id chain

unfoldable pub load_authority : State → (now grant_id : ℕ) → Result Authority
unfolding observe_chain ancestry
load_authority s now grant_id =
    observe_chain now grant_id (ancestry max_depth s.grants (some grant_id))

unfoldable pub load_principal : State → (now grant_id : ℕ) → Result Principal
unfolding load_authority
load_principal s now grant_id = do authority ← load_authority s now grant_id; ok authority.principal

-- A header that begins with `Bearer acld_` and 43 characters of the token alphabet.
abbrev token_char : ℕ → Bool
token_char c =
    (leb b'A' c && leb c b'Z')
    || (leb b'a' c && leb c b'z')
    || (leb b'0' c && leb c b'9')
    || c == b'_'
    || c == b'-'

abbrev token_body : List ℕ → Bool
token_body chars = length chars == 43 && all token_char chars

-- The header after `Bearer `, if it is well formed: the regular expression and `slice(7)`.
unfoldable pub bearer_token : List ℕ → Option (List ℕ)
bearer_token (b ∷ e ∷ a ∷ r ∷ e' ∷ r' ∷ sp ∷ c1 ∷ c2 ∷ c3 ∷ c4 ∷ c5 ∷ body) =
    if (b == b'B'
        && e == b'e'
        && a == b'a'
        && r == b'r'
        && e' == b'e'
        && r' == b'r'
        && sp == 32
        && c1 == b'a'
        && c2 == b'c'
        && c3 == b'l'
        && c4 == b'd'
        && c5 == b'_')
      && token_body body
    then some (c1 ∷ c2 ∷ c3 ∷ c4 ∷ c5 ∷ body)
    else none
bearer_token _ = none

abbrev authorization_token : Option (List ℕ) → Option (List ℕ)
authorization_token none = none
authorization_token (some header) = bearer_token header

-- `hash_token` is SHA-256.
unfoldable pub authenticate :
    (hash_token : List ℕ → ℕ)
    → State
    → (now : ℕ) → (authorization : Option (List ℕ)) → Result Principal
unfolding bearer_token load_principal
authenticate hash_token s now authorization = do
  token ← row_or (authorization_token authorization) ErrorCode.unauthenticated
  row ←
      row_or (find (λ (g : Grant). g.token_hash == hash_token token) s.grants)
        ErrorCode.unauthenticated
  load_principal s now row.id
