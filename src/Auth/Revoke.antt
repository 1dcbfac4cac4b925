-- ===== src/Auth/Revoke.antt =====
-- A revoked credential takes every credential below it along.
use agent_cloud.Base.{
  ℕ, zero, suc, List, [], ◌∷◌, map, Option, none, some, Bool, false, ◌&&◌, ◌≡◌, refl, arith, nat_eq,
  ◌==◌, if◌then◌else◌, ltb, find, all, In, Bool-cases, Option-cases, inl, inr, ⊤, ap, subst, ◌∙◌,
}
use agent_cloud.Base.Tables.{find-update-none, find-update-some}
use agent_cloud.Base.Result.{Result, Error, ok, err, cloud, throw, require, >>=-eq-err, require-err}
use agent_cloud.Contracts.Errors.{ErrorCode}
use agent_cloud.Contracts.Policy.{Principal}
use agent_cloud.Store.{Grant, State}
use agent_cloud.Auth.Authority.{
  max_depth, ancestry, check_chain, judge_chain, stores_policy, observe_chain, load_authority,
  link_ok, Authority,
}
use agent_cloud.Auth.Chain.{IsLive, load_authority_sound}
use agent_cloud.Auth.Grants.{mark_revoked, revoke_grant, close_grant_access}

abbrev has_id : ℕ → Grant → Bool
has_id id g = g.id == id

abbrev is_target : (account grant_id : ℕ) → Grant → Bool
is_target account grant_id g = g.id == grant_id && g.account_id == account

abbrev revoke : ℕ → Grant → Grant
revoke now g = record g { revoked_at = some now }

-- One row under `mark_revoked`.
abbrev marked : (now account grant_id : ℕ) → Grant → Grant
marked now account grant_id g = if is_target account grant_id g then revoke now g else g

ancestry-mark_revoked :
    (now account grant_id depth : ℕ) (grants : List Grant) (id : Option ℕ)
    → ancestry depth (mark_revoked now account grant_id grants) id
      ≡ map (marked now account grant_id) (ancestry depth grants id)
unfolding ancestry
ancestry-mark_revoked now account grant_id zero grants id = refl
ancestry-mark_revoked now account grant_id (suc depth) grants none = refl
ancestry-mark_revoked now account grant_id (suc depth) grants (some id) =
    elim (Option-cases (find (has_id id) grants)) [
      | inl e ↦
          rw
            (
              find-update-none (has_id id) (is_target account grant_id) (revoke now) grants
                  (λ g. refl) e,
              e,
              ancestry,
            )
            refl
      | inr (g, e) ↦
          rw
            (
              find-update-some (has_id id) (is_target account grant_id) (revoke now) grants
                  (λ g. refl) e,
              e,
              ancestry,
            )
            (elim (Bool-cases (is_target account grant_id g)) [
              | inl t ↦ rw t (
                  ap (λ l. revoke now g ∷ l)
                    (ancestry-mark_revoked now account grant_id depth grants g.parent_id))
              | inr t ↦ rw t (
                  ap (λ l. g ∷ l)
                    (ancestry-mark_revoked now account grant_id depth grants g.parent_id))
            ])
    ]

-- A chain with a revoked row is not live.
not-IsLive-marked :
    (at account now grant_id : ℕ) (chain : List Grant) (expected : Option ℕ) (owner : ℕ)
    (row : Grant)
    → row.id ≡ grant_id
    → row.account_id ≡ account
    → In row chain
    → IsLive owner now expected (map (marked at account grant_id) chain)
    → ⊥
not-IsLive-marked at account now grant_id [] expected owner row i a m l = absurd m
not-IsLive-marked at account now grant_id (g ∷ rest) none owner row i a m l = absurd l
not-IsLive-marked at account now grant_id (g ∷ rest) (some id) owner row i a (inl e) l =
    ground arith
not-IsLive-marked at account now grant_id (g ∷ rest) (some id) owner row i a (inr m) l =
    not-IsLive-marked at account now grant_id rest (marked at account grant_id g).parent_id owner
      row i a m l.4

abbrev pub unauthenticated : Error
unauthenticated = cloud (record { code = ErrorCode.unauthenticated; retryable = false })

check_chain_error :
    (account now : ℕ) (chain : List Grant) (expected : Option ℕ) (seen : List ℕ) (bound : ℕ)
    (e : Error)
    → check_chain account now chain expected seen bound ≡ err e
    → e ≡ unauthenticated
unfolding check_chain
check_chain_error account now [] expected seen bound e h = cc
check_chain_error account now (g ∷ rest) expected seen bound e h =
    elim (>>=-eq-err (require (link_ok account now expected seen g) ErrorCode.unauthenticated) _
      h) [
        | inl broken ↦
            require-err (link_ok account now expected seen g) ErrorCode.unauthenticated broken
        | inr (_, _, later) ↦
            check_chain_error account now rest g.parent_id (g.id ∷ seen)
              (if ltb g.expires_at bound then g.expires_at else bound) e later
      ]

judge_chain_error :
    (now grant_id : ℕ) (chain : List Grant) (e : Error)
    → judge_chain now grant_id chain ≡ err e
    → e ≡ unauthenticated
unfolding judge_chain
judge_chain_error now grant_id [] e h = cc
judge_chain_error now grant_id (leaf ∷ rest) e h =
    let chain = leaf ∷ rest in
    elim (>>=-eq-err (check_chain leaf.account_id now chain (some grant_id) [] leaf.expires_at) _
      h) [
        | inl broken ↦
            check_chain_error leaf.account_id now chain (some grant_id) [] leaf.expires_at e broken
        | inr (end, _, later) ↦ ground arith
      ]

observe_chain_error :
    (now grant_id : ℕ) (chain : List Grant) (e : Error)
    → observe_chain now grant_id chain ≡ err e
    → e ≡ unauthenticated
unfolding observe_chain
observe_chain_error now grant_id chain e h =
    elim (>>=-eq-err (require (all stores_policy chain) ErrorCode.unauthenticated) _ h) [
      | inl broken ↦ require-err (all stores_policy chain) ErrorCode.unauthenticated broken
      | inr (_, _, later) ↦ judge_chain_error now grant_id chain e later
    ]

-- What `revokeGrant` does to the table of credentials.
revoke_grant-grants :
    (s t : State) (now : ℕ) (caller : Principal) (grant_id : ℕ) {u : ⊤}
    → revoke_grant s now caller grant_id ≡ ok (u, t)
    → t.grants ≡ mark_revoked now caller.account_id grant_id s.grants
unfolding revoke_grant close_grant_access
revoke_grant-grants s t now caller grant_id h = ground arith

-- Every refusal is the same error, whatever was wrong with the chain.
pub load_authority_error :
    (s : State) (now grant_id : ℕ) (e : Error)
    → load_authority s now grant_id ≡ err e
    → e ≡ unauthenticated
unfolding load_authority
load_authority_error s now grant_id e h =
    observe_chain_error now grant_id (ancestry max_depth s.grants (some grant_id)) e h

refused :
    (r : Result Authority)
    → ((a : Authority) → r ≡ ok a → ⊥)
    → ((e : Error) → r ≡ err e → e ≡ unauthenticated)
    → r ≡ throw ErrorCode.unauthenticated
refused (ok a) never same = absurd (never a refl)
refused (err e) never same = rw (same e refl) refl

-- After `revokeGrant` has revoked a credential of the caller's account, `loadAuthority` refuses that
-- credential and every one that has it among its at most 32 ancestors, at any later time.
pub load_authority-revoke_grant :
    (s t : State) (now later grant_id below : ℕ) (caller : Principal) (row : Grant) {u : ⊤}
    → revoke_grant s now caller grant_id ≡ ok (u, t)
    → row.id ≡ grant_id
    → row.account_id ≡ caller.account_id
    → In row (ancestry max_depth s.grants (some below))
    → load_authority t later below ≡ throw ErrorCode.unauthenticated
load_authority-revoke_grant s t now later grant_id below caller row done i a m =
    refused (load_authority t later below)
      (λ auth accepted.
        not-IsLive-marked now caller.account_id later grant_id
          (ancestry max_depth s.grants (some below)) (some below) auth.principal.account_id row i a
          m
          (subst (IsLive auth.principal.account_id later (some below))
            (ap (λ g. ancestry max_depth g (some below))
                (revoke_grant-grants s t now caller grant_id done)
              ∙ ancestry-mark_revoked now caller.account_id grant_id max_depth s.grants
                  (some below))
            (load_authority_sound t later below accepted).0))
      (load_authority_error t later below)
