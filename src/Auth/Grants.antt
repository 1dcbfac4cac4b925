-- ===== src/Auth/Grants.antt =====
-- `issueGrant` and `revokeGrant` of apps/control/src/auth.ts, and apps/control/src/access-closure.ts.
use agent_cloud.Base.{
  ℕ, zero, suc, List, [], ◌++◌, map, Option, none, some, Bool, true, false, ◌&&◌, ◌||◌, ◌==◌, ◌!=◌,
  nat_eq, leb, ltb, if◌then◌else◌, find, select, includes, is_none, ⊤,
}
use agent_cloud.Base.Tables.{insert, update}
use agent_cloud.Base.Result.{Result, ok, require, forbid, ◌>>=◌, ◌>>◌}
use agent_cloud.Contracts.Errors.{ErrorCode}
use agent_cloud.Contracts.Policy.{Principal, GrantPolicy, Capability}
use agent_cloud.Contracts.PolicySchema.{parse_policy}
use agent_cloud.Store.{Grant, State, AccessSession, CloseReason, AuditEvent}
use agent_cloud.Auth.Authority.{max_depth, load_authority}
use agent_cloud.Auth.Policy.{authorize, assert_policy_subset}

-- What `issueGrant` is asked for; the new id and the hash of the new random token come from outside.
pub record GrantRequest : Type 0 where
  pub policy : GrantPolicy
  pub expires_at : ℕ
  pub new_id : ℕ
  pub new_token_hash : ℕ

abbrev pub new_grant : Principal → GrantRequest → Grant
new_grant principal request = record {
  id = request.new_id;
  account_id = principal.account_id;
  parent_id = some principal.grant_id;
  token_hash = request.new_token_hash;
  policy = request.policy;
  expires_at = request.expires_at;
  revoked_at = none;
}

unfoldable pub issue_grant : State → (now : ℕ) → Principal → GrantRequest → Result (ℕ × State)
unfolding parse_policy
issue_grant s now caller request = do
  authority ← load_authority s now caller.grant_id
  authorize authority.principal Capability.grant_manage none
  forbid (leb max_depth authority.delegation_depth) ErrorCode.permission_denied
  assert_policy_subset request.policy authority.principal.policy
  forbid
      (ltb authority.expires_at request.expires_at || leb request.expires_at authority.checked_at)
      ErrorCode.invalid_input
  parse_policy request.policy
  ok (request.new_id, record s { grants = insert (new_grant authority.principal request) s.grants })

abbrev parent_of : Option Grant → Option ℕ
parent_of none = none
parent_of (some g) = g.parent_id

-- The loop of `revokeGrant`: is `target` met on the way up from `current`, in `depth` rounds?
unfoldable pub is_descendant : (depth : ℕ) → List Grant → (account target : ℕ) → Option ℕ → Bool
is_descendant zero grants account target current = false
is_descendant (suc depth) grants account target none = false
is_descendant (suc depth) grants account target (some id) =
    if id == target
    then true
    else is_descendant depth grants account target
        (parent_of (find (λ (g : Grant). g.id == id && g.account_id == account) grants))

abbrev close_session : CloseReason → AccessSession → AccessSession
close_session reason session = record session { closed = some reason }

-- `close`: the open sessions of the account that the selection names.
unfoldable pub close_sessions :
    (account : ℕ) → (AccessSession → Bool) → CloseReason → List AccessSession → List AccessSession
close_sessions account chosen reason =
    update (λ session. session.account_id == account && is_none session.closed && chosen session)
      (close_session reason)

abbrev child_of : (account : ℕ) → List ℕ → Grant → Bool
child_of account parents g =
    g.account_id == account
    && (elim g.parent_id [ none ↦ false | some parent ↦ includes parents parent ])

-- The ids that the recursive query of `closeGrantAccess` finds below a level of the tree.
unfoldable pub subtree : (depth : ℕ) → List Grant → (account : ℕ) → List ℕ → List ℕ
subtree zero grants account level = []
subtree (suc depth) grants account level =
    level
    ++ subtree depth grants account
        (map (λ (g : Grant). g.id) (select (child_of account level) grants))

abbrev root_level : (account grant_id : ℕ) → List Grant → List ℕ
root_level account grant_id grants =
    map (λ (g : Grant). g.id)
      (select (λ (g : Grant). g.id == grant_id && g.account_id == account) grants)

unfoldable pub close_grant_access : State → (account grant_id : ℕ) → State
unfolding close_sessions subtree
close_grant_access s account grant_id =
    let ids = subtree max_depth s.grants account (root_level account grant_id s.grants) in
    record s {
      sessions =
          close_sessions account (λ session. includes ids session.grant_id)
            CloseReason.authorization_changed s.sessions;
    }

unfoldable pub close_machine_access : State → (account machine_id : ℕ) → State
unfolding close_sessions
close_machine_access s account machine_id = record s {
  sessions =
      close_sessions account (λ session. session.machine_id == machine_id)
        CloseReason.target_changed s.sessions;
}

abbrev pub mark_revoked : (now account grant_id : ℕ) → List Grant → List Grant
mark_revoked now account grant_id =
    update (λ (g : Grant). g.id == grant_id && g.account_id == account)
      (λ (g : Grant). record g { revoked_at = some now })

abbrev may_revoke : Principal → ℕ → Result ⊤
may_revoke caller grant_id =
    if grant_id != caller.grant_id then authorize caller Capability.grant_manage none else ok tt

unfoldable pub revoke_grant : State → (now : ℕ) → Principal → (grant_id : ℕ) → Result (⊤ × State)
unfolding close_grant_access
revoke_grant s now caller grant_id = do
  may_revoke caller grant_id
  require (is_descendant max_depth s.grants caller.account_id caller.grant_id (some grant_id))
      ErrorCode.not_found
  let marked = record s {
    grants = mark_revoked now caller.account_id grant_id s.grants;
    audit =
        insert
          (record {
            account_id = caller.account_id;
            subject_id = grant_id;
            event = AuditEvent.grant_revoked;
          })
          s.audit;
  }
  ok (tt, close_grant_access marked caller.account_id grant_id)
