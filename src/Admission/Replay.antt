-- ===== src/Admission/Replay.antt =====
-- What a request that is sent again with its key is answered.
pub mod Unchanged
use agent_cloud.Base.{
  ℕ, [], ◌∷◌, Option, none, some, true, ◌||◌, ◌≡◌, refl, sym, ap, subst, ◌∙◌, ◌==◌, ◌!=◌, nat_eq,
  find, any, ltb, is_none, find-append_none, nat_eqb_iff, Option-cases, inl, inr,
}
use agent_cloud.Base.Result.{
  Result, ok, err, forbid, require, require-ok, row_or, row_or-ok, ok-bind,
}
use agent_cloud.Contracts.Errors.{ErrorCode}
use agent_cloud.Contracts.Policy.{Principal, Size}
use agent_cloud.Contracts.Catalog.{CatalogItem, architecture_eq}
use agent_cloud.Contracts.Lifecycle.{
  LifecycleCommand, MachineAction, MachineSpec, Machine, Operation, expected_version, is_destroyed,
}
use agent_cloud.Store.{Account, Allocation, Idempotency, State, scope_eq, scope_eqb_iff}
use agent_cloud.Auth.Authority.{load_principal}
use agent_cloud.Admission.Command.{authorize_command}
use agent_cloud.Admission.Reservation.{assert_reservation}
use agent_cloud.Admission.Request.{
  Admission, Setting, admission_command, admission_scope, matches_request, is_operation,
  parse_offer,
}
use agent_cloud.Admission.Cleanup.{owned_machine}
use agent_cloud.Admission.Admit.{
  Prepared, prepare, prepare_create, prepare_action, prepare_offer, prepare_resize, quote,
  is_project, has_name, one_more, larger, is_powered_off, is_busy, holds, new_operation,
  record_admission, replay, admit_fresh, answer, is_account, admit_locked,
}
use agent_cloud.Admission.Replay.Unchanged.{IsSame, IsPrepared, prepare-IsPrepared}

-- What `loadPrincipal` reads.
load_principal-grants :
    (s t : State) (now id : ℕ)
    → t.grants ≡ s.grants
    → load_principal t now id ≡ load_principal s now id
unfolding load_principal
load_principal-grants s t now id same =
    ap (λ g. load_principal (record s { grants = g }) now id) same

module _ (env : Setting) (caller : Principal) (key : ℕ) (request : Admission) where
  -- A key that is known is answered by its row.
  answered :
      (t : State) (account : Account) (principal : Principal) (previous : Idempotency)
      {r : Operation × State}
      → find (is_account caller.account_id) t.accounts ≡ some account
      → load_principal t env.now caller.grant_id ≡ ok principal
      → find (matches_request principal.account_id (admission_scope request) key) t.idempotency
        ≡ some previous
      → replay env t principal (admission_command request) previous ≡ ok r
      → admit_locked env t caller key request ≡ ok r
  unfolding admit_locked answer
  answered t account principal previous found loads known replayed =
      rw (found, loads, known) replayed

  -- A row answers with its operation.
  replayed :
      (t : State) (principal : Principal) (previous : Idempotency) (op : Operation)
      → previous.request_hash ≡ env.request_hash (admission_command request)
      → find (is_operation previous.operation_id principal.account_id) t.operations ≡ some op
      → authorize_command principal op.project_id (admission_command request) ≡ ok tt
      → replay env t principal (admission_command request) previous ≡ ok (op, t)
  unfolding replay
  replayed t principal previous op same found allowed =
      let hashed =
        (nat_eqb_iff previous.request_hash (env.request_hash (admission_command request))).1 same in
      rw (hashed, found, allowed) refl

  matches_itself :
      (account hash operation_id : ℕ)
      → matches_request account (admission_scope request) key (record {
        account_id = account;
        scope = admission_scope request;
        key = key;
        request_hash = hash;
        operation_id = operation_id;
      })
        ≡ true
  matches_itself account hash operation_id =
      rw
        (
          (nat_eqb_iff account account).1 refl,
          (scope_eqb_iff (admission_scope request) (admission_scope request)).1 refl,
          (nat_eqb_iff key key).1 refl,
        )
        refl

abbrev result_or : Operation × State → Result (Operation × State) → Operation × State
result_or p (ok q) = q
result_or p (err _) = p

module _ (env later : Setting) (caller : Principal) (key : ℕ) (request : Admission)
    (same_hash : later.request_hash ≡ env.request_hash) where
  -- After a replay.
  replay-again :
      (s : State) (account : Account) (principal : Principal) (previous : Idempotency)
      (r : Operation × State)
      → find (is_account caller.account_id) s.accounts ≡ some account
      → load_principal s later.now caller.grant_id ≡ ok principal
      → find (matches_request principal.account_id (admission_scope request) key) s.idempotency
        ≡ some previous
      → replay env s principal (admission_command request) previous ≡ ok r
      → admit_locked later r.1 caller key request ≡ ok r
  unfolding replay
  replay-again s account principal previous r found loads known done =
      let command = admission_command request in
      ok-bind
        (require (previous.request_hash == env.request_hash command) ErrorCode.idempotency_conflict)
        _ done
        λ _ hashed h1.
          ok-bind
            (row_or (find (is_operation previous.operation_id principal.account_id) s.operations)
              ErrorCode.internal_error)
            _ h1
            λ op held h2.
              ok-bind (authorize_command principal op.project_id command) _ h2 λ _ allowed h3.
                let hash =
                  (nat_eqb_iff previous.request_hash (env.request_hash command)).0
                    (require-ok _ ErrorCode.idempotency_conflict hashed)
                  ∙ ap (λ f. f command) (sym same_hash) in
                subst (λ (x : Operation × State). admit_locked later x.1 caller key request ≡ ok x)
                  (ap (result_or r) h3)
                  (answered later caller key request s account principal previous found loads known
                    (replayed later caller key request s principal previous op hash
                      (row_or-ok _ ErrorCode.internal_error held) allowed))

  -- After a new admission.
  fresh-again :
      (s : State) (account : Account) (principal : Principal) (r : Operation × State)
      → find (is_account caller.account_id) s.accounts ≡ some account
      → load_principal s later.now caller.grant_id ≡ ok principal
      → find (matches_request principal.account_id (admission_scope request) key) s.idempotency
        ≡ none
      → find (is_operation env.new_operation_id principal.account_id) s.operations ≡ none
      → admit_fresh env s principal account key request ≡ ok r
      → admit_locked later r.1 caller key request ≡ ok r
  unfolding admit_fresh
  fresh-again s account principal r found loads unknown unused done =
      let command = admission_command request in
      ok-bind (prepare env s principal account request) _ done λ p prepared h1.
        let (same, allowed) = prepare-IsPrepared env principal account s request p prepared in
        let op = new_operation env principal command p in
        let t = record_admission env principal key request p in
        let row : Idempotency = record {
          account_id = principal.account_id;
          scope = admission_scope request;
          key = key;
          request_hash = env.request_hash command;
          operation_id = env.new_operation_id;
        } in
        let known : find (matches_request principal.account_id (admission_scope request) key)
              t.idempotency
            ≡ some row =
          rw same.idempotency (
            find-append_none _ s.idempotency (row ∷ []) unknown
            ∙ rw
                (matches_itself env caller key request principal.account_id row.request_hash
                  row.operation_id)
                refl) in
        let held : find (is_operation env.new_operation_id principal.account_id) t.operations
            ≡ some op =
          rw same.operations (
            find-append_none _ s.operations (op ∷ []) unused
            ∙ rw
                (
                  (nat_eqb_iff env.new_operation_id env.new_operation_id).1 refl,
                  (nat_eqb_iff principal.account_id principal.account_id).1 refl,
                )
                refl) in
        subst (λ (x : Operation × State). admit_locked later x.1 caller key request ≡ ok x)
          (ap (result_or r) h1)
          (answered later caller key request t account principal row
            (ap (find (is_account caller.account_id)) same.accounts ∙ found)
            (load_principal-grants s t later.now caller.grant_id same.grants ∙ loads) known
            (replayed later caller key request t principal row op
              (ap (λ f. f command) (sym same_hash)) held allowed))

  -- A request other than a destroy request that has been admitted, sent again with its key while the
  -- credential loads as it did, is answered with the same operation and changes nothing, whatever the
  -- catalog, the limits and the clock are by then. (The id that was drawn for the operation must have
  -- been unused, and both requests are fingerprinted alike.)
  pub admit_locked-again :
      (s t : State) (op : Operation)
      → ((account_id : ℕ) → find (is_operation env.new_operation_id account_id) s.operations ≡ none)
      → load_principal s later.now caller.grant_id ≡ load_principal s env.now caller.grant_id
      → admit_locked env s caller key request ≡ ok (op, t)
      → admit_locked later t caller key request ≡ ok (op, t)
  unfolding admit_locked answer
  admit_locked-again s t op unused still h =
      ok-bind (row_or (find (is_account caller.account_id) s.accounts) ErrorCode.unauthenticated) _
        h
        λ account found h1.
          ok-bind (load_principal s env.now caller.grant_id) _ h1 λ principal loaded h2.
            let found' = row_or-ok _ ErrorCode.unauthenticated found in
            elim (Option-cases (
              find (matches_request principal.account_id (admission_scope request) key)
                s.idempotency)) [
                  | inl unknown ↦
                      fresh-again s account principal (op, t) found' (still ∙ loaded) unknown
                        (unused principal.account_id) (rw unknown at h2)
                  | inr (previous, known) ↦
                      replay-again s account principal previous (op, t) found' (still ∙ loaded)
                        known (rw known at h2)
                ]
