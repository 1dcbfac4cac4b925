-- ===== src/Worker/Frames/Cleaning.antt =====
-- The tick of an admitted cleanup, write by write.
use agent_cloud.Base.{
  ℕ, List, [], ◌∷◌, Bool, true, false, Option, none, some, ◌≡◌, refl, ap, nat_eqb_iff, ◌&&◌, ◌+◌,
  ◌⊎◌, nat_eq, leb, ltb, find, select, last, length, is_none, is_some, Bool-cases, inl, inr, ⊤,
}
use agent_cloud.Base.Result.{Error, cloud, fault, row_or, forbid}
use agent_cloud.Contracts.Errors.{ErrorCode}
use agent_cloud.Contracts.Provider.{ProviderServer, ProviderPrimaryIp, Assignment, ResourceKind}
use agent_cloud.Contracts.Lifecycle.{OperationIntent, OperationProgress}
use agent_cloud.Store.{Attempt, OwnedResource, State}
use agent_cloud.Store.Action.{Action, pure, lift, query, call, modify}
use agent_cloud.Store.Action.Keeps.{
  IsFrame, Respects, Respects-pure, Respects-lift, Respects-query, Respects-call, Respects-if,
  Respects-bind, Respects-modify,
}
use agent_cloud.Store.Action.Ends.{
  IsStart, Respects-starts, catch-settled, >>=-starts, require-starts,
}
use agent_cloud.Journal.Resources.{owned_ref, record_absence}
use agent_cloud.Journal.Submit.{set_progress, journal_effect}
use agent_cloud.Journal.Writes.{Writes, resolve_effect-Respects}
use agent_cloud.Worker.Work.{is_pending_attempt, changes, mismatch}
use agent_cloud.Worker.Cleanup.{
  CleanupWork, is_authority, Inventory, is_passing, needs_target, expected, settlement_of,
  resolve_one, resolve_all, read_history, read_resources, next_resource, is_absent_server,
  is_other_ip, is_other_server, halt, await_release, may_delete_ip, is_attached, judge_attached,
  check_attached, may_delete_server, may_delete, running_action, await_action, delay_ms,
  deletion_effect, pace, repeat_deletion, delete_after, deletions_of, delete_if, write_retirement,
  is_unfinished, delete_or_retire, inventory, take_stock, advance_authorized, advance,
  cleanup_failed, advance_cleanup, cleanup_delete_limit, cleans_up,
}

pub cleans_up-eq :
    (source : ℕ) (intent : OperationIntent)
    → cleans_up source intent ≡ true
    → intent ≡ OperationIntent.cleanup source
cleans_up-eq source (OperationIntent.cleanup id) e =
    ap OperationIntent.cleanup ((nat_eqb_iff id source).0 e)
cleans_up-eq source OperationIntent.run e = cc
cleans_up-eq source (OperationIntent.compensate failure) e = cc

-- The object has not been asked to be deleted yet, or less often than the limit allows.
abbrev pub IsAllowed : CleanupWork → Inventory → OwnedResource → State → Type 0
IsAllowed w i row s =
    (last (deletions_of i row) ≡ none)
    ⊎ (leb (cleanup_delete_limit w.operation.id (owned_ref row) s) (length (deletions_of i row))
        ≡ false)

-- The writes of a cleanup's tick. It deletes what comes next in the inventory, within the limit, and it
-- ends the allocation when nothing is left.
pub record CleanupFrame (R Q : State → State → Type 0) (w : CleanupWork) : Type 0 where
  pub start : IsStart R Q
  pub writes : Writes R w.operation w.allocation
  pub noted : (p : OperationProgress) (s t : State) → Q s t → Q s (set_progress w.operation p t).1
  pub journal :
      (source : ℕ) (row : OwnedResource) (t s : State)
      → cleans_up source w.operation.intent ≡ true
      → R t s
      → next_resource (inventory w source t) ≡ some row
      → IsAllowed w (inventory w source t) row s
      → Q s (journal_effect (deletion_effect w row) s).1
  pub retires :
      (source : ℕ) (s : State)
      → cleans_up source w.operation.intent ≡ true
      → is_unfinished (inventory w source s) ≡ false
      → Q s (write_retirement w s)

-- Relations anchored at an earlier state.
abbrev From : (R Q : State → State → Type 0) → State → State → State → Type 0
From R Q t s u = R t s → Q s u

From-IsStart : {R Q : State → State → Type 0} (t : State) → IsStart R Q → IsStart R (From R Q t)
From-IsStart t E = record {
  frame = E.frame;
  idle = λ s u r _. E.idle s u r;
  before = λ s u v r q a. E.before s u v r (q (E.frame.chain t s u a r));
}

-- One object of the inventory.
module _ {R Q : State → State → Type 0} (w : CleanupWork) (E : IsStart R Q)
    (W : Writes R w.operation w.allocation) (i : Inventory) (row : OwnedResource)
    (journal : (s : State)
      → IsAllowed w i row s
      → Q s (journal_effect (deletion_effect w row) s).1) where
  abbrev F : IsFrame R
  F = E.frame

  halt-Respects : (m : Action ⊤) → Respects R m → Respects R (halt m)
  halt-Respects m k = Respects-bind F m _ k λ _. Respects-pure F false

  stop : Respects R (halt (mismatch w.operation))
  stop = halt-Respects (mismatch w.operation) (W.progress _)

  note_absence :
      Respects R (halt (modify (record_absence w.moment.now w.allocation (owned_ref row))))
  note_absence =
      halt-Respects (modify (record_absence w.moment.now w.allocation (owned_ref row)))
        (Respects-modify _ (W.absence w.moment.now (owned_ref row)))

  await_release-Respects : (a : Assignment) → Respects R (await_release w i row a)
  unfolding await_release
  await_release-Respects Assignment.unassigned = Respects-pure F true
  await_release-Respects (Assignment.to_server id) =
      Respects-if F (is_some (find (is_absent_server id) i.resources)) _ _
        (halt-Respects (set_progress w.operation (OperationProgress.verifying (owned_ref row)))
          (W.progress _))
        stop

  may_delete_ip-Respects : (ip : Option ProviderPrimaryIp) → Respects R (may_delete_ip w i row ip)
  unfolding may_delete_ip
  may_delete_ip-Respects none = note_absence
  may_delete_ip-Respects (some ip) =
      Respects-if F (is_other_ip row ip) _ _ stop (await_release-Respects ip.assignment)

  judge_attached-Respects :
      (server : ProviderServer) (owned : Option OwnedResource) (ip : Option ProviderPrimaryIp)
      → Respects R (judge_attached w i server owned ip)
  unfolding judge_attached
  judge_attached-Respects server (some owned) (some ip) =
      Respects-if F (is_attached owned server ip) _ _ (Respects-pure F _) stop
  judge_attached-Respects server (some owned) none = stop
  judge_attached-Respects server none ip = stop

  check_attached-Respects :
      (server : ProviderServer) (ip : Option ℕ) → Respects R (check_attached w i server ip)
  unfolding check_attached
  check_attached-Respects server none = Respects-pure F true
  check_attached-Respects server (some id) =
      Respects-bind F (call (λ n. w.provider.get_primary_ip n id)) _ (Respects-call F _)
        λ ip. judge_attached-Respects server _ ip

  may_delete_server-Respects :
      (server : Option ProviderServer) → Respects R (may_delete_server w i row server)
  unfolding may_delete_server
  may_delete_server-Respects none = note_absence
  may_delete_server-Respects (some server) =
      Respects-if F (is_other_server row server) _ _ stop
        (check_attached-Respects server server.primary_ip_id)

  may_delete-Respects : (kind : ResourceKind) → Respects R (may_delete w i row kind)
  unfolding may_delete
  may_delete-Respects ResourceKind.server =
      Respects-bind F (call (λ n. w.provider.get_server n row.provider_id)) _ (Respects-call F _)
        may_delete_server-Respects
  may_delete-Respects ResourceKind.primary_ip =
      Respects-bind F (call (λ n. w.provider.get_primary_ip n row.provider_id)) _
        (Respects-call F _) may_delete_ip-Respects

  await_action-Respects : (action : Option ℕ) → Respects R (await_action w action)
  unfolding await_action
  await_action-Respects none = Respects-pure F true
  await_action-Respects (some id) =
      Respects-bind F (call (λ n. w.provider.get_action n id)) _ (Respects-call F _)
        λ action. Respects-pure F _

  abbrev deletions : List Attempt
  deletions = deletions_of i row

  abbrev limit : State → ℕ
  limit s = cleanup_delete_limit w.operation.id (owned_ref row) s

  pace-related : (latest : ℕ) (s : State) → Q s (pace w row (length deletions) (limit s) latest s).1
  unfolding pace
  pace-related latest s = elim (Bool-cases (leb (limit s) (length deletions))) [
    | inl e ↦ rw e (E.idle s _ ((W.progress _).at s))
    | inr e ↦ rw e (elim (Bool-cases (ltb w.moment.now (latest + delay_ms (length deletions)))) [
      | inl d ↦ rw d (E.idle s _ (F.stay s))
      | inr d ↦ rw d (journal s (inr e))
    ])
  ]

  repeat_deletion-Respects :
      (latest : Attempt) (may_go_on : Bool)
      → Respects Q (repeat_deletion w row deletions latest may_go_on)
  unfolding repeat_deletion
  repeat_deletion-Respects latest false = Respects-starts E (pure tt) (Respects-pure F tt)
  repeat_deletion-Respects latest true = record {
    at = λ s. elim (Bool-cases (leb 3 (limit s))) [
      | inl e ↦ rw e (pace-related latest.created_at s)
      | inr e ↦ rw e (E.idle s _ (F.stay s))
    ];
  }

  delete_after-Respects :
      (latest : Option Attempt)
      → last deletions ≡ latest
      → Respects Q (delete_after w row deletions latest)
  unfolding delete_after
  delete_after-Respects none e = record { at = λ s. journal s (inl e) }
  delete_after-Respects (some latest) e =
      >>=-starts E (await_action w (running_action latest)) _
        (await_action-Respects (running_action latest)) (repeat_deletion-Respects latest)

  delete_if-Respects : (b : Bool) → Respects Q (delete_if w i row b)
  unfolding delete_if
  delete_if-Respects false = Respects-starts E (pure tt) (Respects-pure F tt)
  delete_if-Respects true = delete_after-Respects (last deletions) refl

  pub delete_some-Respects : Respects Q (delete_or_retire w i (some row))
  unfolding delete_or_retire
  delete_some-Respects =
      >>=-starts E (may_delete w i row row.kind) _ (may_delete-Respects row.kind) delete_if-Respects

module _ {R Q : State → State → Type 0} (w : CleanupWork) (W : CleanupFrame R Q w) where
  abbrev G : IsFrame R
  G = W.start.frame

  resolve_one-Respects :
      (resources : List OwnedResource) (attempt : Attempt)
      → Respects R (resolve_one w resources attempt)
  unfolding resolve_one
  resolve_one-Respects resources attempt =
      let target = find (changes attempt.command) resources in
      Respects-bind G
        (lift (forbid (needs_target attempt.command && is_none target) ErrorCode.permission_denied))
        _ (Respects-lift G _)
        λ _.
          resolve_effect-Respects (settlement_of w attempt (expected target attempt.command))
            W.writes

  pub resolve_all-Respects :
      (resources : List OwnedResource) (attempts : List Attempt)
      → Respects R (resolve_all w resources attempts)
  unfolding resolve_all
  resolve_all-Respects resources [] = Respects-pure G tt
  resolve_all-Respects resources (attempt ∷ rest) =
      Respects-bind G (resolve_one w resources attempt) _ (resolve_one-Respects resources attempt)
        λ _. resolve_all-Respects resources rest

  retire_or_wait :
      (source : ℕ) (s : State)
      → cleans_up source w.operation.intent ≡ true
      → Q s (delete_or_retire w (inventory w source s) none s).1
  unfolding delete_or_retire
  retire_or_wait source s own = elim (Bool-cases (is_unfinished (inventory w source s))) [
    | inl d ↦ rw d (W.start.idle s _ (G.stay s))
    | inr d ↦ rw d (W.retires source s own d)
  ]

  settle_rest :
      (source : ℕ) (s : State) (next : Option OwnedResource)
      → cleans_up source w.operation.intent ≡ true
      → next_resource (inventory w source s) ≡ next
      → Q s (delete_or_retire w (inventory w source s) next s).1
  settle_rest source s (some row) own e =
      (delete_some-Respects w (From-IsStart s W.start) W.writes (inventory w source s) row
          λ u allowed r. W.journal source row s u own r e allowed).at
        s (G.stay s)
  settle_rest source s none own e = retire_or_wait source s own

  take_stock-Respects :
      (source : ℕ) → cleans_up source w.operation.intent ≡ true → Respects Q (take_stock w source)
  unfolding take_stock
  take_stock-Respects source own = record {
    at = λ s. settle_rest source s (next_resource (inventory w source s)) own refl;
  }

  advance_authorized-Respects :
      (source : ℕ)
      → cleans_up source w.operation.intent ≡ true
      → Respects Q (advance_authorized w source)
  unfolding advance_authorized
  advance_authorized-Respects source own =
      >>=-starts W.start (query (read_history w source)) _ (Respects-query G _) λ history.
        >>=-starts W.start (query (read_resources w)) _ (Respects-query G _) λ resources.
          >>=-starts W.start (resolve_all w resources (select is_pending_attempt history)) _
            (resolve_all-Respects resources (select is_pending_attempt history))
            λ _. take_stock-Respects source own

  advance-Respects : Respects Q (advance w)
  unfolding advance
  advance-Respects =
      >>=-starts W.start (query (λ s. find (is_authority w.operation w.allocation) s.cleanups)) _
        (Respects-query G _)
        λ row.
          >>=-starts W.start (lift (row_or row ErrorCode.permission_denied)) _ (Respects-lift G _)
            λ authority.
              require-starts W.start (cleans_up authority.source_operation_id w.operation.intent)
                ErrorCode.permission_denied (advance_authorized w authority.source_operation_id)
                (advance_authorized-Respects authority.source_operation_id)

  cleanup_failed-noted : (e : Error) (s t : State) → Q s t → Q s (cleanup_failed w e t).1
  unfolding cleanup_failed
  cleanup_failed-noted fault s t q = q
  cleanup_failed-noted (cloud failure) s t q = elim (Bool-cases (is_passing failure)) [
    | inl d ↦ rw d q
    | inr d ↦ rw d (W.noted _ s t q)
  ]

  pub advance_cleanup-Respects : Respects Q (advance_cleanup w)
  unfolding advance_cleanup
  advance_cleanup-Respects =
      catch-settled Q (advance w) (cleanup_failed w) advance-Respects cleanup_failed-noted
