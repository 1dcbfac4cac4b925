-- ===== src/Journal/Writes.antt =====
-- The writes of the effect journal, and what holds of `resolveEffect` and of `journalEffect` once it holds of
-- each of them.
use agent_cloud.Base.{ℕ, Option, none, some, ◌≡◌, refl, subst, ap, ◌==◌, nat_eq, ◌∷◌, ⊤}
use agent_cloud.Base.Tables.{update, insert}
use agent_cloud.Base.Result.{Result, Error, ok, err, cloud, fault, require}
use agent_cloud.Contracts.Errors.{ErrorCode}
use agent_cloud.Contracts.Provider.{
  Labels, ResourceKind, ResourceRef, ResourceObservation, EffectResolution, Submission,
  resource_kind_eq,
}
use agent_cloud.Contracts.Lifecycle.{Operation, OperationProgress, BlockedReason}
use agent_cloud.Store.{Allocation, Attempt, AuditEvent, State}
use agent_cloud.Store.Action.{pure, lift, query, call, modify, transaction, ◌>>=◌}
use agent_cloud.Store.Action.Keeps.{
  IsFrame, Respects, Respects-pure, Respects-raise, Respects-lift, Respects-query,
  Respects-transaction, Respects-catch, Respects-if, Respects-bind, Respects-call, Respects-modify,
}
use agent_cloud.Journal.Resources.{claim_resource, record_absence}
use agent_cloud.Journal.Prepare.{Effect, resource_kind, prepare_attempt}
use agent_cloud.Journal.Submit.{
  set_progress, creation_labels, check_price, send, set_outcome, claim_receipt, receipt,
  journal_effect,
}
use agent_cloud.Journal.WriteAhead.Steps.{check_price-Respects}
use agent_cloud.Journal.Evaluate.{Evaluation, evaluate}
use agent_cloud.Journal.Resolve.{
  Settlement, subject, is_pending, in_scope, is_away, evaluation_failed, commit_failed,
  commit_observation, commit_confirmed, commit_refused, resolved, conclude, judge, resolve_pending,
  resolve_effect,
}
use agent_cloud.Journal.Settled.Observed.{evaluate-Respects}

-- A resolution as it is written for an operation.
abbrev pub mark : Operation → (attempt_id : ℕ) → EffectResolution → State → State
mark operation id resolution s = record s {
  attempts =
      update (λ (a : Attempt). a.id == id) (λ a. record a { resolution = resolution }) s.attempts;
  audit =
      insert
        (record {
          account_id = operation.account_id;
          subject_id = operation.id;
          event = AuditEvent.effect_resolved id;
        })
        s.audit;
}

-- What the settling of effects writes for one operation and its allocation, write by write.
pub record Writes (R : State → State → Type 0) (operation : Operation) (allocation : Allocation)
    : Type 0 where
  pub frame : IsFrame R
  pub progress : (p : OperationProgress) → Respects R (set_progress operation p)
  pub claim :
      (resource : ResourceRef) (labels : Labels) (s : State) (u : ⊤) (t : State)
      → claim_resource allocation resource labels s ≡ ok (u, t)
      → R s t
  pub absence :
      (now : ℕ) (resource : ResourceRef) (s : State)
      → R s (record_absence now allocation resource s)
  pub marked :
      (id : ℕ) (resolution : EffectResolution) (s : State) → R s (mark operation id resolution s)

module _ {R : State → State → Type 0} (x : Settlement) (W : Writes R x.operation x.allocation) where
  block-Respects : Respects R (
      set_progress x.operation (OperationProgress.blocked BlockedReason.provider_resource_mismatch))
  block-Respects = W.progress _

  evaluation_failed-Respects : (e : Error) → Respects R (evaluation_failed x e)
  unfolding evaluation_failed
  evaluation_failed-Respects fault = Respects-raise W.frame fault
  evaluation_failed-Respects (cloud failure) =
      Respects-if W.frame (is_away failure.code) _ _ (Respects-raise W.frame (cloud failure)) (
        Respects-bind W.frame (set_progress x.operation _) _ block-Respects
          λ _. Respects-pure W.frame none)

  judge-Respects : Respects R (judge x)
  unfolding judge
  judge-Respects =
      Respects-catch W.frame (evaluate (subject x) >>= λ result. pure (some result)) _
        (Respects-bind W.frame (evaluate (subject x)) _
          (evaluate-Respects W.frame (subject x)
            λ resource labels. Respects-transaction W.frame _ (W.claim resource labels))
          λ v. Respects-pure W.frame (some v))
        evaluation_failed-Respects

  abbrev after : Result (⊤ × State) → State → State
  after (ok (_, t)) s = t
  after (err e) s = s

  commit_observation-related :
      (observed : ResourceObservation) (s t : State)
      → commit_observation x observed s ≡ ok (tt, t)
      → R s t
  unfolding commit_observation
  commit_observation-related (ResourceObservation.absent resource) s t h =
      subst (R s) (ap (λ r. after r s) h) (W.absence x.now resource s)
  commit_observation-related (ResourceObservation.saw_server server) s t h =
      W.claim (record { kind = ResourceKind.server; id = server.id }) _ s tt t h
  commit_observation-related (ResourceObservation.saw_primary_ip ip) s t h =
      W.claim (record { kind = ResourceKind.primary_ip; id = ip.id }) _ s tt t h

  resolved-related :
      (resolution : EffectResolution) (s t : State) (r : Result (⊤ × State))
      → ((u : State) → r ≡ ok (tt, u) → R s u)
      → resolved x resolution r ≡ ok (tt, t)
      → R s t
  resolved-related resolution s t (ok (_, u)) k h =
      subst (R s) (ap (λ r. after r s) h)
        (W.frame.chain s u _ (k u refl) (W.marked x.attempt.id resolution u))
  resolved-related resolution s t (err e) k h = cc

  commit_failed-Respects : (e : Error) → Respects R (commit_failed x e)
  unfolding commit_failed
  commit_failed-Respects fault = Respects-raise W.frame fault
  commit_failed-Respects (cloud failure) = block-Respects

  conclude-Respects : (result : Option Evaluation) → Respects R (conclude x result)
  unfolding conclude commit_confirmed commit_refused
  conclude-Respects none = Respects-pure W.frame tt
  conclude-Respects (some (Evaluation.pending progress)) = W.progress progress
  conclude-Respects (some (Evaluation.confirmed observed)) =
      Respects-catch W.frame (transaction (commit_confirmed x observed)) (commit_failed x)
        (Respects-transaction W.frame (commit_confirmed x observed) λ s _ t done.
          resolved-related (EffectResolution.confirmed observed) s t
            (commit_observation x observed s) (λ u. commit_observation-related observed s u) done)
        commit_failed-Respects
  conclude-Respects (some (Evaluation.failed failure)) =
      Respects-catch W.frame (transaction (commit_refused x failure)) (commit_failed x)
        (Respects-transaction W.frame (commit_refused x failure) λ s _ t done.
          subst (R s) (ap (λ r. after r s) done)
            (W.marked x.attempt.id (EffectResolution.failed failure) s))
        commit_failed-Respects

  resolve_pending-Respects : Respects R (resolve_pending x)
  unfolding resolve_pending
  resolve_pending-Respects =
      Respects-bind W.frame
        (lift
          (require (x.attempt.account_id == x.operation.account_id) ErrorCode.permission_denied))
        _ (Respects-lift W.frame _)
        λ _. Respects-bind W.frame (query (in_scope x)) _ (Respects-query W.frame _) λ allowed.
          Respects-bind W.frame (lift (require allowed ErrorCode.permission_denied)) _
            (Respects-lift W.frame _)
            λ _. Respects-bind W.frame (judge x) _ judge-Respects conclude-Respects

  -- What holds of every write of a settlement holds of the whole.
  pub resolve_effect-Respects : Respects R (resolve_effect x)
  unfolding resolve_effect
  resolve_effect-Respects =
      Respects-if W.frame (is_pending x.attempt.resolution) _ _ resolve_pending-Respects
        (Respects-pure W.frame tt)

-- The writes of a submission.
pub record Submits (R : State → State → Type 0) (e : Effect) : Type 0 where
  pub writes : Writes R e.operation e.allocation
  pub prepared : (s : State) (u : ⊤) (t : State) → prepare_attempt e s ≡ ok (u, t) → R s t
  pub traced :
      (s : State) → R s (record s { submitted = (e.new_attempt_id, e.command) ∷ s.submitted })
  pub outcome : (outcome : Submission) (s : State) → R s (set_outcome e.new_attempt_id outcome s)

module _ {R : State → State → Type 0} (e : Effect) (W : Submits R e) where
  abbrev F : IsFrame R
  F = W.writes.frame

  send-Respects : Respects R (send e)
  unfolding send
  send-Respects =
      Respects-bind F
        (modify λ s. record s { submitted = (e.new_attempt_id, e.command) ∷ s.submitted }) _
        (Respects-modify _ W.traced)
        λ _.
          Respects-catch F (call (λ n. e.provider.submit n e.new_attempt_id e.command)) _
            (Respects-call F _) λ _. Respects-pure F Submission.unknown

  claim_receipt-Respects :
      (resource : Option ResourceRef) (labels : Option Labels)
      → Respects R (claim_receipt e.allocation e.command resource labels)
  unfolding claim_receipt
  claim_receipt-Respects (some resource) (some labels) =
      Respects-if F (resource.kind == resource_kind e.command) _ _
        (Respects-transaction F (claim_resource e.allocation resource labels)
          (W.writes.claim resource labels))
        (Respects-pure F tt)
  claim_receipt-Respects (some resource) none = Respects-pure F tt
  claim_receipt-Respects none labels = Respects-pure F tt

  -- What holds of every write of a submission holds of the whole.
  pub journal_effect-Respects : Respects R (journal_effect e)
  unfolding journal_effect
  journal_effect-Respects = Respects-bind F (check_price e) _ (check_price-Respects F e) λ _.
      Respects-bind F (transaction (prepare_attempt e)) _
        (Respects-transaction F (prepare_attempt e) W.prepared)
        λ _. Respects-bind F (send e) _ send-Respects λ outcome.
          Respects-bind F (modify (set_outcome e.new_attempt_id outcome)) _
            (Respects-modify _ (W.outcome outcome))
            λ _. claim_receipt-Respects (receipt outcome) (creation_labels e.command)
