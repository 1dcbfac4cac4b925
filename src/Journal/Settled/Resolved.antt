-- ===== src/Journal/Settled/Resolved.antt =====
-- The steps of `resolveEffect` after the query, to the write.
use agent_cloud.Base.{Option, none, some, ◌≡◌, refl, ap, subst, ◌==◌, nat_eq, arith, ⊤}
use agent_cloud.Base.Result.{Result, Error, ok, err, cloud, fault, require}
use agent_cloud.Contracts.Errors.{ErrorCode}
use agent_cloud.Contracts.Provider.{
  ResourceKind, ResourceRef, ResourceObservation, EffectResolution,
}
use agent_cloud.Contracts.Lifecycle.{BlockedReason, OperationProgress}
use agent_cloud.Store.{State}
use agent_cloud.Store.Action.{pure, lift, query, transaction, ◌>>=◌}
use agent_cloud.Store.Action.Keeps.{
  Respects, Respects-pure, Respects-raise, Respects-lift, Respects-query, Respects-transaction,
  Respects-catch, Respects-if, Respects-bind,
}
use agent_cloud.Store.Action.Yields.{
  Yields, Yields-pure, Yields-if, Yields-any, Yields-bind, Yields-catch, Yields-raise,
  Respects-bind_knowing,
}
use agent_cloud.Journal.Resources.{record_absence}
use agent_cloud.Journal.Submit.{creation_labels}
use agent_cloud.Journal.Evaluate.{Evaluation, evaluate}
use agent_cloud.Journal.Resolve.{
  Settlement, subject, block, is_pending, in_scope, is_away, evaluation_failed, commit_failed,
  commit_observation, commit_confirmed, commit_refused, resolved, claim_labels, set_resolution,
  conclude, judge, resolve_pending, resolve_effect,
}
use agent_cloud.Journal.Evidence.{IsEvidence, IsShown}
use agent_cloud.Journal.Evidence.Evaluated.{evaluate-IsEvidence}
use agent_cloud.Journal.WriteAhead.Steps.{
  IsUntouched, untouched, claim_resource-IsUntouched, claim-IsUntouched, set_progress-IsUntouched,
}
use agent_cloud.Journal.Settled.Observed.{evaluate-Respects}
use agent_cloud.Journal.Settled.{
  IsSettling, settling, Respects-IsSettling, set_resolution-IsSettling,
}

module _ (x : Settlement) where
  block-IsUntouched : Respects IsUntouched (block x)
  block-IsUntouched =
      set_progress-IsUntouched x.operation
        (OperationProgress.blocked BlockedReason.provider_resource_mismatch)

  evaluation_failed-IsUntouched : (e : Error) → Respects IsUntouched (evaluation_failed x e)
  unfolding evaluation_failed
  evaluation_failed-IsUntouched fault = Respects-raise untouched fault
  evaluation_failed-IsUntouched (cloud failure) =
      Respects-if untouched (is_away failure.code) _ _ (Respects-raise untouched (cloud failure))
        (Respects-bind untouched (block x) _ block-IsUntouched λ _. Respects-pure untouched none)

  judge-IsUntouched : Respects IsUntouched (judge x)
  unfolding judge
  judge-IsUntouched =
      Respects-catch untouched (evaluate (subject x) >>= λ result. pure (some result)) _
        (Respects-bind untouched (evaluate (subject x)) _
          (evaluate-Respects untouched (subject x) (claim-IsUntouched x.allocation))
          λ v. Respects-pure untouched (some v))
        evaluation_failed-IsUntouched

  abbrev Known : Option Evaluation → Type 0
  Known none = Unit
  Known (some v) = IsEvidence (subject x) v

  evaluation_failed-Known : (e : Error) → Yields Known (evaluation_failed x e)
  unfolding evaluation_failed
  evaluation_failed-Known fault = Yields-raise fault
  evaluation_failed-Known (cloud failure) =
      Yields-if (is_away failure.code) _ _ (λ _. Yields-raise (cloud failure))
        λ _. Yields-bind (block x) _ (Yields-any _) λ _ _. Yields-pure none tt

  judge-Known : Yields Known (judge x)
  unfolding judge
  judge-Known =
      Yields-catch (evaluate (subject x) >>= λ result. pure (some result)) _
        (Yields-bind {P = IsEvidence (subject x)} (evaluate (subject x)) _
          (record { at = evaluate-IsEvidence (subject x) }) λ v h. Yields-pure (some v) h)
        evaluation_failed-Known

  record_absence-IsUntouched :
      (resource : ResourceRef) (s : State)
      → IsUntouched s (record_absence x.now x.allocation resource s)
  unfolding record_absence
  record_absence-IsUntouched resource s = record {
    attempts = ground arith;
    submitted = ground arith;
  }

  after : Result (⊤ × State) → State → State
  after (ok (_, t)) s = t
  after (err e) s = s

  commit_observation-IsUntouched :
      (observed : ResourceObservation) (s t : State)
      → commit_observation x observed s ≡ ok (tt, t)
      → IsUntouched s t
  unfolding commit_observation after
  commit_observation-IsUntouched (ResourceObservation.absent resource) s t h =
      subst (IsUntouched s) (ap (λ r. after r s) h) (record_absence-IsUntouched resource s)
  commit_observation-IsUntouched (ResourceObservation.saw_server server) s t h =
      claim_resource-IsUntouched x.allocation
        (record { kind = ResourceKind.server; id = server.id })
        (claim_labels x (creation_labels x.attempt.command)) s h
  commit_observation-IsUntouched (ResourceObservation.saw_primary_ip ip) s t h =
      claim_resource-IsUntouched x.allocation
        (record { kind = ResourceKind.primary_ip; id = ip.id })
        (claim_labels x (creation_labels x.attempt.command)) s h

  resolved-eq-ok :
      (resolution : EffectResolution) (r : Result (⊤ × State)) {t : State}
      → resolved x resolution r ≡ ok (tt, t)
      → (u : State) × (r ≡ ok (tt, u)) × (set_resolution x resolution u ≡ t)
  unfolding after
  resolved-eq-ok resolution (ok (_, u)) h = (u, refl, ap (λ r. after r u) h)
  resolved-eq-ok resolution (err e) h = cc

  commit_confirmed-IsSettling :
      (observed : ResourceObservation) (s t : State)
      → IsShown (subject x) observed
      → commit_confirmed x observed s ≡ ok (tt, t)
      → IsSettling x s t
  unfolding commit_confirmed
  commit_confirmed-IsSettling observed s t shown h =
      let (u, committed, same) =
        resolved-eq-ok (EffectResolution.confirmed observed) (commit_observation x observed s) h in
      subst (IsSettling x s) same (
        set_resolution-IsSettling x (EffectResolution.confirmed observed) s u
          (commit_observation-IsUntouched observed s u committed) shown)

  commit_failed-IsUntouched : (e : Error) → Respects IsUntouched (commit_failed x e)
  unfolding commit_failed
  commit_failed-IsUntouched fault = Respects-raise untouched fault
  commit_failed-IsUntouched (cloud failure) = block-IsUntouched

  conclude-IsSettling :
      (result : Option Evaluation) → Known result → Respects (IsSettling x) (conclude x result)
  unfolding conclude commit_refused after
  conclude-IsSettling none h = Respects-pure (settling x) tt
  conclude-IsSettling (some (Evaluation.pending progress)) h =
      Respects-IsSettling x (set_progress-IsUntouched x.operation progress)
  conclude-IsSettling (some (Evaluation.confirmed observed)) h =
      Respects-catch (settling x) (transaction (commit_confirmed x observed)) (commit_failed x)
        (Respects-transaction (settling x) _
          λ s _ t done. commit_confirmed-IsSettling observed s t h done)
        λ e. Respects-IsSettling x (commit_failed-IsUntouched e)
  conclude-IsSettling (some (Evaluation.failed failure)) h =
      Respects-catch (settling x) (transaction (commit_refused x failure)) (commit_failed x)
        (Respects-transaction (settling x) (commit_refused x failure) λ s _ t done.
          subst (IsSettling x s) (ap (λ r. after r s) done) (
            set_resolution-IsSettling x (EffectResolution.failed failure) s s (untouched.stay s) h))
        λ e. Respects-IsSettling x (commit_failed-IsUntouched e)

  resolve_pending-IsSettling : Respects (IsSettling x) (resolve_pending x)
  unfolding resolve_pending
  resolve_pending-IsSettling =
      Respects-bind (settling x)
        (lift
          (require (x.attempt.account_id == x.operation.account_id) ErrorCode.permission_denied))
        _ (Respects-lift (settling x) _)
        λ _.
          Respects-bind (settling x) (query (in_scope x)) _ (Respects-query (settling x) _)
            λ allowed.
              Respects-bind (settling x) (lift (require allowed ErrorCode.permission_denied)) _
                (Respects-lift (settling x) _)
                λ _.
                  Respects-bind_knowing (settling x) (judge x) _
                    (Respects-IsSettling x judge-IsUntouched) judge-Known conclude-IsSettling

-- However `resolveEffect` ends, it has sent nothing, has added no attempt and lost none, and has changed
-- no attempt's command, sequence or receipt. The only resolution that it writes is that of the attempt
-- at hand, and what it writes there the provider has shown or said.
pub resolve_effect-IsSettling : (x : Settlement) (s : State) → IsSettling x s (resolve_effect x s).1
unfolding resolve_effect
resolve_effect-IsSettling x s =
    (Respects-if (settling x) (is_pending x.attempt.resolution) _ _ (resolve_pending-IsSettling x)
        (Respects-pure (settling x) tt)).at
      s
