-- ===== src/Journal/Settled/Observed.antt =====
-- All that `evaluate` writes are claims.
use agent_cloud.Base.{
  ℕ, List, [], ◌∷◌, Bool, true, false, Option, none, some, inl, inr, ◌||◌, nat_eq, ltb,
  if◌then◌else◌, length, select, Option-cases,
}
use agent_cloud.Base.Result.{Error, cloud, fault}
use agent_cloud.Contracts.Provider.{
  Labels, ProviderCommand, ResourceKind, ResourceRef, Submission, AttemptOutcome, ProviderAction,
  is_server_create_command,
}
use agent_cloud.Contracts.Lifecycle.{BlockedReason}
use agent_cloud.Store.Action.{pure, query, call, transaction, ◌>>◌}
use agent_cloud.Store.{State}
use agent_cloud.Store.Action.Keeps.{
  IsFrame, Respects, Respects-pure, Respects-raise, Respects-query, Respects-call, Respects-catch,
  Respects-if, Respects-bind,
}
use agent_cloud.Journal.Resources.{claim_resource, matches_labels}
use agent_cloud.Journal.Prepare.{resource_kind}
use agent_cloud.Journal.Submit.{creation_labels}
use agent_cloud.Journal.Evaluate.{
  Subject, blocked, mismatch, target, observe_as, observe, claim_failed, claim_match, claim_matches,
  is_discovered, find_matches, observe_first, judge_matches, discover, uncertain_target,
  evaluate_uncertain, is_foreign, after_action, evaluate_outcome, find_absence, settle, evaluate,
}

module _ {R : State → State → Type 0} (F : IsFrame R) (z : Subject)
    (claims : (resource : ResourceRef) (labels : Labels)
      → Respects R (transaction (claim_resource z.allocation resource labels))) where
  observe_as-Respects :
      (kind : ResourceKind) (uncertain : Bool) (resource : ResourceRef)
      → Respects R (observe_as kind z uncertain resource)
  unfolding observe_as
  observe_as-Respects ResourceKind.primary_ip uncertain resource =
      Respects-bind F (call (λ n. z.provider.get_primary_ip n resource.id)) _ (Respects-call F _)
        λ ip. Respects-pure F _
  observe_as-Respects ResourceKind.server uncertain resource =
      Respects-bind F (call (λ n. z.provider.get_server n resource.id)) _ (Respects-call F _)
        λ server. Respects-pure F _

  observe-Respects :
      (uncertain : Bool) (resource : ResourceRef) → Respects R (observe z uncertain resource)
  unfolding observe
  observe-Respects uncertain resource = observe_as-Respects resource.kind uncertain resource

  claim_failed-Respects : (e : Error) → Respects R (claim_failed e)
  claim_failed-Respects (cloud failure) = Respects-pure F true
  claim_failed-Respects fault = Respects-raise F fault

  claim_match-Respects : (labels : Labels) (m : ℕ × Labels) → Respects R (claim_match z labels m)
  unfolding claim_match
  claim_match-Respects labels (id, found) =
      let ref : ResourceRef = record { kind = resource_kind z.attempt.command; id = id } in
      Respects-if F (matches_labels found labels) _ _
        (Respects-catch F (transaction (claim_resource z.allocation ref labels) >> pure false) _
          (Respects-bind F (transaction (claim_resource z.allocation ref labels)) _
            (claims ref labels) λ _. Respects-pure F false)
          claim_failed-Respects)
        (Respects-pure F true)

  claim_matches-Respects :
      (labels : Labels) (ms : List (ℕ × Labels)) → Respects R (claim_matches z labels ms)
  unfolding claim_matches
  claim_matches-Respects labels [] = Respects-pure F false
  claim_matches-Respects labels (m ∷ rest) =
      Respects-bind F (claim_match z labels m) _ (claim_match-Respects labels m) λ bad.
        Respects-bind F (claim_matches z labels rest) _ (claim_matches-Respects labels rest)
          λ others. Respects-pure F _

  find_matches-Respects : (labels : Labels) → Respects R (find_matches z labels)
  unfolding find_matches
  find_matches-Respects labels =
      Respects-if F (is_server_create_command z.attempt.command) _ _
        (Respects-bind F (call (λ n. z.provider.find_servers n labels)) _ (Respects-call F _)
          λ found. Respects-pure F _)
        (Respects-bind F (call (λ n. z.provider.find_primary_ips n labels)) _ (Respects-call F _)
          λ found. Respects-pure F _)

  observe_first-Respects : (ms : List (ℕ × Labels)) → Respects R (observe_first z ms)
  unfolding observe_first
  observe_first-Respects [] = Respects-pure F _
  observe_first-Respects ((id, labels) ∷ rest) = observe-Respects true _

  judge_matches-Respects :
      (matches : List (ℕ × Labels)) (doubt : Bool) (discovered : ℕ)
      → Respects R (judge_matches z matches doubt discovered)
  unfolding judge_matches
  judge_matches-Respects matches doubt discovered =
      Respects-if F doubt _ _ (Respects-pure F mismatch) (
        Respects-if F (ltb 1 (length matches) || ltb 1 discovered) _ _
          (Respects-pure F (blocked BlockedReason.duplicate_provider_resources))
          (observe_first-Respects matches))

  discover-Respects : (labels : Labels) → Respects R (discover z labels)
  unfolding discover
  discover-Respects labels =
      Respects-bind F (find_matches z labels) _ (find_matches-Respects labels) λ matches.
        Respects-bind F (claim_matches z labels matches) _ (claim_matches-Respects labels matches)
          λ doubt.
            Respects-bind F (query (λ s. length (select (is_discovered z) s.resources))) _
              (Respects-query F _) λ discovered. judge_matches-Respects matches doubt discovered

  uncertain-Respects : (labels : Option Labels) → Respects R (evaluate_uncertain z labels)
  unfolding evaluate_uncertain uncertain_target
  uncertain-Respects (some labels) = discover-Respects labels
  uncertain-Respects none = elim (Option-cases (target z.attempt.command)) [
    | inl e ↦ rw e (Respects-pure F mismatch)
    | inr (resource, e) ↦ rw e (observe-Respects true resource)
  ]

  after_action-Respects :
      (action_id : ℕ) (resource : ResourceRef) (action : ProviderAction)
      → Respects R (after_action z action_id resource action)
  unfolding after_action
  after_action-Respects action_id resource ProviderAction.running = Respects-pure F _
  after_action-Respects action_id resource (ProviderAction.failed error) = Respects-pure F _
  after_action-Respects action_id resource ProviderAction.succeeded =
      observe-Respects false resource

  outcome-Respects : (outcome : AttemptOutcome) → Respects R (evaluate_outcome z outcome)
  unfolding evaluate_outcome
  outcome-Respects AttemptOutcome.prepared = uncertain-Respects (creation_labels z.attempt.command)
  outcome-Respects (AttemptOutcome.submitted Submission.unknown) =
      uncertain-Respects (creation_labels z.attempt.command)
  outcome-Respects (AttemptOutcome.submitted (Submission.rejected error)) = Respects-pure F _
  outcome-Respects (AttemptOutcome.submitted (Submission.accepted resource action_id)) =
      Respects-if F (is_foreign z.attempt.command resource) _ _ (Respects-pure F _) (
        Respects-bind F (call (λ n. z.provider.get_action n action_id)) _ (Respects-call F _)
          λ action. after_action-Respects action_id resource action)
  outcome-Respects (AttemptOutcome.submitted (Submission.completed resource)) =
      Respects-if F (is_foreign z.attempt.command resource) _ _ (Respects-pure F _)
        (observe-Respects false resource)

  find_absence-Respects : (command : ProviderCommand) → Respects R (find_absence z command)
  unfolding find_absence
  find_absence-Respects (ProviderCommand.destroy id) =
      Respects-bind F (call (λ n. z.provider.get_server n id)) _ (Respects-call F _)
        λ a. Respects-pure F _
  find_absence-Respects (ProviderCommand.enable_backup id) =
      Respects-bind F (call (λ n. z.provider.get_server n id)) _ (Respects-call F _)
        λ a. Respects-pure F _
  find_absence-Respects (ProviderCommand.delete_primary_ip id) =
      Respects-bind F (call (λ n. z.provider.get_primary_ip n id)) _ (Respects-call F _)
        λ a. Respects-pure F _
  find_absence-Respects (ProviderCommand.create a b c d) = Respects-pure F none
  find_absence-Respects (ProviderCommand.create_guest a b c d f) = Respects-pure F none
  find_absence-Respects (ProviderCommand.resize a b) = Respects-pure F none
  find_absence-Respects (ProviderCommand.power_off a) = Respects-pure F none
  find_absence-Respects (ProviderCommand.power_on a) = Respects-pure F none
  find_absence-Respects (ProviderCommand.reboot a) = Respects-pure F none
  find_absence-Respects (ProviderCommand.create_primary_ip a b) = Respects-pure F none

  settle-Respects : (absent : Option ResourceRef) → Respects R (settle z absent)
  unfolding settle
  settle-Respects (some resource) = Respects-pure F _
  settle-Respects none = outcome-Respects z.attempt.outcome

  pub evaluate-Respects : Respects R (evaluate z)
  unfolding evaluate
  evaluate-Respects =
      Respects-bind F (if z.recovering then find_absence z z.attempt.command else pure none) _
        (Respects-if F z.recovering _ _ (find_absence-Respects z.attempt.command)
          (Respects-pure F none))
        settle-Respects
