-- ===== src/Journal/Evidence/Evaluated.antt =====
-- `evaluate` as a whole.
use agent_cloud.Base.{
  ℕ, List, [], ◌∷◌, Bool, true, false, Option, none, some, ◌≡◌, refl, inl, inr, ◌||◌, nat_eq, ltb,
  if◌then◌else◌, length, select, Option-cases,
}
use agent_cloud.Base.Result.{ok}
use agent_cloud.Contracts.Provider.{
  Labels, ProviderCommand, ResourceKind, ResourceRef, ResourceObservation, Submission,
  AttemptOutcome, ProviderAction, ProviderServer, ProviderPrimaryIp,
}
use agent_cloud.Contracts.Lifecycle.{BlockedReason}
use agent_cloud.Store.{State}
use agent_cloud.Store.Action.{pure, query, call, ◌>>=◌}
use agent_cloud.Store.Action.Yields.{
  Yields, Yields-pure, Yields-call, Yields-if, Yields-any, Yields-bind,
}
use agent_cloud.Journal.Submit.{creation_labels}
use agent_cloud.Journal.Prepare.{resource_kind}
use agent_cloud.Journal.Evaluate.{
  Evaluation, Subject, blocked, target, gone, judge_ip_answer, judge_server_answer, observe_as,
  observe, claim_matches, is_discovered, find_matches, observe_first, judge_matches, discover,
  uncertain_target, evaluate_uncertain, is_foreign, after_action, evaluate_outcome, find_absence,
  settle, evaluate,
}
use agent_cloud.Journal.Evidence.{IsGone, is_definite, IsShown, IsEvidence}
use agent_cloud.Journal.Evidence.Judged.{
  Confirms, judge_server_answer-Confirms, judge_ip_answer-Confirms,
}

module _ (subject : Subject) where
  Confirms-IsEvidence : (v : Evaluation) → Confirms (IsShown subject) v → IsEvidence subject v
  Confirms-IsEvidence (Evaluation.confirmed o) h = h
  Confirms-IsEvidence (Evaluation.failed f) h = absurd h
  Confirms-IsEvidence (Evaluation.pending p) h = tt

  -- A blocked or a waiting evaluation claims nothing.
  blocked-Yields : (reason : BlockedReason) → Yields (IsEvidence subject) (pure (blocked reason))
  blocked-Yields reason = Yields-pure (blocked reason) tt

  module _ (uncertain : Bool)
      (definite : uncertain ≡ false → is_definite subject.attempt.outcome ≡ true) where
    observe_as-IsEvidence :
        (kind : ResourceKind) (resource : ResourceRef)
        → resource.kind ≡ kind
        → Yields (IsEvidence subject) (observe_as kind subject uncertain resource)
    unfolding observe_as
    observe_as-IsEvidence ResourceKind.primary_ip resource same =
        Yields-bind {P = λ ip. (n : ℕ) × (subject.provider.get_primary_ip n resource.id ≡ ok ip)}
          (call (λ n. subject.provider.get_primary_ip n resource.id)) _
          (Yields-call _ λ n ip h. (n, h))
          λ ip (n, h). Yields-pure (judge_ip_answer subject uncertain resource ip) (
            Confirms-IsEvidence _
              (judge_ip_answer-Confirms subject uncertain resource definite n ip h same))
    observe_as-IsEvidence ResourceKind.server resource same =
        Yields-bind
          {P = λ server. (n : ℕ) × (subject.provider.get_server n resource.id ≡ ok server)}
          (call (λ n. subject.provider.get_server n resource.id)) _
          (Yields-call _ λ n server h. (n, h))
          λ server (n, h). Yields-pure (judge_server_answer subject uncertain resource server) (
            Confirms-IsEvidence _
              (judge_server_answer-Confirms subject uncertain resource definite n server h same))

    observe-IsEvidence :
        (resource : ResourceRef) → Yields (IsEvidence subject) (observe subject uncertain resource)
    unfolding observe
    observe-IsEvidence resource = observe_as-IsEvidence resource.kind resource refl

  -- Whatever is observed without a definite receipt.
  observe_uncertain :
      (resource : ResourceRef) → Yields (IsEvidence subject) (observe subject true resource)
  observe_uncertain resource = observe-IsEvidence true (λ e. cc) resource

  observe_first-IsEvidence :
      (matches : List (ℕ × Labels)) → Yields (IsEvidence subject) (observe_first subject matches)
  unfolding observe_first
  observe_first-IsEvidence [] = blocked-Yields BlockedReason.provider_outcome_unknown
  observe_first-IsEvidence ((id, labels) ∷ rest) =
      observe_uncertain (record { kind = resource_kind subject.attempt.command; id = id })

  judge_matches-IsEvidence :
      (matches : List (ℕ × Labels)) (doubt : Bool) (discovered : ℕ)
      → Yields (IsEvidence subject) (judge_matches subject matches doubt discovered)
  unfolding judge_matches
  judge_matches-IsEvidence matches doubt discovered =
      Yields-if doubt _ _ (λ _. blocked-Yields BlockedReason.provider_resource_mismatch)
        λ _.
          Yields-if (ltb 1 (length matches) || ltb 1 discovered) _ _
            (λ _. blocked-Yields BlockedReason.duplicate_provider_resources)
            λ _. observe_first-IsEvidence matches

  discover-IsEvidence : (labels : Labels) → Yields (IsEvidence subject) (discover subject labels)
  unfolding discover
  discover-IsEvidence labels =
      Yields-bind (find_matches subject labels) _ (Yields-any _) λ matches _.
        Yields-bind (claim_matches subject labels matches) _ (Yields-any _) λ doubt _.
          Yields-bind (query (λ s. length (select (is_discovered subject) s.resources))) _
            (Yields-any _) λ discovered _. judge_matches-IsEvidence matches doubt discovered

  uncertain-IsEvidence :
      (labels : Option Labels) → Yields (IsEvidence subject) (evaluate_uncertain subject labels)
  unfolding evaluate_uncertain uncertain_target
  uncertain-IsEvidence (some labels) = discover-IsEvidence labels
  uncertain-IsEvidence none = elim (Option-cases (target subject.attempt.command)) [
    | inl e ↦ rw e (blocked-Yields BlockedReason.provider_resource_mismatch)
    | inr (resource, e) ↦ rw e (observe_uncertain resource)
  ]

  after_action-IsEvidence :
      (action_id n : ℕ) (resource : ResourceRef) (action : ProviderAction)
      → subject.attempt.outcome ≡ AttemptOutcome.submitted (Submission.accepted resource action_id)
      → subject.provider.get_action n action_id ≡ ok action
      → Yields (IsEvidence subject) (after_action subject action_id resource action)
  unfolding after_action
  after_action-IsEvidence action_id n resource ProviderAction.running was said = Yields-pure _ tt
  after_action-IsEvidence action_id n resource (ProviderAction.failed error) was said =
      Yields-pure (Evaluation.failed error) (inr (resource, action_id, n, was, said))
  after_action-IsEvidence action_id n resource ProviderAction.succeeded was said =
      observe-IsEvidence false (λ _. rw was refl) resource

  outcome-IsEvidence :
      (outcome : AttemptOutcome)
      → subject.attempt.outcome ≡ outcome
      → Yields (IsEvidence subject) (evaluate_outcome subject outcome)
  unfolding evaluate_outcome
  outcome-IsEvidence AttemptOutcome.prepared was =
      uncertain-IsEvidence (creation_labels subject.attempt.command)
  outcome-IsEvidence (AttemptOutcome.submitted Submission.unknown) was =
      uncertain-IsEvidence (creation_labels subject.attempt.command)
  outcome-IsEvidence (AttemptOutcome.submitted (Submission.rejected error)) was =
      Yields-pure (Evaluation.failed error) (inl was)
  outcome-IsEvidence (AttemptOutcome.submitted (Submission.accepted resource action_id)) was =
      Yields-if (is_foreign subject.attempt.command resource) _ _
        (λ _. blocked-Yields BlockedReason.provider_resource_mismatch)
        λ _.
          Yields-bind
            {P = λ action. (n : ℕ) × (subject.provider.get_action n action_id ≡ ok action)}
            (call (λ n. subject.provider.get_action n action_id)) _
            (Yields-call _ λ n action h. (n, h))
            λ action (n, h). after_action-IsEvidence action_id n resource action was h
  outcome-IsEvidence (AttemptOutcome.submitted (Submission.completed resource)) was =
      Yields-if (is_foreign subject.attempt.command resource) _ _
        (λ _. blocked-Yields BlockedReason.provider_resource_mismatch)
        λ _. observe-IsEvidence false (λ _. rw was refl) resource

  -- What a recovery has found to be gone.
  abbrev FoundGone : Option ResourceRef → Type 0
  FoundGone none = Unit
  FoundGone (some resource) = IsGone subject.provider resource

  gone-server :
      (id n : ℕ) (answer : Option ProviderServer)
      → subject.provider.get_server n id ≡ ok answer
      → FoundGone (gone ResourceKind.server id answer)
  gone-server id n none h = inl (n, h, refl)
  gone-server id n (some server) h = tt

  gone-ip :
      (id n : ℕ) (answer : Option ProviderPrimaryIp)
      → subject.provider.get_primary_ip n id ≡ ok answer
      → FoundGone (gone ResourceKind.primary_ip id answer)
  gone-ip id n none h = inr (n, h, refl)
  gone-ip id n (some ip) h = tt

  look_for_server :
      (id : ℕ)
      → Yields FoundGone (
          call (λ n. subject.provider.get_server n id) >>= λ server.
          pure (gone ResourceKind.server id server))
  look_for_server id =
      Yields-bind {P = λ server. (n : ℕ) × (subject.provider.get_server n id ≡ ok server)}
        (call (λ n. subject.provider.get_server n id)) _ (Yields-call _ λ n server h. (n, h))
        λ server (n, h).
          Yields-pure (gone ResourceKind.server id server) (gone-server id n server h)

  find_absence-FoundGone :
      (command : ProviderCommand) → Yields FoundGone (find_absence subject command)
  unfolding find_absence
  find_absence-FoundGone (ProviderCommand.destroy id) = look_for_server id
  find_absence-FoundGone (ProviderCommand.enable_backup id) = look_for_server id
  find_absence-FoundGone (ProviderCommand.delete_primary_ip id) =
      Yields-bind {P = λ ip. (n : ℕ) × (subject.provider.get_primary_ip n id ≡ ok ip)}
        (call (λ n. subject.provider.get_primary_ip n id)) _ (Yields-call _ λ n ip h. (n, h))
        λ ip (n, h). Yields-pure (gone ResourceKind.primary_ip id ip) (gone-ip id n ip h)
  find_absence-FoundGone (ProviderCommand.create a b c d) = Yields-pure none tt
  find_absence-FoundGone (ProviderCommand.create_guest a b c d f) = Yields-pure none tt
  find_absence-FoundGone (ProviderCommand.resize a b) = Yields-pure none tt
  find_absence-FoundGone (ProviderCommand.power_off a) = Yields-pure none tt
  find_absence-FoundGone (ProviderCommand.power_on a) = Yields-pure none tt
  find_absence-FoundGone (ProviderCommand.reboot a) = Yields-pure none tt
  find_absence-FoundGone (ProviderCommand.create_primary_ip a b) = Yields-pure none tt

  settle-IsEvidence :
      (absent : Option ResourceRef)
      → FoundGone absent
      → Yields (IsEvidence subject) (settle subject absent)
  unfolding settle
  settle-IsEvidence (some resource) h =
      Yields-pure (Evaluation.confirmed (ResourceObservation.absent resource)) h
  settle-IsEvidence none h = outcome-IsEvidence subject.attempt.outcome refl

-- Whatever `evaluate` settles, the provider has said. An object is confirmed to be there as the answer
-- to a query for its id, with the labels of the command and the command's effect; it is confirmed to be
-- gone by a query that did not find it; a failure is the provider's refusal or its failed action. A
-- reboot is only confirmed on a definite receipt.
pub evaluate-IsEvidence :
    (subject : Subject) (s : State) (v : Evaluation)
    → (evaluate subject s).0 ≡ ok v
    → IsEvidence subject v
unfolding evaluate
evaluate-IsEvidence subject s v h =
    (Yields-bind {P = FoundGone subject}
        (if subject.recovering then find_absence subject subject.attempt.command else pure none) _
        (Yields-if subject.recovering _ _
          (λ _. find_absence-FoundGone subject subject.attempt.command) λ _. Yields-pure none tt)
        (settle-IsEvidence subject)).at
      s v h
