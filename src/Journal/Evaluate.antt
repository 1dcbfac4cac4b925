-- ===== src/Journal/Evaluate.antt =====
-- `evaluate` of apps/control/src/effect-journal.ts: what a journaled effect has come to, judged by what
-- the provider shows.
pub mod Judge
use agent_cloud.Base.{
  ℕ, List, [], ◌∷◌, Bool, true, false, Option, none, some, ◌&&◌, ◌||◌, not, ◌==◌, ◌!=◌, nat_eq,
  option_eq, ltb, if◌then◌else◌, length, select, map,
}
use agent_cloud.Base.Result.{Error, cloud, fault}
use agent_cloud.Contracts.Errors.{Failure}
use agent_cloud.Contracts.Provider.{
  Labels, lookup, network_ip, ProviderCommand, ResourceKind, ResourceRef, ResourceObservation,
  Submission, AttemptOutcome, ProviderAction, ProviderServer, ProviderPrimaryIp, MachineProvider,
  Power, BackupStatus, power_eq, backup_status_eq, resource_kind_eq, is_server_create_command,
  is_unassigned,
}
use agent_cloud.Contracts.Lifecycle.{OperationProgress, BlockedReason}
use agent_cloud.Store.{Allocation, Attempt, OwnedResource}
use agent_cloud.Store.Action.{Action, pure, raise, query, transaction, call, catch, ◌>>=◌, ◌>>◌}
use agent_cloud.Journal.Resources.{matches_labels, operation_id_key, claim_resource}
use agent_cloud.Journal.Prepare.{resource_kind}
use agent_cloud.Journal.Submit.{creation_labels}
unfoldable pub use Judge.*

-- One query of the provider, and its judgement.
unfoldable pub observe_as :
    ResourceKind → Subject → (uncertain : Bool) → ResourceRef → Action Evaluation
unfolding judge_ip_answer judge_server_answer
observe_as ResourceKind.primary_ip subject uncertain resource = do
  ip ← call (λ n. subject.provider.get_primary_ip n resource.id)
  pure (judge_ip_answer subject uncertain resource ip)
observe_as ResourceKind.server subject uncertain resource = do
  server ← call (λ n. subject.provider.get_server n resource.id)
  pure (judge_server_answer subject uncertain resource server)

unfoldable pub observe : Subject → (uncertain : Bool) → ResourceRef → Action Evaluation
unfolding observe_as
observe subject uncertain resource = observe_as resource.kind subject uncertain resource

-- `error instanceof CloudError`, or it is thrown again.
abbrev pub claim_failed : Error → Action Bool
claim_failed (cloud _) = pure true
claim_failed fault = raise fault

-- One turn of the loop over what was found: whether its ownership is in doubt.
unfoldable pub claim_match : Subject → Labels → ℕ × Labels → Action Bool
claim_match subject labels (id, found) =
    if matches_labels found labels
    then catch
        (transaction (
            claim_resource subject.allocation
              (record { kind = resource_kind subject.attempt.command; id = id }) labels)
          >> pure false)
        claim_failed
    else pure true

unfoldable pub claim_matches : Subject → Labels → List (ℕ × Labels) → Action Bool
unfolding claim_match
claim_matches subject labels [] = pure false
claim_matches subject labels (m ∷ rest) = do
  bad ← claim_match subject labels m
  others ← claim_matches subject labels rest
  pure (bad || others)

abbrev pub is_discovered : Subject → OwnedResource → Bool
is_discovered subject row =
    row.allocation_id == subject.allocation.id
    && row.kind == resource_kind subject.attempt.command
    && lookup operation_id_key row.labels == some subject.attempt.operation_id

abbrev pub server_match : ProviderServer → ℕ × Labels
server_match server = (server.id, server.labels)

abbrev pub ip_match : ProviderPrimaryIp → ℕ × Labels
ip_match ip = (ip.id, ip.labels)

unfoldable pub find_matches : Subject → Labels → Action (List (ℕ × Labels))
find_matches subject labels =
    if is_server_create_command subject.attempt.command
    then (call (λ n. subject.provider.find_servers n labels) >>= λ found.
        pure (map server_match found))
    else (call (λ n. subject.provider.find_primary_ips n labels) >>= λ found.
        pure (map ip_match found))

unfoldable pub observe_first : Subject → List (ℕ × Labels) → Action Evaluation
unfolding observe
observe_first subject [] = pure (blocked BlockedReason.provider_outcome_unknown)
observe_first subject ((id, _) ∷ rest) =
    observe subject true (record { kind = resource_kind subject.attempt.command; id = id })

unfoldable pub judge_matches :
    Subject → List (ℕ × Labels) → (doubt : Bool) → (discovered : ℕ) → Action Evaluation
unfolding observe_first
judge_matches subject matches doubt discovered =
    if doubt
    then pure mismatch
    else if ltb 1 (length matches) || ltb 1 discovered
    then pure (blocked BlockedReason.duplicate_provider_resources)
    else observe_first subject matches

-- An uncertain creation: what carries its labels is found, and claimed.
unfoldable pub discover : Subject → Labels → Action Evaluation
unfolding find_matches claim_matches judge_matches
discover subject labels = do
  matches ← find_matches subject labels
  doubt ← claim_matches subject labels matches
  discovered ← query (λ s. length (select (is_discovered subject) s.resources))
  judge_matches subject matches doubt discovered

unfoldable pub uncertain_target : Subject → Option ResourceRef → Action Evaluation
unfolding observe
uncertain_target subject (some resource) = observe subject true resource
uncertain_target subject none = pure mismatch

unfoldable pub evaluate_uncertain : Subject → Option Labels → Action Evaluation
unfolding discover uncertain_target
evaluate_uncertain subject (some labels) = discover subject labels
evaluate_uncertain subject none = uncertain_target subject (target subject.attempt.command)

abbrev names_other : Option ResourceRef → ResourceRef → Bool
names_other none resource = false
names_other (some named) resource = resource.id != named.id

abbrev pub is_foreign : ProviderCommand → ResourceRef → Bool
is_foreign command resource =
    resource.kind != resource_kind command || names_other (target command) resource

unfoldable pub after_action :
    Subject → (action_id : ℕ) → ResourceRef → ProviderAction → Action Evaluation
unfolding observe
after_action subject action_id resource ProviderAction.running =
    pure (
      Evaluation.pending (OperationProgress.waiting_provider subject.attempt.id action_id resource))
after_action subject action_id resource (ProviderAction.failed error) =
    pure (Evaluation.failed error)
after_action subject action_id resource ProviderAction.succeeded = observe subject false resource

unfoldable pub evaluate_outcome : Subject → AttemptOutcome → Action Evaluation
unfolding evaluate_uncertain after_action observe
evaluate_outcome subject AttemptOutcome.prepared =
    evaluate_uncertain subject (creation_labels subject.attempt.command)
evaluate_outcome subject (AttemptOutcome.submitted Submission.unknown) =
    evaluate_uncertain subject (creation_labels subject.attempt.command)
evaluate_outcome subject (AttemptOutcome.submitted (Submission.rejected error)) =
    pure (Evaluation.failed error)
evaluate_outcome subject (AttemptOutcome.submitted (Submission.accepted resource action_id)) =
    if is_foreign subject.attempt.command resource
    then pure mismatch
    else (call (λ n. subject.provider.get_action n action_id) >>= λ action.
        after_action subject action_id resource action)
evaluate_outcome subject (AttemptOutcome.submitted (Submission.completed resource)) =
    if is_foreign subject.attempt.command resource
    then pure mismatch
    else observe subject false resource

abbrev pub gone : {A : Type 0} → ResourceKind → ℕ → Option A → Option ResourceRef
gone kind id none = some (record { kind = kind; id = id })
gone kind id (some _) = none

-- What a recovery looks for first: whether the object that the command was to change is gone.
unfoldable pub find_absence : Subject → ProviderCommand → Action (Option ResourceRef)
find_absence subject (ProviderCommand.destroy id) = do
  server ← call (λ n. subject.provider.get_server n id)
  pure (gone ResourceKind.server id server)
find_absence subject (ProviderCommand.enable_backup id) = do
  server ← call (λ n. subject.provider.get_server n id)
  pure (gone ResourceKind.server id server)
find_absence subject (ProviderCommand.delete_primary_ip id) = do
  ip ← call (λ n. subject.provider.get_primary_ip n id)
  pure (gone ResourceKind.primary_ip id ip)
find_absence subject _ = pure none

unfoldable pub settle : Subject → Option ResourceRef → Action Evaluation
unfolding evaluate_outcome
settle subject (some resource) = pure (Evaluation.confirmed (ResourceObservation.absent resource))
settle subject none = evaluate_outcome subject subject.attempt.outcome

unfoldable pub evaluate : Subject → Action Evaluation
unfolding find_absence settle
evaluate subject = do
  absent ← if subject.recovering then find_absence subject subject.attempt.command else pure none
  settle subject absent
