-- ===== src/Journal/Resolve.antt =====
-- `resolveEffect` of apps/control/src/effect-journal.ts: the one place where an attempt is settled.
use agent_cloud.Base.{
  ℕ, Bool, true, false, Option, none, some, ◌&&◌, ◌||◌, ◌==◌, nat_eq, if◌then◌else◌, is_some, find,
  ⊤,
}
use agent_cloud.Base.Tables.{insert, update}
use agent_cloud.Base.Result.{Result, Error, cloud, fault, ok, require}
use agent_cloud.Contracts.Errors.{ErrorCode, Failure}
use agent_cloud.Contracts.Provider.{
  Labels, ResourceKind, ResourceObservation, EffectResolution, MachineProvider,
}
use agent_cloud.Contracts.Lifecycle.{Operation, OperationProgress, BlockedReason, is_cleanup}
use agent_cloud.Store.{Allocation, Attempt, AuditEvent, OperationCleanup, State}
use agent_cloud.Store.Action.{Action, pure, raise, lift, query, transaction, catch, ◌>>=◌, ◌>>◌}
use agent_cloud.Journal.Resources.{claim_resource, record_absence}
use agent_cloud.Journal.Submit.{set_progress, creation_labels}
use agent_cloud.Journal.Evaluate.{Evaluation, Subject, evaluate}

-- The input of `resolveEffect`, with the clock.
pub record Settlement : Type 0 where
  pub operation : Operation
  pub allocation : Allocation
  pub attempt : Attempt
  pub provider : MachineProvider
  pub expected_labels : Labels
  pub now : ℕ

abbrev pub is_pending : EffectResolution → Bool
is_pending EffectResolution.pending = true
is_pending _ = false

abbrev pub subject : Settlement → Subject
subject x = record {
  allocation = x.allocation;
  recovering = is_cleanup x.operation.intent;
  attempt = x.attempt;
  provider = x.provider;
  expected_labels = x.expected_labels;
}

-- A cleanup that was admitted over the operation of the attempt.
abbrev pub covers : Settlement → OperationCleanup → Bool
covers x row =
    row.operation_id == x.operation.id
    && row.source_operation_id == x.attempt.operation_id
    && row.allocation_id == x.allocation.id
    && row.account_id == x.operation.account_id

unfoldable pub in_scope : Settlement → State → Bool
in_scope x s = x.attempt.operation_id == x.operation.id || is_some (find (covers x) s.cleanups)

abbrev pub block : Settlement → Action ⊤
block x =
    set_progress x.operation (OperationProgress.blocked BlockedReason.provider_resource_mismatch)

abbrev pub is_away : ErrorCode → Bool
is_away ErrorCode.provider_unavailable = true
is_away _ = false

-- The handler of the first `try`: only the provider's being away, and what is no `CloudError`, is
-- thrown again.
unfoldable pub evaluation_failed : Settlement → Error → Action (Option Evaluation)
evaluation_failed x fault = raise fault
evaluation_failed x (cloud failure) =
    if is_away failure.code then raise (cloud failure) else block x >> pure none

unfoldable pub commit_failed : Settlement → Error → Action ⊤
commit_failed x fault = raise fault
commit_failed x (cloud failure) = block x

abbrev pub claim_labels : Settlement → Option Labels → Labels
claim_labels x (some labels) = labels
claim_labels x none = x.expected_labels

-- The resources of a confirmed observation.
unfoldable pub commit_observation : Settlement → ResourceObservation → State → Result (⊤ × State)
unfolding claim_resource record_absence
commit_observation x (ResourceObservation.absent resource) s =
    ok (tt, record_absence x.now x.allocation resource s)
commit_observation x (ResourceObservation.saw_server server) s =
    claim_resource x.allocation (record { kind = ResourceKind.server; id = server.id })
      (claim_labels x (creation_labels x.attempt.command)) s
commit_observation x (ResourceObservation.saw_primary_ip ip) s =
    claim_resource x.allocation (record { kind = ResourceKind.primary_ip; id = ip.id })
      (claim_labels x (creation_labels x.attempt.command)) s

abbrev pub set_resolution : Settlement → EffectResolution → State → State
set_resolution x resolution s = record s {
  attempts =
      update (λ (a : Attempt). a.id == x.attempt.id) (λ a. record a { resolution = resolution })
        s.attempts;
  audit =
      insert
        (record {
          account_id = x.operation.account_id;
          subject_id = x.operation.id;
          event = AuditEvent.effect_resolved x.attempt.id;
        })
        s.audit;
}

abbrev pub resolved : Settlement → EffectResolution → Result (⊤ × State) → Result (⊤ × State)
resolved x resolution (Result.ok (_, s)) = Result.ok (tt, set_resolution x resolution s)
resolved x resolution (Result.err e) = Result.err e

unfoldable pub commit_confirmed : Settlement → ResourceObservation → State → Result (⊤ × State)
unfolding commit_observation
commit_confirmed x observed s =
    resolved x (EffectResolution.confirmed observed) (commit_observation x observed s)

unfoldable pub commit_refused : Settlement → Failure → State → Result (⊤ × State)
commit_refused x failure s = ok (tt, set_resolution x (EffectResolution.failed failure) s)

unfoldable pub conclude : Settlement → Option Evaluation → Action ⊤
unfolding commit_failed commit_confirmed commit_refused
conclude x none = pure tt
conclude x (some (Evaluation.pending progress)) = set_progress x.operation progress
conclude x (some (Evaluation.confirmed observed)) =
    catch (transaction (commit_confirmed x observed)) (commit_failed x)
conclude x (some (Evaluation.failed failure)) =
    catch (transaction (commit_refused x failure)) (commit_failed x)

unfoldable pub judge : Settlement → Action (Option Evaluation)
unfolding evaluation_failed
judge x = catch (evaluate (subject x) >>= λ result. pure (some result)) (evaluation_failed x)

unfoldable pub resolve_pending : Settlement → Action ⊤
unfolding in_scope judge conclude
resolve_pending x = do
  lift (require (x.attempt.account_id == x.operation.account_id) ErrorCode.permission_denied)
  allowed ← query (in_scope x)
  lift (require allowed ErrorCode.permission_denied)
  result ← judge x
  conclude x result

unfoldable pub resolve_effect : Settlement → Action ⊤
unfolding resolve_pending
resolve_effect x = if is_pending x.attempt.resolution then resolve_pending x else pure tt
