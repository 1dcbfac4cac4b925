-- ===== src/Worker/Frames/Ticking.antt =====
-- The tick as a whole, and the tick of a cleanup, write by write.
use agent_cloud.Base.{List, true, Option, none, some, nat_eq, find, any}
use agent_cloud.Base.Result.{Error, cloud, fault}
use agent_cloud.Contracts.Errors.{Failure}
use agent_cloud.Contracts.Catalog.{provider_kind_eq}
use agent_cloud.Contracts.Provider.{ProviderCommand}
use agent_cloud.Contracts.Lifecycle.{OperationIntent, LifecycleCommand}
use agent_cloud.Store.{Attempt, OwnedResource, State}
use agent_cloud.Store.Action.{query}
use agent_cloud.Store.Action.Keeps.{
  IsFrame, Respects, Respects-pure, Respects-raise, Respects-query, Respects-if, Respects-bind,
}
use agent_cloud.Store.Action.Ends.{Respects-ends, catch-ends, if-ends}
use agent_cloud.Journal.Prepare.{attempts_of, is_ip_deletion}
use agent_cloud.Journal.Writes.{resolve_effect-Respects}
use agent_cloud.Worker.Work.{Work, is_pending_attempt, resources_of}
use agent_cloud.Worker.Complete.{fail}
use agent_cloud.Worker.Cleanup.{is_passing}
use agent_cloud.Worker.Advance.{
  open_settlement, failed_effect, after_failure, carry_out, fail_as_recorded, recover, continue_run,
  by_intent, settle_or_go_on, advance_work,
}
use agent_cloud.Worker.Frames.{
  WorkFrame, block-Respects, fail-Respects, begin_failure-Respects, cleanup_ip-ends,
  release_and_complete-Respects,
}
use agent_cloud.Worker.Frames.Creating.{advance_create-Respects}
use agent_cloud.Worker.Frames.Acting.{advance_action-Respects}

module _ {R Q : State → State → Type 0} (work : Work) (W : WorkFrame R Q work) where
  abbrev F : IsFrame R
  F = W.ending.frame

  after_failure-Respects :
      (command : ProviderCommand) (failure : Failure)
      → Respects Q (after_failure work command failure)
  unfolding after_failure
  after_failure-Respects command failure =
      if-ends W.ending (is_ip_deletion command) _ _ (release_and_complete-Respects work W)
        (Respects-ends W.ending _ (begin_failure-Respects work W failure))

  carry_out-Respects : (command : LifecycleCommand) → Respects Q (carry_out work command)
  unfolding carry_out
  carry_out-Respects (LifecycleCommand.create spec) = advance_create-Respects work W
  carry_out-Respects (LifecycleCommand.act action) = advance_action-Respects work W action

  -- The same writes with the rows that are read again.
  renewed :
      (history : List Attempt) (resources : List OwnedResource)
      → WorkFrame R Q (record work { history = history; resources = resources })
  renewed history resources = record {
    ending = W.ending;
    writes = W.writes;
    journal = W.journal;
    completes = W.completes;
    fails = W.fails;
    compensates = W.compensates;
  }

  fail_as_recorded-Respects :
      (failure : Failure) (history : List Attempt)
      → Respects R (fail_as_recorded work failure history)
  unfolding fail_as_recorded
  fail_as_recorded-Respects failure history =
      Respects-if F (any is_pending_attempt history) _ _ (block-Respects work W _) (
        Respects-bind F (query (λ s. resources_of work.allocation.id s.resources)) _
          (Respects-query F _)
          λ resources. begin_failure-Respects _ (renewed history resources) failure)

  recover-Respects : (e : Error) → Respects R (recover work e)
  unfolding recover
  recover-Respects fault = Respects-raise F fault
  recover-Respects (cloud failure) = Respects-if F (is_passing failure) _ _ (Respects-pure F tt) (
      Respects-bind F (query (λ s. attempts_of work.operation.id s.attempts)) _ (Respects-query F _)
        (fail_as_recorded-Respects failure))

  continue_run-Respects :
      (failed : Option (ProviderCommand × Failure)) → Respects Q (continue_run work failed)
  unfolding continue_run
  continue_run-Respects (some (command, failure)) = after_failure-Respects command failure
  continue_run-Respects none =
      catch-ends W.ending (carry_out work work.operation.command) (recover work)
        (carry_out-Respects work.operation.command) recover-Respects

  by_intent-Respects : (intent : OperationIntent) → Respects Q (by_intent work intent)
  unfolding by_intent
  by_intent-Respects (OperationIntent.compensate error) =
      cleanup_ip-ends work W (fail work error true) (fail-Respects work W error true)
  by_intent-Respects OperationIntent.run = continue_run-Respects (failed_effect work.history)
  by_intent-Respects (OperationIntent.cleanup id) =
      continue_run-Respects (failed_effect work.history)

  settle_or_go_on-Respects : (pending : Option Attempt) → Respects Q (settle_or_go_on work pending)
  unfolding settle_or_go_on
  settle_or_go_on-Respects (some attempt) =
      Respects-ends W.ending _ (resolve_effect-Respects (open_settlement work attempt) W.writes)
  settle_or_go_on-Respects none = by_intent-Respects work.operation.intent

  pub advance_work-Respects : Respects Q (advance_work work)
  unfolding advance_work
  advance_work-Respects = settle_or_go_on-Respects (find is_pending_attempt work.history)
