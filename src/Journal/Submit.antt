-- ===== src/Journal/Submit.antt =====
-- `setProgress` and `journalEffect` of apps/control/src/effect-journal.ts: an effect is written down
-- before the provider is asked, and what the provider answers is written down after.
use agent_cloud.Base.{
  ℕ, ◌∷◌, Bool, Option, none, some, ◌&&◌, not, ◌==◌, nat_eq, if◌then◌else◌, any, find, of_discrete,
  Eq, ⊤,
}
use agent_cloud.Base.Tables.{insert, update}
use agent_cloud.Contracts.Catalog.{CatalogItem}
use agent_cloud.Contracts.Provider.{
  ProviderCommand, Labels, ResourceRef, Submission, AttemptOutcome, resource_kind_eq,
}
use agent_cloud.Contracts.Lifecycle.{Operation, OperationProgress, OperationProgress-discrete}
use agent_cloud.Store.{Allocation, Attempt, AuditEvent, State}
use agent_cloud.Store.Action.{
  Action, pure, lift, query, transaction, call, catch, modify, ◌>>=◌, ◌>>◌,
}
use agent_cloud.Admission.Request.{parse_offer}
use agent_cloud.Journal.Resources.{claim_resource}
use agent_cloud.Journal.Prepare.{
  Effect, resource_kind, is_monetary, has_id, check_current, prepare_attempt, set_progress_of,
}

instance abbrev pub progress_eq : Eq OperationProgress
progress_eq = of_discrete OperationProgress-discrete

abbrev pub progress_differs : (operation_id : ℕ) → OperationProgress → Operation → Bool
progress_differs id progress op = has_id id op && not (op.progress == progress)

-- `setProgress`: the audit has one event for each change.
unfoldable pub write_progress : Operation → OperationProgress → State → State
write_progress operation progress s =
    if any (progress_differs operation.id progress) s.operations
    then record s {
      operations = set_progress_of operation.id progress s.operations;
      audit =
          insert
            (record {
              account_id = operation.account_id;
              subject_id = operation.id;
              event = AuditEvent.operation_progress progress;
            })
            s.audit;
    }
    else s

unfoldable pub set_progress : Operation → OperationProgress → Action ⊤
unfolding write_progress
set_progress operation progress = modify (write_progress operation progress)

abbrev pub stored_offer : Option Operation → Option CatalogItem
stored_offer none = none
stored_offer (some op) = op.offer

-- The part of `journalEffect` for a command that costs money.
unfoldable pub compare_price : Effect → Action ⊤
unfolding check_current
compare_price e = do
  stored ← query (λ s. find (has_id e.operation.id) s.operations)
  offer ← lift (parse_offer (stored_offer stored))
  catalog ← call e.provider.get_catalog
  lift (check_current e.allocation offer catalog e.clock)

unfoldable pub check_price : Effect → Action ⊤
unfolding compare_price
check_price e = if is_monetary e.command then compare_price e else pure tt

-- `provider.submit`, with its trace; an exception is an unknown outcome.
unfoldable pub send : Effect → Action Submission
send e =
    modify (λ s. record s { submitted = (e.new_attempt_id, e.command) ∷ s.submitted })
    >> catch (call (λ n. e.provider.submit n e.new_attempt_id e.command))
        (λ _. pure Submission.unknown)

abbrev pub set_outcome : (attempt_id : ℕ) → Submission → State → State
set_outcome id outcome s = record s {
  attempts =
      update (λ (a : Attempt). a.id == id)
        (λ a. record a { outcome = AttemptOutcome.submitted outcome }) s.attempts;
}

abbrev pub creation_labels : ProviderCommand → Option Labels
creation_labels (ProviderCommand.create_primary_ip _ labels) = some labels
creation_labels (ProviderCommand.create _ _ labels _) = some labels
creation_labels (ProviderCommand.create_guest _ _ labels _ _) = some labels
creation_labels _ = none

abbrev pub receipt : Submission → Option ResourceRef
receipt (Submission.accepted resource _) = some resource
receipt (Submission.completed resource) = some resource
receipt _ = none

-- Only what a creation has made is claimed.
unfoldable pub claim_receipt :
    Allocation → ProviderCommand → Option ResourceRef → Option Labels → Action ⊤
unfolding claim_resource
claim_receipt allocation command (some resource) (some labels) =
    if resource.kind == resource_kind command
    then transaction (claim_resource allocation resource labels)
    else pure tt
claim_receipt allocation command _ _ = pure tt

unfoldable pub journal_effect : Effect → Action ⊤
unfolding check_price prepare_attempt send claim_receipt
journal_effect e = do
  check_price e
  transaction (prepare_attempt e)
  outcome ← send e
  modify (set_outcome e.new_attempt_id outcome)
  claim_receipt e.allocation e.command (receipt outcome) (creation_labels e.command)
