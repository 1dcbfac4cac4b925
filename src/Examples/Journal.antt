-- ===== src/Examples/Journal.antt =====
-- Runs of the effect journal.
use agent_cloud.Base.{[], ◌∷◌, some, ◌≡◌, refl, find, ◌==◌, nat_eq, ⊤}
use agent_cloud.Base.Result.{Result, ok, err}
use agent_cloud.Contracts.Provider.{ResourceObservation}
use agent_cloud.Contracts.Lifecycle.{Operation}
use agent_cloud.Store.{Account, State}
use agent_cloud.Journal.Prepare.{Effect, Authorization, prepare_attempt, has_id}
use agent_cloud.Journal.Submit.{journal_effect}
use agent_cloud.Journal.Evaluate.{Evaluation, evaluate}
use agent_cloud.Journal.Resolve.{Settlement, resolve_effect, subject}
use agent_cloud.Journal.WriteAhead.{IsRecorded, Evolves}
use agent_cloud.Journal.WriteAhead.Effects.{
  SubmitsOnce, journal_effect-SubmitsOnce, journal_effect-IsRecorded, journal_effect-Evolves,
}
use agent_cloud.Journal.Authorized.{HasAuthority, prepare_attempt-HasAuthority}
use agent_cloud.Journal.Numbered.{IsNumbered, prepare_attempt-IsNumbered}
use agent_cloud.Journal.Evidence.{IsEvidence}
use agent_cloud.Journal.Evidence.Evaluated.{evaluate-IsEvidence}
use agent_cloud.Journal.Settled.{IsSettling}
use agent_cloud.Journal.Settled.Resolved.{resolve_effect-IsSettling}
use agent_cloud.Journal.Resources.{matches_labels}
use agent_cloud.Auth.Authority.{load_principal}
use agent_cloud.Auth.Policy.{authorize}
use agent_cloud.Admission.Command.{authorize_command}
use agent_cloud.Contracts.Catalog.{item_valid}
use agent_cloud.Contracts.Policy.{Capability-discrete}
use agent_cloud.Examples.Data.{
  admitted, operation, allocation, command, provider, limits, attempt, server, labels,
}

abbrev effect : Effect
effect = record {
  operation = operation;
  allocation = allocation;
  command = command;
  provider = provider;
  limits = limits;
  authorization = Authorization.fresh;
  clock = 20;
  now = 20;
  new_attempt_id = 60;
}

abbrev settlement : Settlement
settlement = record {
  operation = operation;
  allocation = allocation;
  attempt = attempt;
  provider = provider;
  expected_labels = labels;
  now = 30;
}

abbrev sent : State
sent = record admitted { attempts = attempt ∷ []; submitted = (60, command) ∷ [] }

journal_effect-SubmitsOnce_example : SubmitsOnce effect admitted (journal_effect effect admitted).1
journal_effect-SubmitsOnce_example = journal_effect-SubmitsOnce effect admitted

journal_effect-IsRecorded_example : IsRecorded (journal_effect effect admitted).1
journal_effect-IsRecorded_example = journal_effect-IsRecorded effect admitted tt

journal_effect-Evolves_example : Evolves sent.attempts (journal_effect effect sent).1.attempts
journal_effect-Evolves_example = journal_effect-Evolves effect sent

abbrev state_of : Result (⊤ × State) → State
state_of (ok (_, s)) = s
state_of (err _) = admitted

abbrev prepared : State
prepared = state_of (prepare_attempt effect admitted)

prepare_attempt-HasAuthority_example :
    (account : Account) × (stored : Operation) × (find
        (λ (a : Account). a.id == 7)
        admitted.accounts
      ≡ some account)
    × (find (has_id 31) admitted.operations ≡ some stored)
    × HasAuthority admitted effect account stored Authorization.fresh
unfolding prepare_attempt Capability-discrete load_principal authorize_command authorize item_valid
prepare_attempt-HasAuthority_example = prepare_attempt-HasAuthority effect admitted prepared refl

evaluate-IsEvidence_example :
    IsEvidence (subject settlement) (Evaluation.confirmed (ResourceObservation.saw_server server))
unfolding evaluate matches_labels
evaluate-IsEvidence_example =
    evaluate-IsEvidence (subject settlement) sent
      (Evaluation.confirmed (ResourceObservation.saw_server server)) refl

resolve_effect-IsSettling_example : IsSettling settlement sent (resolve_effect settlement sent).1
resolve_effect-IsSettling_example = resolve_effect-IsSettling settlement sent

prepare_attempt-IsNumbered_example : IsNumbered prepared.attempts
unfolding prepare_attempt Capability-discrete load_principal authorize_command authorize item_valid
prepare_attempt-IsNumbered_example =
    prepare_attempt-IsNumbered effect admitted prepared (λ id. tt) refl
