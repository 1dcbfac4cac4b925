-- ===== src/Journal/WriteAhead/Effects.antt =====
-- `journalEffect` as a whole: what it sends, when, and that the journal knows of it.
use agent_cloud.Base.{ℕ, suc, ◌∷◌, ◌≡◌, refl, sym, ap, subst, ◌∙◌, ◌⊎◌, inl, inr, In, All, ⊤}
use agent_cloud.Base.Lists.{In-append_right}
use agent_cloud.Base.Result.{Result, ok}
use agent_cloud.Contracts.Provider.{Submission}
use agent_cloud.Store.{State}
use agent_cloud.Store.Action.{Action, call, pure, transaction, catch, modify, ◌>>=◌, ◌>>◌}
use agent_cloud.Store.Action.Keeps.{
  IsFrame, Respects, Respects-pure, Respects-call, Respects-catch, Respects-bind, Respects-modify,
}
use agent_cloud.Store.Action.Runs.{>>=-Went, transaction-Went}
use agent_cloud.Journal.Prepare.{Effect, prepare_attempt, new_attempt}
use agent_cloud.Journal.Submit.{
  check_price, send, set_outcome, claim_receipt, receipt, creation_labels, journal_effect,
}
use agent_cloud.Journal.WriteAhead.{
  IsQuiet, quiet, IsRecorded, Evolves, Evolves-refl, Evolves-trans, Evolves-insert, HasAttempt,
  HasAttempt-Evolves, All-HasAttempt,
}
use agent_cloud.Journal.WriteAhead.Priced.{IsFree, IsPriced, check_price-IsPriced}
use agent_cloud.Journal.WriteAhead.Steps.{
  check_price-Respects, prepare_attempt-eq, claim_receipt-IsQuiet, set_outcome-IsQuiet,
}

-- The part of `journalEffect` after the attempt is written.
abbrev conclusion : Effect → Action ⊤
conclusion e = send e >>= λ outcome.
    modify (set_outcome e.new_attempt_id outcome)
    >> claim_receipt e.allocation e.command (receipt outcome) (creation_labels e.command)

-- One command more has been sent, and the journal has gone on.
pub record IsSent (e : Effect) (s t : State) : Type 0 where
  pub attempts : Evolves s.attempts t.attempts
  pub submitted : t.submitted ≡ (e.new_attempt_id, e.command) ∷ s.submitted

submit_once : Effect → Action Submission
submit_once e =
    catch (call (λ n. e.provider.submit n e.new_attempt_id e.command))
      (λ _. pure Submission.unknown)

after_send : Effect → Submission → Action ⊤
after_send e outcome =
    modify (set_outcome e.new_attempt_id outcome)
    >> claim_receipt e.allocation e.command (receipt outcome) (creation_labels e.command)

after_send-IsQuiet : (e : Effect) (outcome : Submission) → Respects IsQuiet (after_send e outcome)
unfolding after_send
after_send-IsQuiet e outcome =
    Respects-bind quiet (modify (set_outcome e.new_attempt_id outcome)) _
      (Respects-modify _ (set_outcome-IsQuiet e.new_attempt_id outcome))
      λ _.
        claim_receipt-IsQuiet e.allocation e.command (receipt outcome) (creation_labels e.command)

submit-IsQuiet : (e : Effect) → Respects IsQuiet (submit_once e >>= after_send e)
unfolding submit_once
submit-IsQuiet e =
    Respects-bind quiet (submit_once e) _
      (Respects-catch quiet (call (λ n. e.provider.submit n e.new_attempt_id e.command)) _
        (Respects-call quiet _) λ _. Respects-pure quiet _)
      (after_send-IsQuiet e)

conclusion-IsSent : (e : Effect) (s : State) → IsSent e s (conclusion e s).1
unfolding send submit_once after_send
conclusion-IsSent e s =
    let q : IsQuiet (record s { submitted = (e.new_attempt_id, e.command) ∷ s.submitted })
        (conclusion e s).1 =
      (submit-IsQuiet e).at
        (record s { submitted = (e.new_attempt_id, e.command) ∷ s.submitted }) in
    record { attempts = q.attempts; submitted = q.submitted }

-- Nothing is written but the count of the provider's answers.
abbrev pub IsIdle : State → State → Type 0
IsIdle s t = (n : ℕ) × (t ≡ record s { calls = n })

idle : IsFrame IsIdle
idle = record {
  stay = λ s. (s.calls, refl);
  chain = λ s t u (m, p) (n, q). (n, q ∙ ap (λ (x : State). record x { calls = n }) p);
  called = λ s. (suc s.calls, refl);
}

-- What one run of `journalEffect` has done by the time that it ends: it has stopped before the
-- provider was asked, or the checks and the write of the attempt have passed on the tables as they
-- were, the price of a command that costs money among them, and the command was sent once.
abbrev pub SubmitsOnce : Effect → State → State → Type 0
SubmitsOnce e s t =
    IsIdle s t
    ⊎ ((n : ℕ) × (prepared : State) × (IsFree e.command ⊎ IsPriced e s)
        × (prepare_attempt e (record s { calls = n }) ≡ ok (tt, prepared))
        × IsSent e prepared t)

attempted : Effect → Action ⊤
attempted e = transaction (prepare_attempt e) >>= λ _. conclusion e

attempted-SubmitsOnce :
    (e : Effect) (s : State) (n : ℕ)
    → IsFree e.command ⊎ IsPriced e s
    → SubmitsOnce e s (attempted e (record s { calls = n })).1
unfolding attempted
attempted-SubmitsOnce e s n priced =
    elim (transaction-Went (prepare_attempt e) (λ _. conclusion e) (record s { calls = n })) [
      | inl same ↦ inl (n, same)
      | inr (_, prepared, written, went) ↦ inr (
        n,
        prepared,
        priced,
        written,
        subst (λ (r : Result ⊤ × State). IsSent e prepared r.1) (sym went)
            (conclusion-IsSent e prepared),
      )
    ]

-- A run of `journalEffect` either changes nothing but the count of the provider's answers, or it sends its
-- command once, after the attempt is written by a transaction whose checks have passed on the tables as they
-- were. If the command is a creation, a resize or an order of backups, the provider has before that answered with a catalog that still offers
-- the server type, architecture and disk that the operation has admitted, in its currency and at no higher a
-- price.
pub journal_effect-SubmitsOnce : (e : Effect) (s : State) → SubmitsOnce e s (journal_effect e s).1
unfolding journal_effect attempted
journal_effect-SubmitsOnce e s =
    let (n, same) = (check_price-Respects idle e).at s in
    elim (>>=-Went (check_price e) (λ _. attempted e) s) [
      | inl stopped ↦ inl (n, stopped ∙ same)
      | inr (_, compared, went) ↦
          subst (λ (r : Result ⊤ × State). SubmitsOnce e s r.1) (sym went)
            (subst (λ (x : State). SubmitsOnce e s (attempted e x).1) (sym same)
              (attempted-SubmitsOnce e s n (check_price-IsPriced e s compared)))
    ]

-- `journalEffect` keeps the journal complete: if every command that was sent stands in it, every
-- command that has been sent by the time that it ends does.
pub journal_effect-IsRecorded :
    (e : Effect) (s : State) → IsRecorded s → IsRecorded (journal_effect e s).1
journal_effect-IsRecorded e s h = elim (journal_effect-SubmitsOnce e s) [
  | inl (n, same) ↦ subst IsRecorded (sym same) h
  | inr (n, prepared, priced, written, sent) ↦
      let (_, _, _, _, _, added, unsent) = prepare_attempt-eq e (record s { calls = n }) written in
      let grown : Evolves s.attempts prepared.attempts =
        subst (Evolves s.attempts) (sym added)
          (Evolves-insert (new_attempt e s.attempts) s.attempts) in
      let mine : HasAttempt prepared.attempts (e.new_attempt_id, e.command) = (
        new_attempt e s.attempts,
        subst (In (new_attempt e s.attempts)) (sym added)
            (In-append_right s.attempts _ _ (inl refl)),
        refl,
        refl,
      ) in
      subst (All (HasAttempt (journal_effect e s).1.attempts))
        (sym (sent.submitted ∙ ap (λ xs. (e.new_attempt_id, e.command) ∷ xs) unsent))
        (
          HasAttempt-Evolves prepared.attempts _ _ sent.attempts mine,
          All-HasAttempt s.attempts _ s.submitted (Evolves-trans s.attempts _ _ grown sent.attempts)
              h,
        )
]

-- `journalEffect` never changes what an earlier attempt asked for and never removes one.
pub journal_effect-Evolves :
    (e : Effect) (s : State) → Evolves s.attempts (journal_effect e s).1.attempts
journal_effect-Evolves e s = elim (journal_effect-SubmitsOnce e s) [
  | inl (n, same) ↦
      subst (λ (x : State). Evolves s.attempts x.attempts) (sym same) (Evolves-refl s.attempts)
  | inr (n, prepared, priced, written, sent) ↦
      let (_, _, _, _, _, added, _) = prepare_attempt-eq e (record s { calls = n }) written in
      Evolves-trans s.attempts prepared.attempts _
        (subst (Evolves s.attempts) (sym added)
          (Evolves-insert (new_attempt e s.attempts) s.attempts))
        sent.attempts
]
