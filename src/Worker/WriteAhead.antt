-- ===== src/Worker/WriteAhead.antt =====
-- One tick of the worker and the journal.
use agent_cloud.Base.{ℕ, ◌∷◌, ◌≡◌, refl, sym, ap, subst, ◌∙◌, ◌⊎◌, inl, inr, In, All, arith}
use agent_cloud.Base.Lists.{In-append_right}
use agent_cloud.Contracts.Errors.{Failure}
use agent_cloud.Contracts.Provider.{ProviderCommand, EffectResolution, ResourceRef}
use agent_cloud.Contracts.Lifecycle.{Operation, OperationProgress, Machine}
use agent_cloud.Store.{Allocation, State}
use agent_cloud.Store.Action.Ends.{IsEnding, IsEnding-IsStart}
use agent_cloud.Journal.Resources.{record_absence}
use agent_cloud.Journal.Prepare.{Effect, new_attempt}
use agent_cloud.Journal.Submit.{write_progress, journal_effect}
use agent_cloud.Journal.Writes.{Writes, mark}
use agent_cloud.Journal.WriteAhead.{
  IsQuiet, quiet, Evolves, Evolves-refl, Evolves-trans, Evolves-update, HasAttempt,
  HasAttempt-Evolves, IsRecorded, All-HasAttempt, IsQuiet-IsRecorded,
}
use agent_cloud.Journal.WriteAhead.Steps.{
  IsUntouched-IsQuiet, set_progress-IsUntouched, claim_resource-IsUntouched, prepare_attempt-eq,
}
use agent_cloud.Journal.WriteAhead.Effects.{journal_effect-SubmitsOnce, journal_effect-Evolves}
use agent_cloud.Worker.Work.{Work}
use agent_cloud.Worker.Cleanup.{CleanupWork, write_retirement}
use agent_cloud.Worker.Frames.{WorkFrame}
use agent_cloud.Worker.Frames.Cleaning.{CleanupFrame}
use agent_cloud.Worker.Frames.Whole.{advance_operation-related}
use agent_cloud.Worker.Advance.{Tick, advance_operation}
use agent_cloud.Worker.Frames.Ending.{Finals, write_failure-related, commit_completion-related}
use agent_cloud.Worker.Effects.{write_compensation}

-- One command has been sent, and the journal, which has gone on, has its attempt.
pub record HasSent (s t : State) : Type 0 where
  pub id : ℕ
  pub command : ProviderCommand
  pub attempts : Evolves s.attempts t.attempts
  pub submitted : t.submitted ≡ (id, command) ∷ s.submitted
  pub recorded : HasAttempt t.attempts (id, command)

-- The journal goes on, and at most one command is sent, which has its attempt in it.
abbrev pub AsksOnce : State → State → Type 0
AsksOnce s t = IsQuiet s t ⊎ HasSent s t

sent-after : (s t u : State) → HasSent s t → IsQuiet t u → HasSent s u
sent-after s t u h q = record {
  id = h.id;
  command = h.command;
  attempts = Evolves-trans s.attempts t.attempts u.attempts h.attempts q.attempts;
  submitted = q.submitted ∙ h.submitted;
  recorded = HasAttempt-Evolves t.attempts u.attempts (h.id, h.command) q.attempts h.recorded;
}

sent-before : (s t u : State) → IsQuiet s t → HasSent t u → HasSent s u
sent-before s t u q h = record {
  id = h.id;
  command = h.command;
  attempts = Evolves-trans s.attempts t.attempts u.attempts q.attempts h.attempts;
  submitted = h.submitted ∙ ap (λ xs. (h.id, h.command) ∷ xs) q.submitted;
  recorded = h.recorded;
}

asking : IsEnding IsQuiet AsksOnce
asking = record {
  frame = quiet;
  idle = λ s t q. inl q;
  before = λ s t u q a. elim a [
    | inl p ↦ inl (quiet.chain s t u q p)
    | inr h ↦ inr (sent-before s t u q h)
  ];
  after = λ s t u a q. elim a [
    | inl p ↦ inl (quiet.chain s t u p q)
    | inr h ↦ inr (sent-after s t u h q)
  ];
}

idle-IsQuiet : (s t : State) (n : ℕ) → t ≡ record s { calls = n } → IsQuiet s t
idle-IsQuiet s t n same = record {
  attempts =
      subst (Evolves s.attempts) (sym (ap (λ (x : State). x.attempts) same))
        (Evolves-refl s.attempts);
  submitted = ap (λ (x : State). x.submitted) same;
}

journal_effect-AsksOnce : (e : Effect) (s : State) → AsksOnce s (journal_effect e s).1
journal_effect-AsksOnce e s = elim (journal_effect-SubmitsOnce e s) [
  | inl (n, same) ↦ inl (idle-IsQuiet s _ n same)
  | inr (n, prepared, priced, written, sent) ↦
      let (_, _, _, _, _, added, unsent) = prepare_attempt-eq e (record s { calls = n }) written in
      let mine : HasAttempt prepared.attempts (e.new_attempt_id, e.command) = (
        new_attempt e s.attempts,
        subst (In (new_attempt e s.attempts)) (sym added)
            (In-append_right s.attempts _ _ (inl refl)),
        refl,
        refl,
      ) in
      inr (record {
        id = e.new_attempt_id;
        command = e.command;
        attempts = journal_effect-Evolves e s;
        submitted = sent.submitted ∙ ap (λ xs. (e.new_attempt_id, e.command) ∷ xs) unsent;
        recorded = HasAttempt-Evolves prepared.attempts _ _ sent.attempts mine;
      })
]

kept : (s t : State) → t.attempts ≡ s.attempts → t.submitted ≡ s.submitted → IsQuiet s t
kept s t a u = IsUntouched-IsQuiet s t (record { attempts = a; submitted = u })

record_absence-IsQuiet :
    (now : ℕ) (allocation : Allocation) (resource : ResourceRef) (s : State)
    → IsQuiet s (record_absence now allocation resource s)
unfolding record_absence
record_absence-IsQuiet now allocation resource s = kept s _ (ground arith) (ground arith)

write_progress-IsQuiet :
    (operation : Operation) (p : OperationProgress) (s : State)
    → IsQuiet s (write_progress operation p s)
unfolding write_progress
write_progress-IsQuiet operation p s = kept s _ (ground arith) (ground arith)

mark-IsQuiet :
    (operation : Operation) (id : ℕ) (resolution : EffectResolution) (s : State)
    → IsQuiet s (mark operation id resolution s)
mark-IsQuiet operation id resolution s = record {
  attempts = Evolves-update _ _ s.attempts λ a. record {
    id = refl;
    account_id = refl;
    operation_id = refl;
    sequence = refl;
    command = refl;
    created_at = refl;
  };
  submitted = refl;
}

pub IsQuiet-Writes :
    (operation : Operation) (allocation : Allocation) → Writes IsQuiet operation allocation
IsQuiet-Writes operation allocation = record {
  frame = quiet;
  progress = λ p. record {
    at = λ s. IsUntouched-IsQuiet s _ ((set_progress-IsUntouched operation p).at s);
  };
  claim = λ resource labels s u t h.
      IsUntouched-IsQuiet s t (claim_resource-IsUntouched allocation resource labels s h);
  absence = λ now. record_absence-IsQuiet now allocation;
  marked = mark-IsQuiet operation;
}

IsQuiet-Finals : (operation : Operation) (machine : Machine) → Finals IsQuiet operation machine
IsQuiet-Finals operation machine = record {
  frame = quiet;
  progress = write_progress-IsQuiet operation;
  ends = λ p event s. kept s _ refl refl;
  machines = λ change s _. kept s _ refl refl;
  allocations = λ test change s _. kept s _ refl refl;
}

compensation-IsQuiet :
    (operation : Operation) (error : Failure) (s : State)
    → IsQuiet s (write_compensation operation error s)
unfolding write_compensation
compensation-IsQuiet operation error s = kept s _ refl refl

work_frame : (work : Work) → WorkFrame IsQuiet AsksOnce work
work_frame work = record {
  ending = asking;
  writes = IsQuiet-Writes work.operation work.allocation;
  journal = λ command authorization. record { at = journal_effect-AsksOnce _ };
  completes = λ server verification s t.
      commit_completion-related work.operation work.machine
        (IsQuiet-Finals work.operation work.machine) server verification work.moment.now s t;
  fails = λ error absent.
      write_failure-related work.operation work.machine (IsQuiet-Finals work.operation work.machine)
        error absent work.moment.now;
  compensates = compensation-IsQuiet work.operation;
}

retirement-IsQuiet : (w : CleanupWork) (s : State) → IsQuiet s (write_retirement w s)
unfolding write_retirement
retirement-IsQuiet w s = kept s _ refl refl

cleanup_frame : (w : CleanupWork) → CleanupFrame IsQuiet AsksOnce w
cleanup_frame w = record {
  start = IsEnding-IsStart asking;
  noted =
      λ p s t q. asking.after s t _ q (((IsQuiet-Writes w.operation w.allocation).progress p).at t);
  writes = IsQuiet-Writes w.operation w.allocation;
  journal = λ source row t s _ _ _ _. journal_effect-AsksOnce _ s;
  retires = λ source s _ _. inl (retirement-IsQuiet w s);
}

-- However one tick of the worker on any operation ends, it has asked the provider for at most one effect,
-- and the journal, in which no earlier attempt has been lost or changed in what it asks for, has the
-- attempt of that effect.
pub advance_operation-AsksOnce : (x : Tick) (s : State) → AsksOnce s (advance_operation x s).1
advance_operation-AsksOnce x s =
    advance_operation-related {R = IsQuiet} {Q = AsksOnce} x s (inl (quiet.stay s))
      (λ f. work_frame _) λ f. cleanup_frame _

-- A tick of the worker keeps the journal complete: if every command that was sent to the provider
-- stands in it, every command that has been sent by the end of the tick does.
pub advance_operation-IsRecorded :
    (x : Tick) (s : State) → IsRecorded s → IsRecorded (advance_operation x s).1
advance_operation-IsRecorded x s h = elim (advance_operation-AsksOnce x s) [
  | inl q ↦ IsQuiet-IsRecorded s _ q h
  | inr sent ↦
      subst (All (HasAttempt (advance_operation x s).1.attempts)) (sym sent.submitted)
        (sent.recorded, All-HasAttempt s.attempts _ s.submitted sent.attempts h)
]
