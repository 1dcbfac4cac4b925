-- ===== src/Worker/Isolation/Ticks.antt =====
-- The tick as a whole, and any number of ticks on any operations.
use agent_cloud.Base.{
  ℕ, Bool, true, false, Option, none, some, ◌≡◌, refl, sym, ap, subst, ◌∙◌, ◌⊎◌, inl, inr, ◌==◌,
  ◌!=◌, nat_eq, nat_eqb_iff, find, find_sound, find-select, Bool-cases, arith, ⊤,
}
use agent_cloud.Base.Result.{Result}
use agent_cloud.Contracts.Lifecycle.{Operation, is_operation_terminal}
use agent_cloud.Store.{State}
use agent_cloud.Store.Action.Ends.{IsFrame-IsEnding, IsEnding-IsStart}
use agent_cloud.Journal.Prepare.{Effect, has_id}
use agent_cloud.Journal.Writes.{Submits, journal_effect-Respects}
use agent_cloud.Worker.Work.{Work, is_machine}
use agent_cloud.Worker.Cleanup.{CleanupWork}
use agent_cloud.Worker.Advance.{Tick, cleanup_work, advance_operation, advance_reserved}
use agent_cloud.Worker.Frames.{WorkFrame}
use agent_cloud.Worker.Frames.Cleaning.{CleanupFrame}
use agent_cloud.Worker.Frames.Ending.{write_failure-related, commit_completion-related}
use agent_cloud.Worker.Frames.Whole.{Found, advance_operation-Advances, advance_reserved-related}
use agent_cloud.Journal.WriteAhead.{IsRecorded}
use agent_cloud.Worker.WriteAhead.{advance_operation-IsRecorded}
use agent_cloud.Worker.Isolation.{IsLocal, other_operations}
use agent_cloud.Worker.Isolation.Local.{
  IsLocal-Writes, IsLocal-Finals, compensation-local, prepared-local, shared, retirement-IsLocal,
}

IsLocal-Submits :
    (e : Effect) (machine_id : ℕ) → Submits (IsLocal e.operation.id machine_id e.allocation.id) e
IsLocal-Submits e machine_id = record {
  writes = IsLocal-Writes e.operation machine_id e.allocation;
  prepared = prepared-local e.operation machine_id e.allocation e refl;
  traced = λ s. shared e.operation machine_id e.allocation s _ _ _ _;
  outcome = λ outcome s. shared e.operation machine_id e.allocation s _ _ _ _;
}

IsLocal-WorkFrame :
    (work : Work)
    → WorkFrame
        (IsLocal work.operation.id work.machine.id work.allocation.id)
        (IsLocal work.operation.id work.machine.id work.allocation.id)
        work
IsLocal-WorkFrame work =
    let W = IsLocal-Writes work.operation work.machine.id work.allocation in
    let N = IsLocal-Finals work.operation work.machine.id work.allocation work.machine refl in
    record {
      ending = IsFrame-IsEnding W.frame;
      writes = W;
      journal =
          λ command authorization. journal_effect-Respects _ (IsLocal-Submits _ work.machine.id);
      completes = λ server verification s t.
          commit_completion-related work.operation work.machine N server verification
            work.moment.now s t;
      fails = λ error absent.
          write_failure-related work.operation work.machine N error absent work.moment.now;
      compensates = compensation-local work.operation work.machine.id work.allocation;
    }

IsLocal-CleanupFrame :
    (w : CleanupWork) (machine_id : ℕ)
    → w.operation.machine_id ≡ machine_id
    → CleanupFrame
        (IsLocal w.operation.id machine_id w.allocation.id)
        (IsLocal w.operation.id machine_id w.allocation.id)
        w
IsLocal-CleanupFrame w machine_id own =
    let W = IsLocal-Writes w.operation machine_id w.allocation in
    record {
      start = IsEnding-IsStart (IsFrame-IsEnding W.frame);
      noted = λ p s t q. W.frame.chain s t _ q ((W.progress p).at t);
      writes = W;
      journal =
          λ source row t s _ _ _ _. (journal_effect-Respects _ (IsLocal-Submits _ machine_id)).at s;
      retires = λ source s _ _. retirement-IsLocal w machine_id own s;
    }

pub advance_operation-IsLocal :
    (x : Tick) (s : State)
    → ((advance_operation x s).1 ≡ s)
      ⊎ ((f : Found x s) × IsLocal x.operation_id f.operation.machine_id f.allocation.id s
            (advance_operation x s).1)
advance_operation-IsLocal x s = elim (advance_operation-Advances x s) [
  | inl same ↦ inl same
  | inr (f, went) ↦
      let own : f.machine.id ≡ f.operation.machine_id =
        (nat_eqb_iff _ _).0
          (find_sound (is_machine f.operation.machine_id) s.machines f.has_machine) in
      let named : f.operation.id ≡ x.operation_id =
        (nat_eqb_iff _ _).0 (find_sound (has_id x.operation_id) s.operations f.is_row) in
      let t = (advance_reserved x f.operation f.machine f.allocation s).1 in
      let k : IsLocal f.operation.id f.machine.id f.allocation.id s t =
        advance_reserved-related x f.operation f.machine f.allocation s (IsLocal-WorkFrame _)
          (IsLocal-CleanupFrame (cleanup_work x f.operation f.allocation) f.machine.id (sym own)) in
      inr (
        f,
        subst
            (λ (r : Result ⊤ × State).
              IsLocal x.operation_id f.operation.machine_id f.allocation.id s r.1)
            (sym went)
            (subst (λ id. IsLocal id f.operation.machine_id f.allocation.id s t) named
              (subst (λ id. IsLocal f.operation.id id f.allocation.id s t) own k)),
      )
]

-- The state after a number of ticks, each on some operation with some provider.
pub data Ticks (s : State) : State → Type 0 where
  none_yet : Ticks s s
  tick : {t : State} → Ticks s t → (x : Tick) → Ticks s (advance_operation x t).1

find-other :
    (id other : ℕ) (s : State)
    → (id == other) ≡ false
    → find (has_id id) (other_operations other s) ≡ find (has_id id) s.operations
find-other id other s apart =
    find-select (has_id id) (λ (o : Operation). o.id != other) s.operations λ o same. ground arith

abbrev terminal_row : Option Operation → Bool
terminal_row none = false
terminal_row (some operation) = is_operation_terminal operation

contradiction : (b : Bool) → b ≡ true → b ≡ false → ⊥
contradiction b e d = cc

advance_operation-is_terminal :
    (x : Tick) (s : State) (id : ℕ) (operation : Operation)
    → find (has_id id) s.operations ≡ some operation
    → is_operation_terminal operation ≡ true
    → find (has_id id) (advance_operation x s).1.operations ≡ some operation
advance_operation-is_terminal x s id operation row ended = elim (advance_operation-IsLocal x s) [
  | inl same ↦ subst (λ (t : State). find (has_id id) t.operations ≡ some operation) (sym same) row
  | inr (f, k) ↦ elim (Bool-cases (id == x.operation_id)) [
    | inl same ↦
        let here : find (has_id x.operation_id) s.operations ≡ some operation =
          subst (λ i. find (has_id i) s.operations ≡ some operation)
            ((nat_eqb_iff id x.operation_id).0 same) row in
        absurd (
          contradiction (is_operation_terminal f.operation)
            (sym (ap terminal_row (sym here ∙ f.is_row)) ∙ ended) f.is_open)
    | inr apart ↦
        sym (find-other id x.operation_id (advance_operation x s).1 apart)
        ∙ ap (find (has_id id)) k.operations
        ∙ find-other id x.operation_id s apart
        ∙ row
  ]
]

-- The outcome of an operation is final: once it has succeeded, failed or been cancelled, its row stays
-- as it is through any number of ticks of the worker on any operations.
pub Ticks-is_terminal :
    (s t : State) (id : ℕ) (operation : Operation)
    → Ticks s t
    → find (has_id id) s.operations ≡ some operation
    → is_operation_terminal operation ≡ true
    → find (has_id id) t.operations ≡ some operation
Ticks-is_terminal s t id operation Ticks.none_yet row ended = row
Ticks-is_terminal s t id operation (Ticks.tick {t = u} ticks x) row ended =
    advance_operation-is_terminal x u id operation
      (Ticks-is_terminal s u id operation ticks row ended) ended

-- The journal stays complete through any number of ticks of the worker: if every command that was sent
-- stands in it before, every command that has been sent stands in it after.
pub Ticks-IsRecorded : (s t : State) → Ticks s t → IsRecorded s → IsRecorded t
Ticks-IsRecorded s t Ticks.none_yet h = h
Ticks-IsRecorded s t (Ticks.tick {t = u} ticks x) h =
    advance_operation-IsRecorded x u (Ticks-IsRecorded s u ticks h)
