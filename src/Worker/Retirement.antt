-- ===== src/Worker/Retirement.antt =====
-- When an allocation is given up: by a cleanup, and in the child by the completion of a destroy operation.
pub mod Destroy
use agent_cloud.Base.{
  ℕ, List, [], ◌∷◌, Bool, true, false, Option, none, some, ◌≡◌, ◌≢◌, All, refl, sym, ap, subst, ◌∙◌,
  ◌⊎◌, inl, inr, ◌==◌, ◌&&◌, ◌||◌, nat_eq, any, find, select, map, is_none, is_some, if◌then◌else◌,
  Bool-cases, nat_eqb_iff, arith, ⊤,
}
use agent_cloud.Base.Tables.{update, map-update}
use agent_cloud.Base.Result.{Result, ok, err, ok-bind, row_or, row_or-ok, forbid, forbid-ok}
use agent_cloud.Contracts.Errors.{ErrorCode}
use agent_cloud.Contracts.Provider.{
  ResourceRef, Labels, EffectResolution, ProviderServer, ResourceKind, resource_kind_eq,
}
use agent_cloud.Contracts.Lifecycle.{
  Operation, OperationKind, operation_kind_eq, OperationIntent, OperationProgress,
}
use agent_cloud.Store.{Account, Allocation, Attempt, OwnedResource, State}
use agent_cloud.Store.Action.Keeps.{IsFrame, Respects}
use agent_cloud.Store.Action.Ends.{IsStart}
use agent_cloud.Journal.Resources.{
  claim_resource, insert_resource, new_resource, is_resource, is_bound_elsewhere, set_server,
  record_absence,
}
use agent_cloud.Journal.Prepare.{Effect, prepare_attempt, has_id, authorize_effect}
use agent_cloud.Journal.Submit.{write_progress, set_progress}
use agent_cloud.Journal.WriteAhead.Steps.{claim_resource-eq, prepare_attempt-writes}
use agent_cloud.Journal.Writes.{Writes, Submits, journal_effect-Respects}
use agent_cloud.Journal.Resolve.{is_pending}
use agent_cloud.Worker.Work.{is_pending_attempt, is_present, is_reservation, resources_of}
use agent_cloud.Worker.Complete.{
  is_live_of, retire, Completion, Verdict, check_runtime, finish_destroy, finish_server, follow,
  commit_completion,
}
use agent_cloud.Worker.Cleanup.{
  CleanupWork, in_order, put, is_before, is_history, read_history, read_resources, cleans_up,
  is_unfinished, inventory, write_retirement, advance_cleanup,
}
use agent_cloud.Worker.Frames.Cleaning.{CleanupFrame, cleans_up-eq, advance_cleanup-Respects}

-- Which allocations are retired, and since when.
abbrev pub retirement : Allocation → ℕ × Option ℕ
retirement allocation = (allocation.id, allocation.retired_at)

abbrev pub retirements : State → List (ℕ × Option ℕ)
retirements s = map retirement s.allocations

abbrev pub KeepsRetirements : State → State → Type 0
KeepsRetirements s t = retirements t ≡ retirements s

keeping : IsFrame KeepsRetirements
keeping = record { stay = λ s. refl; chain = λ s t u p q. q ∙ p; called = λ s. refl }

-- The allocations that a test names are retired.
abbrev pub retired_if : (ℕ → Option ℕ → Bool) → (now : ℕ) → ℕ × Option ℕ → ℕ × Option ℕ
retired_if test now (id, at) = (id, if test id at then some now else at)

pub retirements-update :
    (test : ℕ → Option ℕ → Bool) (now : ℕ) (rows : List Allocation)
    → map retirement (update (λ (a : Allocation). test a.id a.retired_at) (retire now) rows)
      ≡ map (retired_if test now) (map retirement rows)
retirements-update test now [] = refl
retirements-update test now (a ∷ rest) = elim (Bool-cases (test a.id a.retired_at)) [
  | inl e ↦ rw (e, retirements-update test now rest) refl
  | inr e ↦ rw (e, retirements-update test now rest) refl
]

-- An attempt of another operation, or one that is settled.
abbrev pub IsSettled : CleanupWork → (source : ℕ) → Attempt → Type 0
IsSettled w source attempt =
    ((attempt.operation_id == w.operation.id || attempt.operation_id == source) ≡ false)
    ⊎ (attempt.resolution ≢ EffectResolution.pending)

-- Nothing is left of an allocation, by the tables: no resource of it is thought to exist, and no effect of
-- the cleanup or of the operation that it took over is unsettled.
pub record IsEmpty (w : CleanupWork) (s : State) : Type 0 where
  pub source : ℕ
  pub cleans : w.operation.intent ≡ OperationIntent.cleanup source
  pub resources :
      any
        (λ (r : OwnedResource). r.allocation_id == w.allocation.id && is_none r.absent_at)
        s.resources
      ≡ false
  pub attempts : All (IsSettled w source) s.attempts

-- The allocation of a cleanup, unless it has been retired before.
abbrev pub is_own : CleanupWork → ℕ → Option ℕ → Bool
is_own w id at = id == w.allocation.id && is_none at

-- The allocation is retired and no other is, and the tables that are left show nothing of it.
pub record RetiresEmpty (w : CleanupWork) (s t : State) : Type 0 where
  pub retired : retirements t ≡ map (retired_if (is_own w) w.moment.now) (retirements s)
  pub empty : IsEmpty w t

abbrev pub RetiresOnlyEmpty : CleanupWork → State → State → Type 0
RetiresOnlyEmpty w s t = KeepsRetirements s t ⊎ RetiresEmpty w s t

retiring : (w : CleanupWork) → IsStart KeepsRetirements (RetiresOnlyEmpty w)
retiring w = record {
  frame = keeping;
  idle = λ s t r. inl r;
  before = λ s t u r q. elim q [
    | inl p ↦ inl (p ∙ r)
    | inr p ↦ inr (record {
      retired = p.retired ∙ ap (map (retired_if (is_own w) w.moment.now)) r;
      empty = p.empty;
    })
  ];
}

set_server-keeps :
    (allocation : Allocation) (resource : ResourceRef) (xs : List Allocation)
    → map retirement (set_server allocation resource xs) ≡ map retirement xs
set_server-keeps allocation resource xs = elim (Bool-cases (resource.kind == ResourceKind.server)) [
  | inl e ↦ rw e (map-update _ _ _ xs λ a. refl)
  | inr e ↦ rw e refl
]

abbrev pub committed : Result (⊤ × State) → State → State
committed (ok (_, t)) s = t
committed (err e) s = s

claim_resource-keeps :
    (allocation : Allocation) (resource : ResourceRef) (labels : Labels) (s : State) (u : ⊤)
    (t : State)
    → claim_resource allocation resource labels s ≡ ok (u, t)
    → KeepsRetirements s t
claim_resource-keeps allocation resource labels s u t h =
    subst (KeepsRetirements s) (claim_resource-eq allocation resource labels s h)
      (set_server-keeps allocation resource s.allocations)

pub write_progress-allocations :
    (operation : Operation) (p : OperationProgress) (s : State)
    → (write_progress operation p s).allocations ≡ s.allocations
unfolding write_progress
write_progress-allocations operation p s = ground arith

write_progress-evidence :
    (operation : Operation) (p : OperationProgress) (s : State)
    → ((write_progress operation p s).resources ≡ s.resources)
      × ((write_progress operation p s).attempts ≡ s.attempts)
unfolding write_progress
write_progress-evidence operation p s = (ground arith, ground arith)

-- A change of progress after the retirement.
progress-RetiresOnlyEmpty :
    (w : CleanupWork) (p : OperationProgress) (s t : State)
    → RetiresOnlyEmpty w s t
    → RetiresOnlyEmpty w s (set_progress w.operation p t).1
unfolding set_progress
progress-RetiresOnlyEmpty w p s t q =
    let kept = write_progress-allocations w.operation p t in
    let (resources, attempts) = write_progress-evidence w.operation p t in
    elim q [
      | inl k ↦ inl (ap (map retirement) kept ∙ k)
      | inr r ↦ inr (record {
        retired = ap (map retirement) kept ∙ r.retired;
        empty = record {
          source = r.empty.source;
          cleans = r.empty.cleans;
          resources = ap (any (is_live_of w.allocation.id)) resources ∙ r.empty.resources;
          attempts = subst (All (IsSettled w r.empty.source)) (sym attempts) r.empty.attempts;
        };
      })
    ]

record_absence-allocations :
    (now : ℕ) (allocation : Allocation) (resource : ResourceRef) (s : State)
    → (record_absence now allocation resource s).allocations ≡ s.allocations
unfolding record_absence
record_absence-allocations now allocation resource s = ground arith

KeepsRetirements-Writes :
    (operation : Operation) (allocation : Allocation) → Writes KeepsRetirements operation allocation
unfolding set_progress
KeepsRetirements-Writes operation allocation = record {
  frame = keeping;
  progress =
      λ p. record { at = λ s. ap (map retirement) (write_progress-allocations operation p s) };
  claim = claim_resource-keeps allocation;
  absence =
      λ now resource s. ap (map retirement) (record_absence-allocations now allocation resource s);
  marked = λ id resolution s. refl;
}

KeepsRetirements-Submits : (e : Effect) → Submits KeepsRetirements e
KeepsRetirements-Submits e = record {
  writes = KeepsRetirements-Writes e.operation e.allocation;
  prepared = λ s u t h. subst (KeepsRetirements s) (prepare_attempt-writes e s h) refl;
  traced = λ s. refl;
  outcome = λ outcome s. refl;
}

any-put :
    (p : Attempt → Bool) (a : Attempt) (xs : List Attempt) → any p (put a xs) ≡ (p a || any p xs)
any-put p a [] = refl
any-put p a (b ∷ rest) = elim (Bool-cases (is_before a b)) [
  | inl e ↦ rw e refl
  | inr e ↦ rw (e, any-put p a rest) (ground arith)
]

any-in_order : (p : Attempt → Bool) (xs : List Attempt) → any p (in_order xs) ≡ any p xs
any-in_order p [] = refl
any-in_order p (a ∷ rest) = rw (any-put p a (in_order rest), any-in_order p rest) refl

any-select :
    {A : Type 0} (p q : A → Bool) (xs : List A) → any p (select q xs) ≡ any (λ a. q a && p a) xs
any-select p q [] = refl
any-select p q (x ∷ xs) = elim (Bool-cases (q x)) [
  | inl e ↦ rw (e, any-select p q xs) refl
  | inr e ↦ rw (e, any-select p q xs) refl
]

or_false : (a b : Bool) → (a || b) ≡ false → (a ≡ false) × (b ≡ false)
or_false a b e = ground arith

settled_one :
    (b : Bool) (r : EffectResolution)
    → (b && is_pending r) ≡ false
    → (b ≡ false) ⊎ (r ≢ EffectResolution.pending)
settled_one false r h = inl refl
settled_one true r h = inr λ e. pends (sym (ap is_pending e) ∙ h)
  where
    pends : true ≡ false → ⊥
    pends g = cc

All-IsSettled :
    (w : CleanupWork) (source : ℕ) (xs : List Attempt)
    → any (λ a. is_history w source a && is_pending_attempt a) xs ≡ false
    → All (IsSettled w source) xs
All-IsSettled w source [] h = tt
All-IsSettled w source (a ∷ rest) h =
    let (here, there) =
      or_false (is_history w source a && is_pending_attempt a)
        (any (λ a. is_history w source a && is_pending_attempt a) rest) h in
    (settled_one (is_history w source a) a.resolution here, All-IsSettled w source rest there)

is_unfinished-IsEmpty :
    (w : CleanupWork) (source : ℕ) (s : State)
    → cleans_up source w.operation.intent ≡ true
    → is_unfinished (inventory w source s) ≡ false
    → IsEmpty w s
unfolding read_history
is_unfinished-IsEmpty w source s own e =
    let (settled, gone) =
      or_false (any is_pending_attempt (read_history w source s))
        (any is_present (read_resources w s)) e in
    record {
      source = source;
      cleans = cleans_up-eq source w.operation.intent own;
      resources = sym (any-select is_present _ s.resources) ∙ gone;
      attempts = All-IsSettled w source s.attempts (
          sym (
            any-in_order is_pending_attempt (select (is_history w source) s.attempts)
            ∙ any-select is_pending_attempt (is_history w source) s.attempts)
          ∙ settled);
    }

write_retirement-RetiresEmpty :
    (w : CleanupWork) (s : State) → IsEmpty w s → RetiresEmpty w s (write_retirement w s)
unfolding write_retirement
write_retirement-RetiresEmpty w s empty = record {
  retired = retirements-update (is_own w) w.moment.now s.allocations;
  empty = record {
    source = empty.source;
    cleans = empty.cleans;
    resources = empty.resources;
    attempts = empty.attempts;
  };
}

retiring_frame : (w : CleanupWork) → CleanupFrame KeepsRetirements (RetiresOnlyEmpty w) w
retiring_frame w = record {
  start = retiring w;
  writes = KeepsRetirements-Writes w.operation w.allocation;
  noted = progress-RetiresOnlyEmpty w;
  journal =
      λ source row t s _ _ _ _. inl ((journal_effect-Respects _ (KeepsRetirements-Submits _)).at s);
  retires = λ source s own e.
      inr (write_retirement-RetiresEmpty w s (is_unfinished-IsEmpty w source s own e));
}

-- A cleanup gives an allocation up only when nothing is left of it: either a tick of it changes no
-- allocation's retirement, or it retires its own allocation, unless that is retired already, and no other,
-- and the tables that the tick leaves show no resource of the allocation that is thought to exist, and no
-- unsettled effect of the cleanup or of the operation that the cleanup took over.
pub advance_cleanup-RetiresOnlyEmpty :
    (w : CleanupWork) (s : State) → RetiresOnlyEmpty w s (advance_cleanup w s).1
advance_cleanup-RetiresOnlyEmpty w s = (advance_cleanup-Respects w (retiring_frame w)).at s
