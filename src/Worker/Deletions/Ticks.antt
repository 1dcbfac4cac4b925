-- ===== src/Worker/Deletions/Ticks.antt =====
-- A tick of a cleanup asks for a deletion within the limit.
use agent_cloud.Base.{
  ℕ, ◌<◌, List, [], ◌∷◌, Bool, true, false, none, ◌≡◌, refl, sym, ap, subst, ◌∙◌, inl, inr, ◌&&◌,
  nat_eq, leb, select, last, length, Bool-cases, arith,
}
use agent_cloud.Base.Tables.{map-update}
use agent_cloud.Contracts.Provider.{ResourceRef, resource_kind_eq}
use agent_cloud.Contracts.Lifecycle.{Operation}
use agent_cloud.Store.{Allocation, Attempt, OwnedResource, State}
use agent_cloud.Store.Action.Ends.{IsEnding-IsStart}
use agent_cloud.Journal.Resources.{owned_ref}
use agent_cloud.Journal.Submit.{set_progress, journal_effect}
use agent_cloud.Journal.Writes.{Writes}
use agent_cloud.Journal.WriteAhead.Steps.{claim_resource-eq, prepare_attempt-eq}
use agent_cloud.Journal.WriteAhead.Effects.{journal_effect-SubmitsOnce}
use agent_cloud.Worker.Cleanup.{
  CleanupWork, targets, cleanup_delete_limit, is_before, put, in_order, is_history, read_history,
  deletion_of, deletion_effect, deletions_of, inventory, write_retirement, advance_cleanup,
  cleans_up,
}
use agent_cloud.Worker.Frames.Cleaning.{
  CleanupFrame, IsAllowed, cleans_up-eq, advance_cleanup-Respects,
}
use agent_cloud.Worker.Deletions.{
  asked, IsStill, still, deletions, StaysOrDeletes, deletions-IsStill, deleting,
  write_progress-IsStill, record_absence-IsStill,
}
use agent_cloud.Worker.Deletions.Limit.{StaysWithin, IsDeletion-DeletesWithin}

IsStill-Writes :
    (operation : Operation) (allocation : Allocation) → Writes IsStill operation allocation
unfolding set_progress
IsStill-Writes operation allocation = record {
  frame = still;
  progress = λ p. record { at = write_progress-IsStill operation p };
  claim = λ resource labels s u t h.
      subst (IsStill s) (claim_resource-eq allocation resource labels s h)
        (record { submitted = refl; attempts = refl; recoveries = refl });
  absence = λ now. record_absence-IsStill now allocation;
  marked = λ id resolution s. record {
    submitted = refl;
    attempts = map-update asked _ _ s.attempts λ a. refl;
    recoveries = refl;
  };
}

length-put :
    (p : Attempt → Bool) (a : Attempt) (xs : List Attempt)
    → length (select p (put a xs)) ≡ length (select p (a ∷ xs))
length-put p a [] = refl
length-put p a (b ∷ rest) = elim (Bool-cases (is_before a b)) [
  | inl e ↦ rw e refl
  | inr e ↦ rw e (ground (arith, length-put p a rest))
]

length-in_order :
    (p : Attempt → Bool) (xs : List Attempt)
    → length (select p (in_order xs)) ≡ length (select p xs)
length-in_order p [] = refl
length-in_order p (a ∷ rest) =
    length-put p a (in_order rest) ∙ ground (arith, length-in_order p rest)

select-select :
    {A : Type 0} (p q : A → Bool) (xs : List A)
    → select p (select q xs) ≡ select (λ a. q a && p a) xs
select-select p q [] = refl
select-select p q (x ∷ xs) = elim (Bool-cases (q x)) [
  | inl e ↦ rw (e, select-select p q xs) refl
  | inr e ↦ rw (e, select-select p q xs) refl
]

deletions_of-length :
    (w : CleanupWork) (source : ℕ) (row : OwnedResource) (s : State)
    → length (deletions_of (inventory w source s) row) ≡ deletions w source (owned_ref row) s
unfolding read_history
deletions_of-length w source row s =
    length-in_order (targets (owned_ref row)) (select (is_history w source) s.attempts)
    ∙ ap length (select-select (targets (owned_ref row)) (is_history w source) s.attempts)

last-none : {A : Type 0} (xs : List A) → last xs ≡ none → xs ≡ []
last-none [] e = refl
last-none (x ∷ []) e = cc
last-none (x ∷ y ∷ r) e = absurd (never (last-none (y ∷ r) e))
  where
    never : {A : Type 0} {y : A} {r : List A} → (y ∷ r) ≡ [] → ⊥
    never e = cc

limit_positive : (id : ℕ) (ref : ResourceRef) (s : State) → 0 < cleanup_delete_limit id ref s
unfolding cleanup_delete_limit
limit_positive id ref s = omega arith

leb-false : (a b : ℕ) → leb a b ≡ false → b < a
leb-false a b e = ground arith

IsAllowed-bound :
    (w : CleanupWork) (source : ℕ) (row : OwnedResource) (s t : State)
    → IsStill t s
    → IsAllowed w (inventory w source t) row s
    → deletions w source (owned_ref row) s < cleanup_delete_limit w.operation.id (owned_ref row) s
IsAllowed-bound w source row s t q allowed =
    let same : deletions w source (owned_ref row) s
        ≡ length (deletions_of (inventory w source t) row) =
      deletions-IsStill w source (owned_ref row) t s q ∙ sym (deletions_of-length w source row t) in
    elim allowed [
      | inl e ↦
          subst (λ n. n < cleanup_delete_limit w.operation.id (owned_ref row) s)
            (sym (same ∙ ap length (last-none (deletions_of (inventory w source t) row) e)))
            (limit_positive w.operation.id (owned_ref row) s)
      | inr e ↦
          subst (λ n. n < cleanup_delete_limit w.operation.id (owned_ref row) s) (sym same)
            (leb-false _ _ e)
    ]

deletion-StaysOrDeletes :
    (w : CleanupWork) (source : ℕ) (row : OwnedResource) (s t : State)
    → IsStill t s
    → cleans_up source w.operation.intent ≡ true
    → IsAllowed w (inventory w source t) row s
    → StaysOrDeletes w s (journal_effect (deletion_effect w row) s).1
deletion-StaysOrDeletes w source row s t q own allowed =
    elim (journal_effect-SubmitsOnce (deletion_effect w row) s) [
      | inl (n, same) ↦ inl (
          subst (IsStill s) (sym same)
            (record { submitted = refl; attempts = refl; recoveries = refl }))
      | inr (n, prepared, priced, written, sent) ↦
          let (_, _, _, _, _, _, unsent) =
            prepare_attempt-eq (deletion_effect w row) (record s { calls = n }) written in
          inr (record {
            source = source;
            cleans = cleans_up-eq source w.operation.intent own;
            resource = row;
            submitted =
                sent.submitted
                ∙ ap (λ xs. (w.moment.new_attempt_id, deletion_of row.kind row.provider_id) ∷ xs)
                    unsent;
            bounded = IsAllowed-bound w source row s t q allowed;
          })
    ]

retirement-IsStill : (w : CleanupWork) (s : State) → IsStill s (write_retirement w s)
unfolding write_retirement
retirement-IsStill w s = record { submitted = refl; attempts = refl; recoveries = refl }

deleting_frame : (w : CleanupWork) → CleanupFrame IsStill (StaysOrDeletes w) w
deleting_frame w = record {
  start = IsEnding-IsStart (deleting w);
  noted = λ p s t q.
      (deleting w).after s t _ q (((IsStill-Writes w.operation w.allocation).progress p).at t);
  writes = IsStill-Writes w.operation w.allocation;
  journal =
      λ source row t s own q _ allowed. deletion-StaysOrDeletes w source row s t q own allowed;
  retires = λ source s _ _. inl (retirement-IsStill w s);
}

-- What a tick of a cleanup asks the provider for is bounded: it sends nothing, or it sends one command,
-- which is the deletion of a resource whose deletion the cleanup and the operation that it took over
-- had asked for less often than the limit, which is three and one more for each retry that an
-- operator has granted.
pub advance_cleanup-StaysWithin :
    (w : CleanupWork) (s : State) → StaysWithin w s (advance_cleanup w s).1
advance_cleanup-StaysWithin w s = elim ((advance_cleanup-Respects w (deleting_frame w)).at s) [
  | inl still_so ↦ inl still_so
  | inr d ↦ inr (IsDeletion-DeletesWithin w s _ d)
]
