-- ===== src/Worker/Retirement/Destroy.antt =====
-- `complete` of apps/control/src/advance-operation.ts for a destroy operation.
use agent_cloud.Base.{
  true, false, Option, none, some, ◌≡◌, refl, sym, ap, subst, ◌∙◌, ◌⊎◌, inl, inr, ◌==◌, nat_eq, any,
  is_none, ◌&&◌, find, map, is_some, if◌then◌else◌,
}
use agent_cloud.Base.Result.{Result, ok, err, ok-bind, row_or, row_or-ok, forbid, forbid-ok}
use agent_cloud.Contracts.Errors.{ErrorCode}
use agent_cloud.Contracts.Provider.{resource_kind_eq}
use agent_cloud.Contracts.Lifecycle.{OperationKind, OperationProgress, operation_kind_eq}
use agent_cloud.Store.{Allocation, OwnedResource, AuditEvent, State}
use agent_cloud.Worker.Work.{is_reservation}
use agent_cloud.Worker.Complete.{
  is_live_of, Completion, Verdict, check_runtime, finish_destroy, finish_server, finish_operation,
  follow, commit_completion, ended,
}
use agent_cloud.Worker.Retirement.{
  KeepsRetirements, retirement, retirements, retired_if, retirements-update, committed,
  write_progress-allocations,
}

is_some-none : {A : Type 0} (o : Option A) → is_some o ≡ false → o ≡ none
is_some-none none e = refl
is_some-none (some a) e = cc

-- The allocation is retired and no other is; no server was shown, and the tables that are left show no
-- resource of the allocation that is thought to exist.
pub record DestroysEmpty (c : Completion) (allocation : Allocation) (s t : State) : Type 0 where
  pub unshown : c.server ≡ none
  pub retired : retirements t ≡ map (retired_if (λ id _. id == allocation.id) c.now) (retirements s)
  pub resources :
      any
        (λ (r : OwnedResource). r.allocation_id == allocation.id && is_none r.absent_at)
        t.resources
      ≡ false

abbrev written : State → Result State → State
written s (ok t) = t
written s (err e) = s

ended-DestroysEmpty :
    (c : Completion) (allocation : Allocation) (s t : State)
    → DestroysEmpty c allocation s t
    → DestroysEmpty c allocation s
        (ended c.operation (OperationProgress.succeeded c.now) AuditEvent.operation_succeeded t)
ended-DestroysEmpty c allocation s t d = record {
  unshown = d.unshown;
  retired = d.retired;
  resources = d.resources;
}

finish_destroy-DestroysEmpty :
    (c : Completion) (allocation : Allocation) (s t : State)
    → finish_destroy c allocation s ≡ ok t
    → DestroysEmpty c allocation s t
unfolding finish_destroy
finish_destroy-DestroysEmpty c allocation s t h =
    ok-bind (forbid (is_some c.server) ErrorCode.provider_outcome_unknown) _ h λ _ shown h1.
      ok-bind
        (forbid (any (is_live_of allocation.id) s.resources) ErrorCode.provider_outcome_unknown) _
        h1
        λ _ gone h2. subst (DestroysEmpty c allocation s) (ap (written s) h2) (record {
          unshown = is_some-none c.server (forbid-ok _ ErrorCode.provider_outcome_unknown shown);
          retired = retirements-update (λ id _. id == allocation.id) c.now s.allocations;
          resources = forbid-ok _ ErrorCode.provider_outcome_unknown gone;
        })

finish_operation-DestroysEmpty :
    (c : Completion) (s t : State) (allocation : Allocation)
    → (c.operation.kind == OperationKind.destroy) ≡ true
    → find (is_reservation c.machine.id) s.allocations ≡ some allocation
    → finish_operation c s ≡ ok (tt, t)
    → DestroysEmpty c allocation s t
unfolding finish_operation
finish_operation-DestroysEmpty c s t allocation destroys reserved h =
    ok-bind (row_or (find (is_reservation c.machine.id) s.allocations) ErrorCode.internal_error) _ h
      λ found row h1.
        ok-bind
          (if c.operation.kind == OperationKind.destroy
            then finish_destroy c found s
            else finish_server c found c.server s)
          _ h1
          λ mid finished h2.
            subst (λ a. DestroysEmpty c a s t)
              (same_row (sym (row_or-ok _ ErrorCode.internal_error row) ∙ reserved))
              (subst (DestroysEmpty c found s) (ap (λ r. committed r s) h2) (
                ended-DestroysEmpty c found s mid (
                  finish_destroy-DestroysEmpty c found s mid (
                    subst
                      (λ b.
                        (if b then finish_destroy c found s else finish_server c found c.server s)
                        ≡ ok mid)
                      destroys finished))))
  where
    row_of : Option Allocation → Allocation
    row_of none = allocation
    row_of (some a) = a

    same_row : {a b : Allocation} → some a ≡ some b → a ≡ b
    same_row e = ap row_of e

follow-DestroysEmpty :
    (c : Completion) (verdict : Verdict) (s t : State) (allocation : Allocation)
    → (c.operation.kind == OperationKind.destroy) ≡ true
    → find (is_reservation c.machine.id) s.allocations ≡ some allocation
    → follow c verdict s ≡ ok (tt, t)
    → KeepsRetirements s t ⊎ DestroysEmpty c allocation s t
unfolding follow
follow-DestroysEmpty c Verdict.superseded s t allocation destroys reserved h =
    inl (subst (KeepsRetirements s) (ap (λ r. committed r s) h) refl)
follow-DestroysEmpty c Verdict.expired s t allocation destroys reserved h = inl (
    subst (KeepsRetirements s) (ap (λ r. committed r s) h)
      (ap (map retirement) (write_progress-allocations c.operation _ s)))
follow-DestroysEmpty c Verdict.proceed s t allocation destroys reserved h =
    inr (finish_operation-DestroysEmpty c s t allocation destroys reserved h)

-- The completion of a destroy operation gives an allocation up only when nothing is left of it: if it
-- commits, then either no allocation's retirement has changed, or no server was shown, the live allocation
-- of the machine is retired and no other is, and the tables that are left show no resource of that
-- allocation that is thought to exist.
pub commit_completion-RetiresOnlyEmpty :
    (c : Completion) (s t : State) (allocation : Allocation)
    → (c.operation.kind == OperationKind.destroy) ≡ true
    → find (is_reservation c.machine.id) s.allocations ≡ some allocation
    → commit_completion c s ≡ ok (tt, t)
    → KeepsRetirements s t ⊎ DestroysEmpty c allocation s t
unfolding commit_completion
commit_completion-RetiresOnlyEmpty c s t allocation destroys reserved h =
    ok-bind (check_runtime c c.verification s) _ h
      λ verdict _. follow-DestroysEmpty c verdict s t allocation destroys reserved
