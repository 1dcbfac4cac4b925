-- ===== src/Journal/WriteAhead/Steps.antt =====
-- The steps of `journalEffect` and of `resolveEffect`: which of them are quiet.
use agent_cloud.Base.{
  ℕ, List, [], Option, none, some, ◌≡◌, refl, sym, ap, subst, ◌∙◌, ◌==◌, nat_eq, find, arith, ⊤,
}
use agent_cloud.Base.Result.{Result, ok, err, ok-bind, row_or, row_or-ok, forbid}
use agent_cloud.Base.Tables.{insert}
use agent_cloud.Contracts.Errors.{ErrorCode}
use agent_cloud.Contracts.Provider.{
  ProviderCommand, Submission, Labels, ResourceRef, resource_kind_eq,
}
use agent_cloud.Contracts.Lifecycle.{Operation, OperationProgress}
use agent_cloud.Store.{Account, Allocation, Attempt, OwnedResource, State}
use agent_cloud.Admission.Request.{parse_offer}
use agent_cloud.Store.Action.{query, lift, call, transaction}
use agent_cloud.Store.Action.Keeps.{
  IsFrame, Respects, Respects-pure, Respects-lift, Respects-query, Respects-call,
  Respects-transaction, Respects-if, Respects-bind,
}
use agent_cloud.Journal.Resources.{
  claim_resource, insert_resource, new_resource, is_resource, is_bound_elsewhere, set_server,
}
use agent_cloud.Journal.Prepare.{
  Effect, prepare_attempt, new_attempt, resource_kind, is_monetary, set_progress_of, has_id,
  authorize_effect, check_current,
}
use agent_cloud.Journal.Submit.{
  stored_offer, write_progress, set_progress, compare_price, check_price, set_outcome,
  claim_receipt,
}
use agent_cloud.Journal.WriteAhead.{IsQuiet, quiet, Evolves, Evolves-refl, Evolves-update}

abbrev journal : Result (⊤ × State) → List Attempt
journal (ok (_, s)) = s.attempts
journal (err _) = []

abbrev sent : Result (⊤ × State) → List (ℕ × ProviderCommand)
sent (ok (_, s)) = s.submitted
sent (err _) = []

-- The journal and the trace are as they were.
pub record IsUntouched (s t : State) : Type 0 where
  pub attempts : t.attempts ≡ s.attempts
  pub submitted : t.submitted ≡ s.submitted

pub untouched : IsFrame IsUntouched
untouched = record {
  stay = λ s. record { attempts = refl; submitted = refl };
  chain = λ s t u p q. record {
    attempts = q.attempts ∙ p.attempts;
    submitted = q.submitted ∙ p.submitted;
  };
  called = λ s. record { attempts = refl; submitted = refl };
}

pub IsUntouched-IsQuiet : (s t : State) → IsUntouched s t → IsQuiet s t
IsUntouched-IsQuiet s t u = record {
  attempts = subst (Evolves s.attempts) (sym u.attempts) (Evolves-refl s.attempts);
  submitted = u.submitted;
}

abbrev committed : State → Result (⊤ × State) → State
committed s (ok (_, t)) = t
committed s (err _) = s

abbrev pub claimed_rows :
    Allocation → ResourceRef → Labels → List OwnedResource → List OwnedResource
claimed_rows allocation resource labels =
    insert_resource (new_resource allocation resource labels) (is_resource allocation resource)

-- What a claim writes.
pub claim_resource-eq :
    (allocation : Allocation) (resource : ResourceRef) (labels : Labels) (s : State) {u : ⊤}
    {t : State}
    → claim_resource allocation resource labels s ≡ ok (u, t)
    → record s {
      resources = claimed_rows allocation resource labels s.resources;
      allocations = set_server allocation resource s.allocations;
    }
      ≡ t
unfolding claim_resource
claim_resource-eq allocation resource labels s {u} {t} h =
    ok-bind
      (row_or
        (find (is_resource allocation resource)
          (claimed_rows allocation resource labels s.resources))
        ErrorCode.provider_outcome_unknown)
      _ h
      λ stored _ h1.
        ok-bind (forbid (is_bound_elsewhere allocation stored) ErrorCode.provider_outcome_unknown) _
          h1 λ _ _ h2. ap (committed s) h2

pub claim_resource-IsUntouched :
    (allocation : Allocation) (resource : ResourceRef) (labels : Labels) (s : State) {u : ⊤}
    {t : State}
    → claim_resource allocation resource labels s ≡ ok (u, t)
    → IsUntouched s t
claim_resource-IsUntouched allocation resource labels s h =
    subst (IsUntouched s) (claim_resource-eq allocation resource labels s h)
      (record { attempts = refl; submitted = refl })

-- What the transaction of a submission writes.
pub prepare_attempt-writes :
    (e : Effect) (s : State) {u : ⊤} {t : State}
    → prepare_attempt e s ≡ ok (u, t)
    → record s {
      attempts = insert (new_attempt e s.attempts) s.attempts;
      operations =
          set_progress_of e.operation.id
            (OperationProgress.submitting e.new_attempt_id)
            s.operations;
    }
      ≡ t
unfolding prepare_attempt
prepare_attempt-writes e s h =
    ok-bind
      (row_or (find (λ (a : Account). a.id == e.operation.account_id) s.accounts)
        ErrorCode.internal_error)
      _ h
      λ account _ h1.
        ok-bind (row_or (find (has_id e.operation.id) s.operations) ErrorCode.internal_error) _ h1
          λ stored _ h2.
            ok-bind (authorize_effect s e account stored e.authorization) _ h2
              λ _ _ h3. ap (committed s) h3

pub prepare_attempt-eq :
    (e : Effect) (s : State) {u : ⊤} {t : State}
    → prepare_attempt e s ≡ ok (u, t)
    → (account : Account) × (stored : Operation) × (find
          (λ (a : Account). a.id == e.operation.account_id)
          s.accounts
        ≡ some account)
      × (find (has_id e.operation.id) s.operations ≡ some stored)
      × (authorize_effect s e account stored e.authorization ≡ ok tt)
      × (t.attempts ≡ insert (new_attempt e s.attempts) s.attempts)
      × (t.submitted ≡ s.submitted)
unfolding prepare_attempt
prepare_attempt-eq e s h =
    ok-bind
      (row_or (find (λ (a : Account). a.id == e.operation.account_id) s.accounts)
        ErrorCode.internal_error)
      _ h
      λ account p h1.
        ok-bind (row_or (find (has_id e.operation.id) s.operations) ErrorCode.internal_error) _ h1
          λ stored q h2.
            ok-bind (authorize_effect s e account stored e.authorization) _ h2 λ a r h3. (
              account,
              stored,
              row_or-ok _ ErrorCode.internal_error p,
              row_or-ok _ ErrorCode.internal_error q,
              r,
              sym (ap journal h3),
              sym (ap sent h3),
            )

pub set_progress-IsUntouched :
    (op : Operation) (progress : OperationProgress)
    → Respects IsUntouched (set_progress op progress)
unfolding set_progress write_progress
set_progress-IsUntouched op progress = record {
  at = λ s. record { attempts = ground arith; submitted = ground arith };
}

pub compare_price-Respects :
    {R : State → State → Type 0} (F : IsFrame R) (e : Effect) → Respects R (compare_price e)
unfolding compare_price
compare_price-Respects F e =
    Respects-bind F (query (λ s. find (has_id e.operation.id) s.operations)) _ (Respects-query F _)
      λ stored.
        Respects-bind F (lift (parse_offer (stored_offer stored))) _ (Respects-lift F _) λ offer.
          Respects-bind F (call e.provider.get_catalog) _ (Respects-call F _)
            λ catalog. Respects-lift F (check_current e.allocation offer catalog e.clock)

pub check_price-Respects :
    {R : State → State → Type 0} (F : IsFrame R) (e : Effect) → Respects R (check_price e)
unfolding check_price
check_price-Respects F e =
    Respects-if F (is_monetary e.command) _ _ (compare_price-Respects F e) (Respects-pure F _)

pub claim-IsUntouched :
    (allocation : Allocation) (resource : ResourceRef) (labels : Labels)
    → Respects IsUntouched (transaction (claim_resource allocation resource labels))
claim-IsUntouched allocation resource labels =
    Respects-transaction untouched _
      λ s u t h. claim_resource-IsUntouched allocation resource labels s h

claim-IsQuiet :
    (allocation : Allocation) (resource : ResourceRef) (labels : Labels)
    → Respects IsQuiet (transaction (claim_resource allocation resource labels))
claim-IsQuiet allocation resource labels = record {
  at = λ s. IsUntouched-IsQuiet s _ ((claim-IsUntouched allocation resource labels).at s);
}

pub claim_receipt-IsQuiet :
    (allocation : Allocation) (command : ProviderCommand) (resource : Option ResourceRef)
    (labels : Option Labels)
    → Respects IsQuiet (claim_receipt allocation command resource labels)
unfolding claim_receipt
claim_receipt-IsQuiet allocation command (some resource) (some labels) =
    Respects-if quiet (resource.kind == resource_kind command) _ _
      (claim-IsQuiet allocation resource labels) (Respects-pure quiet _)
claim_receipt-IsQuiet allocation command (some resource) none = Respects-pure quiet _
claim_receipt-IsQuiet allocation command none labels = Respects-pure quiet _

pub set_outcome-IsQuiet :
    (id : ℕ) (outcome : Submission) (s : State) → IsQuiet s (set_outcome id outcome s)
set_outcome-IsQuiet id outcome s = record {
  attempts = Evolves-update _ _ s.attempts λ a. record {
    id = refl;
    account_id = refl;
    operation_id = refl;
    sequence = refl;
    command = refl;
    created_at = refl;
  };
  submitted = refl;
}
