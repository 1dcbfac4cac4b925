-- ===== src/Journal/Claims.antt =====
-- What the ledger of owned resources guarantees.
use agent_cloud.Base.{
  ℕ, List, [], ◌∷◌, ◌++◌, Option, none, some, Bool, true, false, ◌≡◌, ◌≢◌, refl, sym, ap, subst,
  ◌∙◌, inl, inr, ◌==◌, nat_eq, nat_eqb_iff, option_eq, any, find, is_some, Bool-cases, find_sound,
  arith, ⊤,
}
use agent_cloud.Base.Tables.{find-update-some}
use agent_cloud.Base.Result.{Result, ok, err, throw, ok-bind, row_or, row_or-ok, forbid, forbid-ok}
use agent_cloud.Contracts.Errors.{ErrorCode}
use agent_cloud.Contracts.Catalog.{provider_kind_eq}
use agent_cloud.Contracts.Provider.{Labels, ResourceRef, resource_kind_eq}
use agent_cloud.Store.{Allocation, OwnedResource, State}
use agent_cloud.Journal.Resources.{
  is_resource, new_resource, insert_resource, is_bound_elsewhere, claim_resource, is_live_resource,
  record_absence,
}

any-find : {A : Type 0} (p : A → Bool) (xs : List A) {a : A} → find p xs ≡ some a → any p xs ≡ true
any-find p [] h = cc
any-find p (x ∷ xs) h = elim (Bool-cases (p x)) [
  | inl e ↦ rw e refl
  | inr e ↦ rw e (any-find p xs (rw e at h))
]

-- A resource that stands in the ledger for the allocation, and has not been seen to be gone.
pub record IsHeld (allocation : Allocation) (resource : ResourceRef)
    (resources : List OwnedResource) : Type 0 where
  pub row : OwnedResource
  pub found : find (is_resource allocation resource) resources ≡ some row
  pub allocation_id : row.allocation_id ≡ allocation.id
  pub account_id : row.account_id ≡ allocation.account_id
  pub present : row.absent_at ≡ none

abbrev resources_of : Result (⊤ × State) → List OwnedResource
resources_of (ok (_, s)) = s.resources
resources_of (err _) = []

is_some-none : {A : Type 0} (o : Option A) → is_some o ≡ false → o ≡ none
is_some-none none h = refl
is_some-none (some a) h = cc

-- The rows after an insertion: the same, or one more.
insert_resource-Kept :
    (row : OwnedResource) (same : OwnedResource → Bool) (rows : List OwnedResource)
    → (added : List OwnedResource) × (insert_resource row same rows ≡ rows ++ added)
unfolding insert_resource
insert_resource-Kept row same rows = elim (Bool-cases (any same rows)) [
  | inl e ↦ rw e ([], sym (append_nil rows))
  | inr e ↦ rw e (row ∷ [], refl)
]
  where
    append_nil : (xs : List OwnedResource) → xs ++ [] ≡ xs
    append_nil [] = refl
    append_nil (x ∷ xs) = ap (λ ys. x ∷ ys) (append_nil xs)

-- A claim that succeeds leaves the resource held by its allocation, and every row that was there
-- unchanged.
pub claim_resource-IsHeld :
    (allocation : Allocation) (resource : ResourceRef) (labels : Labels) (s t : State)
    → claim_resource allocation resource labels s ≡ ok (tt, t)
    → IsHeld allocation resource t.resources
      × ((added : List OwnedResource) × (t.resources ≡ s.resources ++ added))
unfolding claim_resource
claim_resource-IsHeld allocation resource labels s t h =
    let same = is_resource allocation resource in
    let fresh = new_resource allocation resource labels in
    let rows = insert_resource fresh same s.resources in
    ok-bind (row_or (find same rows) ErrorCode.provider_outcome_unknown) _ h λ row found h1.
      ok-bind (forbid (is_bound_elsewhere allocation row) ErrorCode.provider_outcome_unknown) _ h1
        λ _ free h2.
          let bound =
            forbid-ok (is_bound_elsewhere allocation row) ErrorCode.provider_outcome_unknown free in
          let (added, kept) = insert_resource-Kept fresh same s.resources in
          let now : rows ≡ t.resources = ap resources_of h2 in
          (
            record {
              row = row;
              found =
                  subst (λ xs. find same xs ≡ some row) now
                    (row_or-ok _ ErrorCode.provider_outcome_unknown found);
              allocation_id = ground arith;
              account_id = ground arith;
              present = is_some-none row.absent_at (ground arith);
            },
            (added, sym now ∙ kept),
          )

-- A claim of a resource that stands in the ledger is decided by its row.
claim_resource-found :
    (allocation : Allocation) (resource : ResourceRef) (labels : Labels) (s : State)
    (row : OwnedResource)
    → find (is_resource allocation resource) s.resources ≡ some row
    → is_bound_elsewhere allocation row ≡ true
    → claim_resource allocation resource labels s ≡ throw ErrorCode.provider_outcome_unknown
unfolding claim_resource insert_resource
claim_resource-found allocation resource labels s row found bound =
    rw (any-find (is_resource allocation resource) s.resources found, found, bound) refl

-- A resource that one allocation holds cannot be claimed by another of the same provider.
pub claim_resource-IsHeld_error :
    (holder other : Allocation) (resource : ResourceRef) (labels : Labels) (s : State)
    → IsHeld holder resource s.resources
    → other.provider ≡ holder.provider
    → other.id ≢ holder.id
    → claim_resource other resource labels s ≡ throw ErrorCode.provider_outcome_unknown
claim_resource-IsHeld_error holder other resource labels s held same differ =
    let found : find (is_resource other resource) s.resources ≡ some held.row =
      ap (λ p. find (is_resource (record holder { provider = p }) resource) s.resources) same
      ∙ held.found in
    claim_resource-found other resource labels s held.row found
      (elim (Bool-cases (held.row.allocation_id == other.id)) [
        | inl e ↦
            absurd (
              differ (sym ((nat_eqb_iff held.row.allocation_id other.id).0 e) ∙ held.allocation_id))
        | inr e ↦ rw e refl
      ])

find-any :
    {A : Type 0} (p q : A → Bool) (xs : List A) (a : A)
    → find p xs ≡ some a
    → q a ≡ true
    → any q xs ≡ true
find-any p q [] a h e = cc
find-any p q (x ∷ xs) a h e = elim (Bool-cases (p x)) [
  | inl d ↦
      let here : some x ≡ some a = rw d at h in
      let same : x ≡ a = cc here in rw (subst (λ y. q y ≡ true) (sym same) e) refl
  | inr d ↦ elim (Bool-cases (q x)) [
    | inl c ↦ rw c refl
    | inr c ↦ rw c (find-any p q xs a (rw d at h) e)
  ]
]

-- A row that is not live for the allocation is bound elsewhere, or is known to be gone.
not_live-bound :
    (allocation : Allocation) (resource : ResourceRef) (row : OwnedResource)
    → is_resource allocation resource row ≡ true
    → is_live_resource allocation resource row ≡ false
    → is_bound_elsewhere allocation row ≡ true
not_live-bound allocation resource row named dead =
    elim (Bool-cases (is_bound_elsewhere allocation row)) [ inl e ↦ e | inr e ↦ ground arith ]

-- Once `recordAbsence` has run on a resource that stands in the ledger, the allocation cannot claim it:
-- an absence is final.
pub claim_resource-record_absence :
    (now : ℕ) (allocation : Allocation) (resource : ResourceRef) (labels : Labels) (s : State)
    (row : OwnedResource)
    → find (is_resource allocation resource) s.resources ≡ some row
    → claim_resource allocation resource labels (record_absence now allocation resource s)
      ≡ throw ErrorCode.provider_outcome_unknown
unfolding record_absence
claim_resource-record_absence now allocation resource labels s row found =
    let live = is_live_resource allocation resource in
    let mark : OwnedResource → OwnedResource = λ r. record r { absent_at = some now } in
    let named = find_sound (is_resource allocation resource) s.resources found in
    elim (Bool-cases (live row)) [
      | inl l ↦ rw (find-any (is_resource allocation resource) live s.resources row found l) (
          claim_resource-found allocation resource labels _ (mark row)
            (find-update-some (is_resource allocation resource) live mark s.resources (λ a. refl)
                found
              ∙ rw l refl)
            (ground arith))
      | inr d ↦ elim (Bool-cases (any live s.resources)) [
        | inl a ↦ rw a (
            claim_resource-found allocation resource labels _ row
              (find-update-some (is_resource allocation resource) live mark s.resources (λ a. refl)
                  found
                ∙ rw d refl)
              (not_live-bound allocation resource row named d))
        | inr a ↦ rw a (
            claim_resource-found allocation resource labels s row found
              (not_live-bound allocation resource row named d))
      ]
    ]
