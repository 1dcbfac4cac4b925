-- ===== src/Journal/Resources.antt =====
-- apps/control/src/resource-journal.ts. Keys and fixed texts of labels are numbers, like all texts.
use agent_cloud.Base.{
  ℕ, List, [], ◌∷◌, Bool, none, some, ◌&&◌, ◌||◌, ◌==◌, ◌!=◌, nat_eq, option_eq, if◌then◌else◌, any,
  all, find, is_some, is_none, ⊤,
}
use agent_cloud.Base.Tables.{insert, update}
use agent_cloud.Base.Result.{Result, ok, row_or, forbid, ◌>>=◌, ◌>>◌}
use agent_cloud.Contracts.Errors.{ErrorCode}
use agent_cloud.Contracts.Catalog.{provider_kind_eq}
use agent_cloud.Contracts.Provider.{Labels, lookup, ResourceRef, ResourceKind, resource_kind_eq}
use agent_cloud.Contracts.Lifecycle.{Operation}
use agent_cloud.Store.{Allocation, OwnedResource, State, AuditEvent}

-- The keys `managed_by`, `account_id`, `machine_id`, `allocation_id` and `operation_id`, and the value
-- 'agent-cloud'.
abbrev pub managed_by_key : ℕ
managed_by_key = 0

abbrev pub account_id_key : ℕ
account_id_key = 1

abbrev pub machine_id_key : ℕ
machine_id_key = 2

abbrev pub allocation_id_key : ℕ
allocation_id_key = 3

abbrev pub operation_id_key : ℕ
operation_id_key = 4

abbrev pub agent_cloud_text : ℕ
agent_cloud_text = 0

unfoldable pub allocation_labels : Operation → Allocation → Labels
allocation_labels operation allocation =
    (managed_by_key, agent_cloud_text)
    ∷ (account_id_key, operation.account_id)
    ∷ (machine_id_key, operation.machine_id)
    ∷ (allocation_id_key, allocation.id)
    ∷ []

-- The spread copies every label of the allocation; the operation's key is a new one.
unfoldable pub effect_labels : Operation → Allocation → Labels
unfolding allocation_labels
effect_labels operation allocation =
    (operation_id_key, operation.id) ∷ allocation_labels operation allocation

abbrev pub has_label : Labels → ℕ × ℕ → Bool
has_label value (key, label) = lookup key value == some label

unfoldable pub matches_labels : (value expected : Labels) → Bool
matches_labels value expected = all (has_label value) expected

abbrev pub owned_ref : OwnedResource → ResourceRef
owned_ref resource = record { kind = resource.kind; id = resource.provider_id }

-- The primary key of `provider_resources`.
abbrev pub is_resource : Allocation → ResourceRef → OwnedResource → Bool
is_resource allocation resource row =
    row.provider == allocation.provider
    && row.kind == resource.kind
    && row.provider_id == resource.id

abbrev pub new_resource : Allocation → ResourceRef → Labels → OwnedResource
new_resource allocation resource labels = record {
  provider = allocation.provider;
  kind = resource.kind;
  provider_id = resource.id;
  account_id = allocation.account_id;
  allocation_id = allocation.id;
  labels = labels;
  absent_at = none;
}

-- `INSERT … ON CONFLICT DO NOTHING`
unfoldable pub insert_resource :
    OwnedResource → (OwnedResource → Bool) → List OwnedResource → List OwnedResource
insert_resource row same rows = if any same rows then rows else insert row rows

abbrev pub is_bound_elsewhere : Allocation → OwnedResource → Bool
is_bound_elsewhere allocation stored =
    stored.allocation_id != allocation.id
    || stored.account_id != allocation.account_id
    || is_some stored.absent_at

-- The write that ends a claim: an allocation's server is the last one that was claimed for it.
abbrev pub set_server : Allocation → ResourceRef → List Allocation → List Allocation
set_server allocation resource allocations =
    if resource.kind == ResourceKind.server
    then update (λ (a : Allocation). a.id == allocation.id)
        (λ a. record a { server_id = some resource.id }) allocations
    else allocations

-- `claimResource`. When it throws it has written nothing.
unfoldable pub claim_resource : Allocation → ResourceRef → Labels → State → Result (⊤ × State)
unfolding insert_resource
claim_resource allocation resource labels s =
    let rows =
      insert_resource (new_resource allocation resource labels) (is_resource allocation resource)
        s.resources in
    do
      stored ←
          row_or (find (is_resource allocation resource) rows) ErrorCode.provider_outcome_unknown
      forbid (is_bound_elsewhere allocation stored) ErrorCode.provider_outcome_unknown
      ok (
        tt,
        record s { resources = rows; allocations = set_server allocation resource s.allocations },
      )

-- The rows that `recordAbsence` changes.
abbrev pub is_live_resource : Allocation → ResourceRef → OwnedResource → Bool
is_live_resource allocation resource row =
    is_resource allocation resource row
    && row.allocation_id == allocation.id
    && row.account_id == allocation.account_id
    && is_none row.absent_at

unfoldable pub record_absence : (now : ℕ) → Allocation → ResourceRef → State → State
record_absence now allocation resource s =
    if any (is_live_resource allocation resource) s.resources
    then record s {
      resources =
          update (is_live_resource allocation resource)
            (λ (r : OwnedResource). record r { absent_at = some now }) s.resources;
      audit =
          insert
            (record {
              account_id = allocation.account_id;
              subject_id = allocation.id;
              event = AuditEvent.absence_confirmed resource;
            })
            s.audit;
    }
    else s
