-- ===== src/Examples/Ledger.antt =====
-- Runs of the ledger of owned resources.
use agent_cloud.Base.{arith, List, [], ◌∷◌, ◌++◌, ◌≡◌, refl, ⊤}
use agent_cloud.Base.Result.{Result, ok, err, throw}
use agent_cloud.Contracts.Errors.{ErrorCode}
use agent_cloud.Store.{Allocation, OwnedResource, State}
use agent_cloud.Journal.Resources.{new_resource, claim_resource, record_absence}
use agent_cloud.Journal.Claims.{
  IsHeld, claim_resource-IsHeld, claim_resource-IsHeld_error, claim_resource-record_absence,
}
use agent_cloud.Examples.Data.{admitted, allocation, server_ref, labels}

abbrev row : OwnedResource
row = new_resource allocation server_ref labels

abbrev owned : State
owned = record admitted { resources = row ∷ [] }

abbrev state_of : Result (⊤ × State) → State
state_of (ok (_, s)) = s
state_of (err _) = admitted

abbrev claimed : State
claimed = state_of (claim_resource allocation server_ref labels admitted)

abbrev other : Allocation
other = record allocation { id = 34 }

claim_resource-IsHeld_example :
    IsHeld allocation server_ref claimed.resources
    × ((added : List OwnedResource) × (claimed.resources ≡ [] ++ added))
unfolding claim_resource
claim_resource-IsHeld_example =
    claim_resource-IsHeld allocation server_ref labels admitted claimed refl

claim_resource-IsHeld_error_example :
    claim_resource other server_ref labels owned ≡ throw ErrorCode.provider_outcome_unknown
claim_resource-IsHeld_error_example =
    claim_resource-IsHeld_error allocation other server_ref labels owned
      (record { row = row; found = refl; allocation_id = refl; account_id = refl; present = refl })
      refl (ground arith)

claim_resource-record_absence_example :
    claim_resource allocation server_ref labels (record_absence 40 allocation server_ref owned)
    ≡ throw ErrorCode.provider_outcome_unknown
claim_resource-record_absence_example =
    claim_resource-record_absence 40 allocation server_ref labels owned row refl
