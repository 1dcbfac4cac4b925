-- ===== src/Contracts/Errors.antt =====
-- packages/contracts/src/errors.ts. A failure's message is for people and is left out.
use Prim.Native.Nat.{ℕ}
use mathlib.Core.Bool.{Bool}

pub data ErrorCode : Type 0 where
  invalid_input unauthenticated permission_denied not_found idempotency_conflict : ErrorCode
  resource_busy version_conflict quota_exceeded budget_exceeded : ErrorCode
  capacity_unavailable provider_rejected provider_outcome_unknown : ErrorCode
  provider_unavailable guest_unreachable data_loss_not_authorized internal_error : ErrorCode

pub record Failure : Type 0 where
  pub code : ErrorCode
  pub retryable : Bool

-- `errorStatus`, the HTTP status of a code.
unfoldable pub error_status : ErrorCode → ℕ
error_status ErrorCode.invalid_input = 400
error_status ErrorCode.unauthenticated = 401
error_status ErrorCode.permission_denied = 403
error_status ErrorCode.data_loss_not_authorized = 403
error_status ErrorCode.not_found = 404
error_status ErrorCode.idempotency_conflict = 409
error_status ErrorCode.resource_busy = 409
error_status ErrorCode.version_conflict = 409
error_status ErrorCode.budget_exceeded = 409
error_status ErrorCode.provider_rejected = 409
error_status ErrorCode.provider_outcome_unknown = 409
error_status ErrorCode.quota_exceeded = 429
error_status ErrorCode.capacity_unavailable = 503
error_status ErrorCode.provider_unavailable = 503
error_status ErrorCode.guest_unreachable = 503
error_status ErrorCode.internal_error = 500
