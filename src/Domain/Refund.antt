-- ===== src/Domain/Refund.antt =====
-- internal/domain/refund.go: refunds, their statuses and the transitions between them.
use ptrans.Prelude.{
  ℕ, String, Bool, true, false, ◌&&◌, ◌||◌, Option, none, some, str_eq, if◌then◌else◌,
}
use ptrans.Prelude.Int.{ℤ}
use ptrans.Domain.Errors.{Error, invalid_refund_state, Time}

-- A status is a string: any other text is `invalid`.
pub data RefundStatus : Type 0 where
  pending processing succeeded failed : RefundStatus
  invalid : String → RefundStatus

abbrev pub status_eq : RefundStatus → RefundStatus → Bool
status_eq pending pending = true
status_eq processing processing = true
status_eq succeeded succeeded = true
status_eq failed failed = true
status_eq (invalid s) (invalid t) = str_eq s t
status_eq _ _ = false

-- `none` is the nil error.
unfoldable pub validate_refund_transition : RefundStatus → RefundStatus → Option Error
validate_refund_transition from to =
    if (status_eq from pending && status_eq to processing)
      || (status_eq from processing && (status_eq to succeeded || status_eq to failed))
      || (status_eq from failed && status_eq to processing)
    then none
    else some invalid_refund_state

unfoldable pub is_refund_status : RefundStatus → Bool
is_refund_status s =
    status_eq s pending || status_eq s processing || status_eq s succeeded || status_eq s failed

pub record Refund : Type 0 where
  pub id : String
  pub user_id : String
  pub payment_id : String
  pub amount : ℤ
  pub currency : String
  pub status : RefundStatus
  pub idempotency_key : String
  pub request_hash : String
  pub attempts : ℕ
  pub check_failures : ℕ
  pub retryable : Bool
  pub manual_review : Bool
  pub last_error : String
  pub next_action_at : Time
  pub processing_started_at : Option Time
  pub lease_token : String
  pub lease_until : Option Time
  pub version : ℕ
  pub created_at : Time
  pub updated_at : Time

pub record ReconciliationResult : Type 0 where
  pub id : String
  pub operation_id : String
  pub local_status : RefundStatus
  pub external_status : String
  pub result : String
  pub detail : String
  pub checked_at : Time
