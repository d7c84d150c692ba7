-- ===== src/Domain/Errors.antt =====
-- internal/domain/errors.go and the errors of internal/domain/refund.go; times and durations.
use ptrans.Prelude.{ℕ, String, ◌+◌, ◌-◌}
use ptrans.Prelude.Int.{ℤ, pos_part, neg_part}

-- The sentinel errors; `other` is any error made by `fmt.Errorf` or returned by a library.
pub data Error : Type 0 where
  payment_not_found subscription_not_found invalid_payment_state invalid_status_filter : Error
  invalid_pagination invalid_amount invalid_currency invalid_webhook_url : Error
  idempotency_conflict user_id_required : Error
  refund_not_found invalid_refund_state refund_amount_exceeded : Error
  idempotency_key_required lease_lost : Error
  other : String → Error

-- The text of an error.
unfoldable pub error_message : Error → String
error_message payment_not_found = "payment not found"
error_message subscription_not_found = "subscription not found"
error_message invalid_payment_state = "invalid payment state"
error_message invalid_status_filter = "invalid status filter"
error_message invalid_pagination = "invalid pagination"
error_message invalid_amount = "invalid amount"
error_message invalid_currency = "invalid currency"
error_message invalid_webhook_url = "invalid webhook url"
error_message idempotency_conflict = "idempotency key already used with different payload"
error_message user_id_required = "authenticated user is required"
error_message refund_not_found = "refund not found"
error_message invalid_refund_state = "invalid refund state"
error_message refund_amount_exceeded = "refund amount exceeds available payment amount"
error_message idempotency_key_required =
    "Idempotency-Key is required and must be at most 128 characters"
error_message lease_lost = "refund lease lost"
error_message (other text) = text

pub data Result {ℓ} (A : Type ℓ) : Type ℓ where
  ok : A → Result A
  err : Error → Result A

abbrev pub Time : Type 0
Time = ℕ

abbrev pub Duration : Type 0
Duration = ℤ

-- `t.Add(d)`; no instant lies before the zero time.
abbrev pub add_time : Time → Duration → Time
add_time t d = t + pos_part d - neg_part d
