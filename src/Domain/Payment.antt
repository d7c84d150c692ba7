-- ===== src/Domain/Payment.antt =====
-- internal/domain/payment.go.
use ptrans.Prelude.{String, Bool, true, false, str_eq}
use ptrans.Prelude.Int.{ℤ}
use ptrans.Domain.Errors.{Time}

-- A status is a string: any other text is `invalid`.
pub data PaymentStatus : Type 0 where
  pending processing succeeded failed cancelled : PaymentStatus
  invalid : String → PaymentStatus

abbrev pub status_eq : PaymentStatus → PaymentStatus → Bool
status_eq pending pending = true
status_eq processing processing = true
status_eq succeeded succeeded = true
status_eq failed failed = true
status_eq cancelled cancelled = true
status_eq (invalid s) (invalid t) = str_eq s t
status_eq _ _ = false

pub record Payment : Type 0 where
  pub id : String
  pub amount : ℤ
  pub currency : String
  pub status : PaymentStatus
  pub idempotency_key : String
  pub created_at : Time
  pub updated_at : Time
