-- ===== src/Domain/Outbox.antt =====
-- internal/domain/outbox.go, event.go, payment_events.go: what the outbox and the event log hold.
use ptrans.Prelude.{ℕ, String, Option}
use ptrans.Prelude.Int.{ℤ}
use ptrans.Domain.Errors.{Time}
use ptrans.Domain.Payment.{PaymentStatus}
use ptrans.Domain.Refund.{Refund}

-- The Go constants, and the kinds that the trigger on `refunds` writes, such as refund.created.
pub data EventType : Type 0 where
  payment_created payment_cancelled : EventType
  subscription_created subscription_activated subscription_deactivated : EventType
  refund_event : String → EventType
  unknown_event : String → EventType

pub record PaymentCreatedPayload : Type 0 where
  pub id : String
  pub amount : ℤ
  pub currency : String
  pub idempotency_key : String
  pub status : PaymentStatus
  pub created_at : Time

pub record PaymentCancelledPayload : Type 0 where
  pub id : String
  pub cancelled_at : Time

-- The JSON of an outbox row, by the value that was marshalled into it.
pub data OutboxPayload : Type 0 where
  created : PaymentCreatedPayload → OutboxPayload
  cancelled : PaymentCancelledPayload → OutboxPayload
  refund_row : Refund → OutboxPayload

pub data OutboxStatus : Type 0 where
  pending delivered dead_letter : OutboxStatus

pub record OutboxEvent : Type 0 where
  pub id : String
  pub user_id : String
  pub event_type : EventType
  pub aggregate_type : String
  pub aggregate_id : String
  pub payload : OutboxPayload
  pub status : OutboxStatus
  pub attempts : ℕ
  pub next_attempt_at : Time
  pub locked_until : Option Time
  pub last_error : String
  pub created_at : Time
  pub updated_at : Time

pub data WebhookDeliveryStatus : Type 0 where
  succeeded failed : WebhookDeliveryStatus

pub record WebhookDelivery : Type 0 where
  pub id : String
  pub event_id : String
  pub subscription_id : String
  pub target_url : String
  pub status : WebhookDeliveryStatus
  pub http_status : ℕ
  pub error : String
  pub attempt : ℕ
  pub duration_ms : ℕ
  pub created_at : Time
