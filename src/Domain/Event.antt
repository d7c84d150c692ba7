-- ===== src/Domain/Event.antt =====
-- internal/domain/event.go and webhook_events.go: events of the log, payloads of subscriptions.
use ptrans.Prelude.{String, Bool}
use ptrans.Domain.Errors.{Time}
use ptrans.Domain.Outbox.{EventType}

-- `payload` is the raw JSON.
pub record Event : Type 0 where
  pub event_id : String
  pub aggregate_type : String
  pub aggregate_id : String
  pub event_type : EventType
  pub timestamp : Time
  pub payload : String

pub record WebhookSubscriptionCreatedPayload : Type 0 where
  pub id : String
  pub url : String
  pub active : Bool
  pub created_at : Time

pub record WebhookSubscriptionActivatedPayload : Type 0 where
  pub id : String
  pub activated_at : Time

pub record WebhookSubscriptionDeactivatedPayload : Type 0 where
  pub id : String
  pub deactivated_at : Time
