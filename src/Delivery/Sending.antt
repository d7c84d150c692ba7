-- ===== src/Delivery/Sending.antt =====
-- `sendWebhook` of internal/worker/worker.go: one POST to one subscription. Marshalling, building
-- the request and the HTTP client are the parameter `World`.
use Prim.Native.String.{◌++◌ as str_append}
use ptrans.Prelude.{ℕ, String, ◌/◌, ◌||◌, Option, none, some, ltb, leb, if◌then◌else◌}
use ptrans.Prelude.Text.{itoa}
use ptrans.Domain.Errors.{Time}
use ptrans.Domain.Outbox.{
  EventType, OutboxEvent, OutboxPayload, WebhookDelivery, WebhookDeliveryStatus,
}
use ptrans.Domain.Webhook.{WebhookSubscription}

pub record WebhookEnvelope : Type 0 where
  pub event_id : String
  pub event_type : EventType
  pub aggregate_type : String
  pub aggregate_id : String
  pub user_id : String
  pub attempt : ℕ
  pub occurred_at : Time
  pub payload : OutboxPayload

pub record WebhookRequest : Type 0 where
  pub url : String
  pub content_type : String
  pub user_agent : String
  pub event_id_header : String
  pub event_type_header : EventType
  pub body : String

-- The answer to a request, with the time that it took in nanoseconds.
pub data Posted : Type 0 where
  not_created : String → Posted
  not_sent : String → ℕ → Posted
  status_code : ℕ → ℕ → Posted

pub record World : Type 0 where
  pub marshal : WebhookEnvelope → Option String
  pub post : WebhookRequest → Posted

pub record DeliveryResult : Type 0 where
  pub http_status : ℕ
  pub duration : ℕ
  pub error : Option String

unfoldable pub envelope_of : OutboxEvent → WebhookEnvelope
envelope_of e = record {
  event_id = e.id;
  event_type = e.event_type;
  aggregate_type = e.aggregate_type;
  aggregate_id = e.aggregate_id;
  user_id = e.user_id;
  attempt = e.attempts;
  occurred_at = e.created_at;
  payload = e.payload;
}

unfoldable pub request_of : OutboxEvent → WebhookSubscription → String → WebhookRequest
request_of e target body = record {
  url = target.url;
  content_type = "application/json";
  user_agent = "PTrans-Webhooks/1.0";
  event_id_header = e.id;
  event_type_header = e.event_type;
  body = body;
}

unfoldable pub read_posted : Posted → DeliveryResult
read_posted (not_created e) = record {
  http_status = 0;
  duration = 0;
  error = some (str_append "create webhook request: " e);
}
read_posted (not_sent e duration) = record { http_status = 0; duration = duration; error = some e }
read_posted (status_code code duration) =
    if ltb code 200 || leb 300 code
    then record {
      http_status = code;
      duration = duration;
      error = some (str_append "unexpected webhook status " (itoa code));
    }
    else record { http_status = code; duration = duration; error = none }

unfoldable pub send_webhook : World → OutboxEvent → WebhookSubscription → DeliveryResult
unfolding read_posted
send_webhook w e target = elim (w.marshal (envelope_of e)) [
  | none ↦ record { http_status = 0; duration = 0; error = some "marshal webhook envelope" }
  | some body ↦ read_posted (w.post (request_of e target body))
]

unfoldable pub delivery_status : Option String → WebhookDeliveryStatus
delivery_status none = WebhookDeliveryStatus.succeeded
delivery_status (some e) = WebhookDeliveryStatus.failed

unfoldable pub error_text : Option String → String
error_text none = ""
error_text (some e) = e

-- The row that is recorded for a POST.
unfoldable pub delivery_of :
    String → Time → OutboxEvent → WebhookSubscription → DeliveryResult → WebhookDelivery
unfolding delivery_status error_text
delivery_of id now e target r = record {
  id = id;
  event_id = e.id;
  subscription_id = target.id;
  target_url = target.url;
  status = delivery_status r.error;
  http_status = r.http_status;
  error = error_text r.error;
  attempt = e.attempts;
  duration_ms = r.duration / 1_000_000;
  created_at = now;
}
