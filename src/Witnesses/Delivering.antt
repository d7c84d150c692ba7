-- ===== src/Witnesses/Delivering.antt =====
-- One event for a user with one webhook, which answers 204.
use Prim.Native.Nat.{min}
use ptrans.Prelude.{◌≡◌, ◌*◌, ◌^◌, ◌-◌, true, some, [], ◌∷◌, arith}
use ptrans.Prelude.Int.{pos, negsuc}
use ptrans.Domain.Outbox.{OutboxEvent, OutboxStatus, EventType, OutboxPayload}
use ptrans.Domain.Webhook.{WebhookSubscription}
use ptrans.Storage.Schema.{Store, no_faults}
use ptrans.Delivery.{Options, normalize_options}
use ptrans.Delivery.Backoff.{backoff, backoff-eq-min, IsUsable, normalize_options-IsUsable}
use ptrans.Delivery.Sending.{Posted}
use ptrans.Delivery.Processing.{Around}
use ptrans.Witnesses.Refunding.{database}

backoff-eq-min_example : backoff 4 (pos 2) (pos 60) ≡ pos (min (2 * 2 ^ (4 - 1)) 60)
backoff-eq-min_example = backoff-eq-min 4 2 60 (omega arith) (omega arith)

abbrev options : Options
options = record {
  batch_size = pos 0;
  poll_interval = negsuc 0;
  lock_for = pos 0;
  http_timeout = pos 0;
  max_attempts = pos 3;
  initial_backoff = pos 0;
  max_backoff = pos 9;
}

normalize_options-IsUsable_example :
    IsUsable (normalize_options options)
    × (normalize_options (normalize_options options) ≡ normalize_options options)
normalize_options-IsUsable_example = normalize_options-IsUsable options

abbrev webhook : WebhookSubscription
webhook = record {
  id = "sub_1";
  url = "https://shop/hook";
  active = true;
  create_at = 1;
  updated_at = 1;
}

abbrev pub event : OutboxEvent
event = record {
  id = "evt_1";
  user_id = "ann";
  event_type = EventType.payment_cancelled;
  aggregate_type = "payment";
  aggregate_id = "pay_1";
  payload = OutboxPayload.cancelled (record { id = "pay_1"; cancelled_at = 5 });
  status = OutboxStatus.pending;
  attempts = 1;
  next_attempt_at = 5;
  locked_until = some 40;
  last_error = "";
  created_at = 5;
  updated_at = 10;
}

abbrev around : Around
around = record {
  schema_io = no_faults;
  listing_io = no_faults;
  delivered_io = no_faults;
  record_io = λ n. no_faults;
  end_io = no_faults;
  clock = λ n. 20;
  end_time = 21;
  delivery_id = λ n. "del_1";
  world = record { marshal = λ e. some "{}"; post = λ q. Posted.status_code 204 1_000_000 };
  by_created = λ subs. subs;
}

abbrev outbox_store : Store
outbox_store = record {
  db = record database { outbox = event ∷ []; webhooks = λ table. webhook ∷ [] };
  ensured_users = "ann" ∷ [];
}
