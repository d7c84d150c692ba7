-- ===== src/Delivery/Processing.antt =====
-- `processEvent`, `failEvent` and `ProcessOnce` of internal/worker/worker.go over the store.
pub mod AtLeastOnce
pub mod Marked
use Prim.Native.String.{◌++◌ as str_append}
use ptrans.Prelude.{
  ℕ, suc, String, Bool, true, false, ◌&&◌, not, Option, none, some, List, [], ◌∷◌, str_eq,
  if◌then◌else◌, keep, length,
}
use ptrans.Prelude.Int.{ℤ, pos, leb_ℤ}
use ptrans.Domain.Errors.{Error, Result, ok, err, Time, add_time, error_message}
use ptrans.Domain.Outbox.{OutboxEvent, WebhookDelivery}
use ptrans.Domain.Webhook.{WebhookSubscription}
use ptrans.Storage.Schema.{Store, Faults, Action, continue, after}
use ptrans.Storage.Subscriptions.{list_subscriptions}
use ptrans.Storage.Outbox.{
  fetch_due_outbox_events, list_delivered_subscription_ids, record_webhook_delivery,
  mark_outbox_event_delivered, schedule_outbox_event_retry, mark_outbox_event_dead_letter,
}
use ptrans.Delivery.{Options}
use ptrans.Delivery.Backoff.{backoff}
use ptrans.Delivery.Sending.{World, DeliveryResult, send_webhook, delivery_of}

-- What happens around the processing of one event: the faults of each database call, the times and
-- ids that are read, and the receivers.
pub record Around : Type 0 where
  pub schema_io : Faults
  pub listing_io : Faults
  pub delivered_io : Faults
  pub record_io : ℕ → Faults
  pub end_io : Faults
  pub clock : ℕ → Time
  pub end_time : Time
  pub delivery_id : ℕ → String
  pub world : World
  pub by_created : List WebhookSubscription → List WebhookSubscription

-- `failEvent`
unfoldable pub fail_event : Options → Around → OutboxEvent → String → Action Unit
fail_event o a e message =
    if leb_ℤ o.max_attempts (pos e.attempts)
    then mark_outbox_event_dead_letter a.end_io e.id message a.end_time
    else schedule_outbox_event_retry a.end_io e.id
        (add_time a.end_time (backoff e.attempts o.initial_backoff o.max_backoff)) message
        a.end_time

abbrev pub failure_text : WebhookSubscription → String → String
failure_text t error =
    str_append "subscription="
      (str_append t.id (str_append " url=" (str_append t.url (str_append " error=" error))))

-- `strings.Join(failures, "; ")`
unfoldable pub join : List String → String
join [] = ""
join (f ∷ []) = f
join (f ∷ g ∷ gs) = str_append f (str_append "; " (join (g ∷ gs)))

unfoldable pub add_failure :
    WebhookSubscription
    → Option String
    → Result (List String) × Store
    → Result (List String) × Store
add_failure t none r = r
add_failure t (some error) (ok fs, s) = (ok (failure_text t error ∷ fs), s)
add_failure t (some error) (err x, s) = (err x, s)

-- The loop over the targets, from the `n`-th on, with the failures in order.
unfoldable pub send_all : Around → OutboxEvent → ℕ → List WebhookSubscription → Action (List String)
unfolding add_failure
send_all a e n [] s = (ok [], s)
send_all a e n (t ∷ ts) s =
    let r = send_webhook a.world e t in
    continue
      (record_webhook_delivery (a.record_io n) (delivery_of (a.delivery_id n) (a.clock n) e t r) s)
      (λ _ s'. add_failure t r.error (send_all a e (suc n) ts s'))

unfoldable pub finish_event :
    Options → Around → OutboxEvent → Result (List String) × Store → Result (Unit {0}) × Store
unfolding fail_event join
finish_event o a e (err x, s) = (err x, s)
finish_event o a e (ok [], s) = mark_outbox_event_delivered a.end_io e.id a.end_time s
finish_event o a e (ok (f ∷ fs), s) = fail_event o a e (join (f ∷ fs)) s

abbrev pub is_target : (String → Bool) → WebhookSubscription → Bool
is_target seen t = t.active && not (seen t.id)

-- With no target left the event is marked at once, as after a loop without failures.
unfoldable pub deliver : Options → Around → OutboxEvent → List WebhookSubscription → Action Unit
unfolding finish_event send_all
deliver o a e [] s = mark_outbox_event_delivered a.end_io e.id a.end_time s
deliver o a e (t ∷ ts) s = finish_event o a e (send_all a e 0 (t ∷ ts) s)

unfoldable pub with_delivered :
    Options
    → Around
    → OutboxEvent
    → List WebhookSubscription
    → Result (String → Bool) × Store
    → Result (Unit {0}) × Store
unfolding deliver fail_event
with_delivered o a e subs (err x, s) =
    fail_event o a e (str_append "list delivered subscriptions: " (error_message x)) s
with_delivered o a e subs (ok seen, s) = deliver o a e (keep (is_target seen) subs) s

unfoldable pub with_subscriptions :
    Options
    → Around
    → OutboxEvent
    → Result (List WebhookSubscription) × Store
    → Result (Unit {0}) × Store
unfolding with_delivered fail_event
with_subscriptions o a e (err x, s) =
    fail_event o a e (str_append "list active subscriptions: " (error_message x)) s
with_subscriptions o a e (ok subs, s) =
    with_delivered o a e subs (list_delivered_subscription_ids a.delivered_io e.id s)

module _ (sha256_hex : String → String) where
  unfoldable pub process_event : Options → Around → OutboxEvent → Action Unit
  unfolding with_subscriptions
  process_event o a e s =
      with_subscriptions o a e
        (list_subscriptions sha256_hex a.by_created a.schema_io a.listing_io e.user_id s)

  -- The errors of single events are only logged.
  unfoldable pub process_events : Options → (ℕ → Around) → ℕ → List OutboxEvent → Store → Store
  unfolding process_event
  process_events o a n [] s = s
  process_events o a n (e ∷ es) s = process_events o a (suc n) es (process_event o (a n) e s).1

  unfoldable pub process_once :
      Options
      → (List OutboxEvent → List OutboxEvent)
      → (OutboxEvent → Bool)
      → Faults
      → Time
      → (ℕ → Around)
      → Action ℕ
  unfolding process_events
  process_once o order locked io now a =
      after (fetch_due_outbox_events order locked io o.batch_size now o.lock_for)
        (λ events s. (ok (length events), process_events o a 0 events s))
