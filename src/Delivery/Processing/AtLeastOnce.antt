-- ===== src/Delivery/Processing/AtLeastOnce.antt =====
-- An event that is marked delivered has reached every active subscription of its user.
use ptrans.Prelude.{
  ℕ, suc, String, ◌≡◌, refl, ap, ◌∙◌, Bool, true, false, ◌&&◌, Option, none, some, List, [], ◌∷◌,
  arith, str_eq_self, if◌then◌else◌, All, inl, inr, Bool-cases,
}
use ptrans.Prelude.Int.{leb_ℤ, pos}
use ptrans.Domain.Errors.{Error, Result, ok, err, Time}
use ptrans.Domain.Outbox.{OutboxEvent, OutboxStatus, WebhookDelivery}
use ptrans.Domain.Webhook.{WebhookSubscription}
use ptrans.Storage.Schema.{Store, Faults, ◌>>=◌, continue}
use ptrans.Storage.Outbox.{
  has_id, delivered_to, insert_delivery, record_webhook_delivery, update_event, change_event,
  retry_columns, dead_letter_columns, schedule_outbox_event_retry, mark_outbox_event_dead_letter,
}
use ptrans.Delivery.{Options}
use ptrans.Delivery.Sending.{DeliveryResult, send_webhook, delivery_of, delivery_status}
use ptrans.Delivery.Processing.{Around, fail_event, send_all, add_failure}

abbrev pub is_delivered : OutboxStatus → Bool
is_delivered OutboxStatus.delivered = true
is_delivered _ = false

-- Some row with this id is marked delivered.
unfoldable pub marked : String → List OutboxEvent → Bool
marked id [] = false
marked id (e ∷ es) =
    let rest = marked id es in if has_id id e && is_delivered e.status then true else rest

update_event-marked :
    (id : String) (f : OutboxEvent → OutboxEvent) (es : List OutboxEvent)
    → ((e : OutboxEvent) → is_delivered (f e).status ≡ false)
    → marked id es ≡ false
    → marked id (update_event id f es) ≡ false
unfolding marked update_event
update_event-marked id f [] h m = refl
update_event-marked id f (e ∷ es) h m = ground (arith, h e, update_event-marked id f es h)

change_event-marked :
    (io : Faults) (id : String) (f : OutboxEvent → OutboxEvent) (s : Store)
    → ((e : OutboxEvent) → is_delivered (f e).status ≡ false)
    → marked id s.db.outbox ≡ false
    → marked id (change_event io id f s).1.db.outbox ≡ false
unfolding change_event ◌>>=◌
change_event-marked io id f s h m = ground (arith, update_event-marked id f s.db.outbox h m)

-- A failed event is not marked delivered.
pub fail_event-marked :
    (o : Options) (a : Around) (e : OutboxEvent) (message : String) (s : Store)
    → marked e.id s.db.outbox ≡ false
    → marked e.id (fail_event o a e message s).1.db.outbox ≡ false
unfolding fail_event schedule_outbox_event_retry mark_outbox_event_dead_letter retry_columns
    dead_letter_columns
fail_event-marked o a e message s m = elim (Bool-cases (leb_ℤ o.max_attempts (pos e.attempts))) [
  | inl c ↦ rw c (change_event-marked a.end_io e.id _ s (λ x. refl) m)
  | inr c ↦ rw c (change_event-marked a.end_io e.id _ s (λ x. refl) m)
]

-- What the recording of a delivery leaves: the outbox, and the deliveries that were there.
pub record Recorded (d : WebhookDelivery) (s s' : Store) : Type 0 where
  pub outbox : s'.db.outbox ≡ s.db.outbox
  pub deliveries : s'.db.deliveries ≡ d ∷ s.db.deliveries

record_webhook_delivery-Recorded :
    (io : Faults) (d : WebhookDelivery) (s s' : Store)
    → record_webhook_delivery io d s ≡ (ok tt, s')
    → Recorded d s s'
unfolding record_webhook_delivery insert_delivery ◌>>=◌
record_webhook_delivery-Recorded io d s s' h = ground arith

-- A subscription that a POST of the event was recorded as successful for.
abbrev pub reached : OutboxEvent → Store → WebhookSubscription → Bool
reached e s t = delivered_to e.id s.db.deliveries t.id

reached_later :
    (e : OutboxEvent) (d : WebhookDelivery) (s s' : Store) (t : WebhookSubscription)
    → Recorded d s s'
    → reached e s t ≡ true
    → reached e s' t ≡ true
unfolding delivered_to
reached_later e d s s' t r h = rw r.deliveries (ground arith)

reached_now :
    (e : OutboxEvent) (id : String) (now : Time) (t : WebhookSubscription) (res : DeliveryResult)
    (s s' : Store)
    → Recorded (delivery_of id now e t res) s s'
    → res.error ≡ none
    → reached e s' t ≡ true
unfolding delivered_to delivery_of delivery_status
reached_now e id now t res s s' r h = rw (r.deliveries, h, str_eq_self e.id, str_eq_self t.id) refl

-- The loop over the targets: the outbox is as before, what was reached stays reached, and without
-- a failure every target is.
pub record Sent (e : OutboxEvent) (ts : List WebhookSubscription) (s : Store)
    (r : Result (List String) × Store) : Type 0 where
  pub outbox : r.1.db.outbox ≡ s.db.outbox
  pub keeps : (t : WebhookSubscription) → reached e s t ≡ true → reached e r.1 t ≡ true
  pub all_reached : r.0 ≡ ok [] → All (λ t. reached e r.1 t ≡ true) ts

not_recorded :
    (io : Faults) (d : WebhookDelivery) (s s' : Store) (x : Error)
    → record_webhook_delivery io d s ≡ (err x, s')
    → s' ≡ s
unfolding record_webhook_delivery insert_delivery ◌>>=◌
not_recorded io d s s' x h = ground arith

add_failure-Sent :
    (e : OutboxEvent) (t : WebhookSubscription) (ts : List WebhookSubscription) (s s' : Store)
    (error : Option String) (r : Result (List String) × Store)
    → ((u : WebhookSubscription) → reached e s u ≡ true → reached e s' u ≡ true)
    → s'.db.outbox ≡ s.db.outbox
    → (error ≡ none → reached e s' t ≡ true)
    → Sent e ts s' r
    → Sent e (t ∷ ts) s (add_failure t error r)
unfolding add_failure
add_failure-Sent e t ts s s' none r keeps same now sent = record {
  outbox = sent.outbox ∙ same;
  keeps = λ u h. sent.keeps u (keeps u h);
  all_reached = λ h. (sent.keeps t (now refl), sent.all_reached h);
}
add_failure-Sent e t ts s s' (some x) (ok fs, s2) keeps same now sent = record {
  outbox = sent.outbox ∙ same;
  keeps = λ u h. sent.keeps u (keeps u h);
  all_reached = λ h. cc;
}
add_failure-Sent e t ts s s' (some x) (err y, s2) keeps same now sent = record {
  outbox = sent.outbox ∙ same;
  keeps = λ u h. sent.keeps u (keeps u h);
  all_reached = λ h. cc;
}

module _ (a : Around) (e : OutboxEvent) where
  next-Sent :
      (n : ℕ) (t : WebhookSubscription) (ts : List WebhookSubscription) (res : DeliveryResult)
      (s : Store) (r : Result (Unit {0}) × Store)
      → record_webhook_delivery
          (a.record_io n)
          (delivery_of (a.delivery_id n) (a.clock n) e t res)
          s
        ≡ r
      → ((s' : Store) → Sent e ts s' (send_all a e (suc n) ts s'))
      → Sent e
          (t ∷ ts)
          s
          (continue r (λ _ s'. add_failure t res.error (send_all a e (suc n) ts s')))
  next-Sent n t ts res s (err x, s') run rest =
      let same = not_recorded _ _ s s' x run in
      record {
        outbox = ap (λ (u : Store). u.db.outbox) same;
        keeps = λ u h. rw same h;
        all_reached = λ h. cc;
      }
  next-Sent n t ts res s (ok tt, s') run rest =
      let r = record_webhook_delivery-Recorded _ _ s s' run in
      add_failure-Sent e t ts s s' res.error _ (λ u h. reached_later e _ s s' u r h) r.outbox
        (λ none_failed. reached_now e _ _ t res s s' r none_failed) (rest s')

  pub send_all-Sent :
      (n : ℕ) (ts : List WebhookSubscription) (s : Store) → Sent e ts s (send_all a e n ts s)
  unfolding send_all
  send_all-Sent n [] s = record { outbox = refl; keeps = λ t h. h; all_reached = λ h. tt }
  send_all-Sent n (t ∷ ts) s =
      next-Sent n t ts (send_webhook a.world e t) s _ refl (send_all-Sent (suc n) ts)
