-- ===== src/State/History.antt =====
-- What one payment and one subscription are after a log, without a store.
use ptrans.Prelude.{String, Bool, true, false, Option, none, some, List, [], ◌∷◌}
use ptrans.Prelude.Assoc.{absent_at, changed_at}
use ptrans.Domain.Errors.{Time}
use ptrans.Domain.Payment.{Payment, cancelled}
use ptrans.Domain.Webhook.{WebhookSubscription}
use ptrans.Domain.Outbox.{
  EventType, payment_created, payment_cancelled, subscription_created, subscription_activated,
  subscription_deactivated, PaymentCreatedPayload, PaymentCancelledPayload,
}
use ptrans.Domain.Event.{
  Event, WebhookSubscriptionCreatedPayload, WebhookSubscriptionActivatedPayload,
  WebhookSubscriptionDeactivatedPayload,
}
use ptrans.State.{Payloads, payment_of, subscription_of}

abbrev pub cancel_at : Time → Payment → Payment
cancel_at now q = record q { status = cancelled; updated_at = now }

abbrev pub set_flag_at : Bool → Time → WebhookSubscription → WebhookSubscription
set_flag_at flag now w = record w { active = flag; updated_at = now }

unfoldable pub first_created :
    Option PaymentCreatedPayload → String → Option Payment → Option Payment
first_created none id o = o
first_created (some p) id o = absent_at p.id (payment_of p) id o

unfoldable pub cancelled_at :
    Option PaymentCancelledPayload → String → Option Payment → Option Payment
cancelled_at none id o = o
cancelled_at (some p) id o = changed_at (cancel_at p.cancelled_at) p.id id o

unfoldable pub payment_step :
    Payloads → EventType → String → String → Option Payment → Option Payment
unfolding first_created cancelled_at
payment_step k payment_created raw id o = first_created (k.created raw) id o
payment_step k payment_cancelled raw id o = cancelled_at (k.cancelled raw) id o
payment_step k _ raw id o = o

-- A payment by its own events alone: created once, cancelled at the latest cancellation.
unfoldable pub payment_history : Payloads → String → Option Payment → List Event → Option Payment
unfolding payment_step
payment_history k id o [] = o
payment_history k id o (e ∷ es) =
    payment_history k id (payment_step k e.event_type e.payload id o) es

unfoldable pub first_subscribed :
    Option WebhookSubscriptionCreatedPayload
    → String
    → Option WebhookSubscription
    → Option WebhookSubscription
first_subscribed none id o = o
first_subscribed (some p) id o = absent_at p.id (subscription_of p) id o

unfoldable pub flag_on :
    Option WebhookSubscriptionActivatedPayload
    → String
    → Option WebhookSubscription
    → Option WebhookSubscription
flag_on none id o = o
flag_on (some p) id o = changed_at (set_flag_at true p.activated_at) p.id id o

unfoldable pub flag_off :
    Option WebhookSubscriptionDeactivatedPayload
    → String
    → Option WebhookSubscription
    → Option WebhookSubscription
flag_off none id o = o
flag_off (some p) id o = changed_at (set_flag_at false p.deactivated_at) p.id id o

unfoldable pub subscription_step :
    Payloads → EventType → String → String → Option WebhookSubscription → Option WebhookSubscription
unfolding first_subscribed flag_on flag_off
subscription_step k subscription_created raw id o = first_subscribed (k.subscribed raw) id o
subscription_step k subscription_activated raw id o = flag_on (k.activated raw) id o
subscription_step k subscription_deactivated raw id o = flag_off (k.deactivated raw) id o
subscription_step k _ raw id o = o

-- A subscription by its own events alone: created once, with the flag of the latest change.
unfoldable pub subscription_history :
    Payloads → String → Option WebhookSubscription → List Event → Option WebhookSubscription
unfolding subscription_step
subscription_history k id o [] = o
subscription_history k id o (e ∷ es) =
    subscription_history k id (subscription_step k e.event_type e.payload id o) es
