-- ===== src/State/Refines.antt =====
-- The store's handlers, one id at a time, and the refinement of the histories by the store.
use ptrans.Prelude.{
  String, ◌≡◌, refl, ap, ◌∙◌, Bool, true, false, Option, none, some, List, [], ◌∷◌,
}
use ptrans.Prelude.Assoc.{get, put_absent, change, get-put_absent, get-change}
use ptrans.Domain.Errors.{Time}
use ptrans.Domain.Payment.{Payment}
use ptrans.Domain.Webhook.{WebhookSubscription}
use ptrans.Domain.Outbox.{
  EventType, payment_created, payment_cancelled, subscription_created, subscription_activated,
  subscription_deactivated, refund_event, unknown_event, PaymentCreatedPayload,
  PaymentCancelledPayload,
}
use ptrans.Domain.Event.{
  Event, WebhookSubscriptionCreatedPayload, WebhookSubscriptionActivatedPayload,
  WebhookSubscriptionDeactivatedPayload,
}
use ptrans.State.{
  Store, Payloads, get_payment, get_subscription, payment_of, subscription_of, add_payment,
  apply_payment_created, set_cancelled, apply_payment_cancelled, add_subscription,
  apply_subscription_created, set_flag, apply_subscription_activated,
  apply_subscription_deactivated, apply_as, apply,
}
use ptrans.State.Index.{kept, run}
use ptrans.State.History.{
  cancel_at, set_flag_at, first_created, cancelled_at, payment_step, payment_history,
  first_subscribed, flag_on, flag_off, subscription_step, subscription_history,
}

module _ (s : Store) where
  -- The tables that each handler leaves.
  added :
      (p : PaymentCreatedPayload) (o : Option Payment)
      → (kept s (add_payment s p o)).payments ≡ put_absent o p.id (payment_of p) s.payments
  unfolding add_payment
  added p none = refl
  added p (some q) = refl

  cancelled_payments :
      (p : PaymentCancelledPayload) (o : Option Payment)
      → (kept s (set_cancelled s p o)).payments
        ≡ change (cancel_at p.cancelled_at) o p.id s.payments
  unfolding set_cancelled
  cancelled_payments p none = refl
  cancelled_payments p (some q) = refl

  subscribed :
      (p : WebhookSubscriptionCreatedPayload) (o : Option WebhookSubscription)
      → (kept s (add_subscription s p o)).subscriptions
        ≡ put_absent o p.id (subscription_of p) s.subscriptions
  unfolding add_subscription
  subscribed p none = refl
  subscribed p (some q) = refl

  flags :
      (id : String) (flag : Bool) (now : Time) (o : Option WebhookSubscription)
      → (kept s (set_flag s id flag now o)).subscriptions
        ≡ change (set_flag_at flag now) o id s.subscriptions
  unfolding set_flag
  flags id flag now none = refl
  flags id flag now (some q) = refl

  -- What each handler leaves alone.
  payments_kept_add :
      (p : WebhookSubscriptionCreatedPayload) (o : Option WebhookSubscription)
      → (kept s (add_subscription s p o)).payments ≡ s.payments
  unfolding add_subscription
  payments_kept_add p none = refl
  payments_kept_add p (some q) = refl

  payments_kept_flag :
      (id : String) (flag : Bool) (now : Time) (o : Option WebhookSubscription)
      → (kept s (set_flag s id flag now o)).payments ≡ s.payments
  unfolding set_flag
  payments_kept_flag id flag now none = refl
  payments_kept_flag id flag now (some q) = refl

  subscriptions_kept_add :
      (p : PaymentCreatedPayload) (o : Option Payment)
      → (kept s (add_payment s p o)).subscriptions ≡ s.subscriptions
  unfolding add_payment
  subscriptions_kept_add p none = refl
  subscriptions_kept_add p (some q) = refl

  subscriptions_kept_cancel :
      (p : PaymentCancelledPayload) (o : Option Payment)
      → (kept s (set_cancelled s p o)).subscriptions ≡ s.subscriptions
  unfolding set_cancelled
  subscriptions_kept_cancel p none = refl
  subscriptions_kept_cancel p (some q) = refl

module _ (s : Store) (id : String) where
  created_step :
      (o : Option PaymentCreatedPayload)
      → get id (kept s (apply_payment_created s o)).payments
        ≡ first_created o id (get id s.payments)
  unfolding apply_payment_created first_created
  created_step none = refl
  created_step (some p) =
      ap (get id) (added s p (get p.id s.payments))
      ∙ get-put_absent p.id (payment_of p) s.payments id

  created_apart :
      (o : Option PaymentCreatedPayload)
      → get id (kept s (apply_payment_created s o)).subscriptions ≡ get id s.subscriptions
  unfolding apply_payment_created
  created_apart none = refl
  created_apart (some p) = ap (get id) (subscriptions_kept_add s p (get p.id s.payments))

  cancelled_step :
      (o : Option PaymentCancelledPayload)
      → get id (kept s (apply_payment_cancelled s o)).payments
        ≡ cancelled_at o id (get id s.payments)
  unfolding apply_payment_cancelled cancelled_at
  cancelled_step none = refl
  cancelled_step (some p) =
      ap (get id) (cancelled_payments s p (get p.id s.payments))
      ∙ get-change (cancel_at p.cancelled_at) p.id s.payments id

  cancelled_apart :
      (o : Option PaymentCancelledPayload)
      → get id (kept s (apply_payment_cancelled s o)).subscriptions ≡ get id s.subscriptions
  unfolding apply_payment_cancelled
  cancelled_apart none = refl
  cancelled_apart (some p) = ap (get id) (subscriptions_kept_cancel s p (get p.id s.payments))

  subscribed_step :
      (o : Option WebhookSubscriptionCreatedPayload)
      → get id (kept s (apply_subscription_created s o)).subscriptions
        ≡ first_subscribed o id (get id s.subscriptions)
  unfolding apply_subscription_created first_subscribed
  subscribed_step none = refl
  subscribed_step (some p) =
      ap (get id) (subscribed s p (get p.id s.subscriptions))
      ∙ get-put_absent p.id (subscription_of p) s.subscriptions id

  subscribed_apart :
      (o : Option WebhookSubscriptionCreatedPayload)
      → get id (kept s (apply_subscription_created s o)).payments ≡ get id s.payments
  unfolding apply_subscription_created
  subscribed_apart none = refl
  subscribed_apart (some p) = ap (get id) (payments_kept_add s p (get p.id s.subscriptions))

  activated_step :
      (o : Option WebhookSubscriptionActivatedPayload)
      → get id (kept s (apply_subscription_activated s o)).subscriptions
        ≡ flag_on o id (get id s.subscriptions)
  unfolding apply_subscription_activated flag_on
  activated_step none = refl
  activated_step (some p) =
      ap (get id) (flags s p.id true p.activated_at (get p.id s.subscriptions))
      ∙ get-change (set_flag_at true p.activated_at) p.id s.subscriptions id

  activated_apart :
      (o : Option WebhookSubscriptionActivatedPayload)
      → get id (kept s (apply_subscription_activated s o)).payments ≡ get id s.payments
  unfolding apply_subscription_activated
  activated_apart none = refl
  activated_apart (some p) =
      ap (get id) (payments_kept_flag s p.id true p.activated_at (get p.id s.subscriptions))

  deactivated_step :
      (o : Option WebhookSubscriptionDeactivatedPayload)
      → get id (kept s (apply_subscription_deactivated s o)).subscriptions
        ≡ flag_off o id (get id s.subscriptions)
  unfolding apply_subscription_deactivated flag_off
  deactivated_step none = refl
  deactivated_step (some p) =
      ap (get id) (flags s p.id false p.deactivated_at (get p.id s.subscriptions))
      ∙ get-change (set_flag_at false p.deactivated_at) p.id s.subscriptions id

  deactivated_apart :
      (o : Option WebhookSubscriptionDeactivatedPayload)
      → get id (kept s (apply_subscription_deactivated s o)).payments ≡ get id s.payments
  unfolding apply_subscription_deactivated
  deactivated_apart none = refl
  deactivated_apart (some p) =
      ap (get id) (payments_kept_flag s p.id false p.deactivated_at (get p.id s.subscriptions))

module _ (k : Payloads) (s : Store) (raw id : String) where
  payment_applied :
      (t : EventType)
      → get id (kept s (apply_as k s t raw)).payments ≡ payment_step k t raw id (get id s.payments)
  unfolding apply_as payment_step
  payment_applied payment_created = created_step s id (k.created raw)
  payment_applied payment_cancelled = cancelled_step s id (k.cancelled raw)
  payment_applied subscription_created = subscribed_apart s id (k.subscribed raw)
  payment_applied subscription_activated = activated_apart s id (k.activated raw)
  payment_applied subscription_deactivated = deactivated_apart s id (k.deactivated raw)
  payment_applied (refund_event n) = refl
  payment_applied (unknown_event n) = refl

  subscription_applied :
      (t : EventType)
      → get id (kept s (apply_as k s t raw)).subscriptions
        ≡ subscription_step k t raw id (get id s.subscriptions)
  unfolding apply_as subscription_step
  subscription_applied payment_created = created_apart s id (k.created raw)
  subscription_applied payment_cancelled = cancelled_apart s id (k.cancelled raw)
  subscription_applied subscription_created = subscribed_step s id (k.subscribed raw)
  subscription_applied subscription_activated = activated_step s id (k.activated raw)
  subscription_applied subscription_deactivated = deactivated_step s id (k.deactivated raw)
  subscription_applied (refund_event n) = refl
  subscription_applied (unknown_event n) = refl

-- After any events, refused ones included, the store answers for each id what the history of
-- that id alone says: the two look-ups implement the specification that has no tables.
pub run-refines :
    (k : Payloads) (s : Store) (es : List Event) (id : String)
    → (get_payment (run k s es) id ≡ payment_history k id (get_payment s id) es)
      × (get_subscription (run k s es) id ≡ subscription_history k id (get_subscription s id) es)
unfolding run apply get_payment get_subscription payment_history subscription_history
run-refines k s [] id = (refl, refl)
run-refines k s (e ∷ es) id =
    let (payments, subscriptions) = run-refines k (kept s (apply k s e)) es id in
    (
      payments
          ∙ ap (λ o. payment_history k id o es) (payment_applied k s e.payload id e.event_type),
      subscriptions
          ∙ ap (λ o. subscription_history k id o es)
              (subscription_applied k s e.payload id e.event_type),
    )
