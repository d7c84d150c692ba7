-- ===== src/State.antt =====
-- internal/state/store.go: payments and subscriptions in memory, built by applying events.
pub mod Index
pub mod History
pub mod Listing
pub mod Refines
use ptrans.Prelude.{
  ℕ, String, Bool, true, false, ◌&&◌, not, ltb, Option, none, some, List, [], ◌∷◌, map, str_eq,
  if◌then◌else◌,
}
use ptrans.Prelude.Assoc.{get, put, values}
use ptrans.Domain.Errors.{Result, ok, err, other, Time}
use ptrans.Domain.Payment.{Payment, cancelled}
use ptrans.Domain.Webhook.{WebhookSubscription}
use ptrans.Domain.Outbox.{
  EventType, payment_created, payment_cancelled, subscription_created, subscription_activated,
  subscription_deactivated, PaymentCreatedPayload, PaymentCancelledPayload,
}
use ptrans.Domain.Event.{
  Event, WebhookSubscriptionCreatedPayload, WebhookSubscriptionActivatedPayload,
  WebhookSubscriptionDeactivatedPayload,
}

pub record Store : Type 0 where
  pub payments : List (String × Payment)
  pub subscriptions : List (String × WebhookSubscription)
  pub idempotency_index : List (String × String)

unfoldable pub new_store : Store
new_store = record { payments = []; subscriptions = []; idempotency_index = [] }

-- `json.Unmarshal` of a payload; `none` is its error.
pub record Payloads : Type 0 where
  pub created : String → Option PaymentCreatedPayload
  pub cancelled : String → Option PaymentCancelledPayload
  pub subscribed : String → Option WebhookSubscriptionCreatedPayload
  pub activated : String → Option WebhookSubscriptionActivatedPayload
  pub deactivated : String → Option WebhookSubscriptionDeactivatedPayload

unfoldable pub get_payment : Store → String → Option Payment
get_payment s id = get id s.payments

abbrev payment_at : Store → Option String → Option Payment
payment_at s none = none
payment_at s (some id) = get id s.payments

unfoldable pub get_payment_by_idempotency_key : Store → String → Option Payment
get_payment_by_idempotency_key s key = payment_at s (get key s.idempotency_index)

unfoldable pub get_subscription : Store → String → Option WebhookSubscription
get_subscription s id = get id s.subscriptions

module _ {ℓ} {A : Type ℓ} (time : A → Time) where
  -- Behind every element that is later.
  unfoldable pub insert_later : A → List A → List A
  insert_later x [] = x ∷ []
  insert_later x (y ∷ ys) =
      let rest = insert_later x ys in if ltb (time x) (time y) then y ∷ rest else x ∷ y ∷ ys

  -- `sort.Slice` by the latest first.
  unfoldable pub sort_later : List A → List A
  unfolding insert_later
  sort_later [] = []
  sort_later (x ∷ xs) = insert_later x (sort_later xs)

unfoldable pub list_payments : Store → List Payment
unfolding sort_later
list_payments s = sort_later (λ (p : Payment). p.created_at) (values s.payments)

unfoldable pub list_subscriptions : Store → List WebhookSubscription
unfolding sort_later
list_subscriptions s =
    sort_later (λ (w : WebhookSubscription). w.create_at) (values s.subscriptions)

abbrev pub payment_of : PaymentCreatedPayload → Payment
payment_of p = record {
  id = p.id;
  amount = p.amount;
  currency = p.currency;
  status = p.status;
  idempotency_key = p.idempotency_key;
  created_at = p.created_at;
  updated_at = p.created_at;
}

abbrev pub subscription_of : WebhookSubscriptionCreatedPayload → WebhookSubscription
subscription_of p = record {
  id = p.id;
  url = p.url;
  active = p.active;
  create_at = p.created_at;
  updated_at = p.created_at;
}

-- A payment without a key has no entry.
unfoldable pub index_key : PaymentCreatedPayload → List (String × String) → List (String × String)
index_key p index = if str_eq p.idempotency_key "" then index else put p.idempotency_key p.id index

unfoldable pub add_payment : Store → PaymentCreatedPayload → Option Payment → Result Store
unfolding index_key
add_payment s p (some _) = err (other "payment already exists during apply")
add_payment s p none = ok record s {
  payments = put p.id (payment_of p) s.payments;
  idempotency_index = index_key p s.idempotency_index;
}

unfoldable pub apply_payment_created : Store → Option PaymentCreatedPayload → Result Store
unfolding add_payment
apply_payment_created s none = err (other "unmarshal PaymentCreated payload")
apply_payment_created s (some p) = add_payment s p (get p.id s.payments)

unfoldable pub set_cancelled : Store → PaymentCancelledPayload → Option Payment → Result Store
set_cancelled s p none = err (other "payment not found during apply")
set_cancelled s p (some q) = ok record s {
  payments = put p.id (record q { status = cancelled; updated_at = p.cancelled_at }) s.payments;
}

unfoldable pub apply_payment_cancelled : Store → Option PaymentCancelledPayload → Result Store
unfolding set_cancelled
apply_payment_cancelled s none = err (other "unmarshal PaymentCancelled payload")
apply_payment_cancelled s (some p) = set_cancelled s p (get p.id s.payments)

unfoldable pub add_subscription :
    Store → WebhookSubscriptionCreatedPayload → Option WebhookSubscription → Result Store
add_subscription s p (some _) = err (other "subscription already exists during apply")
add_subscription s p none =
    ok record s { subscriptions = put p.id (subscription_of p) s.subscriptions }

unfoldable pub apply_subscription_created :
    Store → Option WebhookSubscriptionCreatedPayload → Result Store
unfolding add_subscription
apply_subscription_created s none = err (other "unmarshal WebhookSubscriptionCreated payload")
apply_subscription_created s (some p) = add_subscription s p (get p.id s.subscriptions)

unfoldable pub set_flag : Store → String → Bool → Time → Option WebhookSubscription → Result Store
set_flag s id flag now none = err (other "subscription not found during apply")
set_flag s id flag now (some w) = ok record s {
  subscriptions = put id (record w { active = flag; updated_at = now }) s.subscriptions;
}

unfoldable pub apply_subscription_activated :
    Store → Option WebhookSubscriptionActivatedPayload → Result Store
unfolding set_flag
apply_subscription_activated s none = err (other "unmarshal WebhookSubscriptionActivated payload")
apply_subscription_activated s (some p) =
    set_flag s p.id true p.activated_at (get p.id s.subscriptions)

unfoldable pub apply_subscription_deactivated :
    Store → Option WebhookSubscriptionDeactivatedPayload → Result Store
unfolding set_flag
apply_subscription_deactivated s none =
    err (other "unmarshal WebhookSubscriptionDeactivated payload")
apply_subscription_deactivated s (some p) =
    set_flag s p.id false p.deactivated_at (get p.id s.subscriptions)

unfoldable pub apply_as : Payloads → Store → EventType → String → Result Store
unfolding apply_payment_created apply_payment_cancelled apply_subscription_created
    apply_subscription_activated apply_subscription_deactivated
apply_as k s payment_created raw = apply_payment_created s (k.created raw)
apply_as k s payment_cancelled raw = apply_payment_cancelled s (k.cancelled raw)
apply_as k s subscription_created raw = apply_subscription_created s (k.subscribed raw)
apply_as k s subscription_activated raw = apply_subscription_activated s (k.activated raw)
apply_as k s subscription_deactivated raw = apply_subscription_deactivated s (k.deactivated raw)
apply_as k s _ raw = err (other "unknown event type")

-- On an error the caller keeps the store it had.
unfoldable pub apply : Payloads → Store → Event → Result Store
unfolding apply_as
apply k s e = apply_as k s e.event_type e.payload
