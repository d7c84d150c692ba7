-- ===== src/Witnesses/Replaying.antt =====
-- Two payments and a cancellation, applied to a store and read back from a log.
use Prim.Native.String.{len}
use ptrans.Prelude.{
  ℕ, String, ◌≡◌, ◌<◌, refl, sym, ap, Bool, true, false, ◌&&◌, Option, none, some, List, [], ◌∷◌,
  map, arith, str_eq, str_eq→eq, if◌then◌else◌, inl, inr, Bool-cases, eq_of_some, ◌==◌,
}
use mathlib.Core.Path.{subst, ◌∙◌}
use ptrans.Prelude.Int.{pos}
use ptrans.Prelude.Assoc.{get, put, values}
use ptrans.Prelude.Lines.{complete, has_newline}
use ptrans.Prelude.Text.{trim_space}
use ptrans.Domain.Errors.{ok}
use ptrans.Domain.Payment.{Payment, pending}
use ptrans.Domain.Webhook.{WebhookSubscription}
use ptrans.Domain.Outbox.{
  EventType, payment_created, payment_cancelled, subscription_created, subscription_activated,
  subscription_deactivated, refund_event, unknown_event, PaymentCreatedPayload,
  PaymentCancelledPayload,
}
use ptrans.Domain.Event.{Event, WebhookSubscriptionCreatedPayload}
use ptrans.State.{
  Store, Payloads, new_store, apply, get_payment, get_subscription, get_payment_by_idempotency_key,
  list_payments, list_subscriptions, apply_as, apply_payment_created, add_payment, index_key,
  apply_payment_cancelled, set_cancelled, apply_subscription_created, add_subscription,
}
use ptrans.State.Index.{run, run-by_key}
use ptrans.State.History.{payment_history, subscription_history}
use ptrans.State.Refines.{run-refines}
use ptrans.State.Listing.{AreLatestFirst, count_of, listings_sorted}
use ptrans.EventLog.{EventJson, Log, append, write_event, write_parts, write_line, replay}
use ptrans.EventLog.Replay.{IsEventJson, append_all, compacted, resume, never, replay-append_all}

abbrev first_payment : PaymentCreatedPayload
first_payment = record {
  id = "pay_1";
  amount = pos 500;
  currency = "EUR";
  idempotency_key = "key_1";
  status = pending;
  created_at = 10;
}

abbrev first_created : Event
first_created = record {
  event_id = "evt_1";
  aggregate_type = "payment";
  aggregate_id = "pay_1";
  event_type = payment_created;
  timestamp = 10;
  payload = "{1}";
}

abbrev second_created : Event
second_created = record first_created {
  event_id = "evt_2";
  aggregate_id = "pay_2";
  timestamp = 20;
  payload = "{2}";
}

abbrev first_cancelled : Event
first_cancelled = record first_created {
  event_id = "evt_3";
  event_type = payment_cancelled;
  timestamp = 30;
  payload = "{3}";
}

abbrev subscribed : Event
subscribed = record first_created {
  event_id = "evt_4";
  event_type = subscription_created;
  payload = "{4}";
}

read_created : String → Option PaymentCreatedPayload
read_created raw =
    if str_eq raw "{1}"
    then some first_payment
    else if str_eq raw "{2}"
    then some (record first_payment { id = "pay_2"; idempotency_key = "key_2"; created_at = 20 })
    else none

read_cancelled : String → Option PaymentCancelledPayload
read_cancelled raw =
    if str_eq raw "{3}" then some record { id = "pay_1"; cancelled_at = 30 } else none

read_subscribed : String → Option WebhookSubscriptionCreatedPayload
read_subscribed raw =
    if str_eq raw "{4}"
    then some record { id = "sub_1"; url = "https://example.org"; active = true; created_at = 5 }
    else none

abbrev payloads : Payloads
payloads = record {
  created = read_created;
  cancelled = read_cancelled;
  subscribed = read_subscribed;
  activated = λ raw. none;
  deactivated = λ raw. none;
}

abbrev events : List Event
events = first_created ∷ second_created ∷ first_cancelled ∷ subscribed ∷ []

run-by_key_example :
    (p : Payment) × (get_payment_by_idempotency_key (run payloads new_store events) "key_1"
      ≡ some p)
    × (p.idempotency_key ≡ "key_1")
    × (get_payment (run payloads new_store events) p.id ≡ some p)
unfolding run new_store apply_as apply apply_payment_created add_payment index_key
    apply_payment_cancelled set_cancelled apply_subscription_created add_subscription read_created
    read_cancelled read_subscribed get put
run-by_key_example = run-by_key payloads events "key_1" "pay_1" refl

run-refines_example :
    (get_payment (run payloads new_store events) "pay_1"
      ≡ payment_history payloads "pay_1" (get_payment new_store "pay_1") events)
    × (get_subscription (run payloads new_store events) "pay_1"
        ≡ subscription_history payloads "pay_1" (get_subscription new_store "pay_1") events)
run-refines_example = run-refines payloads new_store events "pay_1"

abbrev late : Payment → Bool
late p = p.created_at == 20

abbrev stored : Store
stored = run payloads new_store events

listings_sorted_example :
    AreLatestFirst (λ (p : Payment). p.created_at) (list_payments stored)
    × (count_of late (list_payments stored) ≡ count_of late (values stored.payments))
    × AreLatestFirst (λ (w : WebhookSubscription). w.create_at) (list_subscriptions stored)
    × (count_of (λ w. w.active) (list_subscriptions stored)
        ≡ count_of (λ w. w.active) (values stored.subscriptions))
listings_sorted_example = listings_sorted stored late (λ w. w.active)

is_created : EventType → Bool
is_created payment_created = true
is_created _ = false

are_same : Event → Event → Bool
unfolding is_created
are_same e d =
    str_eq e.event_id d.event_id
    && str_eq e.aggregate_type d.aggregate_type
    && str_eq e.aggregate_id d.aggregate_id
    && is_created e.event_type
    && e.timestamp == d.timestamp
    && str_eq e.payload d.payload

write : Event → Option String
unfolding are_same
write e =
    if are_same e first_created
    then some "{first}"
    else if are_same e second_created
    then some "{second}"
    else none

read : String → Option Event
read l =
    if str_eq l "{first}"
    then some first_created
    else if str_eq l "{second}"
    then some second_created
    else none

abbrev json : EventJson
json = record { marshal = write; unmarshal = read }

abbrev same_text : String → String
same_text s = s

created_type : (t : EventType) → is_created t ≡ true → t ≡ payment_created
unfolding is_created
created_type payment_created h = refl
created_type payment_cancelled h = cc
created_type subscription_created h = cc
created_type subscription_activated h = cc
created_type subscription_deactivated h = cc
created_type (refund_event n) h = cc
created_type (unknown_event n) h = cc

same_time : (a b : ℕ) → (a == b) ≡ true → a ≡ b
same_time a b h = ground (arith, h)

created_as :
    (e d : Event) → d.event_type ≡ payment_created → are_same e d ≡ true → d ≡ compacted same_text e
unfolding are_same
created_as e d t h = λ i. record {
  event_id = sym (str_eq→eq e.event_id d.event_id (ground (arith, h))) i;
  aggregate_type = sym (str_eq→eq e.aggregate_type d.aggregate_type (ground (arith, h))) i;
  aggregate_id = sym (str_eq→eq e.aggregate_id d.aggregate_id (ground (arith, h))) i;
  event_type = (t ∙ sym (created_type e.event_type (ground (arith, h)))) i;
  timestamp = sym (same_time e.timestamp d.timestamp (ground (arith, h))) i;
  payload = sym (str_eq→eq e.payload d.payload (ground (arith, h))) i;
}

no : {C : Type 0} {s : String} → none ≡ some s → C
no h = cc

-- The only lines are those of the two events.
written_as :
    (P : String → Type 0)
    → P "{first}"
    → P "{second}"
    → (e : Event) (l : String) → write e ≡ some l
    → P l
unfolding write
written_as P a b e l h = elim (Bool-cases (are_same e first_created)) [
  | inl f ↦ subst P (eq_of_some (rw f at h)) a
  | inr f ↦ elim (Bool-cases (are_same e second_created)) [
    | inl g ↦ subst P (eq_of_some (rw (f, g) at h)) b
    | inr g ↦ no (rw (f, g) at h)
  ]
]

read_back : (e : Event) (l : String) → write e ≡ some l → read l ≡ some (compacted same_text e)
unfolding write read
read_back e l h = elim (Bool-cases (are_same e first_created)) [
  | inl f ↦ rw (sym (eq_of_some (rw f at h))) (ap some (created_as e first_created refl f))
  | inr f ↦ elim (Bool-cases (are_same e second_created)) [
    | inl g ↦ rw (sym (eq_of_some (rw (f, g) at h))) (ap some (created_as e second_created refl g))
    | inr g ↦ no (rw (f, g) at h)
  ]
]

abbrev json-IsEventJson : IsEventJson json same_text
unfolding has_newline trim_space
json-IsEventJson = record {
  one_line = written_as (λ l. has_newline l ≡ false) refl refl;
  trimmed = written_as (λ l. trim_space l ≡ l) refl refl;
  not_empty = written_as (λ l. str_eq l "" ≡ false) refl refl;
  back = read_back;
}

abbrev old_log : Log
old_log = record { content = "{first}\n"; opened = true }

abbrev new_log : Log
new_log = record { content = "{first}\n{second}\n{first}\n"; opened = true }

abbrev new_events : List Event
new_events = second_created ∷ first_created ∷ []

appended : append_all json old_log new_events ≡ ok new_log
unfolding append_all append write_event write_parts write_line write are_same is_created
appended = refl

short : (e : Event) (l : String) → write e ≡ some l → len l < 1048576
short = written_as (λ l. len l < 1048576) (omega arith) (omega arith)

replay-append_all_example :
    replay json never (apply payloads) false new_log new_store
    ≡ resume
        (apply payloads)
        (map (compacted same_text) new_events)
        (replay json never (apply payloads) false old_log new_store)
unfolding complete
replay-append_all_example =
    replay-append_all json (apply payloads) same_text json-IsEventJson old_log new_log new_events
      new_store appended refl (short second_created, (short first_created, tt))
