-- ===== src/Storage/Outbox.antt =====
-- The outbox of internal/storage/store.go: `FetchDueOutboxEvents`, the deliveries, and the three
-- ends of an attempt. `order` is `ORDER BY next_attempt_at, created_at`; `locked` says which rows
-- another transaction holds.
pub mod Locks
use ptrans.Prelude.{
  ℕ, String, ◌+◌, ◌*◌, Bool, true, false, ◌&&◌, not, Option, none, some, List, [], ◌∷◌, leb, str_eq,
  if◌then◌else◌, some_passes, keep, take,
}
use ptrans.Prelude.Int.{ℤ, pos, pos_part, ltb_ℤ, leb_ℤ}
use ptrans.Domain.Errors.{ok, err, other, Time, Duration, add_time}
use ptrans.Domain.Outbox.{OutboxStatus, OutboxEvent, WebhookDelivery, WebhookDeliveryStatus}
use ptrans.Storage.Schema.{Faults, Tx, ◌>>=◌, ◌>>◌, gets, raise_if, statement, Action, autocommit}
use ptrans.Provider.RetryAfter.{second}

abbrev pub is_pending : OutboxStatus → Bool
is_pending OutboxStatus.pending = true
is_pending _ = false

abbrev pub unlocked : Option Time → Time → Bool
unlocked none now = true
unlocked (some until) now = leb until now

unfoldable pub is_due_event : Time → OutboxEvent → Bool
is_due_event now e = is_pending e.status && leb e.next_attempt_at now && unlocked e.locked_until now

abbrev pub has_id : String → OutboxEvent → Bool
has_id id e = str_eq e.id id

-- The UPDATE of the rows that were picked.
unfoldable pub lock_event : Time → Time → OutboxEvent → OutboxEvent
lock_event now until e = record e {
  locked_until = some until;
  attempts = e.attempts + 1;
  updated_at = now;
}

unfoldable pub lock_picked : Time → Time → List OutboxEvent → List OutboxEvent → List OutboxEvent
unfolding lock_event
lock_picked now until picked [] = []
lock_picked now until picked (e ∷ es) =
    let rest = lock_picked now until picked es in
    (if some_passes (has_id e.id) picked then lock_event now until e else e) ∷ rest

abbrev pub at_least_one : ℤ → ℕ
at_least_one limit = if ltb_ℤ limit (pos 1) then 1 else pos_part limit

abbrev pub lock_span : Duration → Duration
lock_span d = if leb_ℤ d (pos 0) then pos (30 * second) else d

module _ (order : List OutboxEvent → List OutboxEvent) (locked : OutboxEvent → Bool) where
  unfoldable pub pick : ℤ → Time → List OutboxEvent → List OutboxEvent
  unfolding is_due_event
  pick limit now es =
      take (at_least_one limit) (order (keep (λ e. is_due_event now e && not (locked e)) es))

  unfoldable pub fetch_rows : ℤ → Time → Duration → Tx (List OutboxEvent)
  unfolding pick lock_picked
  fetch_rows limit now lock_for db =
      let picked = pick limit now db.outbox in
      let until = add_time now (lock_span lock_for) in
      let rows = lock_picked now until picked db.outbox in
      ok (keep (λ e. some_passes (has_id e.id) picked) rows, record db { outbox = rows })

  unfoldable pub fetch_due_outbox_events : Faults → ℤ → Time → Duration → Action (List OutboxEvent)
  unfolding fetch_rows
  fetch_due_outbox_events io limit now lock_for =
      autocommit do statement io 0; fetch_rows limit now lock_for

abbrev pub is_succeeded : WebhookDeliveryStatus → Bool
is_succeeded WebhookDeliveryStatus.succeeded = true
is_succeeded WebhookDeliveryStatus.failed = false

-- A set as the test whether it holds an id.
unfoldable pub delivered_to : String → List WebhookDelivery → String → Bool
delivered_to event [] sub = false
delivered_to event (d ∷ ds) sub =
    let rest = delivered_to event ds sub in
    if str_eq d.event_id event && is_succeeded d.status && str_eq d.subscription_id sub
    then true
    else rest

unfoldable pub list_delivered_subscription_ids : Faults → String → Action (String → Bool)
unfolding delivered_to
list_delivered_subscription_ids io event =
    autocommit do statement io 0; gets (λ db. delivered_to event db.deliveries)

-- The primary key, the reference to the event, and `CHECK (attempt >= 1)`.
unfoldable pub insert_delivery : WebhookDelivery → Tx Unit
insert_delivery d db =
    if leb 1 d.attempt
      && some_passes (has_id d.event_id) db.outbox
      && not (some_passes (λ (o : WebhookDelivery). str_eq o.id d.id) db.deliveries)
    then ok (tt, record db { deliveries = d ∷ db.deliveries })
    else err (other "record webhook delivery")

unfoldable pub record_webhook_delivery : Faults → WebhookDelivery → Action Unit
unfolding insert_delivery
record_webhook_delivery io d = autocommit do statement io 0; insert_delivery d

-- `UPDATE outbox_events SET … WHERE id`
unfoldable pub update_event :
    String → (OutboxEvent → OutboxEvent) → List OutboxEvent → List OutboxEvent
update_event id f [] = []
update_event id f (e ∷ es) =
    let rest = update_event id f es in if has_id id e then f e ∷ rest else e ∷ rest

-- An update that affects no row is an error.
unfoldable pub change_event : Faults → String → (OutboxEvent → OutboxEvent) → Action Unit
unfolding update_event
change_event io id f = autocommit do
  statement io 0
  known ← gets (λ db. some_passes (has_id id) db.outbox)
  raise_if (not known) (other "event not found")
  (λ db. ok (tt, record db { outbox = update_event id f db.outbox }))

unfoldable pub deliver_columns : Time → OutboxEvent → OutboxEvent
deliver_columns now e = record e {
  status = OutboxStatus.delivered;
  locked_until = none;
  last_error = "";
  updated_at = now;
}

unfoldable pub retry_columns : Time → String → Time → OutboxEvent → OutboxEvent
retry_columns next_attempt_at last_error now e = record e {
  status = OutboxStatus.pending;
  next_attempt_at = next_attempt_at;
  locked_until = none;
  last_error = last_error;
  updated_at = now;
}

unfoldable pub dead_letter_columns : String → Time → OutboxEvent → OutboxEvent
dead_letter_columns last_error now e = record e {
  status = OutboxStatus.dead_letter;
  locked_until = none;
  last_error = last_error;
  updated_at = now;
}

unfoldable pub mark_outbox_event_delivered : Faults → String → Time → Action Unit
unfolding change_event deliver_columns
mark_outbox_event_delivered io id now = change_event io id (deliver_columns now)

unfoldable pub schedule_outbox_event_retry : Faults → String → Time → String → Time → Action Unit
unfolding change_event retry_columns
schedule_outbox_event_retry io id next_attempt_at last_error now =
    change_event io id (retry_columns next_attempt_at last_error now)

unfoldable pub mark_outbox_event_dead_letter : Faults → String → String → Time → Action Unit
unfolding change_event dead_letter_columns
mark_outbox_event_dead_letter io id last_error now =
    change_event io id (dead_letter_columns last_error now)
