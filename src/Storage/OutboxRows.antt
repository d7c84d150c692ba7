-- ===== src/Storage/OutboxRows.antt =====
-- `insertOutboxEvent` of internal/storage/store.go, with the primary key of `outbox_events`.
use ptrans.Prelude.{String, some_passes, str_eq, none, if◌then◌else◌, ◌∷◌}
use ptrans.Domain.Errors.{Time, ok, err, other}
use ptrans.Domain.Outbox.{EventType, OutboxPayload, OutboxStatus, OutboxEvent}
use ptrans.Storage.Schema.{Tx}

-- The primary key of `outbox_events`.
unfoldable pub insert_outbox : OutboxEvent → Tx Unit
insert_outbox e db =
    if some_passes (λ (o : OutboxEvent). str_eq o.id e.id) db.outbox
    then err (other "insert outbox event")
    else ok (tt, record db { outbox = e ∷ db.outbox })

pub record OutboxEventInsert : Type 0 where
  pub id : String
  pub user_id : String
  pub event_type : EventType
  pub aggregate_type : String
  pub aggregate_id : String
  pub payload : OutboxPayload
  pub now : Time

-- The row of the INSERT statement.
unfoldable pub outbox_row : OutboxEventInsert → OutboxEvent
outbox_row e = record {
  id = e.id;
  user_id = e.user_id;
  event_type = e.event_type;
  aggregate_type = e.aggregate_type;
  aggregate_id = e.aggregate_id;
  payload = e.payload;
  status = OutboxStatus.pending;
  attempts = 0;
  next_attempt_at = e.now;
  locked_until = none;
  last_error = "";
  created_at = e.now;
  updated_at = e.now;
}

unfoldable pub insert_outbox_event : OutboxEventInsert → Tx Unit
unfolding insert_outbox outbox_row
insert_outbox_event e = insert_outbox (outbox_row e)
