-- ===== src/Storage/RefundRows.antt =====
-- The table `refunds` of migrations/003_refunds.sql: its constraints and its two triggers. The
-- statements of internal/storage/refunds.go write through `insert_row` and `update_row`.
pub mod Writes
use Prim.Native.String.{◌++◌ as str_append, count}
use ptrans.Prelude.{
  ℕ, String, ◌+◌, ◌/◌, ◌*◌, Bool, true, false, ◌&&◌, ◌||◌, not, Option, none, some, List, [], ◌∷◌,
  ltb, leb, ◌==◌, str_eq, if◌then◌else◌, find?, some_passes,
}
use ptrans.Prelude.Int.{ℤ, pos, pos_part, neg_part, ltb_ℤ}
use ptrans.Prelude.Text.{itoa}
use ptrans.Domain.Errors.{Error, Time, Result, ok, err, other, refund_not_found}
use ptrans.Domain.Refund.{Refund, RefundStatus, status_eq, is_refund_status}
use ptrans.Domain.Outbox.{OutboxEvent, OutboxStatus, refund_event, refund_row}
use ptrans.Storage.OutboxRows.{insert_outbox}
use ptrans.Storage.Schema.{AppUser, Db, Tx, ◌>>=◌, ◌>>◌, pure, raise, gets, raise_if}

-- A TIMESTAMPTZ keeps microseconds; the driver cuts off the rest of a time that is written or
-- compared with.
abbrev pub stored_time : Time → Time
stored_time t = t / 1000 * 1000

abbrev pub refund_by_id : String → List Refund → Option Refund
refund_by_id id = find? (λ r. str_eq r.id id)

abbrev pub refund_by_key : String → String → List Refund → Option Refund
refund_by_key user key = find? (λ r. str_eq r.user_id user && str_eq r.idempotency_key key)

-- The CHECK constraints.
unfoldable pub checks : Refund → Bool
checks r =
    ltb_ℤ (pos 0) r.amount
    && count r.currency == 3
    && is_refund_status r.status
    && (leb 1 (count r.idempotency_key) && leb (count r.idempotency_key) 128)
    && (not r.retryable || status_eq r.status RefundStatus.failed)
    && (not r.manual_review || status_eq r.status RefundStatus.processing)

unfoldable pub amount_eq : ℤ → ℤ → Bool
amount_eq a b = pos_part a == pos_part b && neg_part a == neg_part b

-- `guard_refund_transition` on UPDATE; `true` lets the row pass.
unfoldable pub guard_update : Refund → Refund → Bool
unfolding amount_eq
guard_update old new =
    (str_eq new.id old.id
      && str_eq new.user_id old.user_id
      && str_eq new.payment_id old.payment_id
      && amount_eq new.amount old.amount
      && str_eq new.currency old.currency
      && str_eq new.idempotency_key old.idempotency_key
      && str_eq new.request_hash old.request_hash
      && new.created_at == old.created_at)
    && (status_eq old.status new.status
        || (status_eq old.status RefundStatus.pending
            && status_eq new.status RefundStatus.processing)
        || (status_eq old.status RefundStatus.processing
            && (status_eq new.status RefundStatus.succeeded
                || status_eq new.status RefundStatus.failed))
        || (status_eq old.status RefundStatus.failed
            && status_eq new.status RefundStatus.processing
            && old.retryable))
    && not (status_eq old.status RefundStatus.failed && not old.retryable && new.retryable)

unfoldable pub status_kind : RefundStatus → String
status_kind RefundStatus.pending = "refund.pending"
status_kind RefundStatus.processing = "refund.processing"
status_kind RefundStatus.succeeded = "refund.succeeded"
status_kind RefundStatus.failed = "refund.failed"
status_kind (RefundStatus.invalid s) = str_append "refund." s

-- `emit_refund_outbox` on UPDATE: the kind of the event, if one is written.
unfoldable pub update_kind : Refund → Refund → Option String
unfolding status_kind
update_kind old new =
    if not (status_eq old.status new.status)
    then some (status_kind new.status)
    else if not old.manual_review && new.manual_review
    then some "refund.manual_review"
    else if old.manual_review && not new.manual_review
    then some "refund.recheck_requested"
    else none

unfoldable pub refund_outbox_event : String → Refund → OutboxEvent
refund_outbox_event kind new = record {
  id = str_append "evt_" (str_append new.id (str_append "_" (itoa new.version)));
  user_id = new.user_id;
  event_type = refund_event kind;
  aggregate_type = "refund";
  aggregate_id = new.id;
  payload = refund_row (record new { lease_token = ""; lease_until = none; request_hash = "" });
  status = OutboxStatus.pending;
  attempts = 0;
  next_attempt_at = new.updated_at;
  locked_until = none;
  last_error = "";
  created_at = new.updated_at;
  updated_at = new.updated_at;
}

unfoldable pub emit : Option String → Refund → Tx Unit
unfolding insert_outbox
emit none new db = ok (tt, db)
emit (some kind) new db = insert_outbox (refund_outbox_event kind new) db

-- The row of an INSERT that names the columns of `CreateRefund`; the others have their defaults,
-- and the trigger sets the version.
unfoldable pub new_row : Refund → Refund
new_row r = record r {
  status = RefundStatus.pending;
  attempts = 0;
  check_failures = 0;
  retryable = false;
  manual_review = false;
  last_error = "";
  next_action_at = stored_time r.created_at;
  processing_started_at = none;
  lease_token = "";
  lease_until = none;
  version = 1;
  created_at = stored_time r.created_at;
  updated_at = stored_time r.created_at;
}

-- CHECKs, the primary key, UNIQUE (user_id, idempotency_key) and the reference to `app_users`.
unfoldable pub insertable : Refund → Db → Bool
insertable r db =
    checks r
    && not (some_passes (λ (o : Refund). str_eq o.id r.id) db.refunds)
    && not (
        some_passes
          (λ (o : Refund). str_eq o.user_id r.user_id && str_eq o.idempotency_key r.idempotency_key)
          db.refunds)
    && some_passes (λ (u : AppUser). str_eq u.user_id r.user_id) db.app_users

unfoldable pub insert_row : Refund → Tx Refund
insert_row r db =
    if insertable (new_row r) db
    then (do emit (some "refund.created") (new_row r); pure (new_row r))
        (record db { refunds = new_row r ∷ db.refunds })
    else err (other "insert refund")

unfoldable pub replace_row : String → Refund → List Refund → List Refund
replace_row id new [] = []
replace_row id new (r ∷ rs) =
    let rest = replace_row id new rs in if str_eq r.id id then new ∷ rs else r ∷ rest

-- `NEW.version := OLD.version + 1`
unfoldable pub next_version : Refund → Refund → Refund
next_version old new = record new { version = old.version + 1 }

-- One row found by its primary key, with the columns changed by `f`.
unfoldable pub write_row : (Refund → Refund) → Refund → Tx Refund
write_row f old db =
    let new = next_version old (f old) in
    if guard_update old (f old) && checks new
    then (do emit (update_kind old new) new; pure new)
        (record db { refunds = replace_row old.id new db.refunds })
    else err (other "update refund")

unfoldable pub update_row : String → (Refund → Refund) → Tx Refund
update_row id f db = elim (refund_by_id id db.refunds) [
  | none ↦ err refund_not_found
  | some old ↦ write_row f old db
]
