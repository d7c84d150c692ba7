-- ===== src/Storage/Payments.antt =====
-- The payments of internal/storage/store.go. `evt_id` is what `nextStorageID("evt")` gives, and
-- `by_created` is the database's `ORDER BY created_at DESC`.
pub mod Cancelling
pub mod Repeating
use ptrans.Prelude.{
  ℕ, String, ◌*◌, Bool, true, false, ◌&&◌, not, Option, none, some, List, [], ◌∷◌, str_eq,
  if◌then◌else◌, find?, some_passes, keep, take, drop, length,
}
use ptrans.Prelude.Int.{ℤ, pos, pos_part, ◌-ℤ◌, ltb_ℤ, wrap64}
use ptrans.Domain.Errors.{
  ok, err, other, Time, payment_not_found, invalid_payment_state, idempotency_conflict,
}
use ptrans.Domain.Payment.{Payment, PaymentStatus, status_eq}
use ptrans.Domain.Outbox.{EventType, OutboxPayload}
use ptrans.Storage.Schema.{Store}
use ptrans.Storage.Schema.{
  Db, Faults, IdempotencyKey, Tx, ◌>>=◌, ◌>>◌, pure, gets, raise_if, or_raise, statement, Ending,
  commit, rollback, Action, transaction, autocommit, after,
}
use ptrans.Storage.Users.{UserTables, ensure_user_schema}
use ptrans.Storage.OutboxRows.{insert_outbox_event}

abbrev pub payment_by_id : String → List Payment → Option Payment
payment_by_id id = find? (λ p. str_eq p.id id)

abbrev pub key_row : String → String → List IdempotencyKey → Option IdempotencyKey
key_row user key = find? (λ k. str_eq k.user_id user && str_eq k.key key)

-- One table replaced, the others as they were.
abbrev pub with_table : String → List Payment → Db → Db
with_table name rows db = record db {
  payments = λ n. if str_eq n name then rows else db.payments n;
}

-- INSERT into the table of a user; the id is its primary key.
unfoldable pub insert_payment : String → Payment → Tx Unit
insert_payment table p db =
    if some_passes (λ (o : Payment). str_eq o.id p.id) (db.payments table)
    then err (other "insert payment")
    else ok (tt, with_table table (p ∷ db.payments table) db)

unfoldable pub insert_payment_created_outbox_event : String → String → Payment → Time → Tx Unit
unfolding insert_outbox_event
insert_payment_created_outbox_event evt_id user p now = insert_outbox_event (record {
  id = evt_id;
  user_id = user;
  event_type = EventType.payment_created;
  aggregate_type = "payment";
  aggregate_id = p.id;
  payload = OutboxPayload.created (record {
    id = p.id;
    amount = p.amount;
    currency = p.currency;
    idempotency_key = p.idempotency_key;
    status = p.status;
    created_at = p.created_at;
  });
  now = now;
})

unfoldable pub insert_payment_cancelled_outbox_event : String → String → Payment → Time → Tx Unit
unfolding insert_outbox_event
insert_payment_cancelled_outbox_event evt_id user p cancelled_at = insert_outbox_event (record {
  id = evt_id;
  user_id = user;
  event_type = EventType.payment_cancelled;
  aggregate_type = "payment";
  aggregate_id = p.id;
  payload = OutboxPayload.cancelled (record { id = p.id; cancelled_at = cancelled_at });
  now = cancelled_at;
})

-- `getPayment`
unfoldable pub get_payment_row : Faults → ℕ → String → String → Tx Payment
get_payment_row io n table id = do
  statement io n
  found ← gets (λ db. payment_by_id id (db.payments table))
  or_raise found payment_not_found

-- The end of `CreatePayment`, for a request that was not seen before.
unfoldable pub store_payment :
    Faults → UserTables → String → Payment → String → Tx (Ending (Payment × Bool))
unfolding insert_payment insert_payment_created_outbox_event
store_payment io t user p evt_id = do
  statement io 2
  insert_payment t.payments p
  statement io 3
  insert_payment_created_outbox_event evt_id user p p.created_at
  pure (commit (p, true))

unfoldable pub insert_key : IdempotencyKey → Tx Unit
insert_key k db = ok (tt, record db { idempotency_keys = k ∷ db.idempotency_keys })

-- `ON CONFLICT (user_id, idempotency_key) DO NOTHING`, and what follows for 0 or 1 rows.
unfoldable pub claim_key :
    Faults
    → UserTables
    → String
    → Payment
    → String
    → String
    → Option IdempotencyKey
    → Tx (Ending (Payment × Bool))
unfolding store_payment get_payment_row insert_key
claim_key io t user p hash evt_id none = do
  insert_key (record {
    user_id = user;
    key = p.idempotency_key;
    request_hash = hash;
    payment_id = p.id;
    created_at = p.created_at;
  })
  store_payment io t user p evt_id
claim_key io t user p hash evt_id (some k) = do
  statement io 1
  raise_if (not (str_eq k.request_hash hash)) idempotency_conflict
  existing ← get_payment_row io 2 t.payments k.payment_id
  pure (rollback (existing, false))

unfoldable pub keyed_payment :
    Faults → UserTables → String → Payment → String → String → Tx (Ending (Payment × Bool))
unfolding claim_key
keyed_payment io t user p hash evt_id = do
  statement io 0
  row ← gets (λ db. key_row user p.idempotency_key db.idempotency_keys)
  claim_key io t user p hash evt_id row

unfoldable pub create_payment_body :
    Faults → UserTables → String → Payment → String → String → Tx (Ending (Payment × Bool))
unfolding keyed_payment store_payment
create_payment_body io t user p hash evt_id =
    if str_eq p.idempotency_key ""
    then store_payment io t user p evt_id
    else keyed_payment io t user p hash evt_id

-- `UPDATE … SET status, updated_at WHERE id`
unfoldable pub cancel_row : String → Time → List Payment → List Payment
cancel_row id now [] = []
cancel_row id now (p ∷ ps) =
    let rest = cancel_row id now ps in
    if str_eq p.id id
    then record p { status = PaymentStatus.cancelled; updated_at = now } ∷ rest
    else p ∷ rest

unfoldable pub update_cancelled : String → String → Time → Tx Unit
unfolding cancel_row
update_cancelled table id now db =
    ok (tt, with_table table (cancel_row id now (db.payments table)) db)

-- `CancelPayment` up to its test; the row is read without FOR UPDATE.
unfoldable pub read_cancellable : Faults → UserTables → String → Tx (Ending Payment)
unfolding get_payment_row
read_cancellable io t id = do
  p ← get_payment_row io 0 t.payments id
  raise_if (not (status_eq p.status PaymentStatus.pending)) invalid_payment_state
  pure (rollback p)

-- `CancelPayment` after its test, for the payment that was read.
unfoldable pub write_cancelled :
    Faults → UserTables → String → String → Time → String → Payment → Tx (Ending Unit)
unfolding update_cancelled insert_payment_cancelled_outbox_event
write_cancelled io t user id now evt_id p = do
  statement io 1
  update_cancelled t.payments id now
  statement io 2
  insert_payment_cancelled_outbox_event evt_id user
      (record p { status = PaymentStatus.cancelled; updated_at = now }) now
  pure (commit tt)

-- `PaymentListFilter`, whose status is empty for all payments.
pub record PaymentListFilter : Type 0 where
  pub status : Option PaymentStatus
  pub page : ℕ
  pub size : ℕ

unfoldable pub has_status : Option PaymentStatus → Payment → Bool
has_status none p = true
has_status (some s) p = status_eq p.status s

-- `(filter.Page-1)*filter.Size` as an int64.
unfoldable pub offset_of : PaymentListFilter → ℤ
offset_of f = wrap64 (pos (f.page * f.size) -ℤ pos f.size)

module _ (by_created : List Payment → List Payment) where
  -- The two queries of `ListPayments`; the database refuses a negative OFFSET.
  unfoldable pub list_rows : Faults → String → PaymentListFilter → Tx (List Payment × ℕ)
  unfolding has_status offset_of
  list_rows io table f = do
    statement io 0
    rows ← gets (λ db. keep (has_status f.status) (db.payments table))
    statement io 1
    raise_if (ltb_ℤ (offset_of f) (pos 0)) (other "OFFSET must not be negative")
    pure (take f.size (drop (pos_part (offset_of f)) (by_created rows)), length rows)

module _ (sha256_hex : String → String) where
  unfoldable pub create_payment :
      Faults → Faults → String → Payment → String → String → Action (Payment × Bool)
  unfolding create_payment_body
  create_payment schema io user p hash evt_id =
      after (ensure_user_schema sha256_hex schema user)
        (λ t. transaction io (create_payment_body io t user p hash evt_id))

  unfoldable pub get_payment : Faults → Faults → String → String → Action Payment
  unfolding get_payment_row
  get_payment schema io user id =
      after (ensure_user_schema sha256_hex schema user)
        (λ t. autocommit (get_payment_row io 0 t.payments id))

  unfoldable pub list_payments :
      (List Payment → List Payment)
      → Faults
      → Faults
      → String
      → PaymentListFilter
      → Action (List Payment × ℕ)
  unfolding list_rows
  list_payments by_created schema io user f =
      after (ensure_user_schema sha256_hex schema user)
        (λ t. autocommit (list_rows by_created io t.payments f))

  -- `meanwhile` is what other transactions commit between the read and the UPDATE, which then meets
  -- the rows that they have left.
  unfoldable pub cancel_payment :
      Faults → Faults → (Store → Store) → String → String → Time → String → Action Unit
  unfolding read_cancellable write_cancelled
  cancel_payment schema io meanwhile user id now evt_id =
      after (ensure_user_schema sha256_hex schema user) (λ t.
        after (transaction io (read_cancellable io t id)) (λ p s.
          transaction (record io { begin_fails = false })
            (write_cancelled io t user id now evt_id p) (meanwhile s)))
