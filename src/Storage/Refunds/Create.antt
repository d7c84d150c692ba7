-- ===== src/Storage/Refunds/Create.antt =====
-- `CreateRefund` of internal/storage/refunds.go.
use ptrans.Prelude.{
  String, ◌^◌, Bool, true, false, ◌&&◌, ◌||◌, not, Option, none, some, str_eq, if◌then◌else◌,
}
use ptrans.Prelude.Int.{ℤ, pos, ◌+ℤ◌, ◌-ℤ◌, ltb_ℤ, leb_ℤ, wrap64}
use ptrans.Domain.Errors.{
  other, payment_not_found, invalid_payment_state, refund_amount_exceeded, idempotency_conflict,
}
use ptrans.Domain.Refund.{Refund}
use ptrans.Domain.Payment.{Payment, PaymentStatus, status_eq as payment_status_eq}
use ptrans.Storage.Schema.{
  Faults, Tx, ◌>>=◌, ◌>>◌, pure, raise, gets, raise_if, statement, Ending, commit, rollback, Action,
  transaction, after,
}
use ptrans.Storage.Users.{UserTables, ensure_user_schema}
use ptrans.Storage.Refunds.{payment_by_id, reserved}
use ptrans.Storage.RefundRows.{refund_by_key, insert_row}

-- The sum must fit into the int64 that it is scanned into.
fits_int64 : ℤ → Bool
fits_int64 z = leb_ℤ (pos 0) (z +ℤ pos (2 ^ 63)) && ltb_ℤ z (pos (2 ^ 63))

-- The part of `CreateRefund` behind the test for an earlier request.
unfoldable pub reserve : Faults → UserTables → Refund → Option Payment → Tx (Ending (Refund × Bool))
unfolding fits_int64
reserve io tables r none = raise payment_not_found
reserve io tables r (some p) = do
  raise_if (not (payment_status_eq p.status PaymentStatus.succeeded)) invalid_payment_state
  statement io 3
  sum ← gets (λ db. reserved r.user_id r.payment_id db.refunds)
  raise_if (not (fits_int64 sum)) (other "scan reserved")
  raise_if (leb_ℤ r.amount (pos 0) || ltb_ℤ (wrap64 (p.amount -ℤ sum)) r.amount)
      refund_amount_exceeded
  statement io 4
  created ← insert_row (record r { currency = p.currency })
  pure (commit (created, true))

unfoldable pub create_in :
    Faults → UserTables → Refund → Option Refund → Tx (Ending (Refund × Bool))
unfolding reserve
create_in io tables r (some existing) =
    if str_eq existing.request_hash r.request_hash
    then pure (rollback (existing, false))
    else raise idempotency_conflict
create_in io tables r none = do
  statement io 2
  found ← gets (λ db. payment_by_id r.payment_id (db.payments tables.payments))
  reserve io tables r found

-- The body of `CreateRefund`, between `Begin` and `Commit`.
unfoldable pub create_body : Faults → UserTables → Refund → Tx (Ending (Refund × Bool))
create_body io tables r = do
  statement io 0
  statement io 1
  existing ← gets (λ db. refund_by_key r.user_id r.idempotency_key db.refunds)
  create_in io tables r existing

module _ (sha256_hex : String → String) where
  unfoldable pub create_refund : Faults → Faults → Refund → Action (Refund × Bool)
  create_refund schema io r =
      after (ensure_user_schema sha256_hex schema r.user_id)
        (λ tables. transaction io (create_body io tables r))
