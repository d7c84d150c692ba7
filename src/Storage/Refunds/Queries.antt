-- ===== src/Storage/Refunds/Queries.antt =====
-- The reads of internal/storage/refunds.go. `by_created` stands for `ORDER BY created_at DESC,id`
-- and `by_checked` for `ORDER BY checked_at DESC,id`.
use ptrans.Prelude.{
  ℕ, String, Bool, true, ◌&&◌, ◌||◌, not, Option, none, some, List, str_eq, find?, keep, take, drop,
}
use ptrans.Prelude.Int.{ℤ, pos, pos_part, ltb_ℤ}
use ptrans.Domain.Errors.{other, refund_not_found}
use ptrans.Domain.Refund.{Refund, RefundStatus, status_eq, ReconciliationResult}
use ptrans.Refunds.Service.{ListFilter}
use ptrans.Storage.Schema.{
  Faults, Tx, ◌>>=◌, ◌>>◌, pure, gets, or_raise, raise_if, statement, Action, autocommit,
}

abbrev pub refund_of_user : String → String → List Refund → Option Refund
refund_of_user user id = find? (λ (r : Refund). str_eq r.user_id user && str_eq r.id id)

unfoldable pub find_refund : Faults → ℕ → String → String → Tx Refund
find_refund io n user id = do
  statement io n
  found ← gets (λ db. refund_of_user user id db.refunds)
  or_raise found refund_not_found

unfoldable pub get_refund : Faults → String → String → Action Refund
unfolding find_refund
get_refund io user id = autocommit (find_refund io 0 user id)

abbrev pub status_passes : Option RefundStatus → Refund → Bool
status_passes none r = true
status_passes (some s) r = status_eq r.status s

-- The WHERE of `ListRefunds`.
unfoldable pub selects : String → ListFilter → Refund → Bool
selects user f r =
    str_eq r.user_id user
    && (str_eq f.payment_id "" || str_eq r.payment_id f.payment_id)
    && status_passes f.status r
    && (not f.manual_review || r.manual_review)

-- LIMIT and OFFSET; the database refuses negative ones.
unfoldable pub page_of : {A : Type 0} → ℤ → ℤ → List A → Tx (List A)
page_of limit offset xs = do
  raise_if (ltb_ℤ limit (pos 0) || ltb_ℤ offset (pos 0))
      (other "LIMIT and OFFSET must not be negative")
  pure (take (pos_part limit) (drop (pos_part offset) xs))

unfoldable pub list_refunds :
    (List Refund → List Refund) → Faults → String → ListFilter → Action (List Refund)
unfolding selects page_of
list_refunds by_created io user f = autocommit do
  statement io 0
  rows ← gets (λ db. keep (selects user f) db.refunds)
  page_of f.limit f.offset (by_created rows)

unfoldable pub list_reconciliations :
    (List ReconciliationResult → List ReconciliationResult)
    → Faults
    → String
    → String
    → ℤ
    → ℤ
    → Action (List ReconciliationResult)
unfolding find_refund page_of
list_reconciliations by_checked io user id limit offset = autocommit do
  find_refund io 0 user id
  statement io 1
  rows ← gets λ db. keep (λ (c : ReconciliationResult). str_eq c.operation_id id) db.reconciliations
  page_of limit offset (by_checked rows)
