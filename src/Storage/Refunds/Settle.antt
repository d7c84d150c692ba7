-- ===== src/Storage/Refunds/Settle.antt =====
-- `ApplyRefundOutcome` and `RequestRefundRecheck` of internal/storage/refunds.go. `rec_id` is what
-- `NewID("rec")` gives.
use ptrans.Prelude.{
  String, Bool, false, ◌&&◌, ◌||◌, not, Option, none, some, ◌∷◌, ltb, ◌==◌, str_eq, if◌then◌else◌,
  find?, some_passes,
}
use ptrans.Domain.Errors.{
  Error, ok, err, other, Time, refund_not_found, invalid_refund_state, lease_lost,
}
use ptrans.Domain.Refund.{
  Refund, RefundStatus, status_eq, ReconciliationResult, validate_refund_transition,
}
use ptrans.Refunds.{Outcome, Finding}
use ptrans.Storage.Schema.{
  Faults, Tx, ◌>>=◌, ◌>>◌, pure, raise, gets, raise_if, raise_error, or_raise, statement, Ending,
  commit, Action, transaction,
}
use ptrans.Storage.RefundRows.{stored_time, refund_by_id, update_row}

-- `LeaseUntil != nil && LeaseUntil.After(now)`
abbrev pub leased : Option Time → Time → Bool
leased none now = false
leased (some until) now = ltb now until

-- The holder of the lease is the caller, and the row has not changed since the claim.
abbrev pub owns_lease : Refund → Refund → Time → Bool
owns_lease current claimed now =
    not (str_eq current.lease_token "")
    && str_eq current.lease_token claimed.lease_token
    && current.version == claimed.version
    && leased current.lease_until now

unfoldable pub outcome_columns : Outcome → Time → Refund → Refund
outcome_columns out now r = record r {
  status = out.status;
  retryable = out.retryable;
  manual_review = out.manual_review;
  last_error = out.last_error;
  check_failures = out.check_failures;
  next_action_at = stored_time out.next_action_at;
  lease_token = "";
  lease_until = none;
  updated_at = stored_time now;
}

-- The status may stay; any other move is validated.
unfoldable pub check_outcome : RefundStatus → RefundStatus → Option Error
check_outcome from to = if status_eq to from then none else validate_refund_transition from to

unfoldable pub insert_reconciliation : ReconciliationResult → Tx Unit
insert_reconciliation rec db =
    if some_passes (λ (o : ReconciliationResult). str_eq o.id rec.id) db.reconciliations
    then err (other "insert reconciliation result")
    else ok (tt, record db { reconciliations = rec ∷ db.reconciliations })

unfoldable pub record_finding :
    Faults → Refund → RefundStatus → Option Finding → Option String → Time → Tx Unit
record_finding io claimed local none rec_id now = pure tt
record_finding io claimed local (some f) rec_id now = do
  id ← or_raise rec_id (other "read random")
  statement io 2
  insert_reconciliation (record {
    id = id;
    operation_id = claimed.id;
    local_status = local;
    external_status = f.external_status;
    result = f.result;
    detail = f.detail;
    checked_at = stored_time now;
  })

unfoldable pub settle_found :
    Faults → Refund → Outcome → Option String → Time → Option Refund → Tx (Ending Unit)
settle_found io claimed out rec_id now none = raise refund_not_found
settle_found io claimed out rec_id now (some current) = do
  raise_if (not (owns_lease current claimed now)) lease_lost
  raise_if (not (status_eq current.status RefundStatus.processing)) invalid_refund_state
  raise_error (check_outcome current.status out.status)
  statement io 1
  update_row claimed.id (outcome_columns out now)
  record_finding io claimed current.status out.reconciliation rec_id now
  pure (commit tt)

unfoldable pub settle_body : Faults → Refund → Outcome → Option String → Time → Tx (Ending Unit)
settle_body io claimed out rec_id now = do
  statement io 0
  current ← gets (λ db. refund_by_id claimed.id db.refunds)
  settle_found io claimed out rec_id now current

unfoldable pub apply_refund_outcome : Faults → Refund → Outcome → Option String → Time → Action Unit
apply_refund_outcome io claimed out rec_id now =
    transaction io (settle_body io claimed out rec_id now)

unfoldable pub recheck_columns : Time → Refund → Refund
recheck_columns now r = record r {
  manual_review = false;
  check_failures = 0;
  next_action_at = stored_time now;
  updated_at = stored_time now;
  last_error = "";
}

unfoldable pub recheck_found : Faults → Time → Option Refund → Tx (Ending Refund)
recheck_found io now none = raise refund_not_found
recheck_found io now (some r) = do
  raise_if
      (not (status_eq r.status RefundStatus.processing)
        || not r.manual_review
        || leased r.lease_until now)
      invalid_refund_state
  statement io 1
  changed ← update_row r.id (recheck_columns now)
  pure (commit changed)

unfoldable pub recheck_body : Faults → String → String → Time → Tx (Ending Refund)
recheck_body io user id now = do
  statement io 0
  found ← gets (λ db. find? (λ (r : Refund). str_eq r.user_id user && str_eq r.id id) db.refunds)
  recheck_found io now found

unfoldable pub request_refund_recheck : Faults → String → String → Time → Action Refund
request_refund_recheck io user id now = transaction io (recheck_body io user id now)
