-- ===== src/Storage/Refunds/Claim.antt =====
-- `ClaimRefund` of internal/storage/refunds.go. `collate` is the order of the database on texts,
-- `locked` says which rows another transaction holds, and `token` is what `NewID("lease")` gives.
use ptrans.Prelude.{
  String, ◌+◌, Bool, true, false, ◌&&◌, ◌||◌, not, Option, none, some, List, [], ◌∷◌, ltb, leb,
  ◌==◌, if◌then◌else◌, keep,
}
use ptrans.Prelude.Int.{ℤ, pos, ltb_ℤ}
use ptrans.Domain.Errors.{err, other, Time, Duration, add_time}
use ptrans.Domain.Refund.{Refund, RefundStatus, status_eq, validate_refund_transition}
use ptrans.Refunds.{ClaimKind}
use ptrans.Storage.Schema.{
  Faults, Tx, ◌>>=◌, ◌>>◌, pure, gets, raise_error, or_raise, statement, Ending, commit, rollback,
  Action, transaction,
}
use ptrans.Storage.RefundRows.{stored_time, update_row}

abbrev pub submittable : ℤ → Refund → Bool
submittable max_attempts r =
    (status_eq r.status RefundStatus.pending
      || (status_eq r.status RefundStatus.failed && r.retryable))
    && ltb_ℤ (pos r.attempts) max_attempts

abbrev pub reconcilable : Refund → Bool
reconcilable r = status_eq r.status RefundStatus.processing && not r.manual_review

-- `lease_until IS NULL OR lease_until <= now`
abbrev pub lease_free : Option Time → Time → Bool
lease_free none now = true
lease_free (some until) now = leb until now

abbrev pub is_due : Time → Refund → Bool
is_due now r = leb r.next_action_at (stored_time now) && lease_free r.lease_until (stored_time now)

unfoldable pub matches : ClaimKind → Time → ℤ → Refund → Bool
matches ClaimKind.submit now max_attempts r = submittable max_attempts r && is_due now r
matches ClaimKind.reconcile now max_attempts r = reconcilable r && is_due now r
matches (ClaimKind.unknown_kind k) now max_attempts r = false

-- `ORDER BY next_action_at, created_at, id`
unfoldable pub before : (String → String → Bool) → Refund → Refund → Bool
before collate a b =
    ltb a.next_action_at b.next_action_at
    || (a.next_action_at == b.next_action_at
        && (ltb a.created_at b.created_at || (a.created_at == b.created_at && collate a.id b.id)))

unfoldable pub earlier : (String → String → Bool) → Refund → Option Refund → Option Refund
unfolding before
earlier collate r none = some r
earlier collate r (some best) = if before collate best r then some best else some r

-- `LIMIT 1`
unfoldable pub first_row : (String → String → Bool) → List Refund → Option Refund
unfolding earlier
first_row collate [] = none
first_row collate (r ∷ rs) = earlier collate r (first_row collate rs)

pub record ClaimArgs : Type 0 where
  pub now : Time
  pub lease : Duration
  pub max_attempts : ℤ

unfoldable pub submit_columns : ClaimArgs → String → Refund → Refund
submit_columns c token r = record r {
  status = RefundStatus.processing;
  retryable = false;
  attempts = r.attempts + 1;
  check_failures = 0;
  processing_started_at = some (stored_time c.now);
  lease_token = token;
  lease_until = some (stored_time (add_time c.now c.lease));
  next_action_at = stored_time c.now;
  updated_at = stored_time c.now;
}

unfoldable pub reconcile_columns : ClaimArgs → String → Refund → Refund
reconcile_columns c token r = record r {
  lease_token = token;
  lease_until = some (stored_time (add_time c.now c.lease));
  updated_at = stored_time c.now;
}

-- The UPDATE of a claim.
unfoldable pub take_lease : ClaimKind → ClaimArgs → String → Refund → Tx Refund
take_lease ClaimKind.submit c token r = do
  raise_error (validate_refund_transition r.status RefundStatus.processing)
  update_row r.id (submit_columns c token)
take_lease _ c token r = update_row r.id (reconcile_columns c token)

unfoldable pub claim_found :
    Faults → ClaimKind → ClaimArgs → Option String → Option Refund → Tx (Ending (Option Refund))
claim_found io kind c token none = pure (rollback none)
claim_found io kind c token (some r) = do
  fresh ← or_raise token (other "read random")
  statement io 1
  claimed ← take_lease kind c fresh r
  pure (commit (some claimed))

unfoldable pub is_known : ClaimKind → Bool
is_known (ClaimKind.unknown_kind k) = false
is_known _ = true

unfoldable pub claim_body :
    Faults
    → (String → String → Bool)
    → (Refund → Bool)
    → ClaimKind
    → ClaimArgs
    → Option String
    → Tx (Ending (Option Refund))
claim_body io collate locked kind c token = do
  statement io 0
  found ← gets λ db.
      first_row collate
        (keep (λ r. matches kind c.now c.max_attempts r && not (locked r)) db.refunds)
  claim_found io kind c token found

-- `none` in place of a refund is the answer `false`: nothing is due.
unfoldable pub claim_refund :
    Faults
    → (String → String → Bool)
    → (Refund → Bool)
    → ClaimKind
    → ClaimArgs
    → Option String
    → Action (Option Refund)
claim_refund io collate locked kind c token s =
    if is_known kind
    then transaction io (claim_body io collate locked kind c token) s
    else (err (other "unknown claim kind"), s)
