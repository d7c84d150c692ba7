-- ===== src/Witnesses/Leasing.antt =====
-- A refund is claimed, settled, and claimed again after its retry is due.
use ptrans.Prelude.{String, ◌≡◌, ◌≢◌, refl, Bool, true, false, none, some, List, [], ◌∷◌, arith}
use ptrans.Prelude.Int.{pos}
use ptrans.Prelude.Text.{itoa}
use ptrans.Domain.Errors.{ok}
use ptrans.Domain.Refund.{Refund, RefundStatus, validate_refund_transition, is_refund_status}
use ptrans.Refunds.{ClaimKind, Outcome}
use ptrans.Storage.Schema.{Store, no_faults, ◌>>=◌}
use ptrans.Storage.OutboxRows.{insert_outbox}
use ptrans.Storage.RefundRows.{
  refund_by_id, checks, guard_update, update_kind, refund_outbox_event, emit, replace_row,
  next_version, write_row, update_row,
}
use ptrans.Storage.Refunds.Table.{Unique}
use ptrans.Storage.Refunds.Claim.{
  ClaimArgs, matches, before, earlier, first_row, submit_columns, take_lease, claim_found, is_known,
  claim_body, claim_refund,
}
use ptrans.Storage.Refunds.Settle.{
  outcome_columns, check_outcome, record_finding, settle_found, settle_body, apply_refund_outcome,
}
use ptrans.Storage.Refunds.Settle.{recheck_found, recheck_body, request_refund_recheck}
use ptrans.Storage.Refunds.History.{Call, claim, recheck, run_call, run_calls}
use ptrans.Storage.Refunds.Lease.{IsSettled, apply_refund_outcome-IsSettled}
use ptrans.Storage.Refunds.Versions.{settles_once}
use ptrans.Storage.Refunds.Facts.{IsClaimed, claim_refund-IsClaimed}
use ptrans.Refunds.Decide.{decide}
use ptrans.Refunds.Once.{with_finding}
use ptrans.Storage.Refunds.Settling.{NextEventIsFree, FindingIsFree, decision-settles}
use ptrans.Storage.Refunds.Exclusive.{claim_refund-excludes}
use ptrans.Witnesses.Deciding.{refund, worker, answer}
use ptrans.Witnesses.Refunding.{database, digest}

abbrev other_refund : Refund
other_refund = record refund { id = "re_2"; idempotency_key = "key-2"; next_action_at = 11000 }

abbrev store_of : List Refund → Store
store_of rows = record { db = record database { refunds = rows }; ensured_users = [] }

abbrev first_store : Store
first_store = store_of (refund ∷ other_refund ∷ [])

by_length : String → String → Bool
by_length a b = true

nothing_locked : Refund → Bool
nothing_locked r = false

abbrev args : ClaimArgs
args = record { now = 20000; lease = pos 30000; max_attempts = pos 5 }

abbrev claimed : Refund
claimed = record refund {
  status = RefundStatus.processing;
  attempts = 1;
  processing_started_at = some 20000;
  lease_token = "lease_1";
  lease_until = some 50000;
  next_action_at = 20000;
  updated_at = 20000;
  version = 2;
}

abbrev second_store : Store
second_store =
    (claim_refund no_faults by_length nothing_locked ClaimKind.submit args (some "lease_1")
      first_store).1

first_claim :
    claim_refund no_faults by_length nothing_locked ClaimKind.submit args
      (some "lease_1")
      first_store
    ≡ (ok (some claimed), second_store)
unfolding claim_refund is_known claim_body claim_found take_lease matches first_row earlier before
    submit_columns by_length nothing_locked update_row write_row next_version replace_row
    guard_update checks emit update_kind refund_outbox_event insert_outbox
    validate_refund_transition is_refund_status ◌>>=◌
first_claim = refl

distinct_rows : Unique first_store.db.refunds
distinct_rows = (refl, (refl, tt))

claim_refund-IsClaimed_example :
    IsClaimed ClaimKind.submit args claimed first_store.db second_store.db
claim_refund-IsClaimed_example =
    claim_refund-IsClaimed no_faults by_length nothing_locked ClaimKind.submit args (some "lease_1")
      first_store second_store claimed distinct_rows first_claim

abbrev later_args : ClaimArgs
later_args = record { now = 25000; lease = pos 30000; max_attempts = pos 5 }

abbrev other_claimed : Refund
other_claimed = record other_refund {
  status = RefundStatus.processing;
  attempts = 1;
  processing_started_at = some 25000;
  lease_token = "lease_2";
  lease_until = some 55000;
  next_action_at = 25000;
  updated_at = 25000;
  version = 2;
}

abbrev between : List Call
between =
    recheck no_faults "ann" "re_2" 21000
    ∷ claim no_faults by_length nothing_locked ClaimKind.reconcile later_args (some "lease_3")
    ∷ []

abbrev waited_store : Store
waited_store = run_calls digest between second_store

abbrev third_store : Store
third_store =
    (claim_refund no_faults by_length nothing_locked ClaimKind.submit later_args (some "lease_2")
      waited_store).1

second_claim :
    claim_refund no_faults by_length nothing_locked ClaimKind.submit later_args
      (some "lease_2")
      waited_store
    ≡ (ok (some other_claimed), third_store)
unfolding run_calls run_call request_refund_recheck recheck_body recheck_found claim_refund is_known
    claim_body claim_found take_lease matches first_row earlier before submit_columns by_length
    nothing_locked update_row write_row next_version replace_row guard_update checks emit
    update_kind refund_outbox_event insert_outbox validate_refund_transition is_refund_status ◌>>=◌
    itoa
second_claim = refl

claim_refund-excludes_example : other_claimed.id ≢ claimed.id
claim_refund-excludes_example =
    claim_refund-excludes digest between no_faults no_faults by_length by_length nothing_locked
      nothing_locked ClaimKind.submit ClaimKind.submit args later_args (some "lease_1")
      (some "lease_2") first_store second_store third_store claimed other_claimed distinct_rows
      first_claim (tt, (omega arith, tt)) second_claim (omega arith)

abbrev outcome : Outcome
outcome = record {
  status = RefundStatus.succeeded;
  retryable = false;
  manual_review = false;
  last_error = "";
  check_failures = 0;
  next_action_at = 60000;
  reconciliation = none;
}

abbrev settled_store : Store
settled_store = (apply_refund_outcome no_faults claimed outcome none 30000 second_store).1

settlement :
    apply_refund_outcome no_faults claimed outcome none 30000 second_store ≡ (ok tt, settled_store)
unfolding apply_refund_outcome settle_body settle_found record_finding check_outcome outcome_columns
    claim_refund is_known claim_body claim_found take_lease matches first_row earlier before
    submit_columns by_length nothing_locked update_row write_row next_version replace_row
    guard_update checks emit update_kind refund_outbox_event insert_outbox
    validate_refund_transition is_refund_status ◌>>=◌ itoa
settlement = refl

apply_refund_outcome-IsSettled_example :
    IsSettled claimed outcome 30000 second_store.db settled_store.db
apply_refund_outcome-IsSettled_example =
    apply_refund_outcome-IsSettled no_faults claimed outcome none 30000 second_store settled_store
      settlement

settles_once_example : ¬ (
    apply_refund_outcome no_faults claimed outcome none 31000
      (run_calls digest between settled_store)
    ≡ (ok tt, first_store))
settles_once_example =
    settles_once digest between no_faults no_faults claimed outcome outcome none none 30000 31000
      second_store settled_store first_store settlement

valid_row : checks claimed ≡ true
unfolding checks is_refund_status
valid_row = refl

row_found :
    (refund_by_id claimed.id second_store.db.refunds ≡ some claimed)
    × NextEventIsFree claimed second_store.db
    × FindingIsFree "rec_1" second_store.db.reconciliations
unfolding claim_refund is_known claim_body claim_found take_lease matches first_row earlier before
    submit_columns by_length nothing_locked update_row write_row next_version replace_row
    guard_update checks emit update_kind refund_outbox_event insert_outbox
    validate_refund_transition is_refund_status ◌>>=◌ itoa
row_found = (refl, refl, refl)

decision-settles_example :
    ((apply_refund_outcome no_faults claimed
        (decide worker claimed answer 30000 false)
        (some "rec_1")
        30000
        second_store).0
      ≡ ok tt)
    × ((apply_refund_outcome no_faults claimed
          (with_finding claimed answer (decide worker claimed answer 30000 true))
          (some "rec_1")
          30000
          second_store).0
        ≡ ok tt)
decision-settles_example =
    decision-settles worker claimed claimed answer 30000 30000 "rec_1" second_store row_found.0 refl
      refl valid_row row_found.1 row_found.2
