-- ===== src/Refunds/Decide.antt =====
-- `decide` of internal/refunds/worker.go: what an answer of the provider means for a refund.
pub mod Verdict
use Prim.Native.Nat.{max}
use Prim.Native.String.{◌++◌ as str_append}
use ptrans.Prelude.{
  ℕ, String, ◌+◌, Bool, true, false, ◌&&◌, ◌||◌, not, Option, none, some, str_eq, if◌then◌else◌,
}
use ptrans.Prelude.Int.{pos, ltb_ℤ, leb_ℤ, sub_ℕ}
use ptrans.Domain.Errors.{Time, Duration, add_time}
use ptrans.Domain.Refund.{Refund, RefundStatus}
use ptrans.Provider.{
  ProviderResult, ProviderStatus, CallError, provider_error, plain, Answer, answered, refused,
}
use ptrans.Refunds.{Worker, Outcome}
use ptrans.Refunds.Backoff.{backoff}

-- The outcome that `decide` starts from.
unfoldable pub start : Worker → Time → Outcome
start w now = record {
  status = RefundStatus.processing;
  retryable = false;
  manual_review = false;
  last_error = "";
  check_failures = 0;
  next_action_at = add_time now w.opts.check_interval;
  reconciliation = none;
}

-- `r.Attempts < w.opts.MaxAttempts`
unfoldable pub attempts_left : Worker → Refund → Bool
attempts_left w r = ltb_ℤ (pos r.attempts) w.opts.max_attempts

-- `n >= w.opts.MaxCheckFailures`
unfoldable pub too_many_failures : Worker → ℕ → Bool
too_many_failures w n = leb_ℤ w.opts.max_check_failures (pos n)

-- `r.ProcessingStartedAt != nil && now.Sub(*r.ProcessingStartedAt) >= w.opts.StuckAfter`
unfoldable pub is_stuck : Worker → Option Time → Time → Bool
is_stuck w none now = false
is_stuck w (some since) now = leb_ℤ w.opts.stuck_after (sub_ℕ now since)

-- `pe != nil && pe.RetryAfter > delay`
abbrev longer : Option Duration → Duration → Duration
longer none delay = delay
longer (some wait) delay = if ltb_ℤ delay wait then wait else delay

-- The end of the error branch, where the call is to be tried again later.
unfoldable pub decide_later : Worker → Refund → String → Option Duration → Time → Bool → Outcome
unfolding start too_many_failures
decide_later w r message retry_after now lookup =
    let failures = if lookup then r.check_failures + 1 else r.check_failures in
    let delay = longer retry_after (backoff w (max r.attempts failures)) in
    record (start w now) {
      last_error = message;
      check_failures = failures;
      next_action_at = add_time now delay;
      manual_review = too_many_failures w failures;
    }

unfoldable pub decide_error : Worker → Refund → CallError → Time → Bool → Outcome
unfolding decide_later start
decide_error w r (plain text) now lookup = decide_later w r text none now lookup
decide_error w r (provider_error e) now lookup =
    let out = record (start w now) { last_error = e.message; check_failures = r.check_failures } in
    if e.permanent && not lookup
    then record out { status = RefundStatus.failed }
    else if e.configuration
    then record out { manual_review = true }
    else decide_later w r e.message (some e.retry_after) now lookup

-- The `switch` on the status of a result without error.
unfoldable pub decide_result :
    Worker → Refund → ProviderResult → ProviderStatus → Time → Bool → Outcome
unfolding start attempts_left too_many_failures is_stuck
decide_result w r result ProviderStatus.succeeded now lookup = record (start w now) {
  status = RefundStatus.succeeded;
}
decide_result w r result ProviderStatus.failed now lookup =
    let again = result.retryable && attempts_left w r in
    record (start w now) {
      status = RefundStatus.failed;
      retryable = again;
      last_error =
          if result.retryable && not again
          then str_append "retry attempts exhausted: " result.error_code
          else result.error_code;
      next_action_at = add_time now (backoff w r.attempts);
    }
decide_result w r result ProviderStatus.not_found now lookup =
    if not lookup
    then record (start w now) {
      manual_review = true;
      last_error = "invalid NOT_FOUND response to submit";
    }
    else if not (attempts_left w r)
    then record (start w now) {
      manual_review = true;
      last_error =
          "operation not found after retry limit; verify no delayed request can still complete";
    }
    else record (start w now) {
      status = RefundStatus.failed;
      retryable = true;
      next_action_at = add_time now (backoff w r.attempts);
      last_error = "provider confirmed operation not found; retry with the same operation ID";
    }
decide_result w r result ProviderStatus.processing now lookup =
    if is_stuck w r.processing_started_at now
    then record (start w now) {
      manual_review = true;
      last_error = "provider operation is stuck in PROCESSING";
    }
    else start w now
decide_result w r result ProviderStatus.unknown now lookup =
    let failures = r.check_failures + 1 in
    record (start w now) {
      check_failures = failures;
      last_error = "provider cannot determine operation status";
      next_action_at = add_time now (backoff w failures);
      manual_review = too_many_failures w failures || is_stuck w r.processing_started_at now;
    }
decide_result w r result (ProviderStatus.unsupported s) now lookup = record (start w now) {
  manual_review = true;
  last_error = "unsupported provider status";
}

unfoldable pub decide : Worker → Refund → Answer → Time → Bool → Outcome
unfolding decide_error decide_result start
decide w r (refused e) now lookup = decide_error w r e now lookup
decide w r (answered result) now lookup =
    if not (str_eq result.operation_id r.id)
    then record (start w now) {
      manual_review = true;
      last_error = "provider operation ID mismatch";
    }
    else decide_result w r result result.status now lookup
