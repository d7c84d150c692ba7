-- ===== src/Refunds/Validation.antt =====
-- `DefaultOptions` and `Validate` of internal/refunds/worker.go.
use ptrans.Prelude.{◌*◌, ◌^◌, ◌≡◌, ◌↔◌, ◌||◌, arith, if◌then◌else◌}
use ptrans.Prelude.Int.{
  pos, negsuc, pos-add, ◌≤ℤ◌, ◌<ℤ◌, ◌+ℤ◌, ltb_ℤ, leb_ℤ, wrap64, wrap64_of_IsInt64,
}
use ptrans.Domain.Errors.{Result, ok, err, other, Duration}
use ptrans.Provider.RetryAfter.{second}
use ptrans.Refunds.{Options}

unfoldable pub default_options : Options
default_options = record {
  poll_interval = pos second;
  lease_duration = pos (30 * second);
  request_timeout = pos (5 * second);
  check_interval = pos (30 * second);
  initial_backoff = pos (2 * second);
  max_backoff = pos (60 * second);
  stuck_after = pos (600 * second);
  max_attempts = pos 5;
  max_check_failures = pos 5;
  batch_size = pos 10;
}

-- `2*o.RequestTimeout` is an int64 product.
unfoldable pub validate : Options → Result (Unit {0})
validate o =
    if leb_ℤ poll_interval (pos 0)
      || leb_ℤ request_timeout (pos 0)
      || ltb_ℤ lease_duration (wrap64 (request_timeout +ℤ request_timeout))
      || leb_ℤ check_interval (pos 0)
      || leb_ℤ initial_backoff (pos 0)
      || ltb_ℤ max_backoff initial_backoff
      || leb_ℤ stuck_after (pos 0)
      || ltb_ℤ max_attempts (pos 1)
      || ltb_ℤ max_check_failures (pos 1)
      || ltb_ℤ batch_size (pos 1)
    then err
        (other "invalid refund worker options; lease must be at least twice the request timeout")
    else ok tt
  where
    open o use {
      poll_interval, request_timeout, lease_duration, check_interval, initial_backoff, max_backoff,
      stuck_after, max_attempts, max_check_failures, batch_size,
    }

-- What the worker may assume of its options.
pub record IsValid (o : Options) : Type 0 where
  pub poll_pos : pos 0 <ℤ o.poll_interval
  pub timeout_pos : pos 0 <ℤ o.request_timeout
  pub lease_covers : o.request_timeout +ℤ o.request_timeout ≤ℤ o.lease_duration
  pub check_pos : pos 0 <ℤ o.check_interval
  pub backoff_pos : pos 0 <ℤ o.initial_backoff
  pub backoff_order : o.initial_backoff ≤ℤ o.max_backoff
  pub stuck_pos : pos 0 <ℤ o.stuck_after
  pub attempts_pos : pos 1 ≤ℤ o.max_attempts
  pub failures_pos : pos 1 ≤ℤ o.max_check_failures
  pub batch_pos : pos 1 ≤ℤ o.batch_size

doubled_timeout : (t : Duration) → pos 0 ≤ℤ t → t <ℤ pos (2 ^ 62) → wrap64 (t +ℤ t) ≡ t +ℤ t
doubled_timeout (pos n) z h = wrap64_of_IsInt64 (pos n +ℤ pos n) (rw pos-add (omega arith))
doubled_timeout (negsuc n) z h = ground arith

accepted-IsValid :
    (o : Options) → o.request_timeout <ℤ pos (2 ^ 62) → validate o ≡ ok tt → IsValid o
unfolding validate
accepted-IsValid o h v = ground (arith, doubled_timeout o.request_timeout)

IsValid-accepted :
    (o : Options) → o.request_timeout <ℤ pos (2 ^ 62) → IsValid o → validate o ≡ ok tt
unfolding validate
IsValid-accepted o h v = ground (arith, doubled_timeout o.request_timeout)

-- For a request timeout below 2^62 ns, whose double is an int64, the options are accepted exactly
-- when every duration and limit is positive, the backoff's limit is not below its start, and the
-- lease outlasts two requests.
pub validate-IsValid :
    (o : Options) → o.request_timeout <ℤ pos (2 ^ 62) → validate o ≡ ok tt ↔ IsValid o
validate-IsValid o h = (accepted-IsValid o h, IsValid-accepted o h)
