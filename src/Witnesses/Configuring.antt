-- ===== src/Witnesses/Configuring.antt =====
-- Two variables that are set.
use ptrans.Prelude.{String, ◌≡◌, refl, ◌*◌, Option, none, some, arith, str_eq, if◌then◌else◌}
use ptrans.Prelude.Int.{pos, ◌+ℤ◌, wrap64}
use ptrans.Prelude.Text.{parse_int}
use ptrans.Domain.Errors.{ok, Duration}
use ptrans.Provider.RetryAfter.{second}
use ptrans.Refunds.{Options}
use ptrans.Refunds.Validation.{default_options, validate, IsValid}
use ptrans.Config.{◌>>=◌, refund_options, read_options, setting, parsed_as, refund_options-IsValid}

variables : String → String
variables key =
    if str_eq key "REFUND_MAX_ATTEMPTS"
    then "7"
    else if str_eq key "PROVIDER_HTTP_TIMEOUT"
    then "4s"
    else ""

durations : String → Option Duration
durations text = if str_eq text "4s" then some (pos (4 * second)) else none

abbrev chosen : Options
chosen = record {
  poll_interval = pos second;
  lease_duration = pos (30 * second);
  request_timeout = pos (4 * second);
  check_interval = pos (30 * second);
  initial_backoff = pos (2 * second);
  max_backoff = pos (60 * second);
  stuck_after = pos (600 * second);
  max_attempts = pos 7;
  max_check_failures = pos 5;
  batch_size = pos 10;
}

reading : refund_options variables durations ≡ ok chosen
unfolding refund_options read_options setting parsed_as variables durations default_options validate
    parse_int wrap64 ◌+ℤ◌ ◌>>=◌
reading = refl

refund_options-IsValid_example : IsValid chosen
refund_options-IsValid_example =
    refund_options-IsValid variables durations chosen reading (omega arith)
