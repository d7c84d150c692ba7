-- ===== src/Witnesses/Deciding.antt =====
-- Options, waits and outcomes of the refund worker on concrete values.
use Prim.Native.Nat.{min}
use ptrans.Prelude.{ℕ, ◌≡◌, ◌↔◌, ◌<◌, ◌-◌, ◌/◌, ◌*◌, ◌^◌, refl, true, false, none, arith}
use ptrans.Prelude.Int.{pos, ◌≤ℤ◌, ◌<ℤ◌}
use ptrans.Domain.Errors.{ok}
use ptrans.Domain.Refund.{Refund, RefundStatus}
use ptrans.Provider.{ProviderStatus, Answer, answered}
use ptrans.Refunds.{Worker}
use ptrans.Refunds.Validation.{default_options, validate, IsValid, validate-IsValid}
use ptrans.Refunds.Backoff.{base_delay, backoff, default_jitter}
use ptrans.Refunds.Backoff.Growth.{base_delay-eq-min, backoff_bounds}
use ptrans.Refunds.Decide.{decide}
use ptrans.Refunds.Decide.Verdict.{
  IsLegal, ConfirmsSuccess, ConfirmsFailure, decide-IsLegal, decide_verdict,
}

short_timeout : default_options.request_timeout <ℤ pos (2 ^ 62)
unfolding default_options
short_timeout = omega arith

validate-IsValid_example : validate default_options ≡ ok tt ↔ IsValid default_options
validate-IsValid_example = validate-IsValid default_options short_timeout

base_delay-eq-min_example : base_delay 3 (pos 4) (pos 10) ≡ pos (min (4 * 2 ^ (3 - 1)) 10)
base_delay-eq-min_example = base_delay-eq-min 3 4 10 (omega arith) (omega arith)

pub zeros : ℕ → ℕ
zeros n = 0

zeros_below : (k : ℕ) → 0 < k → zeros k < k
unfolding zeros
zeros_below k h = h

abbrev pub worker : Worker
worker = record {
  opts = record default_options { initial_backoff = pos 4; max_backoff = pos 10 };
  jitter = default_jitter zeros;
}

backoff_bounds_example :
    (pos (min (4 * 2 ^ (3 - 1)) 10 / 2) ≤ℤ backoff worker 3)
    × (backoff worker 3 ≤ℤ pos (min (4 * 2 ^ (3 - 1)) 10))
backoff_bounds_example =
    backoff_bounds worker zeros 4 10 3 zeros_below refl refl refl (omega arith) (omega arith)

abbrev pub refund : Refund
refund = record {
  id = "re_1";
  user_id = "ann";
  payment_id = "pay_1";
  amount = pos 300;
  currency = "USD";
  status = RefundStatus.pending;
  idempotency_key = "key-1";
  request_hash = "abc";
  attempts = 0;
  check_failures = 0;
  retryable = false;
  manual_review = false;
  last_error = "";
  next_action_at = 10000;
  processing_started_at = none;
  lease_token = "";
  lease_until = none;
  version = 1;
  created_at = 10000;
  updated_at = 10000;
}

abbrev pub answer : Answer
answer = answered (record {
  operation_id = "re_1";
  status = ProviderStatus.failed;
  retryable = true;
  error_code = "busy";
})

decide-IsLegal_example : IsLegal worker refund (decide worker refund answer 20 false)
decide-IsLegal_example = decide-IsLegal worker refund answer 20 false

decide_verdict_example :
    ((decide worker refund answer 20 false).status ≡ RefundStatus.succeeded
      ↔ ConfirmsSuccess refund answer)
    × ((decide worker refund answer 20 false).status ≡ RefundStatus.failed
        ↔ ConfirmsFailure worker refund false answer)
decide_verdict_example = decide_verdict worker refund answer 20 false
