-- ===== src/Refunds/Decide/Verdict.antt =====
-- What `decide` can do to a refund that is being processed.
use ptrans.Prelude.{◌≡◌, ◌↔◌, ◌⊎◌, Bool, true, false, arith, eq_iff}
use ptrans.Prelude.Int.{pos, ◌<ℤ◌}
use ptrans.Domain.Errors.{Time}
use ptrans.Domain.Refund.{Refund, RefundStatus}
use ptrans.Provider.{
  ProviderResult, ProviderStatus, CallError, provider_error, plain, Answer, answered, refused,
}
use ptrans.Refunds.{Worker, Outcome}
use ptrans.Refunds.Decide.{decide, decide_error, decide_result}

-- An outcome that the store accepts for a refund in PROCESSING: the table's CHECK constraints
-- hold, and a retry is only promised while attempts are left.
pub record IsLegal (w : Worker) (r : Refund) (out : Outcome) : Type 0 where
  pub moves :
      (out.status ≡ RefundStatus.processing)
      ⊎ (out.status ≡ RefundStatus.succeeded)
      ⊎ (out.status ≡ RefundStatus.failed)
  pub retry_failed : out.retryable ≡ true → out.status ≡ RefundStatus.failed
  pub retry_left : out.retryable ≡ true → pos r.attempts <ℤ w.opts.max_attempts
  pub review_processing : out.manual_review ≡ true → out.status ≡ RefundStatus.processing

decide_error-IsLegal :
    (w : Worker) (r : Refund) (e : CallError) (now : Time) (lookup : Bool)
    → IsLegal w r (decide_error w r e now lookup)
unfolding decide_error
decide_error-IsLegal w r (plain text) now lookup = ground arith
decide_error-IsLegal w r (provider_error e) now lookup = ground arith

decide_result-IsLegal :
    (w : Worker) (r : Refund) (res : ProviderResult) (s : ProviderStatus) (now : Time)
    (lookup : Bool)
    → IsLegal w r (decide_result w r res s now lookup)
unfolding decide_result
decide_result-IsLegal w r res ProviderStatus.succeeded now lookup = ground arith
decide_result-IsLegal w r res _ now lookup = ground arith

-- Whatever the provider answers, the outcome is legal for a refund in PROCESSING.
pub decide-IsLegal :
    (w : Worker) (r : Refund) (a : Answer) (now : Time) (lookup : Bool)
    → IsLegal w r (decide w r a now lookup)
unfolding decide
decide-IsLegal w r (refused e) now lookup = decide_error-IsLegal w r e now lookup
decide-IsLegal w r (answered res) now lookup =
    ground (arith, decide_result-IsLegal w r res res.status now lookup)

-- The answers that prove that the provider carried the refund out.
abbrev pub ConfirmsSuccess : Refund → Answer → Type 0
ConfirmsSuccess r (refused e) = ⊥
ConfirmsSuccess r (answered res) =
    (res.operation_id ≡ r.id) × (res.status ≡ ProviderStatus.succeeded)

-- The answers that prove that the provider did not and will not carry this attempt out: a permanent
-- refusal of a submission, a FAILED result, or NOT_FOUND to a lookup while attempts are left.
abbrev pub ConfirmsFailure : Worker → Refund → Bool → Answer → Type 0
ConfirmsFailure w r lookup (refused (plain text)) = ⊥
ConfirmsFailure w r lookup (refused (provider_error e)) = (e.permanent ≡ true) × (lookup ≡ false)
ConfirmsFailure w r lookup (answered res) =
    (res.operation_id ≡ r.id)
    × ((res.status ≡ ProviderStatus.failed)
        ⊎ ((res.status ≡ ProviderStatus.not_found)
            × (lookup ≡ true)
            × (pos r.attempts <ℤ w.opts.max_attempts)))

-- A refund is recorded as succeeded exactly when the provider confirmed this very operation, and
-- as failed, which gives the money free again or allows another attempt, exactly when the answer
-- proves that the attempt has failed. Timeouts, transport errors, retryable HTTP errors, UNKNOWN,
-- a stuck PROCESSING and mismatched operations finish nothing.
pub decide_verdict :
    (w : Worker) (r : Refund) (a : Answer) (now : Time) (lookup : Bool)
    → ((decide w r a now lookup).status ≡ RefundStatus.succeeded ↔ ConfirmsSuccess r a)
      × ((decide w r a now lookup).status ≡ RefundStatus.failed ↔ ConfirmsFailure w r lookup a)
unfolding decide
decide_verdict w r (refused (plain text)) now lookup = ground arith
decide_verdict w r (refused (provider_error e)) now lookup = ground arith
decide_verdict w r (answered res) now lookup = ground (arith, eq_iff res.operation_id r.id)
