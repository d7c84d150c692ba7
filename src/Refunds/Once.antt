-- ===== src/Refunds/Once.antt =====
-- `ProcessOnce` and `ReconcileOnce` of internal/refunds/worker.go over the refund store. The
-- provider is the interface `Provider`; `Turn` is what one turn of the worker meets.
use ptrans.Prelude.{String, Bool, true, false, ◌&&◌, not, Option, none, some, if◌then◌else◌}
use ptrans.Domain.Errors.{Error, Result, ok, err, Time}
use ptrans.Domain.Refund.{Refund, RefundStatus, status_eq}
use ptrans.Provider.{ProviderStatus, Answer, answered, refused}
use ptrans.Refunds.{ClaimKind, Outcome, Worker}
use ptrans.Refunds.Decide.{decide}
use ptrans.Storage.Schema.{Store, Faults}
use ptrans.Storage.Refunds.Claim.{ClaimArgs, claim_refund}
use ptrans.Storage.Refunds.Settle.{apply_refund_outcome}

-- `Provider`: a call may fail in any way.
pub record ProviderCalls : Type 0 where
  pub submit : Refund → Answer
  pub lookup : String → Answer

pub record Turn : Type 0 where
  pub claim_io : Faults
  pub save_io : Faults
  pub collate : String → String → Bool
  pub locked : Refund → Bool
  pub claim_time : Time
  pub answer_time : Time
  pub token : Option String
  pub rec_id : Option String

-- The answer of a turn: whether a refund was claimed, and the error.
pub record TurnResult : Type 0 where
  pub worked : Bool
  pub failure : Option Error

unfoldable pub claim_args : Worker → Turn → ClaimArgs
claim_args w t = record {
  now = t.claim_time;
  lease = w.opts.lease_duration;
  max_attempts = w.opts.max_attempts;
}

unfoldable pub saved : Result (Unit {0}) × Store → TurnResult × Store
saved (ok u, s) = (record { worked = true; failure = none }, s)
saved (err e, s) = (record { worked = true; failure = some e }, s)

unfoldable pub save : Turn → Refund → Outcome → Store → TurnResult × Store
unfolding saved
save t r out s = saved (apply_refund_outcome t.save_io r out t.rec_id t.answer_time s)

-- What follows a claim.
unfoldable pub with_claim :
    (Refund → Store → TurnResult × Store) → Result (Option Refund) × Store → TurnResult × Store
with_claim k (err e, s) = (record { worked = false; failure = some e }, s)
with_claim k (ok none, s) = (record { worked = false; failure = none }, s)
with_claim k (ok (some r), s) = k r s

unfoldable pub process_once : Worker → ProviderCalls → Turn → Store → TurnResult × Store
unfolding with_claim save claim_args
process_once w p t s =
    with_claim (λ r. save t r (decide w r (p.submit r) t.answer_time false))
      (claim_refund t.claim_io t.collate t.locked ClaimKind.submit (claim_args w t) t.token s)

unfoldable pub status_text : ProviderStatus → String
status_text ProviderStatus.not_found = "NOT_FOUND"
status_text ProviderStatus.processing = "PROCESSING"
status_text ProviderStatus.succeeded = "SUCCEEDED"
status_text ProviderStatus.failed = "FAILED"
status_text ProviderStatus.unknown = "UNKNOWN"
status_text (ProviderStatus.unsupported s) = s

unfoldable pub external : Answer → String
unfolding status_text
external (refused e) = "ERROR"
external (answered res) = status_text res.status

abbrev pub is_unknown : ProviderStatus → Bool
is_unknown ProviderStatus.unknown = true
is_unknown _ = false

-- The last cases of the `switch`.
unfoldable pub plain_action : Answer → String
plain_action (refused e) = "provider_error"
plain_action (answered res) = if is_unknown res.status then "unknown" else "matched"

unfoldable pub action_of : Refund → Answer → Outcome → String
unfolding plain_action
action_of r a out =
    if out.manual_review
    then "manual_review"
    else if status_eq out.status RefundStatus.failed && out.retryable
    then "retry_scheduled"
    else if not (status_eq out.status r.status)
    then "corrected"
    else plain_action a

unfoldable pub with_finding : Refund → Answer → Outcome → Outcome
unfolding action_of external
with_finding r a out = record out {
  reconciliation = some (record {
    external_status = external a;
    result = action_of r a out;
    detail = out.last_error;
  });
}

unfoldable pub reconcile_once : Worker → ProviderCalls → Turn → Store → TurnResult × Store
unfolding with_claim save claim_args with_finding
reconcile_once w p t s =
    with_claim
      (λ r.
        save t r (with_finding r (p.lookup r.id) (decide w r (p.lookup r.id) t.answer_time true)))
      (claim_refund t.claim_io t.collate t.locked ClaimKind.reconcile (claim_args w t) t.token s)
