-- ===== src/Refunds/Service.antt =====
-- internal/refunds/service.go: the tests before the store is called. `hash_of` is the SHA-256 of
-- the marshalled request, in hexadecimal; `new_id` is what `NewID("refund")` gives.
use Prim.Native.String.{len}
use ptrans.Prelude.{String, Bool, false, ◌||◌, Option, none, some, str_eq, ltb, if◌then◌else◌}
use ptrans.Prelude.Int.{ℤ, pos, leb_ℤ, ltb_ℤ}
use ptrans.Prelude.Text.{trim_space}
use ptrans.Domain.Errors.{
  Error, err, other, Time, user_id_required, invalid_amount, idempotency_key_required,
  payment_not_found, invalid_pagination, invalid_status_filter,
}
use ptrans.Domain.Refund.{Refund, RefundStatus, is_refund_status}
use ptrans.Storage.Schema.{Faults, Action}
use ptrans.Storage.Refunds.Create.{create_refund}

pub record CreateRequest : Type 0 where
  pub user : String
  pub payment : String
  pub amount : ℤ
  pub key : String

-- The first error of the tests, in their order.
unfoldable pub request_error : CreateRequest → Option Error
request_error q =
    let key = trim_space q.key in
    if str_eq (trim_space q.user) ""
    then some user_id_required
    else if leb_ℤ q.amount (pos 0)
    then some invalid_amount
    else if str_eq key "" || ltb 128 (len key)
    then some idempotency_key_required
    else if str_eq q.payment "" || ltb 128 (len q.payment)
    then some payment_not_found
    else none

module _ (hash_of : String → ℤ → String) (sha256_hex : String → String) where
  unfoldable pub refund_of : CreateRequest → String → Time → Refund
  refund_of q id now = record {
    id = id;
    user_id = q.user;
    payment_id = q.payment;
    amount = q.amount;
    currency = "";
    status = RefundStatus.pending;
    idempotency_key = trim_space q.key;
    request_hash = hash_of q.payment q.amount;
    attempts = 0;
    check_failures = 0;
    retryable = false;
    manual_review = false;
    last_error = "";
    next_action_at = now;
    processing_started_at = none;
    lease_token = "";
    lease_until = none;
    version = 0;
    created_at = now;
    updated_at = now;
  }

  unfoldable pub create_with :
      Faults → Faults → CreateRequest → Option String → Time → Option Error → Action (Refund × Bool)
  unfolding refund_of
  create_with schema io q new_id now (some e) s = (err e, s)
  create_with schema io q none now none s = (err (other "read random"), s)
  create_with schema io q (some id) now none s =
      create_refund sha256_hex schema io (refund_of q id now) s

  unfoldable pub create :
      Faults → Faults → CreateRequest → Option String → Time → Action (Refund × Bool)
  unfolding create_with request_error
  create schema io q new_id now = create_with schema io q new_id now (request_error q)

pub record ListFilter : Type 0 where
  pub payment_id : String
  pub status : Option RefundStatus
  pub manual_review : Bool
  pub limit : ℤ
  pub offset : ℤ

-- The tests of `Reconciliations`, and the first one of `List`.
unfoldable pub page_error : ℤ → ℤ → Option Error
page_error limit offset =
    if ltb_ℤ limit (pos 1) || ltb_ℤ (pos 100) limit || ltb_ℤ offset (pos 0)
    then some invalid_pagination
    else none

-- An empty status, `none`, does not filter.
unfoldable pub status_error : Option RefundStatus → Option Error
status_error none = none
status_error (some s) = if is_refund_status s then none else some invalid_status_filter

unfoldable pub filter_error : ListFilter → Option Error
unfolding page_error status_error
filter_error f = elim (page_error f.limit f.offset) [
  | some e ↦ some e
  | none ↦ status_error f.status
]
