-- ===== src/Api.antt =====
-- internal/httpapi: answers, errors and queries of the HTTP API. A handler is a function of the
-- store; what JSON makes of a body is an argument, and the text of a response is its value.
pub mod Guards
pub mod Payments
pub mod Webhooks
pub mod Refunds
pub mod Routes
pub mod Protected
pub mod Pages
use ptrans.Prelude.{
  ℕ, String, Bool, true, false, ◌&&◌, ◌||◌, Option, none, some, List, str_eq, if◌then◌else◌,
}
use ptrans.Prelude.Int.{ℤ, pos, ltb_ℤ}
use ptrans.Prelude.Text.{trim_space, parse_int}
use ptrans.Domain.Errors.{
  Error, error_message, Result, ok, err, invalid_pagination, payment_not_found,
  subscription_not_found, refund_not_found, invalid_amount, idempotency_key_required,
  invalid_currency, invalid_status_filter, invalid_webhook_url, user_id_required,
  invalid_payment_state, idempotency_conflict, invalid_refund_state, refund_amount_exceeded,
}
use ptrans.Domain.Payment.{Payment}
use ptrans.Domain.Refund.{Refund, ReconciliationResult}
use ptrans.Domain.Webhook.{WebhookSubscription}
use ptrans.Storage.Schema.{Store}

-- The values that are written as JSON.
pub data Body : Type 0 where
  error_body : String → Body
  limited_body : ℕ → Body
  health_body : String → Body
  -- The status "unavailable" and an error.
  unavailable_body : String → Body
  created_payment : Payment → Bool → Body
  payment_page : List Payment → ℤ → ℤ → ℕ → Body
  payment_body : Payment → Body
  subscription_items : List WebhookSubscription → Body
  subscription_body : WebhookSubscription → Body
  created_refund : Refund → Bool → Body
  refund_body : Refund → Body
  refund_items : List Refund → Body
  reconciliation_items : List ReconciliationResult → Body
  empty_body : Body

-- `challenge` is the header WWW-Authenticate, `rate` the two headers X-RateLimit.
pub record Response : Type 0 where
  pub status : ℕ
  pub challenge : Bool
  pub rate : Option (ℤ × ℕ)
  pub retry_after : Option ℕ
  pub body : Body

abbrev pub Handler : Type 0
Handler = Store → Response × Store

-- `writeJSON`
unfoldable pub write_json : ℕ → Body → Response
write_json status body = record {
  status = status;
  challenge = false;
  rate = none;
  retry_after = none;
  body = body;
}

unfoldable pub write_error : ℕ → String → Response
unfolding write_json
write_error status message = write_json status (error_body message)

unfoldable pub error_status : Error → ℕ
error_status payment_not_found = 404
error_status subscription_not_found = 404
error_status refund_not_found = 404
error_status invalid_amount = 400
error_status idempotency_key_required = 400
error_status invalid_currency = 400
error_status invalid_pagination = 400
error_status invalid_status_filter = 400
error_status invalid_webhook_url = 400
error_status user_id_required = 400
error_status invalid_payment_state = 409
error_status idempotency_conflict = 409
error_status invalid_refund_state = 409
error_status refund_amount_exceeded = 409
error_status _ = 500

unfoldable pub write_service_error : Error → Response
unfolding error_status write_error
write_service_error e =
    if ltb_ℤ (pos (error_status e)) (pos 500)
    then write_error (error_status e) (error_message e)
    else write_error 500 "internal server error"

-- The answer to the result of a service.
unfoldable pub answer : {A : Type 0} → (A → Response) → Result A × Store → Response × Store
unfolding write_service_error
answer reply (ok a, s) = (reply a, s)
answer reply (err e, s) = (write_service_error e, s)

-- What `decodeJSON` gives: a value, or the text of its error.
pub data Decoded (A : Type 0) : Type 0 where
  decoded : A → Decoded A
  undecodable : String → Decoded A

-- A query parameter that is a number from 1.
unfoldable pub accept_positive : Option ℤ → Result ℤ
accept_positive none = err invalid_pagination
accept_positive (some n) = if ltb_ℤ n (pos 1) then err invalid_pagination else ok n

unfoldable pub parse_positive_int_query : String → ℤ → Result ℤ
unfolding accept_positive
parse_positive_int_query raw default_value =
    if str_eq (trim_space raw) ""
    then ok default_value
    else accept_positive (parse_int (trim_space raw))
