-- ===== src/Api/Payments.antt =====
-- The handlers of payments in internal/httpapi/router.go.
use ptrans.Prelude.{ℕ, String, Bool, List, if◌then◌else◌}
use ptrans.Prelude.Int.{ℤ, pos, ltb_ℤ}
use ptrans.Domain.Errors.{Result, ok, err, Time, invalid_pagination}
use ptrans.Domain.Payment.{Payment}
use ptrans.Storage.Schema.{after}
use ptrans.Services.Payments.{
  PaymentRepository, create_payment, get_payment, list_payments, cancel_payment,
}
use ptrans.Api.{
  created_payment, payment_page, payment_body, Response, Handler, write_json, write_error,
  write_service_error, answer, Decoded, decoded, undecodable, parse_positive_int_query,
}

pub record CreatePaymentRequest : Type 0 where
  pub amount : ℤ
  pub currency : String

abbrev pub default_page_size : ℤ
default_page_size = pos 20

abbrev pub default_page_number : ℤ
default_page_number = pos 1

abbrev pub max_page_size : ℤ
max_page_size = pos 100

-- 201 for a new payment, 200 for one that the key has made before.
unfoldable pub reply_created : Payment × Bool → Response
unfolding write_json
reply_created (p, created) = write_json (if created then 201 else 200) (created_payment p created)

unfoldable pub reply_page : ℤ → ℤ → List Payment × ℕ → Response
unfolding write_json
reply_page page size (items, total) = write_json 200 (payment_page items page size total)

unfoldable pub reply_payment : Payment → Response
unfolding write_json
reply_payment p = write_json 200 (payment_body p)

module _ (hash_of : ℤ → String → String) (repo : PaymentRepository) where
  unfoldable pub handle_create_payment :
      Decoded CreatePaymentRequest → String → String → String → Time → Handler
  unfolding reply_created create_payment answer write_error
  handle_create_payment (undecodable e) key user id now s = (write_error 400 e, s)
  handle_create_payment (decoded q) key user id now s = answer reply_created (
      create_payment hash_of repo
        (record { user_id = user; amount = q.amount; currency = q.currency; idempotency_key = key })
        id now s)

  unfoldable pub list_sized : String → String → ℤ → Result ℤ → Handler
  unfolding reply_page answer write_service_error
  list_sized user status page (err e) s = (write_service_error e, s)
  list_sized user status page (ok size) s =
      if ltb_ℤ max_page_size size
      then (write_service_error invalid_pagination, s)
      else answer (reply_page page size) (list_payments hash_of repo user status page size s)

  unfoldable pub list_paged : String → String → Result ℤ → Result ℤ → Handler
  unfolding list_sized
  list_paged user status (err e) size s = (write_service_error e, s)
  list_paged user status (ok page) size s = list_sized user status page size s

  -- The texts of the query parameters.
  unfoldable pub handle_list_payments : String → String → String → String → Handler
  unfolding list_paged parse_positive_int_query
  handle_list_payments page size status user s =
      list_paged user status (parse_positive_int_query page default_page_number)
        (parse_positive_int_query size default_page_size) s

  unfoldable pub handle_get_payment : String → String → Handler
  unfolding reply_payment answer
  handle_get_payment id user s = answer reply_payment (get_payment hash_of repo user id s)

  -- The payment is read again after it is cancelled.
  unfoldable pub handle_cancel_payment : String → String → Time → Handler
  unfolding reply_payment answer
  handle_cancel_payment id user now s =
      answer reply_payment
        (after (cancel_payment hash_of repo user id now) (λ _. get_payment hash_of repo user id) s)
