-- ===== src/Services/Payments.antt =====
-- internal/service/payment_service.go: the tests of a request before the repository is called.
use ptrans.Prelude.{
  ℕ, String, Bool, true, false, ◌&&◌, ◌||◌, not, Option, none, some, List, str_eq, if◌then◌else◌,
}
use ptrans.Prelude.Int.{ℤ, pos, pos_part, leb_ℤ, ltb_ℤ}
use ptrans.Prelude.Text.{trim_space}
use ptrans.Domain.Errors.{
  Error, err, Time, user_id_required, invalid_amount, invalid_currency, invalid_pagination,
  invalid_status_filter,
}
use ptrans.Domain.Payment.{Payment, PaymentStatus}
use ptrans.Storage.Schema.{Action}
use ptrans.Storage.Payments.{PaymentListFilter}
use ptrans.Services.{normalize_currency, is_valid_currency, to_upper}

-- What the service needs of its store.
pub record PaymentRepository : Type 0 where
  pub create : String → Payment → String → Action (Payment × Bool)
  pub find : String → String → Action Payment
  pub page : String → PaymentListFilter → Action (List Payment × ℕ)
  pub cancel : String → String → Time → Action Unit

pub record CreatePaymentInput : Type 0 where
  pub user_id : String
  pub amount : ℤ
  pub currency : String
  pub idempotency_key : String

-- The first error of the tests, in their order.
unfoldable pub input_error : CreatePaymentInput → Option Error
unfolding normalize_currency is_valid_currency
input_error i =
    if str_eq (trim_space i.user_id) ""
    then some user_id_required
    else if leb_ℤ i.amount (pos 0)
    then some invalid_amount
    else if not (is_valid_currency (normalize_currency i.currency))
    then some invalid_currency
    else none

unfoldable pub payment_from : CreatePaymentInput → String → Time → Payment
unfolding normalize_currency
payment_from i id now = record {
  id = id;
  amount = i.amount;
  currency = normalize_currency i.currency;
  status = PaymentStatus.pending;
  idempotency_key = trim_space i.idempotency_key;
  created_at = now;
  updated_at = now;
}

unfoldable pub parse_status : String → PaymentStatus
parse_status s =
    if str_eq s "CANCELLED"
    then PaymentStatus.cancelled
    else if str_eq s "FAILED"
    then PaymentStatus.failed
    else if str_eq s "PENDING"
    then PaymentStatus.pending
    else if str_eq s "PROCESSING"
    then PaymentStatus.processing
    else if str_eq s "SUCCEEDED"
    then PaymentStatus.succeeded
    else PaymentStatus.invalid s

unfoldable pub is_valid_payment_status : PaymentStatus → Bool
is_valid_payment_status (PaymentStatus.invalid s) = false
is_valid_payment_status _ = true

unfoldable pub normalize_payment_status : String → String
unfolding to_upper
normalize_payment_status s = to_upper (trim_space s)

unfoldable pub list_error : String → String → ℤ → ℤ → Option Error
unfolding is_valid_payment_status parse_status normalize_payment_status
list_error user status page size =
    let wanted = normalize_payment_status status in
    if str_eq (trim_space user) ""
    then some user_id_required
    else if ltb_ℤ page (pos 1) || ltb_ℤ size (pos 1)
    then some invalid_pagination
    else if not (str_eq wanted "") && not (is_valid_payment_status (parse_status wanted))
    then some invalid_status_filter
    else none

unfoldable pub filter_of : String → ℤ → ℤ → PaymentListFilter
unfolding parse_status normalize_payment_status
filter_of status page size = record {
  status =
      if str_eq (normalize_payment_status status) ""
      then none
      else some (parse_status (normalize_payment_status status));
  page = pos_part page;
  size = pos_part size;
}

-- The call of the repository, unless a test gave an error.
abbrev pub checked : {A : Type 0} → Option Error → Action A → Action A
checked none k s = k s
checked (some e) k s = (err e, s)

unfoldable pub user_error : String → Option Error
user_error user = if str_eq (trim_space user) "" then some user_id_required else none

module _ (hash_of : ℤ → String → String) (repo : PaymentRepository) where
  unfoldable pub create_payment : CreatePaymentInput → String → Time → Action (Payment × Bool)
  unfolding input_error payment_from
  create_payment i id now = checked (input_error i) (
      repo.create i.user_id (payment_from i id now)
        (hash_of i.amount (normalize_currency i.currency)))

  unfoldable pub get_payment : String → String → Action Payment
  unfolding user_error
  get_payment user id = checked (user_error user) (repo.find user id)

  unfoldable pub list_payments : String → String → ℤ → ℤ → Action (List Payment × ℕ)
  unfolding list_error filter_of
  list_payments user status page size =
      checked (list_error user status page size) (repo.page user (filter_of status page size))

  unfoldable pub cancel_payment : String → String → Time → Action Unit
  unfolding user_error
  cancel_payment user id now = checked (user_error user) (repo.cancel user id now)
