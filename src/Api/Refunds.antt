-- ===== src/Api/Refunds.antt =====
-- The handlers of internal/httpapi/refunds.go.
use ptrans.Prelude.{
  ℕ, ◌*◌, String, Bool, true, false, ◌||◌, Option, none, some, List, str_eq, if◌then◌else◌,
}
use ptrans.Prelude.Int.{ℤ, pos, pos_part, ltb_ℤ, ◌-ℤ◌}
use ptrans.Domain.Errors.{Result, ok, err, invalid_pagination}
use ptrans.Domain.Refund.{
  Refund, RefundStatus, ReconciliationResult, pending, processing, succeeded, failed, invalid,
}
use ptrans.Storage.Schema.{Action}
use ptrans.Refunds.Service.{CreateRequest, ListFilter}
use ptrans.Api.{
  created_refund, refund_body, refund_items, reconciliation_items, Response, Handler, write_json,
  write_error, write_service_error, answer, Decoded, decoded, undecodable, parse_positive_int_query,
}

-- The service of refunds, with its clock and its ids.
pub record RefundService : Type 0 where
  pub create : CreateRequest → Action (Refund × Bool)
  pub find : String → String → Action Refund
  pub items : String → ListFilter → Action (List Refund)
  pub checks : String → String → ℤ → ℤ → Action (List ReconciliationResult)
  pub recheck : String → String → Action Refund

pub record CreateRefundRequest : Type 0 where
  pub payment_id : String
  pub amount : ℤ

unfoldable pub reply_refund_created : Refund × Bool → Response
unfolding write_json
reply_refund_created (r, created) =
    write_json (if created then 202 else 200) (created_refund r created)

unfoldable pub reply_refund : ℕ → Refund → Response
unfolding write_json
reply_refund status r = write_json status (refund_body r)

unfoldable pub reply_refunds : List Refund → Response
unfolding write_json
reply_refunds rs = write_json 200 (refund_items rs)

unfoldable pub reply_checks : List ReconciliationResult → Response
unfolding write_json
reply_checks rs = write_json 200 (reconciliation_items rs)

-- The limit and the offset of a page; page and size are positive here.
unfoldable pub paginate : Result ℤ → Result ℤ → Result (ℤ × ℤ)
paginate (err e) size = err e
paginate (ok page) (err e) = err invalid_pagination
paginate (ok page) (ok size) =
    if ltb_ℤ (pos 100) size || ltb_ℤ (pos 1000000) page
    then err invalid_pagination
    else ok (size, pos (pos_part (page -ℤ pos 1) * pos_part size))

unfoldable pub refund_pagination : String → String → Result (ℤ × ℤ)
unfolding paginate parse_positive_int_query
refund_pagination page size =
    paginate (parse_positive_int_query page (pos 1)) (parse_positive_int_query size (pos 20))

-- `strconv.ParseBool`
unfoldable pub parse_bool : String → Option Bool
parse_bool s =
    if str_eq s "1"
      || str_eq s "t"
      || str_eq s "T"
      || str_eq s "true"
      || str_eq s "TRUE"
      || str_eq s "True"
    then some true
    else if str_eq s "0"
        || str_eq s "f"
        || str_eq s "F"
        || str_eq s "false"
        || str_eq s "FALSE"
        || str_eq s "False"
    then some false
    else none

unfoldable pub review_filter : String → Option Bool
unfolding parse_bool
review_filter raw = if str_eq raw "" then some false else parse_bool raw

unfoldable pub refund_status_of : String → Option RefundStatus
refund_status_of s =
    if str_eq s ""
    then none
    else if str_eq s "PENDING"
    then some pending
    else if str_eq s "PROCESSING"
    then some processing
    else if str_eq s "SUCCEEDED"
    then some succeeded
    else if str_eq s "FAILED"
    then some failed
    else some (invalid s)

pub record RefundQuery : Type 0 where
  pub page : String
  pub size : String
  pub manual_review : String
  pub payment_id : String
  pub status : String

module _ (service : RefundService) where
  unfoldable pub handle_create_refund : Decoded CreateRefundRequest → String → String → Handler
  unfolding reply_refund_created answer write_error
  handle_create_refund (undecodable e) key user s = (write_error 400 e, s)
  handle_create_refund (decoded q) key user s = answer reply_refund_created (
      service.create (record { user = user; payment = q.payment_id; amount = q.amount; key = key })
        s)

  unfoldable pub handle_get_refund : String → String → Handler
  unfolding reply_refund answer
  handle_get_refund id user s = answer (reply_refund 200) (service.find user id s)

  unfoldable pub list_reviewed : RefundQuery → String → ℤ → ℤ → Option Bool → Handler
  unfolding reply_refunds answer refund_status_of write_error
  list_reviewed q user limit offset none s = (write_error 400 "invalid manual_review filter", s)
  list_reviewed q user limit offset (some review) s = answer reply_refunds (
      service.items user
        (record {
          payment_id = q.payment_id;
          status = refund_status_of q.status;
          manual_review = review;
          limit = limit;
          offset = offset;
        })
        s)

  unfoldable pub list_at : RefundQuery → String → Result (ℤ × ℤ) → Handler
  unfolding list_reviewed review_filter write_service_error
  list_at q user (err e) s = (write_service_error e, s)
  list_at q user (ok (limit, offset)) s =
      list_reviewed q user limit offset (review_filter q.manual_review) s

  unfoldable pub handle_list_refunds : RefundQuery → String → Handler
  unfolding list_at refund_pagination
  handle_list_refunds q user s = list_at q user (refund_pagination q.page q.size) s

  unfoldable pub checks_at : String → String → Result (ℤ × ℤ) → Handler
  unfolding reply_checks answer write_service_error
  checks_at id user (err e) s = (write_service_error e, s)
  checks_at id user (ok (limit, offset)) s =
      answer reply_checks (service.checks user id limit offset s)

  unfoldable pub handle_list_reconciliations : String → String → String → String → Handler
  unfolding checks_at refund_pagination
  handle_list_reconciliations id page size user s =
      checks_at id user (refund_pagination page size) s

  unfoldable pub handle_refund_recheck : String → String → Handler
  unfolding reply_refund answer
  handle_refund_recheck id user s = answer (reply_refund 202) (service.recheck user id s)
