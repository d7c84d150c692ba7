-- ===== src/Provider/Client.antt =====
-- `Submit`, `Lookup` and `call` of internal/provider/client.go. The HTTP transport, the JSON
-- decoder and the parser of HTTP dates are parameters.
pub mod Contract
use Prim.Native.String.{◌++◌ as str_append, len}
use ptrans.Prelude.{
  ℕ, String, Bool, true, false, ◌&&◌, ◌||◌, not, Option, none, some, ltb, leb, ◌==◌, str_eq,
  if◌then◌else◌,
}
use ptrans.Prelude.Int.{pos}
use ptrans.Prelude.Text.{itoa}
use ptrans.Domain.Errors.{Time}
use ptrans.Domain.Refund.{Refund}
use ptrans.Provider.{
  ProviderResult, ProviderStatus, Request, ProviderError, provider_error, plain, Answer, answered,
  refused, valid_status, is_failed,
}
use ptrans.Provider.RetryAfter.{parse_retry_after}

pub record Client : Type 0 where
  pub base : String
  pub key : String

pub data Method : Type 0 where
  get post : Method

abbrev pub is_get : Method → Bool
is_get get = true
is_get post = false

-- What the client puts into a request. A GET has no body and no Idempotency-Key.
pub record HttpRequest : Type 0 where
  pub method : Method
  pub url : String
  pub authorization : String
  pub content_type : String
  pub idempotency_key : Option String
  pub body : Option Request

-- A body is what `io.ReadAll` gives; `none` is a failed read.
pub record HttpResponse : Type 0 where
  pub status_code : ℕ
  pub retry_after : String
  pub body : Option String

pub data Transport : Type 0 where
  invalid_request transport_error : String → Transport
  response : HttpResponse → Transport

-- The outside of the client.
pub record World : Type 0 where
  pub do_request : HttpRequest → Transport
  pub unmarshal : String → Option ProviderResult
  pub parse_time : String → Option Time
  pub path_escape : String → String

abbrev bare_error : String → Answer
bare_error message = refused (
    provider_error (record {
      http_status = 0;
      retry_after = pos 0;
      permanent = false;
      configuration = false;
      message = message;
    }))

unfoldable pub build_request : Client → Method → String → String → Option Request → HttpRequest
build_request c method path id body = record {
  method = method;
  url = str_append c.base path;
  authorization = str_append "Bearer " c.key;
  content_type = "application/json";
  idempotency_key = if is_get method then none else some id;
  body = body;
}

-- A status outside 200..299.
unfoldable pub status_error : World → Method → HttpResponse → Time → ProviderError
status_error w method res now = record {
  http_status = res.status_code;
  retry_after = parse_retry_after w.parse_time res.retry_after now;
  permanent = not (is_get method) && (res.status_code == 400 || res.status_code == 422);
  configuration =
      res.status_code == 401
      || res.status_code == 403
      || res.status_code == 409
      || (leb 300 res.status_code && ltb res.status_code 400);
  message = str_append "provider HTTP " (itoa res.status_code);
}

unfoldable pub accept_result : String → Option ProviderResult → Answer
accept_result id none = bare_error "invalid provider JSON"
accept_result id (some result) =
    if not (str_eq result.operation_id id)
      || not (valid_status result.status)
      || (not (is_failed result.status) && result.retryable)
    then bare_error "invalid provider operation or status"
    else answered result

unfoldable pub read_body : World → String → Option String → Answer
unfolding accept_result
read_body w id none = bare_error "invalid provider response body"
read_body w id (some raw) =
    if ltb 65_536 (len raw)
    then bare_error "invalid provider response body"
    else accept_result id (w.unmarshal raw)

unfoldable pub read_response : World → Method → String → HttpResponse → Time → Answer
unfolding read_body status_error
read_response w method id res now =
    if is_get method && res.status_code == 404
    then answered (record {
      operation_id = id;
      status = ProviderStatus.not_found;
      retryable = false;
      error_code = "";
    })
    else if ltb res.status_code 200 || leb 300 res.status_code
    then refused (provider_error (status_error w method res now))
    else read_body w id res.body

unfoldable pub read_transport : World → Method → String → Transport → Time → Answer
unfolding read_response
read_transport w method id (invalid_request e) now = refused (plain e)
read_transport w method id (transport_error e) now =
    bare_error (str_append "provider transport error: " e)
read_transport w method id (response res) now = read_response w method id res now

unfoldable pub call : World → Client → Method → String → String → Option Request → Time → Answer
unfolding read_transport build_request
call w c method path id body now =
    read_transport w method id (w.do_request (build_request c method path id body)) now

unfoldable pub submit : World → Client → Refund → Time → Answer
unfolding call
submit w c r now =
    call w c post "/refunds" r.id
      (some (record {
        operation_id = r.id;
        payment_id = r.payment_id;
        amount = r.amount;
        currency = r.currency;
      }))
      now

unfoldable pub lookup : World → Client → String → Time → Answer
unfolding call
lookup w c id now = call w c get (str_append "/refunds/" (w.path_escape id)) id none now
