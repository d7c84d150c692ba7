-- ===== src/Witnesses/Calls.antt =====
-- Calls of the provider with answers that a server could give.
use ptrans.Prelude.{String, ◌≡◌, refl, true, false, Option, none, some, ◌*◌}
use ptrans.Prelude.Int.{pos, ◌≤ℤ◌}
use ptrans.Prelude.Text.{parse_int, itoa}
use ptrans.Domain.Errors.{Time}
use ptrans.Provider.{
  ProviderResult, ProviderStatus, ProviderError, Request, refused, provider_error,
}
use ptrans.Provider.RetryAfter.{
  day, second, delay_seconds, parse_retry_after, parse_retry_after_bounds,
}
use ptrans.Provider.Client.{
  Client, Method, World, HttpResponse, response, call, read_transport, read_response, status_error,
}
use ptrans.Provider.Client.Contract.{IsRefusal, call-IsRefusal}

pub no_dates : String → Option Time
no_dates text = none

parse_retry_after_bounds_example :
    (pos 0 ≤ℤ parse_retry_after no_dates "120" 5) × (parse_retry_after no_dates "120" 5 ≤ℤ pos day)
parse_retry_after_bounds_example = parse_retry_after_bounds no_dates "120" 5

abbrev pub succeeded_result : ProviderResult
succeeded_result = record {
  operation_id = "re_1";
  status = ProviderStatus.succeeded;
  retryable = false;
  error_code = "";
}

abbrev pub request : Request
request = record { operation_id = "re_1"; payment_id = "pay_1"; amount = pos 300; currency = "USD" }

abbrev client : Client
client = record { base = "http://provider"; key = "secret" }

abbrev answering : HttpResponse → World
answering r = record {
  do_request = λ q. response r;
  unmarshal = λ text. some succeeded_result;
  parse_time = no_dates;
  path_escape = λ text. text;
}

abbrev accepted : World
accepted = answering (record { status_code = 200; retry_after = ""; body = some "{}" })

abbrev rejecting : World
rejecting = answering (record { status_code = 422; retry_after = "7"; body = none })

abbrev rejection : ProviderError
rejection = record {
  http_status = 422;
  retry_after = pos (7 * second);
  permanent = true;
  configuration = false;
  message = "provider HTTP 422";
}

rejected_run :
    call rejecting client Method.post "/refunds" "re_1" (some request) 5
    ≡ refused (provider_error rejection)
unfolding call read_transport read_response status_error parse_retry_after delay_seconds parse_int
    itoa
rejected_run = refl

call-IsRefusal_example : IsRefusal Method.post rejection
call-IsRefusal_example =
    call-IsRefusal rejecting client Method.post "/refunds" "re_1" (some request) 5 rejection
      rejected_run
