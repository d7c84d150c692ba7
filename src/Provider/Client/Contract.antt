-- ===== src/Provider/Client/Contract.antt =====
-- What the worker relies on in an answer of the client.
use ptrans.Prelude.{String, ◌≤◌, ◌<◌, ◌≡◌, ◌⊎◌, true, false, Option, arith}
use ptrans.Prelude.Int.{pos, ◌≤ℤ◌}
use ptrans.Domain.Errors.{Time}
use ptrans.Provider.{
  ProviderResult, ProviderStatus, Request, ProviderError, provider_error, refused, valid_status,
}
use ptrans.Provider.RetryAfter.{day, parse_retry_after_bounds}
use ptrans.Provider.Client.{
  Client, Method, is_get, World, HttpResponse, invalid_request, transport_error, response,
  Transport, accept_result, read_body, status_error, read_response, read_transport, call,
}

-- What holds of every result that the client hands on.
pub record IsTrusted (m : Method) (id : String) (res : ProviderResult) : Type 0 where
  pub same_operation : res.operation_id ≡ id
  pub known_status :
      ((is_get m ≡ true) × (res.status ≡ ProviderStatus.not_found))
      ⊎ (valid_status res.status ≡ true)
  pub only_failed_retry : res.retryable ≡ true → res.status ≡ ProviderStatus.failed

-- Why a call is refused.
pub record IsRefusal (m : Method) (e : ProviderError) : Type 0 where
  pub permanent_post :
      e.permanent ≡ true → (is_get m ≡ false) × ((e.http_status ≡ 400) ⊎ (e.http_status ≡ 422))
  pub not_both : e.permanent ≡ true → e.configuration ≡ false
  pub never_success : (e.http_status < 200) ⊎ (300 ≤ e.http_status)
  pub wait_bounded : (pos 0 ≤ℤ e.retry_after) × (e.retry_after ≤ℤ pos day)

read_response-IsRefusal :
    (w : World) (m : Method) (id : String) (r : HttpResponse) (now : Time) (e : ProviderError)
    → read_response w m id r now ≡ refused (provider_error e)
    → IsRefusal m e
unfolding read_response read_body accept_result status_error
read_response-IsRefusal w m id r now e h = record {
  permanent_post = ground arith;
  not_both = ground arith;
  never_success = ground arith;
  wait_bounded = ground (arith, parse_retry_after_bounds w.parse_time r.retry_after now);
}

read_transport-IsRefusal :
    (w : World) (m : Method) (id : String) (t : Transport) (now : Time) (e : ProviderError)
    → read_transport w m id t now ≡ refused (provider_error e)
    → IsRefusal m e
unfolding read_transport
read_transport-IsRefusal w m id (invalid_request x) now e h = cc
read_transport-IsRefusal w m id (transport_error x) now e h = ground arith
read_transport-IsRefusal w m id (response r) now e h = read_response-IsRefusal w m id r now e h

-- A refusal is permanent only for a submission answered by 400 or 422, is never both permanent
-- and a matter of configuration, never stands for a status from 200 to 299, and asks to wait for
-- at most a day.
pub call-IsRefusal :
    (w : World) (c : Client) (m : Method) (path id : String) (body : Option Request) (now : Time)
    (e : ProviderError)
    → call w c m path id body now ≡ refused (provider_error e)
    → IsRefusal m e
unfolding call
call-IsRefusal w c m path id body now e h = read_transport-IsRefusal w m id _ now e h
