-- ===== src/Provider.antt =====
-- internal/provider/client.go: the client of the payment provider.
pub mod RetryAfter
pub mod Client
use ptrans.Prelude.{String, ℕ, Bool, true, false, str_eq}
use ptrans.Prelude.Int.{ℤ}
use ptrans.Domain.Errors.{Duration}

-- A status is a string: any other text is `unsupported`.
pub data ProviderStatus : Type 0 where
  succeeded failed processing unknown not_found : ProviderStatus
  unsupported : String → ProviderStatus

pub record ProviderResult : Type 0 where
  pub operation_id : String
  pub status : ProviderStatus
  pub retryable : Bool
  pub error_code : String

pub record Request : Type 0 where
  pub operation_id : String
  pub payment_id : String
  pub amount : ℤ
  pub currency : String

pub record ProviderError : Type 0 where
  pub http_status : ℕ
  pub retry_after : Duration
  pub permanent : Bool
  pub configuration : Bool
  pub message : String

-- The error of a call: a `*Error`, or an error of another type.
pub data CallError : Type 0 where
  provider_error : ProviderError → CallError
  plain : String → CallError

-- The answer of a call: Go returns the zero value beside an error.
pub data Answer : Type 0 where
  answered : ProviderResult → Answer
  refused : CallError → Answer

unfoldable pub valid_status : ProviderStatus → Bool
valid_status succeeded = true
valid_status failed = true
valid_status processing = true
valid_status unknown = true
valid_status _ = false

unfoldable pub is_failed : ProviderStatus → Bool
is_failed failed = true
is_failed _ = false
