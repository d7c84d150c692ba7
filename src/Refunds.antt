-- ===== src/Refunds.antt =====
-- internal/refunds: the service and the worker of refunds, and the interface to the store.
pub mod Validation
pub mod Backoff
pub mod Decide
pub mod Once
pub mod Service
pub mod Reading
use ptrans.Prelude.{ℕ, String, Bool, Option}
use ptrans.Prelude.Int.{ℤ}
use ptrans.Domain.Errors.{Time, Duration}
use ptrans.Domain.Refund.{RefundStatus}

pub data ClaimKind : Type 0 where
  submit reconcile : ClaimKind
  unknown_kind : String → ClaimKind

-- The part of a `ReconciliationResult` that the worker fills in.
pub record Finding : Type 0 where
  pub external_status : String
  pub result : String
  pub detail : String

pub record Outcome : Type 0 where
  pub status : RefundStatus
  pub retryable : Bool
  pub manual_review : Bool
  pub last_error : String
  pub check_failures : ℕ
  pub next_action_at : Time
  pub reconciliation : Option Finding

pub record Options : Type 0 where
  pub poll_interval : Duration
  pub lease_duration : Duration
  pub request_timeout : Duration
  pub check_interval : Duration
  pub initial_backoff : Duration
  pub max_backoff : Duration
  pub stuck_after : Duration
  pub max_attempts : ℤ
  pub max_check_failures : ℤ
  pub batch_size : ℤ

-- The worker's options and its source of jitter.
pub record Worker : Type 0 where
  pub opts : Options
  pub jitter : Duration → Duration
