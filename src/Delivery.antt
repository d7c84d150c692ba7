-- ===== src/Delivery.antt =====
-- internal/worker/worker.go: the worker that delivers outbox events to webhooks.
pub mod Backoff
pub mod Sending
pub mod Processing
use ptrans.Prelude.{ℕ, ◌*◌, ◌^◌, if◌then◌else◌}
use ptrans.Prelude.Int.{ℤ, pos, leb_ℤ}
use ptrans.Domain.Errors.{Duration}
use ptrans.Provider.RetryAfter.{second}

pub record Options : Type 0 where
  pub batch_size : ℤ
  pub poll_interval : Duration
  pub lock_for : Duration
  pub http_timeout : Duration
  pub max_attempts : ℤ
  pub initial_backoff : Duration
  pub max_backoff : Duration

abbrev pub or_default : ℤ → ℤ → ℤ
or_default v d = if leb_ℤ v (pos 0) then d else v

unfoldable pub normalize_options : Options → Options
normalize_options o = record {
  batch_size = or_default o.batch_size (pos 10);
  poll_interval = or_default o.poll_interval (pos (2 * second));
  lock_for = or_default o.lock_for (pos (30 * second));
  http_timeout = or_default o.http_timeout (pos (5 * second));
  max_attempts = or_default o.max_attempts (pos 5);
  initial_backoff = or_default o.initial_backoff (pos (2 * second));
  max_backoff = or_default o.max_backoff (pos (60 * second));
}
