-- ===== src/Refunds/Backoff.antt =====
-- `backoff` and the default jitter of internal/refunds/worker.go.
pub mod Growth
use ptrans.Prelude.{ℕ, zero, suc, ◌+◌, ◌-◌, ◌/◌, ltb, if◌then◌else◌}
use ptrans.Prelude.Int.{ℤ, pos, negsuc, pos_part, ◌+ℤ◌, ◌-ℤ◌, ltb_ℤ, wrap64}
use ptrans.Domain.Errors.{Duration}
use ptrans.Refunds.{Worker}

-- `d / 2`, which Go truncates towards zero.
unfoldable pub half : ℤ → ℤ
half (pos n) = pos (n / 2)
half (negsuc n) = (let m = suc n / 2 in if ltb 0 m then negsuc (m - 1) else pos 0)

-- The loop of `backoff`, by the rounds that `i < attempt` leaves. The product is an int64 product.
unfoldable pub doublings : ℕ → Duration → Duration → Duration
unfolding half
doublings zero delay max = delay
doublings (suc rounds) delay max =
    let next = doublings rounds (wrap64 (delay +ℤ delay)) max in
    if ltb_ℤ delay max then (if ltb_ℤ (half max) delay then max else next) else delay

-- The delay that is handed to the jitter.
unfoldable pub base_delay : ℕ → Duration → Duration → Duration
unfolding doublings
base_delay attempt initial max =
    let delay = doublings (attempt - 1) initial max in if ltb_ℤ max delay then max else delay

unfoldable pub backoff : Worker → ℕ → Duration
backoff w attempt = w.jitter (base_delay attempt w.opts.initial_backoff w.opts.max_backoff)

-- The jitter of `NewWorker`: `int64n n` is `rand.Int64N(n)`.
unfoldable pub default_jitter : (ℕ → ℕ) → Duration → Duration
unfolding half
default_jitter int64n d = half d +ℤ pos (int64n (pos_part (d -ℤ half d) + 1))
