-- ===== src/Refunds/Backoff/Growth.antt =====
-- The backoff doubles with each attempt up to its limit, and int64 never overflows.
use Prim.Native.Nat.{min}
use native.Mathlib.Nat.{pow-suc}
use ptrans.Prelude.{ℕ, zero, suc, ◌+◌, ◌-◌, ◌*◌, ◌/◌, ◌^◌, ◌≤◌, ◌<◌, ◌≡◌, refl, ap, arith}
use ptrans.Prelude.Int.{pos, ◌≤ℤ◌, ◌+ℤ◌, ◌-ℤ◌, pos-add, wrap64, wrap64_of_IsInt64}
use ptrans.Prelude.Doubling.{one-le-pow, regroup}
use ptrans.Refunds.{Worker}
use ptrans.Refunds.Backoff.{half, doublings, base_delay, backoff, default_jitter}

double : (d m : ℕ) → d + d ≤ m → m < 2 ^ 63 → wrap64 (pos d +ℤ pos d) ≡ pos (d + d)
double d m h b = rw pos-add (wrap64_of_IsInt64 (pos (d + d)) (omega arith))

-- the two sides of the test `delay > max / 2`
grown_past : (k d m : ℕ) → m < d + d → min (d * 2 ^ suc k) m ≡ m
grown_past k d m h = grind (arith, pow-suc 2 k, one-le-pow k)

stopped : (k d m : ℕ) → d ≤ m → m ≤ d → min (d * 2 ^ suc k) m ≡ d
stopped k d m h g = grind (arith, pow-suc 2 k, one-le-pow k)

doublings-eq-min :
    (k d m : ℕ) → d ≤ m → m < 2 ^ 63 → doublings k (pos d) (pos m) ≡ pos (min (d * 2 ^ k) m)
unfolding doublings
doublings-eq-min zero d m h b = ap pos (omega arith)
doublings-eq-min (suc k) d m h b = ground (
  arith,
  double d m,
  doublings-eq-min k (d + d) m,
  grown_past k d m,
  regroup k d m,
  stopped k d m,
)

-- The delay before jitter is the initial backoff doubled once for every attempt after the first,
-- and never more than the limit, when it is not above the limit and that is below 2^63.
pub base_delay-eq-min :
    (attempt initial limit : ℕ)
    → initial ≤ limit
    → limit < 2 ^ 63
    → base_delay attempt (pos initial) (pos limit) ≡ pos (min (initial * 2 ^ (attempt - 1)) limit)
unfolding base_delay
base_delay-eq-min attempt initial limit h b =
    rw (doublings-eq-min (attempt - 1) initial limit h b) (ground arith)

half-eq : (n : ℕ) → half (pos n) ≡ pos (n / 2)
unfolding half
half-eq n = refl

pos-sub : (a b : ℕ) → b ≤ a → pos a -ℤ pos b ≡ pos (a - b)
unfolding ◌-ℤ◌
pos-sub a b h = ground arith

default_jitter_bounds :
    (int64n : ℕ → ℕ) (n : ℕ)
    → ((k : ℕ) → 0 < k → int64n k < k)
    → (pos (n / 2) ≤ℤ default_jitter int64n (pos n)) × (default_jitter int64n (pos n) ≤ℤ pos n)
unfolding default_jitter
default_jitter_bounds int64n n law =
    rw (half-eq, pos-sub n (n / 2) (omega arith), pos-add)
      (omega (arith, law (n - n / 2 + 1) (omega arith)))

-- With the default jitter, for any `rand.Int64N` that stays below its argument, the wait before
-- the next attempt lies between half of the doubled backoff and the whole of it; so it is never
-- more than the limit. The initial backoff is not above the limit, and that is below 2^63.
pub backoff_bounds :
    (w : Worker) (int64n : ℕ → ℕ) (initial limit attempt : ℕ)
    → ((k : ℕ) → 0 < k → int64n k < k)
    → w.jitter ≡ default_jitter int64n
    → w.opts.initial_backoff ≡ pos initial
    → w.opts.max_backoff ≡ pos limit
    → initial ≤ limit
    → limit < 2 ^ 63
    → let delay = min (initial * 2 ^ (attempt - 1)) limit in
      (pos (delay / 2) ≤ℤ backoff w attempt) × (backoff w attempt ≤ℤ pos delay)
unfolding backoff
backoff_bounds w int64n initial limit attempt law j i l h b =
    rw (j, i, l, base_delay-eq-min attempt initial limit h b)
      (default_jitter_bounds int64n (min (initial * 2 ^ (attempt - 1)) limit) law)
