-- ===== src/Delivery/Backoff.antt =====
-- `backoff` of internal/worker/worker.go, and the options that reach it.
use Prim.Native.Nat.{min}
use ptrans.Prelude.{ℕ, zero, suc, ◌+◌, ◌-◌, ◌*◌, ◌^◌, ◌<◌, ◌≡◌, arith, if◌then◌else◌}
use ptrans.Prelude.Int.{pos, ◌+ℤ◌, ◌<ℤ◌, ltb_ℤ, leb_ℤ, wrap64, wrap64_of_IsInt64, pos-add}
use ptrans.Prelude.Doubling.{capped, regroup}
use ptrans.Domain.Errors.{Duration}
use ptrans.Delivery.{Options, normalize_options}

-- `k` turns of the loop.
unfoldable pub doubled_until : ℕ → Duration → Duration → Duration
doubled_until zero delay limit = if ltb_ℤ limit delay then limit else delay
doubled_until (suc k) delay limit =
    let twice = wrap64 (delay +ℤ delay) in
    let rest = doubled_until k twice limit in if leb_ℤ limit twice then limit else rest

unfoldable pub backoff : ℕ → Duration → Duration → Duration
unfolding doubled_until
backoff attempt initial limit = doubled_until (attempt - 1) initial limit

twice_fits : (d : ℕ) → d < 2 ^ 62 → wrap64 (pos d +ℤ pos d) ≡ pos (d + d)
twice_fits d h = rw pos-add (wrap64_of_IsInt64 (pos (d + d)) (omega arith))

doubled_until-eq-min :
    (k d m : ℕ)
    → d < 2 ^ 62
    → m < 2 ^ 62
    → doubled_until k (pos d) (pos m) ≡ pos (min (d * 2 ^ k) m)
unfolding doubled_until
doubled_until-eq-min zero d m h b = ground arith
doubled_until-eq-min (suc k) d m h b =
    ground (arith, twice_fits d, doubled_until-eq-min k (d + d) m, capped k d m, regroup k d m)

-- For delays below 2^62 ns the wait after an attempt is the initial backoff, doubled once for each
-- attempt before it, and at most the limit.
pub backoff-eq-min :
    (attempt initial limit : ℕ)
    → initial < 2 ^ 62
    → limit < 2 ^ 62
    → backoff attempt (pos initial) (pos limit) ≡ pos (min (initial * 2 ^ (attempt - 1)) limit)
unfolding backoff
backoff-eq-min attempt initial limit h b = doubled_until-eq-min (attempt - 1) initial limit h b

-- What a worker may assume of its options.
pub record IsUsable (o : Options) : Type 0 where
  pub batch : pos 0 <ℤ o.batch_size
  pub poll : pos 0 <ℤ o.poll_interval
  pub lock : pos 0 <ℤ o.lock_for
  pub timeout : pos 0 <ℤ o.http_timeout
  pub attempts : pos 0 <ℤ o.max_attempts
  pub first_wait : pos 0 <ℤ o.initial_backoff
  pub last_wait : pos 0 <ℤ o.max_backoff

-- Normalized options are all positive, and normalizing them again changes nothing.
pub normalize_options-IsUsable :
    (o : Options)
    → IsUsable (normalize_options o)
      × (normalize_options (normalize_options o) ≡ normalize_options o)
unfolding normalize_options
normalize_options-IsUsable o = ground arith
