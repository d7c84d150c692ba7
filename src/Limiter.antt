-- ===== src/Limiter.antt =====
-- internal/ratelimit/limiter.go: requests of one scope are counted in windows of fixed length.
pub mod Windows
use ptrans.Prelude.{
  ℕ, String, ◌+◌, ◌-◌, ◌%◌, ◌^◌, Bool, true, ◌&&◌, ◌||◌, Option, none, some, List, [], ◌∷◌, ltb,
  ◌==◌, str_eq, if◌then◌else◌,
}
use ptrans.Prelude.Int.{ℤ, pos, pos_part, sub_ℕ, ltb_ℤ, leb_ℤ}
use ptrans.Prelude.Text.{trim_space}
use ptrans.Domain.Errors.{ok, err, other, Time, Duration}
use ptrans.Storage.Schema.{RateWindow, Faults, Tx, ◌>>=◌, ◌>>◌, pure, statement, Action, autocommit}

pub record Decision : Type 0 where
  pub allowed : Bool
  pub remaining : ℕ
  pub retry_after : Duration

pub record Limiter : Type 0 where
  pub limit : ℤ
  pub interval : Duration

-- `Limit`; `none` is a limiter that is nil.
unfoldable pub limit_of : Option Limiter → ℤ
limit_of none = pos 0
limit_of (some l) = l.limit

-- `now.Truncate(interval)`: the last multiple of the interval since the zero time.
unfoldable pub window_start : Limiter → Time → Time
window_start l now = now - now % pos_part l.interval

abbrev pub is_window : String → Time → RateWindow → Bool
is_window key start w = str_eq w.scope_key key && w.window_start == start

unfoldable pub hits_of : String → Time → List RateWindow → ℕ
hits_of key start [] = 0
hits_of key start (w ∷ ws) =
    let rest = hits_of key start ws in if is_window key start w then w.hits else rest

-- `ON CONFLICT (scope_key, window_start) DO UPDATE SET hits = hits + 1`
unfoldable pub count_hit : String → Time → List RateWindow → List RateWindow
count_hit key start [] = record { scope_key = key; window_start = start; hits = 1 } ∷ []
count_hit key start (w ∷ ws) =
    let rest = count_hit key start ws in
    if is_window key start w then record w { hits = w.hits + 1 } ∷ ws else w ∷ rest

-- The column `hits` is an INTEGER of 32 bits.
unfoldable pub upsert_window : String → Time → Tx ℕ
unfolding hits_of count_hit
upsert_window key start db =
    let hits = hits_of key start db.windows + 1 in
    if ltb hits (2 ^ 31)
    then ok (hits, record db { windows = count_hit key start db.windows })
    else err (other "integer out of range")

unfoldable pub decide_hits : Limiter → Time → ℕ → Decision
unfolding window_start
decide_hits l now hits =
    let remaining = sub_ℕ (pos_part l.limit) hits in
    let allowed = leb_ℤ (pos hits) l.limit in
    record {
      allowed = allowed;
      remaining = if ltb_ℤ remaining (pos 0) then 0 else pos_part remaining;
      retry_after = if allowed then pos 0 else sub_ℕ (window_start l now + pos_part l.interval) now;
    }

abbrev pub unlimited : Decision
unlimited = record { allowed = true; remaining = 0; retry_after = pos 0 }

unfoldable pub count_request : Faults → Limiter → String → Time → Tx Decision
unfolding upsert_window decide_hits
count_request io l key now = do
  statement io 0
  hits ← upsert_window key (window_start l now)
  pure (decide_hits l now hits)

unfoldable pub allow_key : Faults → Limiter → String → Time → Action Decision
unfolding count_request
allow_key io l key now s =
    if str_eq key ""
    then (err (other "rate limit scope key is required"), s)
    else autocommit (count_request io l key now) s

-- `none` is a limiter, or a pool of it, that is nil.
unfoldable pub allow : Faults → Option Limiter → String → Time → Action Decision
unfolding allow_key
allow io none scope now s = (ok unlimited, s)
allow io (some l) scope now s =
    if leb_ℤ l.limit (pos 0) || leb_ℤ l.interval (pos 0)
    then (ok unlimited, s)
    else allow_key io l (trim_space scope) now s
