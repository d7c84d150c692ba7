-- ===== src/Provider/RetryAfter.antt =====
-- `ParseRetryAfter` of internal/provider/client.go.
use ptrans.Prelude.{
  ℕ, String, ◌-◌, ◌*◌, Option, none, some, arith, ltb, if◌then◌else◌, Option-cases, inl, inr,
}
use ptrans.Prelude.Int.{ℤ, pos, pos_part, ◌≤ℤ◌, ltb_ℤ, leb_ℤ}
use ptrans.Prelude.Text.{parse_int}
use ptrans.Domain.Errors.{Time, Duration}

abbrev pub second : ℕ
second = 1_000_000_000

abbrev pub day : ℕ
day = 86_400 * second

-- The branch of a header that is a number of seconds.
unfoldable pub delay_seconds : ℤ → Duration
delay_seconds s =
    if leb_ℤ s (pos 0)
    then pos 0
    else if ltb_ℤ (pos 86_400) s
    then pos (86_400 * second)
    else pos (pos_part s * second)

-- The branch of a header that is a date: `none` is an error of `http.ParseTime`.
unfoldable pub delay_until : Option Time → Time → Duration
delay_until none now = pos 0
delay_until (some at) now =
    if ltb now at then (if ltb day (at - now) then pos day else pos (at - now)) else pos 0

module _ (parse_time : String → Option Time) where
  unfoldable pub parse_retry_after : String → Time → Duration
  unfolding delay_seconds delay_until
  parse_retry_after value now = elim (parse_int value) [
    | some seconds ↦ delay_seconds seconds
    | none ↦ delay_until (parse_time value) now
  ]

delay_seconds_bounds : (s : ℤ) → (pos 0 ≤ℤ delay_seconds s) × (delay_seconds s ≤ℤ pos day)
unfolding delay_seconds
delay_seconds_bounds s = ground arith

delay_until_bounds :
    (o : Option Time) (now : Time) → (pos 0 ≤ℤ delay_until o now) × (delay_until o now ≤ℤ pos day)
unfolding delay_until
delay_until_bounds none now = ground arith
delay_until_bounds (some at) now = ground arith

-- Whatever the header holds and however dates are parsed, the delay is never negative and never
-- more than 24 hours.
pub parse_retry_after_bounds :
    (parse_time : String → Option Time) (value : String) (now : Time)
    → (pos 0 ≤ℤ parse_retry_after parse_time value now)
      × (parse_retry_after parse_time value now ≤ℤ pos day)
unfolding parse_retry_after
parse_retry_after_bounds parse_time value now = elim (Option-cases (parse_int value)) [
  | inl e ↦ rw (e, parse_retry_after) (delay_until_bounds (parse_time value) now)
  | inr (s, e) ↦ rw (e, parse_retry_after) (delay_seconds_bounds s)
]
