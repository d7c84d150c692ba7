-- ===== src/Limiter/Windows.antt =====
-- How many requests of a window pass.
use Prim.Native.Nat.{min}
use ptrans.Prelude.{
  ℕ, suc, String, ◌≡◌, ◌≤◌, ◌<◌, ◌+◌, ◌-◌, ◌^◌, ◌%◌, refl, sym, ap, ◌∙◌, true, false, some, List,
  [], ◌∷◌, All, arith, ltb, str_eq, eq_iff, if◌then◌else◌, length,
}
use ptrans.Prelude.Int.{pos, ◌≤ℤ◌, ◌<ℤ◌}
use ptrans.Prelude.Text.{trim_space}
use ptrans.Domain.Errors.{Result, ok, err, Time}
use ptrans.Storage.Schema.{Db, RateWindow, Store, no_faults, ◌>>=◌}
use ptrans.Limiter.{
  Decision, Limiter, window_start, hits_of, count_hit, upsert_window, decide_hits, count_request,
  allow_key, allow,
}

hits_of-count_hit :
    (key : String) (start : Time) (ws : List RateWindow)
    → hits_of key start (count_hit key start ws) ≡ hits_of key start ws + 1
unfolding hits_of count_hit
hits_of-count_hit key start [] = ground (arith, eq_iff key key)
hits_of-count_hit key start (w ∷ ws) = ground (arith, hits_of-count_hit key start ws)

ltb-true : (a b : ℕ) → a < b → ltb a b ≡ true
ltb-true a b h = ground arith

upserted :
    (key : String) (start : Time) (db : Db)
    → hits_of key start db.windows + 1 < 2 ^ 31
    → upsert_window key start db
      ≡ ok
          (hits_of key start db.windows + 1, record db { windows = count_hit key start db.windows })
unfolding upsert_window
upserted key start db h = rw (ltb-true _ _ h) refl

request_counted :
    (l : Limiter) (key : String) (now : Time) (db : Db)
    → hits_of key (window_start l now) db.windows + 1 < 2 ^ 31
    → count_request no_faults l key now db
      ≡ ok (
        decide_hits l now (hits_of key (window_start l now) db.windows + 1),
        record db { windows = count_hit key (window_start l now) db.windows },
      )
unfolding count_request ◌>>=◌
request_counted l key now db h =
    ap
      (λ r. elim r as (λ _. Result (Decision × Db)) [
        | ok (n, db') ↦ ok (decide_hits l now n, db')
        | err e ↦ err e
      ])
      (upserted key (window_start l now) db h)

-- One request, as long as the count fits its column.
counted :
    (l : Limiter) (key : String) (now : Time) (s : Store)
    → str_eq key "" ≡ false
    → hits_of key (window_start l now) s.db.windows + 1 < 2 ^ 31
    → allow_key no_faults l key now s ≡ (
      ok (decide_hits l now (hits_of key (window_start l now) s.db.windows + 1)),
      record s { db = record s.db { windows = count_hit key (window_start l now) s.db.windows } },
    )
unfolding allow_key
counted l key now s n h = rw n (
    ap
      (λ r. elim r as (λ _. Result Decision × Store) [
        | ok (d, db') ↦ (ok d, record s { db = db' })
        | err e ↦ (err e, s)
      ])
      (request_counted l key now s.db h))

abbrev pub passes : Result Decision → ℕ
passes (ok d) = if d.allowed then 1 else 0
passes (err e) = 0

-- How many of a sequence of requests are allowed.
unfoldable pub passed : Limiter → String → List Time → Store → ℕ
passed l scope [] s = 0
passed l scope (t ∷ ts) s =
    let (r, s') = allow no_faults (some l) scope t s in passes r + passed l scope ts s'

keyed :
    (l : Limiter) (scope : String) (now : Time) (s : Store)
    → pos 0 <ℤ l.limit
    → pos 0 <ℤ l.interval
    → allow no_faults (some l) scope now s ≡ allow_key no_faults l (trim_space scope) now s
unfolding allow
keyed l scope now s h k = ground arith

allowed-min :
    (l : Limiter) (limit hits rest : ℕ) (now : Time)
    → l.limit ≡ pos limit
    → passes (ok (decide_hits l now (hits + 1))) + min rest (limit - (hits + 1))
      ≡ min (suc rest) (limit - hits)
unfolding decide_hits
allowed-min l limit hits rest now e = rw e (ground arith)

-- Of the requests of one scope that fall into one window, exactly the first ones are allowed, up
-- to the limit, counting those that the window has seen before.
pub passed-eq-min :
    (l : Limiter) (scope : String) (limit : ℕ) (start : Time) (ts : List Time) (s : Store)
    → l.limit ≡ pos limit
    → 0 < limit
    → pos 0 <ℤ l.interval
    → str_eq (trim_space scope) "" ≡ false
    → All (λ t. window_start l t ≡ start) ts
    → hits_of (trim_space scope) start s.db.windows + length ts < 2 ^ 31
    → passed l scope ts s ≡ min (length ts) (limit - hits_of (trim_space scope) start s.db.windows)
unfolding passed
passed-eq-min l scope limit start [] s e p i n a b = omega arith
passed-eq-min l scope limit start (t ∷ ts) s e p i n a b =
    let key = trim_space scope in
    let hits = hits_of key start s.db.windows in
    let s' = record s { db = record s.db { windows = count_hit key start s.db.windows } } in
    let rest =
      passed-eq-min l scope limit start ts s' e p i n a.1
        (rw (hits_of-count_hit key start s.db.windows) (omega arith)) in
    let here : allow no_faults (some l) scope t s ≡ (ok (decide_hits l t (hits + 1)), s') =
      keyed l scope t s (rw e (omega arith)) i
      ∙ (rw (sym a.0) (counted l key t s n (rw a.0 (omega arith)))) in
    rw (here, rest, hits_of-count_hit key start s.db.windows)
      (allowed-min l limit hits (length ts) t e)

in_window : (n i : ℕ) → 0 < i → (n - n % i ≤ n) × (n < n - n % i + i)
in_window n i h = grind arith

window_start_bounds :
    (l : Limiter) (interval : ℕ) (now : Time)
    → l.interval ≡ pos interval
    → 0 < interval
    → (window_start l now ≤ now) × (now < window_start l now + interval)
unfolding window_start
window_start_bounds l interval now e p = rw e (in_window now interval p)

-- A refusal names the end of its window: the wait is positive and at most the interval, and
-- nothing remains.
pub refusal_bounds :
    (l : Limiter) (interval : ℕ) (now : Time) (hits : ℕ)
    → l.interval ≡ pos interval
    → 0 < interval
    → (decide_hits l now hits).allowed ≡ false
    → ((decide_hits l now hits).remaining ≡ 0)
      × (pos 0 <ℤ (decide_hits l now hits).retry_after)
      × ((decide_hits l now hits).retry_after ≤ℤ pos interval)
unfolding decide_hits
refusal_bounds l interval now hits e p r = ground (arith, window_start_bounds l interval now e p)
