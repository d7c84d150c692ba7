-- ===== src/Witnesses/Limiting.antt =====
-- Three requests in one window, of which two are allowed.
use ptrans.Prelude.{◌≡◌, refl, [], ◌∷◌, arith}
use ptrans.Prelude.Int.{pos, ◌<ℤ◌, ◌≤ℤ◌}
use ptrans.Prelude.Text.{trim_space}
use ptrans.Storage.Schema.{Store, RateWindow}
use ptrans.Limiter.{Limiter, window_start, hits_of, decide_hits}
use ptrans.Limiter.Windows.{passed, passed-eq-min, refusal_bounds}
use ptrans.Witnesses.Refunding.{database}

abbrev limiter : Limiter
limiter = record { limit = pos 2; interval = pos 10 }

abbrev first_window : RateWindow
first_window = record { scope_key = "user:1"; window_start = 20; hits = 1 }

abbrev counting_store : Store
counting_store = record { db = record database { windows = first_window ∷ [] }; ensured_users = [] }

passed-eq-min_example : passed limiter " user:1" (21 ∷ 25 ∷ 29 ∷ []) counting_store ≡ 1
unfolding trim_space window_start hits_of
passed-eq-min_example =
    passed-eq-min limiter " user:1" 2 20 (21 ∷ 25 ∷ 29 ∷ []) counting_store refl (omega arith)
      (omega arith) refl (refl, (refl, (refl, tt))) (omega arith)

refusal_bounds_example :
    ((decide_hits limiter 25 3).remaining ≡ 0)
    × (pos 0 <ℤ (decide_hits limiter 25 3).retry_after)
    × ((decide_hits limiter 25 3).retry_after ≤ℤ pos 10)
unfolding decide_hits
refusal_bounds_example = refusal_bounds limiter 10 25 3 refl (omega arith) refl
