-- ===== src/Storage/Outbox/Locks.antt =====
-- An event that was fetched is not fetched again before its lock ends.
use ptrans.Prelude.{String, ◌≡◌, ◌<◌, Bool, true, some, List, [], ◌∷◌, keep, some_passes, All}
use ptrans.Prelude.Int.{ℤ}
use ptrans.Domain.Errors.{Result, Time, Duration}
use ptrans.Domain.Outbox.{OutboxEvent}
use ptrans.Storage.Schema.{Store, Faults}
use ptrans.Storage.Outbox.{has_id, lock_picked, fetch_due_outbox_events}

abbrev pub is_among : List OutboxEvent → String → Bool
is_among es id = some_passes (has_id id) es

-- What a fetch gives and leaves.
record Fetched (picked : List OutboxEvent) (now until : Time) (s : Store) (es : List OutboxEvent)
    (s' : Store) : Type 0 where
  given : es ≡ keep (λ e. is_among picked e.id) (lock_picked now until picked s.db.outbox)
  left : s'.db.outbox ≡ lock_picked now until picked s.db.outbox

-- One fetch with its arguments and what its environment does.
pub record Fetch : Type 0 where
  pub order : List OutboxEvent → List OutboxEvent
  pub locked : OutboxEvent → Bool
  pub io : Faults
  pub limit : ℤ
  pub now : Time
  pub lock_for : Duration

unfoldable pub run_fetch : Fetch → Store → Result (List OutboxEvent) × Store
run_fetch f s = fetch_due_outbox_events f.order f.locked f.io f.limit f.now f.lock_for s

unfoldable pub run_fetches : List Fetch → Store → Store
unfolding run_fetch
run_fetches [] s = s
run_fetches (f ∷ fs) s = run_fetches fs (run_fetch f s).1

-- The order of the query adds no row.
abbrev pub AddsNone : (List OutboxEvent → List OutboxEvent) → Type 1
AddsNone order =
    (P : OutboxEvent → Type 0) (rows : List OutboxEvent) → All P rows → All P (order rows)

-- A fetch before a time.
abbrev pub IsEarly : Time → Fetch → Type 1
IsEarly until f = AddsNone f.order × (f.now < until)

-- The rows among `picked` are locked until `until`.
abbrev AreLocked : List OutboxEvent → Time → List OutboxEvent → Type 0
AreLocked picked until = All (λ e. is_among picked e.id ≡ true → e.locked_until ≡ some until)
