-- ===== src/Witnesses/Fetching.antt =====
-- Two events, the second due after the first was fetched.
use ptrans.Prelude.{Bool, false, none, some, List, [], ◌∷◌}
use ptrans.Prelude.Int.{pos}
use ptrans.Domain.Errors.{Time}
use ptrans.Domain.Outbox.{OutboxEvent}
use ptrans.Storage.Schema.{Store, no_faults}
use ptrans.Storage.Outbox.Locks.{Fetch, run_fetch, run_fetches}
use ptrans.Witnesses.Delivering.{event}
use ptrans.Witnesses.Refunding.{database}

in_order : List OutboxEvent → List OutboxEvent
in_order es = es

none_locked : OutboxEvent → Bool
none_locked e = false

abbrev first_event : OutboxEvent
first_event = record event { locked_until = none }

abbrev second_event : OutboxEvent
second_event = record event { id = "evt_2"; locked_until = none; next_attempt_at = 15 }

abbrev waiting_store : Store
waiting_store = record {
  db = record database { outbox = first_event ∷ second_event ∷ [] };
  ensured_users = [];
}

abbrev fetch_at : Time → Fetch
fetch_at now = record {
  order = in_order;
  locked = none_locked;
  io = no_faults;
  limit = pos 10;
  now = now;
  lock_for = pos 30;
}

abbrev fetched_store : Store
fetched_store = (run_fetch (fetch_at 10) waiting_store).1

abbrev later_store : Store
later_store = run_fetches (fetch_at 12 ∷ []) fetched_store

abbrev emptied_store : Store
emptied_store = (run_fetch (fetch_at 20) later_store).1

abbrev first_fetched : OutboxEvent
first_fetched = record first_event { locked_until = some 40; attempts = 2; updated_at = 10 }

abbrev second_fetched : OutboxEvent
second_fetched = record second_event { locked_until = some 50; attempts = 2; updated_at = 20 }
