-- ===== src/Storage/Schema.antt =====
-- The tables, and transactions over them.
pub mod Runs
pub mod Post
use ptrans.Prelude.{ℕ, String, Bool, true, false, Option, none, some, List, if◌then◌else◌}
use ptrans.Domain.Errors.{Error, Result, ok, err, other, Time}
use ptrans.Domain.Refund.{Refund, ReconciliationResult}
use ptrans.Domain.Payment.{Payment}
use ptrans.Domain.Webhook.{WebhookSubscription}
use ptrans.Domain.Outbox.{OutboxEvent, WebhookDelivery}

pub record AppUser : Type 0 where
  pub user_id : String
  pub payments_table : String
  pub webhooks_table : String

pub record IdempotencyKey : Type 0 where
  pub user_id : String
  pub key : String
  pub request_hash : String
  pub payment_id : String
  pub created_at : Time

pub record RateWindow : Type 0 where
  pub scope_key : String
  pub window_start : Time
  pub hits : ℕ

-- The tables of each user are found by their names; a table that was not created has no rows.
pub record Db : Type 0 where
  pub app_users : List AppUser
  pub idempotency_keys : List IdempotencyKey
  pub payments : String → List Payment
  pub webhooks : String → List WebhookSubscription
  pub outbox : List OutboxEvent
  pub deliveries : List WebhookDelivery
  pub refunds : List Refund
  pub reconciliations : List ReconciliationResult
  pub windows : List RateWindow

-- `ensured_users` is the `sync.Map` of the process.
pub record Store : Type 0 where
  pub db : Db
  pub ensured_users : List String

-- Which of the database calls of an operation fail, the statements by their order.
pub record Faults : Type 0 where
  pub begin_fails : Bool
  pub statement_fails : ℕ → Bool
  pub commit_fails : Bool

abbrev pub no_faults : Faults
no_faults = record { begin_fails = false; statement_fails = λ n. false; commit_fails = false }

-- Statements inside a transaction; after an error nothing of them stays.
abbrev pub Tx : Type 0 → Type 0
Tx A = Db → Result (A × Db)

unfoldable pub pure : {A : Type 0} → A → Tx A
pure a db = ok (a, db)

unfoldable pub raise : {A : Type 0} → Error → Tx A
raise e db = err e

unfoldable pub gets : {A : Type 0} → (Db → A) → Tx A
gets f db = ok (f db, db)

unfoldable pub raise_if : Bool → Error → Tx Unit
raise_if true e db = err e
raise_if false e db = ok (tt, db)

-- The error of a function that returned one.
unfoldable pub raise_error : Option Error → Tx Unit
raise_error none db = ok (tt, db)
raise_error (some e) db = err e

-- A value whose making may have failed.
unfoldable pub or_raise : {A : Type 0} → Option A → Error → Tx A
or_raise none e db = err e
or_raise (some a) e db = ok (a, db)

-- Opening this opens the primitive statements too.
infixl 5 ◌>>=◌ ◌>>◌
unfoldable pub ◌>>=◌ : {A B : Type 0} → Tx A → (A → Tx B) → Tx B
unfolding pure raise gets raise_if raise_error or_raise
◌>>=◌ m f db = elim (m db) [ ok (a, db') ↦ f a db' | err e ↦ err e ]

abbrev pub ◌>>◌ : {A B : Type 0} → Tx A → Tx B → Tx B
m >> k = m >>= λ _. k

-- The n-th statement reaches the database.
abbrev pub statement : Faults → ℕ → Tx Unit
statement io n = raise_if (io.statement_fails n) (other "statement failed")

-- How the body of a function ends: by `tx.Commit`, or by a return that leaves `tx.Rollback`.
pub data Ending (A : Type 0) : Type 0 where
  commit rollback : A → Ending A

abbrev pub Action : Type 0 → Type 0
Action A = Store → Result A × Store

-- A commit that fails has written nothing.
abbrev pub finish : {A : Type 0} → Faults → Store → Result (Ending A × Db) → Result A × Store
finish io s (err e) = (err e, s)
finish io s (ok (rollback a, db')) = (ok a, s)
finish io s (ok (commit a, db')) =
    if io.commit_fails then (err (other "commit failed"), s) else (ok a, record s { db = db' })

abbrev pub transaction : {A : Type 0} → Faults → Tx (Ending A) → Action A
transaction io body s =
    if io.begin_fails then (err (other "begin failed"), s) else finish io s (body s.db)

-- A statement outside a transaction commits by itself.
abbrev pub autocommit : {A : Type 0} → Tx A → Action A
autocommit body s = elim (body s.db) [
  | ok (a, db') ↦ (ok a, record s { db = db' })
  | err e ↦ (err e, s)
]

-- One call after another, in the function's own order; an error ends it.
abbrev pub continue : {A B : Type 0} → Result A × Store → (A → Action B) → Result B × Store
continue (ok a, s) f = f a s
continue (err e, s) f = (err e, s)

abbrev pub after : {A B : Type 0} → Action A → (A → Action B) → Action B
after m f s = continue (m s) f
