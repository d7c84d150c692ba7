-- ===== src/Lib.antt =====
-- A verification library for PTrans, a payment backend: payments with idempotent creation,
-- refunds that are sent to an external provider by a worker under leases, and webhooks that are
-- delivered from an outbox.
--
-- The parts and their files (paths from the repository's root):
-- - Domain: internal/domain. Types, refund transitions and errors. A time is its nanoseconds since
--   the zero time, a duration an integer of nanoseconds; `add_time` stops at the zero time.
--   The refund store cuts times to microseconds (`stored_time`), as TIMESTAMPTZ does; the other
--   tables keep a time as it was given.
-- - Storage: internal/storage and migrations. `Db` holds the tables as lists, the tables of each
--   user by their names; `Tx` is the statements of a transaction, which an error undoes; an
--   `Action` is a function of the store. `Faults` says which statements, and whether the begin or
--   the commit, fail. Storage.Users is ensureUserSchema, Storage.Payments and
--   Storage.Subscriptions the operations of store.go on these tables, Storage.Outbox its
--   FetchDueOutboxEvents and the updates of events, Storage.RefundRows the constraints and
--   triggers of migrations/003_refunds.sql, and Storage.Refunds the operations of refunds.go.
-- - Provider: internal/provider/client.go. The call of the provider with what the transport, JSON
--   and the parsing of dates give as the parameter `World`.
-- - Refunds: internal/refunds. Decide is `decide`, Backoff the waits, Validation the options, Once
--   `ProcessOnce` and `ReconcileOnce`, Service and Reading the service of the API.
-- - Delivery: internal/worker/worker.go. Sending is `sendWebhook`, Processing is `processEvent`,
--   `failEvent` and `ProcessOnce`.
-- - Auth: internal/auth/jwt.go. HMAC, base64 and JSON are the parameter `Codec`; Auth.Tokens says
--   when they are faithful.
-- - Limiter: internal/ratelimit/limiter.go, on the table of windows of `Db`.
-- - State: internal/state/store.go. Go maps are lists of entries (Prelude.Assoc); State.History is
--   the specification by single ids that the store refines.
-- - EventLog: internal/eventlog/jsonl_store.go. The file is its text; `AppendFaults` says what
--   fails in an append, and which part of the data a torn write leaves.
-- - MockProvider: internal/mockprovider/server.go. `save` writes the file, Serving has the
--   handlers, Clients sets the provider's client before the server.
-- - Services: internal/service. The tests before the repository, which is a record of operations
--   that Storage fills.
-- - Api: internal/httpapi. Guards are `requireUser` and `withRateLimit`, Routes is `NewRouter`; the
--   handlers are functions of the store, with decoded bodies as arguments.
-- - Config: internal/config/env.go, with the environment as a function.
-- - Prelude: numbers, lists and texts that all parts share; Witnesses: concrete runs.
--
-- How they interact: the services and workers call the store; the refund worker claims a refund,
-- asks the provider and settles the refund under its lease; the triggers of the refund table and
-- the payment operations write outbox events, which the delivery worker fetches.
--
-- Bounds: int64 arithmetic of amounts and durations wraps by `wrap64`; counters such as attempts
-- and versions are natural numbers. The loops of the source are recursion on lists or on a number
-- of attempts, so that no fuel is needed; `itoa` alone uses its argument as fuel.
--
-- Concurrency: the transactions of the refund store are atomic and stand in the order of their
-- commits, as the advisory lock on a request, the row lock on the payment and FOR UPDATE on the
-- refund make them. CancelPayment reads its row without a lock: `meanwhile` is what other
-- transactions commit before its UPDATE. A row that another transaction holds is skipped by a claim: which rows these
-- are is a parameter, like the orders of the database on texts and rows, SHA-256, random ids and
-- the clock.
--
-- Not modelled: logging, the polling loops `Run`, contexts and their cancellation, the DDL and
-- indexes, the matching of paths, the CORS headers and the decoding of JSON in the HTTP API, and
-- the commands.
pub mod Prelude
pub mod Domain
pub mod Provider
pub mod Refunds
pub mod Storage
pub mod Delivery
pub mod Limiter
pub mod Auth
pub mod State
pub mod Config
pub mod Services
pub mod Api
pub mod MockProvider
pub mod EventLog
pub mod Witnesses
