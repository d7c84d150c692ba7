-- ===== src/Domain.antt =====
-- The data of internal/domain: statuses, entities and the errors that the layers share.
-- A `time.Time` is the number of nanoseconds since the zero time, a `time.Duration` an integer
-- number of nanoseconds.
pub mod Errors
pub mod Refund
pub mod Payment
pub mod Webhook
pub mod Outbox
pub mod Event
