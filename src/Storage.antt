-- ===== src/Storage.antt =====
-- internal/storage over the schema of migrations/*.sql. A call of `Store` is an atomic step on the
-- database: the row and advisory locks that the code takes serialise the calls that conflict.
pub mod Schema
pub mod Users
pub mod OutboxRows
pub mod Payments
pub mod Subscriptions
pub mod Outbox
pub mod RefundRows
pub mod Refunds
