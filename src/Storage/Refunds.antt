-- ===== src/Storage/Refunds.antt =====
-- internal/storage/refunds.go: what its operations share; each stands in a module below.
pub mod Table
pub mod Create
pub mod Claim
pub mod Settle
pub mod Steps
pub mod Solvency
pub mod History
pub mod Lease
pub mod Versions
pub mod Settling
pub mod Queries
pub mod Claimed
pub mod Facts
pub mod Exclusive
use ptrans.Prelude.{
  String, Bool, ◌&&◌, ◌||◌, not, Option, List, [], ◌∷◌, str_eq, if◌then◌else◌, find?,
}
use ptrans.Prelude.Int.{ℤ, pos, ◌+ℤ◌}
use ptrans.Domain.Refund.{Refund, RefundStatus, status_eq}
pub use ptrans.Storage.Payments.{payment_by_id}

-- A refund that still has a claim on the money: `status <> 'FAILED' OR retryable`.
abbrev pub holds : Refund → Bool
holds r = not (status_eq r.status RefundStatus.failed) || r.retryable

abbrev pub weight : String → String → Refund → ℤ
weight user payment r =
    if str_eq r.user_id user && str_eq r.payment_id payment && holds r then r.amount else pos 0

-- `COALESCE(SUM(amount),0)`
abbrev pub reserved : String → String → List Refund → ℤ
reserved user payment [] = pos 0
reserved user payment (r ∷ rs) = weight user payment r +ℤ reserved user payment rs
