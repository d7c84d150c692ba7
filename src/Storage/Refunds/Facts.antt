-- ===== src/Storage/Refunds/Facts.antt =====
-- What a claim that gives a refund has found and left, in the words of the rows.
use mathlib.Core.Path.{subst}
use ptrans.Prelude.{
  String, leb, ◌≡◌, ◌≤◌, ◌⊎◌, refl, sym, Bool, true, false, Option, none, some, arith,
}
use ptrans.Prelude.Int.{ℤ, pos, ◌<ℤ◌}
use ptrans.Domain.Errors.{ok, Time, add_time}
use ptrans.Domain.Refund.{Refund, RefundStatus}
use ptrans.Refunds.{ClaimKind}
use ptrans.Storage.Schema.{Db, Store, Faults}
use ptrans.Storage.RefundRows.{stored_time, refund_by_id}
use ptrans.Storage.Refunds.Table.{Unique, Unique-replace, OneRow, replace-OneRow}
use ptrans.Storage.Refunds.Claim.{ClaimArgs, lease_free, is_due, matches, claim_refund}
use ptrans.Storage.Refunds.Claimed.{claim_refund-Claimed}

-- A row that may be submitted: PENDING, or FAILED and retryable, with attempts left.
pub record IsSubmittable (limit : ℤ) (r : Refund) : Type 0 where
  pub waits :
      (r.status ≡ RefundStatus.pending) ⊎ ((r.status ≡ RefundStatus.failed) × (r.retryable ≡ true))
  pub attempts_left : pos r.attempts <ℤ limit

-- A row that may be looked up: PROCESSING and not set aside for a manual review.
pub record IsReconcilable (r : Refund) : Type 0 where
  pub in_processing : r.status ≡ RefundStatus.processing
  pub unreviewed : r.manual_review ≡ false

-- The rows that a kind of claim is for.
abbrev pub IsFor : ClaimKind → ℤ → Refund → Type 0
IsFor ClaimKind.submit limit r = IsSubmittable limit r
IsFor ClaimKind.reconcile limit r = IsReconcilable r
IsFor (ClaimKind.unknown_kind k) limit r = ⊥

-- No lease of the row is running.
abbrev pub IsUnleased : Option Time → Time → Type 0
IsUnleased none now = Unit
IsUnleased (some until) now = until ≤ now

pub record IsClaimed (kind : ClaimKind) (c : ClaimArgs) (new : Refund) (db db' : Db) : Type 0 where
  pub old : Refund
  pub found : refund_by_id new.id db.refunds ≡ some old
  pub due : old.next_action_at ≤ c.now
  pub unleased : IsUnleased old.lease_until c.now
  pub eligible : IsFor kind c.max_attempts old
  pub lease : new.lease_until ≡ some (stored_time (add_time c.now c.lease))
  pub in_processing : new.status ≡ RefundStatus.processing
  pub row : OneRow new.id new db.refunds db'.refunds

free-IsUnleased : (o : Option Time) (now : Time) → lease_free o now ≡ true → IsUnleased o now
free-IsUnleased none now h = tt
free-IsUnleased (some until) now h = ground (arith, h)

early-IsUnleased :
    (o : Option Time) (before now : Time) → before ≤ now → IsUnleased o before → IsUnleased o now
early-IsUnleased none before now le h = tt
early-IsUnleased (some until) before now le h = omega (arith, le, h)

due_by : (at before now : Time) → leb at before ≡ true → before ≤ now → at ≤ now
due_by at before now h le = ground (arith, h, le)

matches-IsFor :
    (kind : ClaimKind) (now : Time) (limit : ℤ) (r : Refund)
    → matches kind now limit r ≡ true
    → IsFor kind limit r
unfolding matches
matches-IsFor ClaimKind.submit now limit r h = record {
  waits = ground arith;
  attempts_left = ground arith;
}
matches-IsFor ClaimKind.reconcile now limit r h = record {
  in_processing = ground arith;
  unreviewed = ground arith;
}
matches-IsFor (ClaimKind.unknown_kind k) now limit r h = cc

matches-due :
    (kind : ClaimKind) (now : Time) (limit : ℤ) (r : Refund)
    → matches kind now limit r ≡ true
    → is_due now r ≡ true
unfolding matches
matches-due ClaimKind.submit now limit r h = ground arith
matches-due ClaimKind.reconcile now limit r h = ground arith
matches-due (ClaimKind.unknown_kind k) now limit r h = cc

pub matches-IsUnleased :
    (kind : ClaimKind) (now : Time) (limit : ℤ) (r : Refund)
    → matches kind now limit r ≡ true
    → IsUnleased r.lease_until now
matches-IsUnleased kind now limit r h =
    let due = matches-due kind now limit r h in
    early-IsUnleased r.lease_until (stored_time now) now (omega arith)
      (free-IsUnleased r.lease_until (stored_time now) (ground (arith, due)))

pub claim-Unique :
    (io : Faults) (collate : String → String → Bool) (locked : Refund → Bool) (kind : ClaimKind)
    (c : ClaimArgs) (token : Option String) (s s' : Store) (new : Refund)
    → Unique s.db.refunds
    → claim_refund io collate locked kind c token s ≡ (ok (some new), s')
    → Unique s'.db.refunds
claim-Unique io collate locked kind c token s s' new u h =
    let taken = claim_refund-Claimed io collate locked kind c token s s' new u h in
    subst Unique (sym taken.refunds) (Unique-replace new.id new s.db.refunds refl u)

-- With unique ids, a claim that gives a refund has found it due and without a running lease:
-- PENDING, or FAILED and retryable, with attempts left, if it is to be submitted, and PROCESSING
-- and not set aside for a manual review if it is to be reconciled. The row is then in PROCESSING
-- with a lease until `now + lease` in whole microseconds, and every other id is found as before.
pub claim_refund-IsClaimed :
    (io : Faults) (collate : String → String → Bool) (locked : Refund → Bool) (kind : ClaimKind)
    (c : ClaimArgs) (token : Option String) (s s' : Store) (new : Refund)
    → Unique s.db.refunds
    → claim_refund io collate locked kind c token s ≡ (ok (some new), s')
    → IsClaimed kind c new s.db s'.db
claim_refund-IsClaimed io collate locked kind c token s s' new u h =
    let taken = claim_refund-Claimed io collate locked kind c token s s' new u h in
    let due = matches-due kind c.now c.max_attempts taken.old taken.due in
    record {
      old = taken.old;
      found = taken.found;
      due = due_by _ (stored_time c.now) c.now (ground (arith, due)) (omega arith);
      unleased = matches-IsUnleased kind c.now c.max_attempts taken.old taken.due;
      eligible = matches-IsFor kind c.now c.max_attempts taken.old taken.due;
      lease = taken.lease;
      in_processing = taken.in_processing;
      row =
          subst (OneRow new.id new s.db.refunds) (sym taken.refunds)
            (replace-OneRow new.id new taken.old s.db.refunds refl taken.found);
    }
