-- ===== src/Storage/Refunds/History.antt =====
-- Any sequence of calls of the refund store, by the API and by any number of workers, with any
-- faults: the calls of one history are atomic and stand in the order of their commits.
use ptrans.Prelude.{
  String, ◌≡◌, ◌∙◌, refl, ap, Bool, true, ◌&&◌, Option, some, List, [], ◌∷◌, arith, str_eq,
  if◌then◌else◌,
}
use ptrans.Prelude.Int.{ℤ, pos, ◌+ℤ◌, ◌≤ℤ◌, int_laws}
use ptrans.Domain.Errors.{Time}
use ptrans.Domain.Refund.{Refund, RefundStatus, status_eq}
use ptrans.Domain.Payment.{Payment}
use ptrans.Refunds.{ClaimKind, Outcome}
use ptrans.Storage.Schema.{Db, Store, Faults}
use ptrans.Storage.Users.Effect.{OnlyUsers, OnlyUsers-refl}
use ptrans.Storage.RefundRows.{checks}
use ptrans.Storage.Refunds.{payment_by_id, weight, reserved}
use ptrans.Storage.Refunds.Table.{Lawful}
use ptrans.Storage.Refunds.Create.{create_refund}
use ptrans.Storage.Refunds.Claim.{ClaimArgs, claim_refund}
use ptrans.Storage.Refunds.Settle.{apply_refund_outcome, request_refund_recheck}
use ptrans.Storage.Refunds.Steps.{RefundStep, RefundStep-payments}
use ptrans.Storage.Refunds.Steps.Updates.{
  claim_refund-RefundStep, apply_refund_outcome-RefundStep, request_refund_recheck-RefundStep,
}
use ptrans.Storage.Refunds.Steps.Creation.{payments_of, CreateStep, create_refund-CreateStep}
use ptrans.Storage.Refunds.Solvency.{Inv, RefundStep-Inv}

-- One call with its arguments and what its environment does.
pub data Call : Type 0 where
  create : Faults → Faults → Refund → Call
  claim :
      Faults
      → (String → String → Bool)
      → (Refund → Bool)
      → ClaimKind
      → ClaimArgs
      → Option String
      → Call
  settle : Faults → Refund → Outcome → Option String → Time → Call
  recheck : Faults → String → String → Time → Call

module _ (sha256_hex : String → String) where
  unfoldable pub run_call : Call → Store → Store
  run_call (create schema io r) s = (create_refund sha256_hex schema io r s).1
  run_call (claim io collate locked kind c token) s =
      (claim_refund io collate locked kind c token s).1
  run_call (settle io claimed out rec_id now) s =
      (apply_refund_outcome io claimed out rec_id now s).1
  run_call (recheck io user id now) s = (request_refund_recheck io user id now s).1

  unfoldable pub run_calls : List Call → Store → Store
  unfolding run_call
  run_calls [] s = s
  run_calls (c ∷ cs) s = run_calls cs (run_call c s)

  alone :
      (db db' : Db)
      → RefundStep (payments_of sha256_hex) db db'
      → CreateStep (payments_of sha256_hex) db db'
  alone db db' step = record { mid = db; users = OnlyUsers-refl; step = step }

  OnlyUsers-Inv :
      (db mid : Db)
      → OnlyUsers db mid
      → Inv (payments_of sha256_hex) db
      → Inv (payments_of sha256_hex) mid
  OnlyUsers-Inv db mid o inv = record {
    unique = rw o.refunds inv.unique;
    lawful = rw o.refunds inv.lawful;
    amounts = rw o.payments inv.amounts;
    solvent = rw (o.refunds, o.payments) inv.solvent;
  }

  pub run_call-CreateStep :
      (c : Call) (s : Store) → CreateStep (payments_of sha256_hex) s.db (run_call c s).db
  unfolding run_call
  run_call-CreateStep (create schema io r) s = create_refund-CreateStep sha256_hex schema io r s
  run_call-CreateStep (claim io collate locked kind c token) s =
      alone _ _ (claim_refund-RefundStep _ io collate locked kind c token s)
  run_call-CreateStep (settle io claimed out rec_id now) s =
      alone _ _ (apply_refund_outcome-RefundStep _ io claimed out rec_id now s)
  run_call-CreateStep (recheck io user id now) s =
      alone _ _ (request_refund_recheck-RefundStep _ io user id now s)

  run_call-Inv :
      (c : Call) (s : Store)
      → Inv (payments_of sha256_hex) s.db
      → Inv (payments_of sha256_hex) (run_call c s).db
  run_call-Inv c s inv =
      let e = run_call-CreateStep c s in RefundStep-Inv _ _ _ (OnlyUsers-Inv _ _ e.users inv) e.step

  run_call-payments : (c : Call) (s : Store) → (run_call c s).db.payments ≡ s.db.payments
  run_call-payments c s =
      let e = run_call-CreateStep c s in RefundStep-payments _ _ _ e.step ∙ e.users.payments

  run_calls-payments : (cs : List Call) (s : Store) → (run_calls cs s).db.payments ≡ s.db.payments
  unfolding run_calls
  run_calls-payments [] s = refl
  run_calls-payments (c ∷ cs) s = run_calls-payments cs (run_call c s) ∙ run_call-payments c s

  -- Every history keeps the invariant: unique ids, the CHECK constraints, and for every payment of
  -- every user the refunds that are not finally failed hold at most what was paid.
  pub run_calls-Inv :
      (cs : List Call) (s : Store)
      → Inv (payments_of sha256_hex) s.db
      → Inv (payments_of sha256_hex) (run_calls cs s).db
  unfolding run_calls
  run_calls-Inv [] s inv = inv
  run_calls-Inv (c ∷ cs) s inv = run_calls-Inv cs (run_call c s) (run_call-Inv c s inv)

-- The money that went back for a payment.
unfoldable pub refunded : String → String → List Refund → ℤ
refunded user id [] = pos 0
refunded user id (r ∷ rs) =
    (if str_eq r.user_id user && str_eq r.payment_id id && status_eq r.status RefundStatus.succeeded
      then r.amount
      else pos 0)
    +ℤ refunded user id rs

paid_back-le :
    (user id : String) (r : Refund)
    → checks r ≡ true
    → (if str_eq r.user_id user
          && str_eq r.payment_id id
          && status_eq r.status RefundStatus.succeeded
        then r.amount
        else pos 0)
      ≤ℤ weight user id r
unfolding checks
paid_back-le user id r h = ground arith

refunded-le-reserved :
    (user id : String) (rs : List Refund) → Lawful rs → refunded user id rs ≤ℤ reserved user id rs
unfolding refunded
refunded-le-reserved user id [] h = omega arith
refunded-le-reserved user id (r ∷ rs) h =
    omega (int_laws, paid_back-le user id r h.0, refunded-le-reserved user id rs h.1)

-- After any history of calls, whatever faults occur and however workers interleave, the refunds of
-- a payment that have succeeded add up to at most the amount of the payment.
pub never_over_refunded :
    (sha256_hex : String → String) (cs : List Call) (s : Store) (user id : String) (p : Payment)
    → Inv (payments_of sha256_hex) s.db
    → payment_by_id id (s.db.payments (payments_of sha256_hex user)) ≡ some p
    → refunded user id (run_calls sha256_hex cs s).db.refunds ≤ℤ p.amount
never_over_refunded sha256_hex cs s user id p inv found =
    let after = run_calls-Inv sha256_hex cs s inv in
    let still =
      ap (λ payments. payment_by_id id (payments (payments_of sha256_hex user)))
        (run_calls-payments sha256_hex cs s)
      ∙ found in
    omega (arith, refunded-le-reserved user id _ after.lawful, after.solvent user id p still)
