-- ===== src/Witnesses/Refunding.antt =====
-- A user with one payment and two refunds of it, the second too large.
use ptrans.Prelude.{String, ◌≡◌, refl, some, List, [], ◌∷◌, arith}
use ptrans.Prelude.Int.{pos, ◌≤ℤ◌}
use ptrans.Domain.Payment.{Payment, PaymentStatus}
use ptrans.Storage.Schema.{Db, Store, no_faults}
use ptrans.Storage.Refunds.{payment_by_id}
use ptrans.Storage.Refunds.Steps.Creation.{payments_of}
use ptrans.Storage.Refunds.Solvency.{Inv}
use ptrans.Storage.Refunds.History.{
  Call, create, run_calls, run_calls-Inv, refunded, never_over_refunded,
}
use ptrans.Witnesses.Deciding.{refund}

abbrev pub digest : String → String
digest text = "0123456789abcdef0123456789abcdef"

abbrev pub payment : Payment
payment = record {
  id = "pay_1";
  amount = pos 500;
  currency = "USD";
  status = PaymentStatus.succeeded;
  idempotency_key = "pay-key";
  created_at = 1;
  updated_at = 1;
}

abbrev pub tables : String → List Payment
tables name = payment ∷ []

abbrev pub database : Db
database = record {
  app_users = [];
  idempotency_keys = [];
  payments = tables;
  webhooks = λ name. [];
  outbox = [];
  deliveries = [];
  refunds = [];
  reconciliations = [];
  windows = [];
}

abbrev pub store : Store
store = record { db = database; ensured_users = [] }

amount_of_found :
    (id : String) (p : Payment) → payment_by_id id (payment ∷ []) ≡ some p → p.amount ≡ pos 500
amount_of_found id p h = ground arith

store-Inv : Inv (payments_of digest) store.db
store-Inv = record {
  unique = tt;
  lawful = tt;
  amounts = λ table id p h. rw (amount_of_found id p h) (omega arith);
  solvent = λ user id p h. rw (amount_of_found id p h) (omega arith);
}

abbrev calls : List Call
calls =
    create no_faults no_faults refund
    ∷ create no_faults no_faults (record refund { id = "re_2"; idempotency_key = "key-2" })
    ∷ []

run_calls-Inv_example : Inv (payments_of digest) (run_calls digest calls store).db
run_calls-Inv_example = run_calls-Inv digest calls store store-Inv

never_over_refunded_example :
    refunded "ann" "pay_1" (run_calls digest calls store).db.refunds ≤ℤ pos 500
never_over_refunded_example =
    never_over_refunded digest calls store "ann" "pay_1" payment store-Inv refl
