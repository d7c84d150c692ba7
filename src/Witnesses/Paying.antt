-- ===== src/Witnesses/Paying.antt =====
-- A user cancels a pending payment.
use ptrans.Prelude.{◌≡◌, refl, [], ◌∷◌}
use ptrans.Prelude.Int.{pos}
use ptrans.Prelude.Text.{trim_space}
use ptrans.Domain.Errors.{ok}
use ptrans.Domain.Payment.{Payment, PaymentStatus}
use ptrans.Storage.Schema.{Store, no_faults, ◌>>=◌}
use ptrans.Storage.OutboxRows.{insert_outbox, outbox_row, insert_outbox_event}
use ptrans.Storage.Users.{derive_user_tables, ensure_user_schema}
use ptrans.Storage.Payments.{
  get_payment_row, cancel_row, update_cancelled, insert_payment_cancelled_outbox_event,
  read_cancellable, write_cancelled, cancel_payment, create_payment,
}
use ptrans.Storage.Payments.Cancelling.{IsCancelled, cancel_payment-IsCancelled}
use ptrans.Witnesses.Refunding.{digest, database, payment}

abbrev pub pending_payment : Payment
pending_payment = record payment { status = PaymentStatus.pending }

abbrev pub open_store : Store
open_store = record {
  db = record database { payments = λ table. pending_payment ∷ [] };
  ensured_users = "ann" ∷ [];
}

-- Another payment is made in between.
abbrev meanwhile : Store → Store
meanwhile s = record s {
  db = record s.db {
    payments = λ table. record pending_payment { id = "pay_9" } ∷ s.db.payments table;
  };
}

abbrev closed_store : Store
closed_store =
    (cancel_payment digest no_faults no_faults meanwhile "ann" "pay_1" 20 "evt_9" open_store).1

cancellation :
    cancel_payment digest no_faults no_faults meanwhile "ann" "pay_1" 20 "evt_9" open_store
    ≡ (ok tt, closed_store)
unfolding cancel_payment ensure_user_schema derive_user_tables trim_space read_cancellable
    write_cancelled get_payment_row update_cancelled cancel_row
    insert_payment_cancelled_outbox_event insert_outbox_event insert_outbox outbox_row ◌>>=◌
cancellation = refl

cancel_payment-IsCancelled_example :
    IsCancelled
      (derive_user_tables digest (trim_space "ann")).payments
      "pay_1"
      20
      meanwhile
      open_store
      closed_store
cancel_payment-IsCancelled_example =
    cancel_payment-IsCancelled digest no_faults no_faults meanwhile "ann" "pay_1" 20 "evt_9"
      open_store closed_store cancellation

abbrev new_payment : Payment
new_payment = record pending_payment { id = "pay_2"; idempotency_key = "order-7" }

abbrev asked_again : Payment
asked_again = record new_payment { id = "pay_3"; amount = pos 900 }

abbrev paid_store : Store
paid_store =
    (create_payment digest no_faults no_faults "ann" new_payment "h1" "evt_10" open_store).1
