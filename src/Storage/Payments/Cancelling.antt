-- ===== src/Storage/Payments/Cancelling.antt =====
-- What `CancelPayment` does to the payments and to the outbox.
use mathlib.Core.Path.{subst}
use ptrans.Prelude.{
  ℕ, String, ◌≡◌, ◌∙◌, refl, sym, ap, false, Option, none, some, List, [], ◌∷◌, arith, str_eq,
  str_eq→eq, eq_iff, eq_of_some, Bool-cases, inl, inr, str_eq_self,
}
use ptrans.Domain.Errors.{Error, Result, ok, err, Time}
use ptrans.Domain.Payment.{Payment, PaymentStatus}
use ptrans.Domain.Outbox.{EventType, OutboxEvent, OutboxPayload}
use ptrans.Storage.Schema.{
  Db, Store, Faults, commit, rollback, transaction, continue, after, ◌>>=◌, or_raise,
}
use ptrans.Storage.Schema.Post.{Post, Post-pure, Post-guard, Post-gets, Post-bind, transaction-Post}
use ptrans.Storage.Schema.Runs.{ok_value, rolled_back, kept, transaction-Succeeds}
use ptrans.Storage.OutboxRows.{insert_outbox, outbox_row, insert_outbox_event}
use ptrans.Storage.Users.{UserTables, derive_user_tables}
use ptrans.Storage.Users.Effect.{OnlyUsers, Ensures, ensure_user_schema-Ensures}
use ptrans.Prelude.Text.{trim_space}
use ptrans.Storage.Payments.{
  payment_by_id, with_table, get_payment_row, cancel_row, update_cancelled,
  insert_payment_cancelled_outbox_event, read_cancellable, write_cancelled, cancel_payment,
}

-- What the end of a cancellation does to the tables `db`: the row of the id is CANCELLED with the
-- time of the call, and one event about the payment is in front of the outbox.
pub record Cancelled (table id : String) (now : Time) (db db' : Db) : Type 0 where
  pub cancelled :
      (p : Payment)
      → payment_by_id id (db.payments table) ≡ some p
      → payment_by_id id (db'.payments table)
        ≡ some (record p { status = PaymentStatus.cancelled; updated_at = now })
  pub other_rows :
      (other : String)
      → str_eq other id ≡ false
      → payment_by_id other (db'.payments table) ≡ payment_by_id other (db.payments table)
  pub other_tables :
      (name : String) → str_eq name table ≡ false → db'.payments name ≡ db.payments name
  pub refunds : db'.refunds ≡ db.refunds
  pub event : OutboxEvent
  pub outbox : db'.outbox ≡ event ∷ db.outbox
  pub about : event.payload ≡ OutboxPayload.cancelled (record { id = id; cancelled_at = now })

-- A whole cancellation: the payment was PENDING when it was read, and the rows that the others have
-- left by then are changed as above.
pub record IsCancelled (table id : String) (now : Time) (meanwhile : Store → Store) (s s' : Store)
    : Type 0 where
  pub seen : Store
  pub only_users : OnlyUsers s.db seen.db
  pub payment : Payment
  pub found : payment_by_id id (seen.db.payments table) ≡ some payment
  pub was_pending : payment.status ≡ PaymentStatus.pending
  pub written : Cancelled table id now (meanwhile seen).db s'.db

cancel_row-found :
    (id : String) (now : Time) (ps : List Payment) (p : Payment)
    → payment_by_id id ps ≡ some p
    → payment_by_id id (cancel_row id now ps)
      ≡ some (record p { status = PaymentStatus.cancelled; updated_at = now })
unfolding cancel_row
cancel_row-found id now [] p h = cc
cancel_row-found id now (x ∷ ps) p h = elim (Bool-cases (str_eq x.id id)) [
  | inl e ↦
      rw (e, e)
        (ap
          (λ (q : Payment). some (record q { status = PaymentStatus.cancelled; updated_at = now }))
          (eq_of_some (rw e at h)))
  | inr e ↦ rw (e, e) (cancel_row-found id now ps p (rw e at h))
]

cancel_row-other :
    (id other : String) (now : Time) (ps : List Payment)
    → str_eq other id ≡ false
    → payment_by_id other (cancel_row id now ps) ≡ payment_by_id other ps
unfolding cancel_row
cancel_row-other id other now [] ne = refl
cancel_row-other id other now (x ∷ ps) ne =
    ground (
      arith,
      eq_iff x.id id,
      eq_iff x.id other,
      eq_iff other id,
      cancel_row-other id other now ps ne,
    )

payment-id :
    (id : String) (ps : List Payment) (p : Payment) → payment_by_id id ps ≡ some p → p.id ≡ id
payment-id id [] p h = cc
payment-id id (x ∷ ps) p h = ground (arith, str_eq→eq x.id id, payment-id id ps p)

raised-or :
    (o : Option Payment) (x : Error) (db db' : Db) (p : Payment)
    → or_raise o x db ≡ ok (p, db')
    → (o ≡ some p) × (db' ≡ db)
unfolding ◌>>=◌
raised-or none x db db' p h = cc
raised-or (some q) x db db' p h =
    (ap some (ap (λ r. r.0) (ok_value h)), sym (ap (λ r. r.1) (ok_value h)))

pub get_payment_row-found :
    (io : Faults) (n : ℕ) (table id : String) (db : Db)
    → Post db
        (λ p db'. (payment_by_id id (db.payments table) ≡ some p) × (db' ≡ db))
        (get_payment_row io n table id)
unfolding get_payment_row
get_payment_row-found io n table id db =
    Post-guard _ _ _ λ _. Post-gets _ _ (record { at = λ p db' h. raised-or _ _ db db' p h })

pub inserted-outbox :
    (e : OutboxEvent) (db db' : Db) {u : Unit {0}}
    → insert_outbox e db ≡ ok (u, db')
    → db' ≡ record db { outbox = e ∷ db.outbox }
unfolding insert_outbox
inserted-outbox e db db' h = ground arith

-- The rows of one table after the table was replaced.
with_table-rows :
    (table : String) (rows : List Payment) (db : Db)
    → (with_table table rows db).payments table ≡ rows
with_table-rows table rows db = rw (str_eq_self table) refl

with_table-others :
    (table : String) (rows : List Payment) (db : Db) (name : String)
    → str_eq name table ≡ false
    → (with_table table rows db).payments name ≡ db.payments name
with_table-others table rows db name ne = rw ne refl

-- The update and the event together.
written-Cancelled :
    (table id evt_id user : String) (now : Time) (db mid db' : Db) (p : Payment) {u v : Unit {0}}
    → p.id ≡ id
    → update_cancelled table id now db ≡ ok (u, mid)
    → insert_payment_cancelled_outbox_event evt_id user
        (record p { status = PaymentStatus.cancelled; updated_at = now })
        now
        mid
      ≡ ok (v, db')
    → Cancelled table id now db db'
unfolding update_cancelled insert_payment_cancelled_outbox_event insert_outbox_event outbox_row
written-Cancelled table id evt_id user now db mid db' p own wrote sent =
    let rows = cancel_row id now (db.payments table) in
    let first : mid ≡ with_table table rows db = sym (ap (λ r. r.1) (ok_value wrote)) in
    let last = inserted-outbox _ mid db' sent in
    let paid : db'.payments ≡ (with_table table rows db).payments =
      ap (λ (d : Db). d.payments) last ∙ ap (λ (d : Db). d.payments) first in
    let changed : db'.payments table ≡ rows =
      ap (λ f. f table) paid ∙ with_table-rows table rows db in
    let event = outbox_row (record {
      id = evt_id;
      user_id = user;
      event_type = EventType.payment_cancelled;
      aggregate_type = "payment";
      aggregate_id = p.id;
      payload = OutboxPayload.cancelled (record { id = p.id; cancelled_at = now });
      now = now;
    }) in
    record {
      cancelled = λ q found.
          ap (payment_by_id id) changed ∙ cancel_row-found id now (db.payments table) q found;
      other_rows = λ other ne.
          ap (payment_by_id other) changed ∙ cancel_row-other id other now (db.payments table) ne;
      other_tables = λ name ne. ap (λ f. f name) paid ∙ with_table-others table rows db name ne;
      refunds = ap (λ (d : Db). d.refunds) last ∙ ap (λ (d : Db). d.refunds) first;
      event = event;
      outbox = ap (λ (d : Db). d.outbox) last ∙ ap (λ (d : Db). event ∷ d.outbox) first;
      about = ap (λ i. OutboxPayload.cancelled (record { id = i; cancelled_at = now })) own;
    }

-- What was read: a payment in PENDING, and nothing changed.
abbrev WasPending : String → String → Db → Payment → Type 0
WasPending table id db p =
    (payment_by_id id (db.payments table) ≡ some p) × (p.status ≡ PaymentStatus.pending)

read_cancellable-WasPending :
    (io : Faults) (t : UserTables) (id : String) (db : Db)
    → Post db
        (λ e db'. (p : Payment) × (e ≡ rollback p) × WasPending t.payments id db p)
        (read_cancellable io t id)
unfolding read_cancellable
read_cancellable-WasPending io t id db = Post-bind _ _ λ p same read.
    let (found, unchanged) = (get_payment_row-found io 0 t.payments id db).at p same read in
    Post-guard _ _ _ λ st. Post-pure _ (p, refl, (found, ground (arith, st)))

write_cancelled-Cancelled :
    (io : Faults) (t : UserTables) (user id : String) (now : Time) (evt_id : String) (p : Payment)
    (db : Db)
    → p.id ≡ id
    → Post db
        (λ e db'. (b : Unit {0}) × (e ≡ commit b) × Cancelled t.payments id now db db')
        (write_cancelled io t user id now evt_id p)
unfolding write_cancelled
write_cancelled-Cancelled io t user id now evt_id p db own = Post-guard _ _ _ λ _.
    Post-bind _ _ λ u mid wrote. Post-guard _ _ _ λ _. Post-bind _ _ λ v last sent.
      Post-pure _
        (tt, refl, written-Cancelled t.payments id evt_id user now db mid last p own wrote sent)

-- A read that ends with a rollback gives what its body found, and leaves the store alone.
read-WasPending :
    (io : Faults) (t : UserTables) (id : String) (s mid : Store) (p : Payment)
    → transaction io (read_cancellable io t id) s ≡ (ok p, mid)
    → (mid ≡ s) × WasPending t.payments id s.db p
read-WasPending io t id s mid p h =
    elim (transaction-Succeeds io (read_cancellable io t id) s mid p h) [
      | rolled_back db' run same ↦
          (same, of_rollback ((read_cancellable-WasPending io t id s.db).at (rollback p) db' run))
      | kept db' run now ↦
          no_commit ((read_cancellable-WasPending io t id s.db).at (commit p) db' run).1
    ]
  where
    injective : {x y : Payment} → rollback x ≡ rollback y → x ≡ y
    injective e = cc

    of_rollback :
        (q : Payment) × (rollback p ≡ rollback q) × WasPending t.payments id s.db q
        → WasPending t.payments id s.db p
    of_rollback (q, e, w) = subst (WasPending t.payments id s.db) (sym (injective e)) w

    no_commit : {C : Type 0} {x y : Payment} → commit x ≡ rollback y → C
    no_commit e = cc

module _ (io : Faults) (meanwhile : Store → Store) (user id : String) (now : Time) (evt_id : String)
    (t : UserTables) (s s' : Store) where
  end-IsCancelled :
      (u : UserTables) (seen : Store) (r : Result Payment × Store)
      → OnlyUsers s.db seen.db
      → u ≡ t
      → transaction io (read_cancellable io u id) seen ≡ r
      → continue r (λ p mid.
        transaction
          (record io { begin_fails = false })
          (write_cancelled io u user id now evt_id p)
          (meanwhile mid))
        ≡ (ok tt, s')
      → IsCancelled t.payments id now meanwhile s s'
  end-IsCancelled u seen (err x, mid) only named read h = cc
  end-IsCancelled u seen (ok p, mid) only named read h =
      let (same, (found, pending)) = read-WasPending io u id seen mid p read in
      let own = payment-id id (seen.db.payments u.payments) p found in
      subst (λ (v : UserTables). IsCancelled v.payments id now meanwhile s s') named
        (record {
          seen = seen;
          only_users = only;
          payment = p;
          found = found;
          was_pending = pending;
          written =
              subst (λ (m : Store). Cancelled u.payments id now (meanwhile m).db s'.db) same
                (transaction-Post (record io { begin_fails = false }) _ (meanwhile mid) s' tt _
                  (write_cancelled-Cancelled io u user id now evt_id p (meanwhile mid).db own) h);
        })

  continue-IsCancelled :
      (r : Result UserTables × Store)
      → Ensures t s r
      → continue r (λ u. after (transaction io (read_cancellable io u id)) (λ p mid.
        transaction
          (record io { begin_fails = false })
          (write_cancelled io u user id now evt_id p)
          (meanwhile mid)))
        ≡ (ok tt, s')
      → IsCancelled t.payments id now meanwhile s s'
  continue-IsCancelled (err x, mid) e h = cc
  continue-IsCancelled (ok u, mid) e h =
      end-IsCancelled u mid _ e.only_users (e.named u refl) refl h

-- A cancellation succeeds only for a payment of the user that was PENDING when it was read. Of what
-- other transactions have left by the time of the UPDATE, the row of the payment is then CANCELLED
-- at the time of the call, all other payments and all refunds are as they were, and the outbox has
-- one more event, which is about this payment.
pub cancel_payment-IsCancelled :
    (sha256_hex : String → String) (schema io : Faults) (meanwhile : Store → Store)
    (user id : String) (now : Time) (evt_id : String) (s s' : Store)
    → cancel_payment sha256_hex schema io meanwhile user id now evt_id s ≡ (ok tt, s')
    → IsCancelled (derive_user_tables sha256_hex (trim_space user)).payments id now meanwhile s s'
unfolding cancel_payment
cancel_payment-IsCancelled sha256_hex schema io meanwhile user id now evt_id s s' h =
    continue-IsCancelled io meanwhile user id now evt_id _ s s' _
      (ensure_user_schema-Ensures sha256_hex schema user s) h
