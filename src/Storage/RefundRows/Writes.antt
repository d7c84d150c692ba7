-- ===== src/Storage/RefundRows/Writes.antt =====
-- What one INSERT or UPDATE of `refunds` does to the database.
use ptrans.Prelude.{String, ◌≡◌, refl, true, Option, none, some, ◌∷◌, arith, and-eq-true, ◌&&◌}
use mathlib.Core.Path.{subst}
use ptrans.Domain.Errors.{ok, err, refund_not_found}
use ptrans.Domain.Refund.{Refund}
use ptrans.Storage.Schema.{Db, pure}
use ptrans.Storage.Schema.Runs.{Through, >>=-eq-ok, if-eq-ok}
use ptrans.Storage.RefundRows.{
  refund_by_id, checks, guard_update, emit, new_row, insertable, insert_row, replace_row,
  next_version, write_row, update_row, update_kind, refund_outbox_event,
}

-- All tables but `outbox_events` are as before, and that one has the events of `added` in front.
pub record Emits (kind : Option String) (new : Refund) (db db' : Db) : Type 0 where
  pub same_refunds : db'.refunds ≡ db.refunds
  pub same_payments : db'.payments ≡ db.payments
  pub same_users : db'.app_users ≡ db.app_users
  pub outbox :
      db'.outbox ≡ elim kind [ none ↦ db.outbox | some k ↦ refund_outbox_event k new ∷ db.outbox ]

emit-Emits :
    (kind : Option String) (new : Refund) (db db' : Db) {u : Unit {0}}
    → emit kind new db ≡ ok (u, db')
    → Emits kind new db db'
unfolding emit
emit-Emits none new db db' h = ground arith
emit-Emits (some k) new db db' h = ground arith

emitted :
    (kind : Option String) (row : Refund) (db : Db) (new : Refund) (db' : Db)
    → Through (emit kind row) (λ _. pure row) db new db'
    → (new ≡ row) × Emits kind row db db'
unfolding pure
emitted kind row db new db' t = (
  ground (arith, t.rest),
  subst (Emits kind row db) (ground (arith, t.rest)) (emit-Emits kind row db t.mid t.first),
)

-- The result of a single-row update.
pub record Updated (f : Refund → Refund) (db : Db) (old new : Refund) (db' : Db) : Type 0 where
  pub row : new ≡ next_version old (f old)
  pub guarded : guard_update old (f old) ≡ true
  pub checked : checks new ≡ true
  pub refunds : db'.refunds ≡ replace_row old.id new db.refunds
  pub payments : db'.payments ≡ db.payments
  pub users : db'.app_users ≡ db.app_users
  pub outbox : db'.outbox ≡ elim (update_kind old new) [
    | none ↦ db.outbox
    | some k ↦ refund_outbox_event k new ∷ db.outbox
  ]

written :
    (f : Refund → Refund) (old row : Refund) (db : Db) (new : Refund) (db' : Db)
    → row ≡ next_version old (f old)
    → guard_update old (f old) ≡ true
    → checks row ≡ true
    → (new ≡ row)
      × Emits
          (update_kind old row)
          row
          (record db { refunds = replace_row old.id row db.refunds })
          db'
    → Updated f db old new db'
written f old row db new db' r g c (same, e) = rw same (record {
  row = r;
  guarded = g;
  checked = c;
  refunds = e.same_refunds;
  payments = e.same_payments;
  users = e.same_users;
  outbox = e.outbox;
})

pub write_row-Updated :
    (f : Refund → Refund) (old : Refund) (db : Db) (new : Refund) (db' : Db)
    → write_row f old db ≡ ok (new, db')
    → Updated f db old new db'
unfolding write_row
write_row-Updated f old db new db' h =
    let row = next_version old (f old) in
    let (pass, run) = if-eq-ok (guard_update old (f old) && checks row) _ _ _ h in
    let (g, c) = and-eq-true (guard_update old (f old)) (checks row) pass in
    written f old row db new db' refl g c (emitted _ row _ new db' (>>=-eq-ok _ _ _ _ _ run))

pub update_row-Updated :
    (id : String) (f : Refund → Refund) (db : Db) (new : Refund) (db' : Db)
    → update_row id f db ≡ ok (new, db')
    → (old : Refund) × (refund_by_id id db.refunds ≡ some old) × Updated f db old new db'
unfolding update_row
update_row-Updated id f db new db' h = found (refund_by_id id db.refunds) refl h
  where
    found :
        (o : Option Refund)
        → refund_by_id id db.refunds ≡ o
        → elim o [ none ↦ err refund_not_found | some old ↦ write_row f old db ] ≡ ok (new, db')
        → (old : Refund) × (refund_by_id id db.refunds ≡ some old) × Updated f db old new db'
    found none e h = cc
    found (some old) e h = (old, e, write_row-Updated f old db new db' h)

-- The result of an INSERT.
pub record Inserted (r : Refund) (db : Db) (new : Refund) (db' : Db) : Type 0 where
  pub row : new ≡ new_row r
  pub allowed : insertable (new_row r) db ≡ true
  pub refunds : db'.refunds ≡ new_row r ∷ db.refunds
  pub payments : db'.payments ≡ db.payments

pub insert_row-Inserted :
    (r : Refund) (db : Db) (new : Refund) (db' : Db)
    → insert_row r db ≡ ok (new, db')
    → Inserted r db new db'
unfolding insert_row
insert_row-Inserted r db new db' h =
    let (pass, run) = if-eq-ok (insertable (new_row r) db) _ _ _ h in
    let (same, e) = emitted _ (new_row r) _ new db' (>>=-eq-ok _ _ _ _ _ run) in
    record { row = same; allowed = pass; refunds = e.same_refunds; payments = e.same_payments }
