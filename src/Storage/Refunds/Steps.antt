-- ===== src/Storage/Refunds/Steps.antt =====
-- Every operation of the refund store is one step of this relation on the tables.
pub mod Updates
pub mod Creation
use mathlib.Core.Path.{subst}
use ptrans.Prelude.{
  ℕ, String, ◌≡◌, refl, sym, ◌∙◌, ap, Bool, true, false, Option, none, some, List, ◌∷◌, arith, not,
  ◌||◌, ◌&&◌, str_eq, str_eq→eq, inl, inr, Bool-cases, if◌then◌else◌, find?,
}
use ptrans.Prelude.Int.{ℤ, pos, ◌-ℤ◌, ◌≤ℤ◌, ◌<ℤ◌, wrap64, leb_ℤ, ltb_ℤ}
use ptrans.Domain.Errors.{Result, ok, err, Time}
use ptrans.Domain.Refund.{Refund, RefundStatus, status_eq}
use ptrans.Domain.Payment.{Payment, PaymentStatus, status_eq as payment_status_eq}
use ptrans.Refunds.{ClaimKind, Outcome}
use ptrans.Storage.Schema.{Db, Store, Faults, Tx, Ending, commit, rollback, transaction, ◌>>=◌}
use ptrans.Storage.Schema.Post.{Post, Post-pure, Post-raise, Post-guard, Post-gets, Post-bind}
use ptrans.Storage.Refunds.Table.{id_of_found}
use ptrans.Storage.Schema.Runs.{Runs, untouched, committed, transaction-Runs}
use ptrans.Storage.Users.{UserTables}
use ptrans.Storage.RefundRows.{
  refund_by_id, checks, guard_update, insertable, new_row, replace_row, next_version, update_row,
  insert_row,
}
use ptrans.Storage.RefundRows.Writes.{Updated, update_row-Updated, Inserted, insert_row-Inserted}
use ptrans.Storage.Refunds.{payment_by_id, reserved}
use ptrans.Storage.Refunds.Create.{reserve, create_in, create_body}

-- A new refund of the payment `p`, found in the table `table`.
pub record Fits (table : String) (db : Db) (r : Refund) (p : Payment) : Type 0 where
  pub paid : payment_by_id r.payment_id (db.payments table) ≡ some p
  pub succeeded : p.status ≡ PaymentStatus.succeeded
  pub positive : pos 0 <ℤ r.amount
  pub covered : r.amount ≤ℤ wrap64 (p.amount -ℤ reserved r.user_id r.payment_id db.refunds)

pub data RefundStep (table_of : String → String) (db db' : Db) : Type 0 where
  unchanged : db'.refunds ≡ db.refunds → db'.payments ≡ db.payments → RefundStep table_of db db'
  created :
      (r : Refund) (p : Payment)
      → Fits (table_of r.user_id) db r p
      → insertable (new_row r) db ≡ true
      → db'.refunds ≡ new_row r ∷ db.refunds
      → db'.payments ≡ db.payments
      → RefundStep table_of db db'
  changed :
      (old new : Refund) (f : Refund → Refund)
      → refund_by_id old.id db.refunds ≡ some old
      → guard_update old (f old) ≡ true
      → checks new ≡ true
      → new ≡ next_version old (f old)
      → db'.refunds ≡ replace_row old.id new db.refunds
      → db'.payments ≡ db.payments
      → RefundStep table_of db db'

-- The steps of `CreateRefund`: no row that was there changes.
pub data Growth (table_of : String → String) (db db' : Db) : Type 0 where
  same : db'.refunds ≡ db.refunds → db'.payments ≡ db.payments → Growth table_of db db'
  added :
      (r : Refund) (p : Payment)
      → Fits (table_of r.user_id) db r p
      → insertable (new_row r) db ≡ true
      → db'.refunds ≡ new_row r ∷ db.refunds
      → db'.payments ≡ db.payments
      → Growth table_of db db'

pub Growth-RefundStep :
    (table_of : String → String) (db db' : Db) → Growth table_of db db' → RefundStep table_of db db'
Growth-RefundStep t db db' (same r p) = unchanged r p
Growth-RefundStep t db db' (added n pay fits ins r p) = created n pay fits ins r p

pub RefundStep-payments :
    (table_of : String → String) (db db' : Db)
    → RefundStep table_of db db'
    → db'.payments ≡ db.payments
RefundStep-payments t db db' (unchanged r p) = p
RefundStep-payments t db db' (created n pay fits ins r p) = p
RefundStep-payments t db db' (changed old new f found g c v r p) = p

Inserted-Growth :
    (table_of : String → String) (db : Db) (r : Refund) (p : Payment) (new : Refund) (db' : Db)
    → Fits (table_of r.user_id) db r p
    → Inserted r db new db'
    → Growth table_of db db'
Inserted-Growth table_of db r p new db' fits i = added r p fits i.allowed i.refunds i.payments

pub Updated-RefundStep :
    (table_of : String → String) (id : String) (f : Refund → Refund) (db : Db) (new : Refund)
    (db' : Db)
    → update_row id f db ≡ ok (new, db')
    → RefundStep table_of db db'
Updated-RefundStep table_of id f db new db' h =
    let (old, found, u) = update_row-Updated id f db new db' h in
    changed old new f (rw (id_of_found id db.refunds old found) found) u.guarded u.checked u.row
      u.refunds u.payments

-- The guards of `CreateRefund` give the facts of `Fits`.
guards-Fits :
    (table : String) (db : Db) (r : Refund) (p : Payment)
    → payment_by_id r.payment_id (db.payments table) ≡ some p
    → not (payment_status_eq p.status PaymentStatus.succeeded) ≡ false
    → (leb_ℤ r.amount (pos 0)
        || ltb_ℤ (wrap64 (p.amount -ℤ reserved r.user_id r.payment_id db.refunds)) r.amount)
      ≡ false
    → Fits table db (record r { currency = p.currency }) p
guards-Fits table db r p found paid fits = record {
  paid = found;
  succeeded = ground arith;
  positive = ground arith;
  covered = ground arith;
}

module _ (table_of : String → String) (t : UserTables) (r : Refund)
    (named : t.payments ≡ table_of r.user_id) where
  reserve-Post :
      (io : Faults) (o : Option Payment) (db : Db)
      → payment_by_id r.payment_id (db.payments t.payments) ≡ o
      → Post db (λ _ db'. Growth table_of db db') (reserve io t r o)
  unfolding reserve
  reserve-Post io none db found = Post-raise _
  reserve-Post io (some p) db found = Post-guard _ _ _ λ paid. Post-guard _ _ _ λ _. Post-gets _ _ (
      Post-guard _ _ _ λ _. Post-guard _ _ _ λ fits. Post-guard _ _ _ λ _.
        Post-bind _ _ λ new mid run. Post-pure _ (
          Inserted-Growth table_of db (record r { currency = p.currency }) p new mid
            (guards-Fits (table_of r.user_id) db r p (rw (← named) found) paid fits)
            (insert_row-Inserted _ db new mid run)))

  create_in-Post :
      (io : Faults) (o : Option Refund) (db : Db)
      → Post db (λ _ db'. Growth table_of db db') (create_in io t r o)
  unfolding create_in
  create_in-Post io (some existing) db =
      elim (Bool-cases (str_eq existing.request_hash r.request_hash)) [
        | inl e ↦ rw e (Post-pure _ (same refl refl))
        | inr e ↦ rw e (Post-raise _)
      ]
  create_in-Post io none db = Post-guard _ _ _ λ _. Post-gets _ _ (reserve-Post io _ db refl)

  pub create_body-Post :
      (io : Faults) (db : Db) → Post db (λ _ db'. Growth table_of db db') (create_body io t r)
  unfolding create_body
  create_body-Post io db =
      Post-guard _ _ _ λ _. Post-guard _ _ _ λ _. Post-gets _ _ (create_in-Post io _ db)
