-- ===== src/Storage/Refunds/Solvency.antt =====
-- The money of a payment is never promised twice.
use mathlib.Core.Path.{subst}
use ptrans.Prelude.{
  All-find, String, ◌≡◌, ◌∙◌, refl, sym, ap, true, false, ◌&&◌, none, some, List, [], ◌∷◌, arith,
  str_eq, str_eq→eq, eq_of_some, and-eq-true, some_passes, inl, inr, Bool-cases,
}
use ptrans.Prelude.Int.{
  ℤ, pos, ◌+ℤ◌, ◌-ℤ◌, ◌≤ℤ◌, ◌<ℤ◌, int_laws, pos_part, neg_part, wrap64, wrap64_of_IsInt64, IsInt64,
  -ℤ-IsInt64,
}
use ptrans.Domain.Refund.{Refund}
use ptrans.Domain.Payment.{Payment}
use ptrans.Storage.Schema.{Db}
use ptrans.Storage.RefundRows.{refund_by_id, checks, insertable, new_row, replace_row, next_version}
use ptrans.Storage.Refunds.{payment_by_id, weight, reserved}
use ptrans.Storage.Refunds.Table.{
  Unique, Lawful, All-replace, Unique-replace, reserved_nonneg, reserved-replace, Allowed,
  guard_update-Allowed, weight-Allowed,
}
use ptrans.Storage.Refunds.Steps.{Fits, RefundStep, unchanged, created, changed}

-- What the tables satisfy between two calls.
pub record Inv (table_of : String → String) (db : Db) : Type 0 where
  pub unique : Unique db.refunds
  pub lawful : Lawful db.refunds
  -- amounts are `int64` values
  pub amounts :
      (table id : String) (p : Payment)
      → payment_by_id id (db.payments table) ≡ some p
      → IsInt64 p.amount
  -- for each payment of a user, what its refunds hold together is at most what was paid
  pub solvent :
      (user id : String) (p : Payment)
      → payment_by_id id (db.payments (table_of user)) ≡ some p
      → reserved user id db.refunds ≤ℤ p.amount

positive_amount : (r : Refund) → checks r ≡ true → pos 0 ≤ℤ r.amount
unfolding checks
positive_amount r h = ground arith

-- `amount-reserved` does not overflow while the payment is solvent.
available : (a s x : ℤ) → IsInt64 a → pos 0 ≤ℤ s → s ≤ℤ a → x ≤ℤ wrap64 (a -ℤ s) → x +ℤ s ≤ℤ a
available a s x i n le h =
    let fits : x ≤ℤ a -ℤ s =
      subst (λ z. x ≤ℤ z) (wrap64_of_IsInt64 (a -ℤ s) (-ℤ-IsInt64 a s i n le)) h in
    omega int_laws

-- A new refund holds its amount for its own payment only.
weight-new_row :
    (user id : String) (r : Refund) → pos 0 <ℤ r.amount → weight user id (new_row r) ≤ℤ r.amount
unfolding new_row
weight-new_row user id r h = ground arith

weight_other :
    (user id : String) (r : Refund)
    → (str_eq r.user_id user && str_eq r.payment_id id) ≡ false
    → weight user id (new_row r) ≡ pos 0
unfolding new_row
weight_other user id r h = ground arith

-- Who holds nothing of a payment leaves its sum as it is.
add_nothing : (w s a : ℤ) → w ≡ pos 0 → s ≤ℤ a → w +ℤ s ≤ℤ a
add_nothing w s a e h = rw e (omega int_laws)

add_weight : (w x s a : ℤ) → w ≤ℤ x → x +ℤ s ≤ℤ a → w +ℤ s ≤ℤ a
add_weight w x s a h k = omega int_laws

-- the sum after one row has been replaced by one that holds no more
lower : (s s' w w' a : ℤ) → s' +ℤ w ≡ s +ℤ w' → w' ≤ℤ w → s ≤ℤ a → s' ≤ℤ a
lower s s' w w' a e h k = omega (int_laws, ap pos_part e, ap neg_part e)

next_version-Allowed :
    (old row new : Refund) → new ≡ next_version old row → Allowed old row → Allowed old new
unfolding next_version
next_version-Allowed old row new e a = rw e (record {
  same_id = a.same_id;
  same_user = a.same_user;
  same_payment = a.same_payment;
  same_amount = a.same_amount;
  same_key = a.same_key;
  holds_before = a.holds_before;
})

none_passes :
    (id : String) (rs : List Refund)
    → some_passes (λ (o : Refund). str_eq o.id id) rs ≡ false
    → refund_by_id id rs ≡ none
none_passes id [] h = refl
none_passes id (x ∷ rs) h = ground (arith, none_passes id rs)

pub inserted_fresh :
    (db : Db) (r : Refund)
    → insertable (new_row r) db ≡ true
    → refund_by_id (new_row r).id db.refunds ≡ none
unfolding insertable
inserted_fresh db r h = none_passes (new_row r).id db.refunds (ground arith)

inserted_lawful :
    (db : Db) (r : Refund) → insertable (new_row r) db ≡ true → checks (new_row r) ≡ true
unfolding insertable
inserted_lawful db r h = ground arith

module _ (table_of : String → String) (db db' : Db) (inv : Inv table_of db) where
  own-solvent :
      (r : Refund) (p : Payment)
      → Fits (table_of r.user_id) db r p
      → weight r.user_id r.payment_id (new_row r) +ℤ reserved r.user_id r.payment_id db.refunds
        ≤ℤ p.amount
  own-solvent r p fits =
      add_weight _ r.amount _ p.amount (weight-new_row r.user_id r.payment_id r fits.positive) (
        available p.amount _ r.amount (inv.amounts _ _ p fits.paid)
          (reserved_nonneg r.user_id r.payment_id db.refunds inv.lawful)
          (inv.solvent r.user_id r.payment_id p fits.paid) fits.covered)

  same_payment :
      (r : Refund) (user id : String) (p q : Payment)
      → r.user_id ≡ user
      → r.payment_id ≡ id
      → payment_by_id r.payment_id (db.payments (table_of r.user_id)) ≡ some p
      → payment_by_id id (db.payments (table_of user)) ≡ some q
      → p ≡ q
  same_payment r user id p q eu ei paid found = eq_of_some (
      sym paid
      ∙ ap (λ u. payment_by_id r.payment_id (db.payments (table_of u))) eu
      ∙ ap (λ i. payment_by_id i (db.payments (table_of user))) ei
      ∙ found)

  created-solvent :
      (r : Refund) (p : Payment)
      → Fits (table_of r.user_id) db r p
      → (user id : String) (q : Payment) → payment_by_id id (db.payments (table_of user)) ≡ some q
      → weight user id (new_row r) +ℤ reserved user id db.refunds ≤ℤ q.amount
  created-solvent r p fits user id q found =
      elim (Bool-cases (str_eq r.user_id user && str_eq r.payment_id id)) [
        | inl e ↦
            let (u, i) = and-eq-true (str_eq r.user_id user) (str_eq r.payment_id id) e in
            let eu = str_eq→eq r.user_id user u in
            let ei = str_eq→eq r.payment_id id i in
            subst
              (λ (a : Payment).
                weight user id (new_row r) +ℤ reserved user id db.refunds ≤ℤ a.amount)
              (same_payment r user id p q eu ei fits.paid found)
              (rw (sym eu, sym ei) (own-solvent r p fits))
        | inr e ↦ add_nothing _ _ _ (weight_other user id r e) (inv.solvent user id q found)
      ]

  changed-solvent :
      (old new : Refund)
      → refund_by_id old.id db.refunds ≡ some old
      → Allowed old new
      → (user id : String) (q : Payment) → payment_by_id id (db.payments (table_of user)) ≡ some q
      → reserved user id (replace_row old.id new db.refunds) ≤ℤ q.amount
  changed-solvent old new found ok user id q paid =
      lower _ _ _ _ q.amount (reserved-replace user id old.id old new db.refunds found)
        (weight-Allowed user id old new ok
          (positive_amount old (All-find _ _ db.refunds old inv.lawful found)))
        (inv.solvent user id q paid)

  -- Every step keeps the invariant.
  pub RefundStep-Inv : RefundStep table_of db db' → Inv table_of db'
  RefundStep-Inv (unchanged r p) = record {
    unique = rw r inv.unique;
    lawful = rw r inv.lawful;
    amounts = rw p inv.amounts;
    solvent = rw (r, p) inv.solvent;
  }
  RefundStep-Inv (created n pay fits ins r p) = record {
    unique = rw r (inserted_fresh db n ins, inv.unique);
    lawful = rw r (inserted_lawful db n ins, inv.lawful);
    amounts = rw p inv.amounts;
    solvent = rw (r, p) (created-solvent n pay fits);
  }
  RefundStep-Inv (changed old new f found g c w r p) =
      let allowed = next_version-Allowed old (f old) new w (guard_update-Allowed old (f old) g) in
      record {
        unique = rw r (Unique-replace old.id new db.refunds allowed.same_id inv.unique);
        lawful = rw r (All-replace _ old.id new db.refunds c inv.lawful);
        amounts = rw p inv.amounts;
        solvent = rw (r, p) (changed-solvent old new found allowed);
      }
