-- ===== src/Storage/Refunds/Table.antt =====
-- Facts about the rows of `refunds`: unique ids, sums of reserved money, and single-row updates.
use ptrans.Prelude.{
  String, ◌≡◌, ◌≢◌, refl, ◌⊎◌, inl, inr, true, false, none, some, List, [], ◌∷◌, arith, str_eq,
  str_eq→eq, eq_of_some, ◌&&◌, ◌==◌, eq_iff, All, Bool-cases,
}
use ptrans.Prelude.Int.{ℤ, pos, pos_part, neg_part, ◌+ℤ◌, ◌≤ℤ◌, int_laws, add_both}
use ptrans.Domain.Refund.{Refund}
use ptrans.Storage.RefundRows.{refund_by_id, checks, guard_update, replace_row}
use ptrans.Storage.Refunds.{holds, weight, reserved}

-- No two rows share a primary key.
abbrev pub Unique : List Refund → Type 0
Unique [] = Unit
Unique (r ∷ rs) = (refund_by_id r.id rs ≡ none) × Unique rs

abbrev pub Lawful : List Refund → Type 0
Lawful = All (λ r. checks r ≡ true)

pub id_of_found :
    (id : String) (rs : List Refund) (r : Refund) → refund_by_id id rs ≡ some r → r.id ≡ id
id_of_found id [] r h = cc
id_of_found id (x ∷ rs) r h = ground (arith, str_eq→eq x.id id, id_of_found id rs r)

found-cons :
    (id : String) (x : Refund) (rs : List Refund) (r : Refund)
    → refund_by_id id (x ∷ rs) ≡ some r
    → ((str_eq x.id id ≡ true) × (x ≡ r))
      ⊎ ((str_eq x.id id ≡ false) × (refund_by_id id rs ≡ some r))
found-cons id x rs r h = elim (Bool-cases (str_eq x.id id)) [
  | inl e ↦ inl (e, eq_of_some (rw e at h))
  | inr e ↦ inr (e, rw e at h)
]

pub All-replace {κ} :
    (P : Refund → Type κ) (id : String) (new : Refund) (rs : List Refund)
    → P new
    → All P rs
    → All P (replace_row id new rs)
unfolding replace_row
All-replace P id new [] p a = tt
All-replace P id new (x ∷ rs) p a = elim (Bool-cases (str_eq x.id id)) [
  | inl e ↦ rw e (p, a.1)
  | inr e ↦ rw e (a.0, All-replace P id new rs p a.1)
]

find-replace_ne :
    (id other : String) (new : Refund) (rs : List Refund)
    → new.id ≡ id
    → other ≢ id
    → refund_by_id other (replace_row id new rs) ≡ refund_by_id other rs
unfolding replace_row
find-replace_ne id other new [] e ne = refl
find-replace_ne id other new (x ∷ rs) e ne =
    ground (
      arith,
      eq_iff x.id id,
      eq_iff x.id other,
      eq_iff new.id other,
      find-replace_ne id other new rs,
    )

pub find-replace_self :
    (id : String) (new old : Refund) (rs : List Refund)
    → new.id ≡ id
    → refund_by_id id rs ≡ some old
    → refund_by_id id (replace_row id new rs) ≡ some new
unfolding replace_row
find-replace_self id new old [] e h = cc
find-replace_self id new old (x ∷ rs) e h =
    ground (arith, eq_iff x.id id, eq_iff new.id id, find-replace_self id new old rs)

-- One row is changed; every other id is found as before.
pub record OneRow (id : String) (new : Refund) (rows rows' : List Refund) : Type 0 where
  pub stored : refund_by_id id rows' ≡ some new
  pub others : (other : String) → other ≢ id → refund_by_id other rows' ≡ refund_by_id other rows

pub replace-OneRow :
    (id : String) (new old : Refund) (rows : List Refund)
    → new.id ≡ id
    → refund_by_id id rows ≡ some old
    → OneRow id new rows (replace_row id new rows)
replace-OneRow id new old rows e found = record {
  stored = find-replace_self id new old rows e found;
  others = λ other ne. find-replace_ne id other new rows e ne;
}

pub Unique-replace :
    (id : String) (new : Refund) (rs : List Refund)
    → new.id ≡ id
    → Unique rs
    → Unique (replace_row id new rs)
unfolding replace_row
Unique-replace id new [] e u = tt
Unique-replace id new (x ∷ rs) e u =
    ground (arith, eq_iff x.id id, Unique-replace id new rs, find-replace_ne id x.id new rs)

weight_nonneg :
    (user payment : String) (r : Refund) → checks r ≡ true → pos 0 ≤ℤ weight user payment r
unfolding checks
weight_nonneg user payment r h = ground arith

pub reserved_nonneg :
    (user payment : String) (rs : List Refund) → Lawful rs → pos 0 ≤ℤ reserved user payment rs
reserved_nonneg user payment [] h = omega arith
reserved_nonneg user payment (r ∷ rs) h =
    omega (int_laws, weight_nonneg user payment r h.0, reserved_nonneg user payment rs h.1)

-- A single-row update moves the sum by the difference of the two rows.
pub reserved-replace :
    (user payment id : String) (old new : Refund) (rs : List Refund)
    → refund_by_id id rs ≡ some old
    → reserved user payment (replace_row id new rs) +ℤ weight user payment old
      ≡ reserved user payment rs +ℤ weight user payment new
unfolding replace_row
reserved-replace user payment id old new [] h = cc
reserved-replace user payment id old new (x ∷ rs) h = elim (found-cons id x rs old h) [
  | inl (e, same) ↦ rw e (rw same (omega int_laws))
  | inr (e, later) ↦ rw e (add_both _ _ _ _ _ (reserved-replace user payment id old new rs later))
]

-- What the trigger lets through: identity and money stay, and the claim never grows.
pub record Allowed (old new : Refund) : Type 0 where
  pub same_id : new.id ≡ old.id
  pub same_user : new.user_id ≡ old.user_id
  pub same_payment : new.payment_id ≡ old.payment_id
  pub same_amount : new.amount ≡ old.amount
  pub same_key : new.idempotency_key ≡ old.idempotency_key
  pub holds_before : holds new ≡ true → holds old ≡ true

amount_eq→eq : (a b : ℤ) → (pos_part a == pos_part b && neg_part a == neg_part b) ≡ true → a ≡ b
amount_eq→eq a b h = ground arith

holds_of_guard :
    (old new : Refund) → guard_update old new ≡ true → holds new ≡ true → holds old ≡ true
unfolding guard_update
holds_of_guard old new g h = ground arith

pub guard_update-Allowed : (old new : Refund) → guard_update old new ≡ true → Allowed old new
unfolding guard_update
guard_update-Allowed old new g = record {
  same_id = ground (arith, str_eq→eq new.id old.id);
  same_user = ground (arith, str_eq→eq new.user_id old.user_id);
  same_payment = ground (arith, str_eq→eq new.payment_id old.payment_id);
  same_amount = ground (arith, amount_eq→eq new.amount old.amount);
  same_key = ground (arith, str_eq→eq new.idempotency_key old.idempotency_key);
  holds_before = holds_of_guard old new g;
}

pub weight-Allowed :
    (user payment : String) (old new : Refund)
    → Allowed old new
    → pos 0 ≤ℤ old.amount
    → weight user payment new ≤ℤ weight user payment old
weight-Allowed user payment old new a c =
    rw (a.same_user, a.same_payment, a.same_amount) (ground arith)
