-- ===== src/Api/Pages.antt =====
-- The pages that the API asks its services for.
use ptrans.Prelude.{
  ℕ, zero, suc, String, ◌≡◌, ◌≤◌, ◌<◌, ◌*◌, refl, sym, false, ◌||◌, Option, none, some, arith,
  str_eq, inl, inr, Bool-cases,
}
use mathlib.Core.Path.{subst}
use ptrans.Prelude.Int.{ℤ, pos, negsuc, pos_part, ◌-ℤ◌, -ℤ_parts, ◌≤ℤ◌, ◌<ℤ◌, ltb_ℤ, int_laws}
use ptrans.Prelude.Text.{trim_space, parse_int}
use ptrans.Domain.Errors.{Error, Result, ok, err}
use ptrans.Refunds.Service.{page_error}
use ptrans.Api.{accept_positive, parse_positive_int_query}
use ptrans.Api.Refunds.{paginate, refund_pagination}

-- What a page that is asked for is like.
pub record IsAsked (limit offset : ℤ) : Type 0 where
  pub at_least : pos 1 ≤ℤ limit
  pub at_most : limit ≤ℤ pos 100
  pub from_start : pos 0 ≤ℤ offset
  pub below : offset <ℤ pos 100000000
  pub taken : page_error limit offset ≡ none

abbrev IsPositive : Result ℤ → Type 0
IsPositive r = (n : ℤ) → r ≡ ok n → pos 1 ≤ℤ n

ok_inj : {A : Type 0} {a b : A} → ok a ≡ ok b → a ≡ b
ok_inj h = cc

failed : {A C : Type 0} {e : Error} {a : A} → err e ≡ ok a → C
failed h = cc

at_least_one : (n m : ℤ) → ltb_ℤ n (pos 1) ≡ false → n ≡ m → pos 1 ≤ℤ m
at_least_one n m h e = rw (sym e) (ground (arith, h))

accept-IsPositive : (o : Option ℤ) → IsPositive (accept_positive o)
unfolding accept_positive
accept-IsPositive none n h = failed h
accept-IsPositive (some m) n h = elim (Bool-cases (ltb_ℤ m (pos 1))) [
  | inl e ↦ failed (rw e at h)
  | inr e ↦ at_least_one m n e (ok_inj (rw e at h))
]

parsed-IsPositive :
    (raw : String) (d : ℤ) → pos 1 ≤ℤ d → IsPositive (parse_positive_int_query raw d)
unfolding parse_positive_int_query
parsed-IsPositive raw d h n e = elim (Bool-cases (str_eq (trim_space raw) "")) [
  | inl f ↦ at_least_one d n (ground (arith, h)) (ok_inj (rw f at e))
  | inr f ↦ accept-IsPositive (parse_int (trim_space raw)) n (rw f at e)
]

-- A product grows with its second factor.
product_le : (a b c : ℕ) → b ≤ c → a * b ≤ a * c
product_le zero b c h = omega arith
product_le (suc a) b c h = omega (arith, product_le a b c h)

offset_below : (a b : ℕ) → a ≤ 999999 → b ≤ 100 → a * b < 100000000
offset_below a b h k = omega (arith, product_le a b 100 k)

pages_before : (page : ℤ) → ltb_ℤ (pos 1000000) page ≡ false → pos_part (page -ℤ pos 1) ≤ 999999
pages_before page h = grind (int_laws, -ℤ_parts)

size_small : (size : ℤ) → ltb_ℤ (pos 100) size ≡ false → pos_part size ≤ 100
size_small (pos n) h = ground (arith, h)
size_small (negsuc n) h = omega arith

asked :
    (page size : ℤ)
    → pos 1 ≤ℤ size
    → ltb_ℤ (pos 100) size ≡ false
    → ltb_ℤ (pos 1000000) page ≡ false
    → IsAsked size (pos (pos_part (page -ℤ pos 1) * pos_part size))
unfolding page_error
asked page size q h k = record {
  at_least = q;
  at_most = ground (arith, h);
  from_start = ground arith;
  below = ground (
    arith,
    offset_below (pos_part (page -ℤ pos 1)) (pos_part size) (pages_before page k)
        (size_small size h),
  );
  taken = ground (arith, q, h);
}

paginate-IsAsked :
    (page size : Result ℤ) (limit offset : ℤ)
    → IsPositive size
    → paginate page size ≡ ok (limit, offset)
    → IsAsked limit offset
unfolding paginate
paginate-IsAsked (err e) size limit offset q h = failed h
paginate-IsAsked (ok page) (err e) limit offset q h = failed h
paginate-IsAsked (ok page) (ok size) limit offset q h =
    elim (Bool-cases (ltb_ℤ (pos 100) size || ltb_ℤ (pos 1000000) page)) [
      | inl e ↦ failed (rw e at h)
      | inr e ↦
          subst (λ (p : ℤ × ℤ). IsAsked p.0 p.1) (ok_inj (rw e at h))
            (asked page size (q size refl) (ground (arith, e)) (ground (arith, e)))
    ]

-- A page of refunds or reconciliations that the API asks for has from 1 to 100 rows and a start
-- from 0 to below 100 million, whatever the query says, and the service refuses none of them.
pub refund_pagination-IsAsked :
    (page size : String) (limit offset : ℤ)
    → refund_pagination page size ≡ ok (limit, offset)
    → IsAsked limit offset
unfolding refund_pagination
refund_pagination-IsAsked page size limit offset h =
    paginate-IsAsked (parse_positive_int_query page (pos 1))
      (parse_positive_int_query size (pos 20)) limit offset
      (parsed-IsPositive size (pos 20) (omega arith)) h
