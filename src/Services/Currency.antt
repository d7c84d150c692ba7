-- ===== src/Services/Currency.antt =====
-- What a payment that passes the tests of the service looks like.
use Prim.Native.Char.{Char, code}
use Prim.Native.String.{len}
use ptrans.Prelude.{
  String, ◌≡◌, ◌≤◌, refl, Bool, true, false, ◌&&◌, ◌==◌, leb, Option, none, some, arith, inl, inr,
  Bool-cases, and-eq-true,
}
use ptrans.Prelude.Int.{ℤ, pos, ◌<ℤ◌, leb_ℤ}
use ptrans.Prelude.Text.{is_space, no_space, trim_space_same}
use ptrans.Domain.Errors.{Error, Result, ok, Time}
use ptrans.Domain.Payment.{Payment}
use ptrans.Storage.Schema.{Store, Action}
use ptrans.Services.{upper_char, to_upper, normalize_currency, all_capital, is_valid_currency}
use ptrans.Services.Payments.{
  PaymentRepository, CreatePaymentInput, input_error, payment_from, checked, create_payment,
}

clash : {C : Type 0} → false ≡ true → C
clash h = cc

abbrev is_capital : Char → Bool
is_capital c = leb b'A' (code c) && leb (code c) b'Z'

capital_no_space : (c : Char) → is_capital c ≡ true → is_space (code c) ≡ false
unfolding is_space
capital_no_space c h = ground (arith, h)

capital_upper : (c : Char) → is_capital c ≡ true → upper_char c ≡ c
unfolding upper_char
capital_upper c h = ground (arith, h)

capitals-no_space : (s : String) → all_capital s ≡ true → no_space s ≡ true
unfolding all_capital no_space
capitals-no_space String.[] h = refl
capitals-no_space (String.◌∷◌ c s) h = elim (Bool-cases (is_capital c)) [
  | inl e ↦ rw (capital_no_space c e) (capitals-no_space s (rw e at h))
  | inr e ↦ clash (rw e at h)
]

capitals_upper : (s : String) → all_capital s ≡ true → to_upper s ≡ s
unfolding all_capital to_upper
capitals_upper String.[] h = refl
capitals_upper (String.◌∷◌ c s) h = elim (Bool-cases (is_capital c)) [
  | inl e ↦ rw (capital_upper c e, capitals_upper s (rw e at h)) refl
  | inr e ↦ clash (rw e at h)
]

valid_normal : (s : String) → is_valid_currency s ≡ true → normalize_currency s ≡ s
unfolding is_valid_currency normalize_currency
valid_normal s h =
    let capital = (and-eq-true (len s == 3) (all_capital s) h).1 in
    rw (trim_space_same s (capitals-no_space s capital)) (capitals_upper s capital)

-- Every character is from `A` to `Z`.
abbrev pub AreCapitals : String → Type 0
AreCapitals String.[] = Unit
AreCapitals (String.◌∷◌ c s) = (65 ≤ code c) × (code c ≤ 90) × AreCapitals s

capital_code : (c : Char) → is_capital c ≡ true → (65 ≤ code c) × (code c ≤ 90)
capital_code c h = (ground (arith, h), ground (arith, h))

all_capital-AreCapitals : (s : String) → all_capital s ≡ true → AreCapitals s
unfolding all_capital
all_capital-AreCapitals String.[] h = tt
all_capital-AreCapitals (String.◌∷◌ c s) h = elim (Bool-cases (is_capital c)) [
  | inl e ↦ ((capital_code c e).0, (capital_code c e).1, all_capital-AreCapitals s (rw e at h))
  | inr e ↦ clash (rw e at h)
]

three_capitals : (s : String) → is_valid_currency s ≡ true → (len s ≡ 3) × AreCapitals s
unfolding is_valid_currency
three_capitals s h =
    let (three, capital) = and-eq-true (len s == 3) (all_capital s) h in
    (ground (arith, three), all_capital-AreCapitals s capital)

-- The payment that reaches the repository.
pub record IsChecked (repo : PaymentRepository) (hash_of : ℤ → String → String)
    (i : CreatePaymentInput) (p : Payment) (s : Store) (out : Result (Payment × Bool) × Store)
    : Type 0 where
  pub positive : pos 0 <ℤ p.amount
  pub three : len p.currency ≡ 3
  pub capitals : AreCapitals p.currency
  pub normal : normalize_currency p.currency ≡ p.currency
  pub called : out ≡ repo.create i.user_id p (hash_of p.amount p.currency) s

passed :
    {A : Type 0} (o : Option Error) (k : Action A) (s s' : Store) (a : A)
    → checked o k s ≡ (ok a, s')
    → o ≡ none
passed none k s s' a h = refl
passed (some e) k s s' a h = cc

tests_positive : (i : CreatePaymentInput) → input_error i ≡ none → leb_ℤ i.amount (pos 0) ≡ false
unfolding input_error
tests_positive i h = ground (arith, h)

tests_valid :
    (i : CreatePaymentInput)
    → input_error i ≡ none
    → is_valid_currency (normalize_currency i.currency) ≡ true
unfolding input_error
tests_valid i h = ground (arith, h)

over_zero : (a : ℤ) → leb_ℤ a (pos 0) ≡ false → pos 0 <ℤ a
over_zero a h = ground (arith, h)

-- A payment that the service creates without an error reached the repository with a positive
-- amount and a currency of three capitals that normalizing again leaves as it is, and the hash of
-- the request is that of this amount and currency.
pub create_payment-IsChecked :
    (hash_of : ℤ → String → String) (repo : PaymentRepository) (i : CreatePaymentInput)
    (id : String) (now : Time) (s s' : Store) (r : Payment × Bool)
    → create_payment hash_of repo i id now s ≡ (ok r, s')
    → IsChecked repo hash_of i (payment_from i id now) s (create_payment hash_of repo i id now s)
unfolding create_payment payment_from
create_payment-IsChecked hash_of repo i id now s s' r h =
    let none_failed = passed (input_error i) _ s s' r h in
    record {
      positive = over_zero i.amount (tests_positive i none_failed);
      three = (three_capitals _ (tests_valid i none_failed)).0;
      capitals = (three_capitals _ (tests_valid i none_failed)).1;
      normal = valid_normal (normalize_currency i.currency) (tests_valid i none_failed);
      called = rw none_failed refl;
    }
