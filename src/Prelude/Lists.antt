-- ===== src/Prelude/Lists.antt =====
-- Lists measured by native numbers, searched by Boolean tests.
use Prim.Native.Nat.{ℕ, zero, suc, ◌≤◌}
use mathlib.Core.Path.{◌≡◌, refl, subst}
use mathlib.Core.Bool.{Bool, true, false}
use mathlib.Core.List.{List, [], ◌∷◌}
use mathlib.Core.Option.{Option, none, some}
use native.Mathlib.Omega.{arith}
use ptrans.Prelude.Tests.{if◌then◌else◌, eq_of_some}

module _ {ℓ} {A : Type ℓ} where
  abbrev pub length : List A → ℕ
  length [] = 0
  length (x ∷ xs) = suc (length xs)

  abbrev pub take : ℕ → List A → List A
  take zero xs = []
  take (suc n) [] = []
  take (suc n) (x ∷ xs) = x ∷ take n xs

  abbrev pub drop : ℕ → List A → List A
  drop zero xs = xs
  drop (suc n) [] = []
  drop (suc n) (x ∷ xs) = drop n xs

  -- The elements that pass the test, in order.
  abbrev pub keep : (A → Bool) → List A → List A
  keep p [] = []
  keep p (x ∷ xs) = let rest = keep p xs in if p x then x ∷ rest else rest

  -- The first element that passes the test.
  abbrev pub find? : (A → Bool) → List A → Option A
  find? p [] = none
  find? p (x ∷ xs) = if p x then some x else find? p xs

  abbrev pub some_passes : (A → Bool) → List A → Bool
  some_passes p [] = false
  some_passes p (x ∷ xs) = if p x then true else some_passes p xs

  pub length-take-le : (n : ℕ) (xs : List A) → length (take n xs) ≤ n
  length-take-le zero xs = omega arith
  length-take-le (suc n) [] = omega arith
  length-take-le (suc n) (x ∷ xs) = omega (arith, length-take-le n xs)

module _ {ℓ κ} {A : Type ℓ} where
  -- A predicate of every element, as nested pairs.
  abbrev pub All : (A → Type κ) → List A → Type κ
  All P [] = Unit
  All P (x ∷ xs) = P x × All P xs

module _ {ℓ κ} {A : Type ℓ} (P : A → Type κ) where
  kept_head :
      (b : Bool) (x : A) (rest : List A)
      → All P (if b then x ∷ rest else rest)
      → (b ≡ true → P x) × All P rest
  kept_head true x rest h = (λ e. h.0, h.1)
  kept_head false x rest h = (λ e. cc, h)

  -- What holds of the elements that a test keeps holds of each that passes it.
  pub All-keep : (p : A → Bool) (xs : List A) → All P (keep p xs) → All (λ x. p x ≡ true → P x) xs
  All-keep p [] h = tt
  All-keep p (x ∷ xs) h =
      let (head, rest) = kept_head (p x) x (keep p xs) h in (head, All-keep p xs rest)

module _ {ℓ κ} {A : Type ℓ} (P Q : A → Type κ) where
  pub All-map : (xs : List A) → ((x : A) → P x → Q x) → All P xs → All Q xs
  All-map [] f h = tt
  All-map (x ∷ xs) f h = (f x h.0, All-map xs f h.1)

module _ {ℓ κ} {A : Type ℓ} (P : A → Type κ) where
  found_head :
      (b : Bool) (y x : A) (o : Option A)
      → P y
      → (o ≡ some x → P x)
      → (if b then some y else o) ≡ some x
      → P x
  found_head true y x o h k e = subst P (eq_of_some e) h
  found_head false y x o h k e = k e

  pub All-find : (p : A → Bool) (xs : List A) (x : A) → All P xs → find? p xs ≡ some x → P x
  All-find p [] x h e = cc
  All-find p (y ∷ ys) x h e = found_head (p y) y x (find? p ys) h.0 (All-find p ys x h.1) e

module _ {ℓ κ} {A : Type ℓ} (P : A → Type κ) where
  pub All-take : (n : ℕ) (xs : List A) → All P xs → All P (take n xs)
  All-take zero xs a = tt
  All-take (suc n) [] a = tt
  All-take (suc n) (x ∷ xs) a = (a.0, All-take n xs a.1)

  pub All-drop : (n : ℕ) (xs : List A) → All P xs → All P (drop n xs)
  All-drop zero xs a = a
  All-drop (suc n) [] a = tt
  All-drop (suc n) (x ∷ xs) a = All-drop n xs a.1

  kept_if :
      (b : Bool) (x : A) (xs : List A) (p : A → Bool)
      → p x ≡ b
      → P x
      → All (λ y. P y × (p y ≡ true)) xs
      → All (λ y. P y × (p y ≡ true)) (if b then x ∷ xs else xs)
  kept_if true x xs p e h a = ((h, e), a)
  kept_if false x xs p e h a = a

  -- What is kept has what all had, and passes the test.
  pub All-kept : (p : A → Bool) (xs : List A) → All P xs → All (λ x. P x × (p x ≡ true)) (keep p xs)
  All-kept p [] a = tt
  All-kept p (x ∷ xs) a = kept_if (p x) x (keep p xs) p refl a.0 (All-kept p xs a.1)
