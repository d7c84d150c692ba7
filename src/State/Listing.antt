-- ===== src/State/Listing.antt =====
-- The listings: the latest first, and each entry as often as in the store.
use ptrans.Prelude.{
  ℕ, suc, ◌≤◌, ◌≡◌, refl, ◌∙◌, Bool, true, false, List, [], ◌∷◌, All, All-map, arith, ltb,
  if◌then◌else◌, inl, inr, Bool-cases,
}
use ptrans.Prelude.Assoc.{values}
use ptrans.Domain.Errors.{Time}
use ptrans.Domain.Payment.{Payment}
use ptrans.Domain.Webhook.{WebhookSubscription}
use ptrans.State.{Store, insert_later, sort_later, list_payments, list_subscriptions}

module _ {ℓ} {A : Type ℓ} where
  abbrev pub count_of : (A → Bool) → List A → ℕ
  count_of test [] = 0
  count_of test (x ∷ xs) = let rest = count_of test xs in if test x then suc rest else rest

module _ {ℓ} {A : Type ℓ} (time : A → Time) where
  -- No element is later than one before it.
  abbrev pub AreLatestFirst : List A → Type 0
  AreLatestFirst [] = Unit
  AreLatestFirst (x ∷ xs) = All (λ y. time y ≤ time x) xs × AreLatestFirst xs

  All-insert :
      (P : A → Type 0) (x : A) (xs : List A) → P x → All P xs → All P (insert_later time x xs)
  unfolding insert_later
  All-insert P x [] h hs = (h, tt)
  All-insert P x (y ∷ ys) h hs = elim (Bool-cases (ltb (time x) (time y))) [
    | inl e ↦ rw e (hs.0, All-insert P x ys h hs.1)
    | inr e ↦ rw e (h, hs)
  ]

  not_later : (x y : A) → ltb (time x) (time y) ≡ false → time y ≤ time x
  not_later x y e = ground (arith, e)

  earlier : (x y : A) → ltb (time x) (time y) ≡ true → time x ≤ time y
  earlier x y e = ground (arith, e)

  below : (x y z : A) → time y ≤ time x → time z ≤ time y → time z ≤ time x
  below x y z a b = omega arith

  insert-latest :
      (x : A) (xs : List A) → AreLatestFirst xs → AreLatestFirst (insert_later time x xs)
  unfolding insert_later
  insert-latest x [] h = (tt, tt)
  insert-latest x (y ∷ ys) h = elim (Bool-cases (ltb (time x) (time y))) [
    | inl e ↦
        rw e (All-insert (λ z. time z ≤ time y) x ys (earlier x y e) h.0, insert-latest x ys h.1)
    | inr e ↦ rw e (
      (
        not_later x y e,
        All-map _ (λ z. time z ≤ time x) ys (λ z. below x y z (not_later x y e)) h.0,
      ),
      h,
    )
  ]

  sorted_latest : (xs : List A) → AreLatestFirst (sort_later time xs)
  unfolding sort_later
  sorted_latest [] = tt
  sorted_latest (x ∷ xs) = insert-latest x (sort_later time xs) (sorted_latest xs)

  swapped :
      (a b : Bool) (n : ℕ)
      → (if b then suc (if a then suc n else n) else (if a then suc n else n))
        ≡ (if a then suc (if b then suc n else n) else (if b then suc n else n))
  swapped true true n = refl
  swapped true false n = refl
  swapped false true n = refl
  swapped false false n = refl

  insert_count :
      (test : A → Bool) (x : A) (xs : List A)
      → count_of test (insert_later time x xs) ≡ count_of test (x ∷ xs)
  unfolding insert_later
  insert_count test x [] = refl
  insert_count test x (y ∷ ys) = elim (Bool-cases (ltb (time x) (time y))) [
    | inr e ↦ rw e refl
    | inl e ↦ rw (e, insert_count test x ys) (swapped (test x) (test y) (count_of test ys))
  ]

  sorted_count :
      (test : A → Bool) (xs : List A) → count_of test (sort_later time xs) ≡ count_of test xs
  unfolding sort_later
  sorted_count test [] = refl
  sorted_count test (x ∷ xs) =
      insert_count test x (sort_later time xs) ∙ rw (sorted_count test xs) refl

-- Both listings of a store are in order, the latest first, and hold each entry of their table
-- as often as the table does, by any test.
pub listings_sorted :
    (s : Store) (paid : Payment → Bool) (hooked : WebhookSubscription → Bool)
    → AreLatestFirst (λ (p : Payment). p.created_at) (list_payments s)
      × (count_of paid (list_payments s) ≡ count_of paid (values s.payments))
      × AreLatestFirst (λ (w : WebhookSubscription). w.create_at) (list_subscriptions s)
      × (count_of hooked (list_subscriptions s) ≡ count_of hooked (values s.subscriptions))
unfolding list_payments list_subscriptions
listings_sorted s paid hooked = (
  sorted_latest _ (values s.payments),
  sorted_count _ paid (values s.payments),
  sorted_latest _ (values s.subscriptions),
  sorted_count _ hooked (values s.subscriptions),
)
