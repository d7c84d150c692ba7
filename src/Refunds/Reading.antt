-- ===== src/Refunds/Reading.antt =====
-- `Get`, `List`, `Reconciliations` and `Recheck` of internal/refunds/service.go over the store.
use mathlib.Core.Path.{subst}
use ptrans.Prelude.{
  str_eq, String, ◌≡◌, ◌≤◌, refl, Bool, true, Option, none, some, List, [], ◌∷◌, arith, All,
  All-take, All-drop, All-map, ◌⊎◌, ◌||◌, ap, sym, str_eq→eq, keep, take, drop, length,
  length-take-le, inl, inr, Bool-cases,
}
use ptrans.Prelude.Int.{ℤ, pos_part}
use ptrans.Domain.Errors.{Error, ok, err, Time}
use ptrans.Domain.Refund.{Refund, RefundStatus, status_eq, ReconciliationResult}
use ptrans.Storage.Schema.{Store, Faults, Action, ◌>>=◌}
use ptrans.Storage.Refunds.Queries.{
  get_refund, list_refunds, list_reconciliations, selects, page_of, status_passes,
}
use ptrans.Storage.Refunds.Settle.{request_refund_recheck}
use ptrans.Refunds.Service.{ListFilter, filter_error, page_error}

unfoldable pub get : Faults → String → String → Action Refund
get io user id = get_refund io user id

unfoldable pub recheck : Faults → String → String → Time → Action Refund
recheck io user id now = request_refund_recheck io user id now

-- An error of the tests comes before the store is asked.
abbrev pub unless : {A : Type 0} → Option Error → Action A → Action A
unless none k s = k s
unless (some e) k s = (err e, s)

unfoldable pub list :
    (List Refund → List Refund) → Faults → String → ListFilter → Action (List Refund)
unfolding filter_error list_refunds
list by_created io user f = unless (filter_error f) (list_refunds by_created io user f)

unfoldable pub reconciliations :
    (List ReconciliationResult → List ReconciliationResult)
    → Faults
    → String
    → String
    → ℤ
    → ℤ
    → Action (List ReconciliationResult)
unfolding page_error list_reconciliations
reconciliations by_checked io user id limit offset =
    unless (page_error limit offset) (list_reconciliations by_checked io user id limit offset)

status_eq→eq : (s t : RefundStatus) → status_eq s t ≡ true → s ≡ t
status_eq→eq RefundStatus.pending RefundStatus.pending h = refl
status_eq→eq RefundStatus.processing RefundStatus.processing h = refl
status_eq→eq RefundStatus.succeeded RefundStatus.succeeded h = refl
status_eq→eq RefundStatus.failed RefundStatus.failed h = refl
status_eq→eq (RefundStatus.invalid a) (RefundStatus.invalid b) h =
    ap RefundStatus.invalid (str_eq→eq a b h)
status_eq→eq s t h = cc

keep-All : (p : Refund → Bool) (rs : List Refund) → All (λ r. p r ≡ true) (keep p rs)
keep-All p [] = tt
keep-All p (r ∷ rs) = elim (Bool-cases (p r)) [
  | inl c ↦ rw c (c, keep-All p rs)
  | inr c ↦ rw c (keep-All p rs)
]

-- A refund of the user that passes the filter.
pub record IsAskedFor (user : String) (f : ListFilter) (r : Refund) : Type 0 where
  pub own : r.user_id ≡ user
  pub of_payment : (f.payment_id ≡ "") ⊎ (r.payment_id ≡ f.payment_id)
  pub in_status : (f.status ≡ none) ⊎ (f.status ≡ some r.status)
  pub reviewed : f.manual_review ≡ true → r.manual_review ≡ true

passed_status :
    (o : Option RefundStatus) (r : Refund)
    → status_passes o r ≡ true
    → (o ≡ none) ⊎ (o ≡ some r.status)
passed_status none r h = inl refl
passed_status (some s) r h = inr (ap some (sym (status_eq→eq r.status s h)))

passed_payment :
    (asked own : String)
    → (str_eq asked "" || str_eq own asked) ≡ true
    → (asked ≡ "") ⊎ (own ≡ asked)
passed_payment asked own h = elim (Bool-cases (str_eq asked "")) [
  | inl e ↦ inl (str_eq→eq asked "" e)
  | inr e ↦ inr (str_eq→eq own asked (rw e at h))
]

selects-IsAskedFor :
    (user : String) (f : ListFilter) (r : Refund) → selects user f r ≡ true → IsAskedFor user f r
unfolding selects
selects-IsAskedFor user f r h = record {
  own = ground (arith, str_eq→eq r.user_id user);
  of_payment = passed_payment f.payment_id r.payment_id (ground (arith, h));
  in_status = passed_status f.status r (ground (arith, h));
  reviewed = ground arith;
}

-- What a page holds.
pub record IsPage (user : String) (f : ListFilter) (rows : List Refund) : Type 0 where
  pub selected : All (IsAskedFor user f) rows
  pub small : length rows ≤ 100

page_small : (f : ListFilter) → filter_error f ≡ none → pos_part f.limit ≤ 100
unfolding filter_error page_error
page_small f h = ground arith

listed :
    (by_created : List Refund → List Refund) (io : Faults) (user : String) (f : ListFilter)
    (s s' : Store) (rows : List Refund)
    → list_refunds by_created io user f s ≡ (ok rows, s')
    → (take
          (pos_part f.limit)
          (drop (pos_part f.offset) (by_created (keep (selects user f) s.db.refunds)))
        ≡ rows)
      × (s' ≡ s)
unfolding list_refunds page_of ◌>>=◌
listed by_created io user f s s' rows h = ground arith

allowed :
    {A : Type 0} (o : Option Error) (k : Action A) (s s' : Store) (a : A)
    → unless o k s ≡ (ok a, s')
    → (o ≡ none) × (k s ≡ (ok a, s'))
allowed none k s s' a h = (refl, h)
allowed (some e) k s s' a h = cc

-- A list that is given out changes nothing, has at most 100 rows, and each of them is a refund of
-- the user that asked and passes the filter. The order of the query must only add no row.
pub list-IsPage :
    (by_created : List Refund → List Refund) (io : Faults) (user : String) (f : ListFilter)
    (s s' : Store) (rows : List Refund)
    → ((P : Refund → Type 0) (rs : List Refund) → All P rs → All P (by_created rs))
    → list by_created io user f s ≡ (ok rows, s')
    → IsPage user f rows × (s' ≡ s)
unfolding list
list-IsPage by_created io user f s s' rows law h =
    let (tested, run) = allowed (filter_error f) _ s s' rows h in
    let (page, same) = listed by_created io user f s s' rows run in
    let found = drop (pos_part f.offset) (by_created (keep (selects user f) s.db.refunds)) in
    (
      record {
        selected = subst (All (IsAskedFor user f)) page (
            All-take _ _ _ (
              All-drop _ _ _ (
                law _ _ (
                  All-map _ _ _ (selects-IsAskedFor user f)
                    (keep-All (selects user f) s.db.refunds)))));
        small =
            subst (λ rs. length rs ≤ 100) page
              (omega (arith, length-take-le (pos_part f.limit) found, page_small f tested));
      },
      same,
    )
