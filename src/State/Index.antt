-- ===== src/State/Index.antt =====
-- The index of idempotency keys always leads to a payment with the key.
use ptrans.Prelude.{
  String, ◌≡◌, refl, sym, ap, ◌∙◌, Bool, true, false, Option, none, some, List, [], ◌∷◌, str_eq,
  str_eq→eq, inl, inr, Bool-cases, Option-cases, eq_of_some,
}
use ptrans.Prelude.Assoc.{get, put, get-put_same, get-put_other}
use ptrans.Domain.Errors.{Result, ok, err, Time}
use ptrans.Domain.Payment.{Payment}
use ptrans.Domain.Outbox.{
  EventType, payment_created, payment_cancelled, subscription_created, subscription_activated,
  subscription_deactivated, refund_event, unknown_event, PaymentCreatedPayload,
  PaymentCancelledPayload,
}
use ptrans.Domain.Event.{
  Event, WebhookSubscriptionCreatedPayload, WebhookSubscriptionActivatedPayload,
  WebhookSubscriptionDeactivatedPayload,
}
use ptrans.Domain.Webhook.{WebhookSubscription}
use mathlib.Core.Path.{subst}
use ptrans.State.{
  Store, new_store, Payloads, get_payment, get_payment_by_idempotency_key, payment_of, index_key,
  add_payment, apply_payment_created, set_cancelled, apply_payment_cancelled, add_subscription,
  apply_subscription_created, set_flag, apply_subscription_activated,
  apply_subscription_deactivated, apply_as, apply,
}

-- A store is left as it was by an event that is refused.
abbrev pub kept : Store → Result Store → Store
kept s (ok s') = s'
kept s (err e) = s

unfoldable pub run : Payloads → Store → List Event → Store
run k s [] = s
run k s (e ∷ es) = run k (kept s (apply k s e)) es

abbrev Table : Type 0
Table = List (String × Payment)

record IsKeyed (ps : Table) (key id : String) : Type 0 where
  pub payment : Payment
  pub found : get id ps ≡ some payment
  pub same_key : payment.idempotency_key ≡ key
  pub same_id : payment.id ≡ id

abbrev IsIndexed : Store → Type 0
IsIndexed s = (key id : String) → get key s.idempotency_index ≡ some id → IsKeyed s.payments key id

clash : {C : Type 0} {p : Payment} → none ≡ some p → C
clash h = cc

module _ (ps : Table) (key id : String) (w : IsKeyed ps key id) where
  other_id : (new : String) → get new ps ≡ none → str_eq new id ≡ false
  other_id new h = elim (Bool-cases (str_eq new id)) [
    | inl e ↦ clash (sym h ∙ ap (λ i. get i ps) (str_eq→eq new id e) ∙ w.found)
    | inr e ↦ e
  ]

  -- An entry that is new leaves the others.
  put_new : (new : String) (p : Payment) → get new ps ≡ none → IsKeyed (put new p ps) key id
  put_new new p h = record {
    payment = w.payment;
    found = get-put_other new id p ps (other_id new h) ∙ w.found;
    same_key = w.same_key;
    same_id = w.same_id;
  }

  -- An entry that is replaced keeps its key.
  put_again :
      (old : String) (p q : Payment)
      → get old ps ≡ some q
      → p.idempotency_key ≡ q.idempotency_key
      → p.id ≡ q.id
      → IsKeyed (put old p ps) key id
  put_again old p q h same_key same_id = elim (Bool-cases (str_eq old id)) [
    | inr e ↦ record {
      payment = w.payment;
      found = get-put_other old id p ps e ∙ w.found;
      same_key = w.same_key;
      same_id = w.same_id;
    }
    | inl e ↦
        let same : w.payment ≡ q =
          eq_of_some (sym w.found ∙ ap (λ i. get i ps) (sym (str_eq→eq old id e)) ∙ h) in
        record {
          payment = p;
          found = ap (λ i. get i (put old p ps)) (sym (str_eq→eq old id e)) ∙ get-put_same old p ps;
          same_key = same_key ∙ ap (λ r. r.idempotency_key) (sym same) ∙ w.same_key;
          same_id = same_id ∙ ap (λ r. r.id) (sym same) ∙ w.same_id;
        }
  ]

entry-IsKeyed :
    (ps : Table) (p : PaymentCreatedPayload) (id : String)
    → some p.id ≡ some id
    → IsKeyed (put p.id (payment_of p) ps) p.idempotency_key id
entry-IsKeyed ps p id h = record {
  payment = payment_of p;
  found =
      ap (λ i. get i (put p.id (payment_of p) ps)) (sym (eq_of_some h))
      ∙ get-put_same p.id (payment_of p) ps;
  same_key = refl;
  same_id = eq_of_some h;
}

module _ (s : Store) (indexed : IsIndexed s) where
  created-IsKeyed :
      (p : PaymentCreatedPayload) (key id : String)
      → get p.id s.payments ≡ none
      → get key (index_key p s.idempotency_index) ≡ some id
      → IsKeyed (put p.id (payment_of p) s.payments) key id
  unfolding index_key
  created-IsKeyed p key id fresh h = elim (Bool-cases (str_eq p.idempotency_key "")) [
    | inl e ↦ put_new s.payments key id (indexed key id (rw e at h)) p.id (payment_of p) fresh
    | inr e ↦ elim (Bool-cases (str_eq p.idempotency_key key)) [
      | inl f ↦
          subst (λ k. IsKeyed (put p.id (payment_of p) s.payments) k id)
            (str_eq→eq p.idempotency_key key f)
            (entry-IsKeyed s.payments p id (
              sym (get-put_same p.idempotency_key p.id s.idempotency_index)
              ∙ ap (λ k. get k (put p.idempotency_key p.id s.idempotency_index))
                  (str_eq→eq p.idempotency_key key f)
              ∙ (rw e at h)))
      | inr f ↦
          put_new s.payments key id
            (indexed key id
              (sym (get-put_other p.idempotency_key key p.id s.idempotency_index f) ∙ (rw e at h)))
            p.id (payment_of p) fresh
    ]
  ]

  created-IsIndexed :
      (o : Option PaymentCreatedPayload) → IsIndexed (kept s (apply_payment_created s o))
  unfolding apply_payment_created add_payment
  created-IsIndexed none = indexed
  created-IsIndexed (some p) = elim (Option-cases (get p.id s.payments)) [
    | inl e ↦ rw e (λ key id h. created-IsKeyed p key id e h)
    | inr (q, e) ↦ rw e indexed
  ]

  cancelled-IsIndexed :
      (o : Option PaymentCancelledPayload) → IsIndexed (kept s (apply_payment_cancelled s o))
  unfolding apply_payment_cancelled set_cancelled
  cancelled-IsIndexed none = indexed
  cancelled-IsIndexed (some p) = elim (Option-cases (get p.id s.payments)) [
    | inl e ↦ rw e indexed
    | inr (q, e) ↦
        rw e (λ key id h. put_again s.payments key id (indexed key id h) p.id _ q e refl refl)
  ]

  flag-IsIndexed :
      (id : String) (flag : Bool) (now : Time) (o : Option WebhookSubscription)
      → IsIndexed (kept s (set_flag s id flag now o))
  unfolding set_flag
  flag-IsIndexed id flag now none = indexed
  flag-IsIndexed id flag now (some w) = indexed

  subscribed-IsIndexed :
      (p : WebhookSubscriptionCreatedPayload) (o : Option WebhookSubscription)
      → IsIndexed (kept s (add_subscription s p o))
  unfolding add_subscription
  subscribed-IsIndexed p none = indexed
  subscribed-IsIndexed p (some w) = indexed

  subscription-IsIndexed :
      (o : Option WebhookSubscriptionCreatedPayload)
      → IsIndexed (kept s (apply_subscription_created s o))
  unfolding apply_subscription_created
  subscription-IsIndexed none = indexed
  subscription-IsIndexed (some p) = subscribed-IsIndexed p (get p.id s.subscriptions)

  activated-IsIndexed :
      (o : Option WebhookSubscriptionActivatedPayload)
      → IsIndexed (kept s (apply_subscription_activated s o))
  unfolding apply_subscription_activated
  activated-IsIndexed none = indexed
  activated-IsIndexed (some p) = flag-IsIndexed p.id true p.activated_at (get p.id s.subscriptions)

  deactivated-IsIndexed :
      (o : Option WebhookSubscriptionDeactivatedPayload)
      → IsIndexed (kept s (apply_subscription_deactivated s o))
  unfolding apply_subscription_deactivated
  deactivated-IsIndexed none = indexed
  deactivated-IsIndexed (some p) =
      flag-IsIndexed p.id false p.deactivated_at (get p.id s.subscriptions)

  apply_as-IsIndexed :
      (k : Payloads) (t : EventType) (raw : String) → IsIndexed (kept s (apply_as k s t raw))
  unfolding apply_as
  apply_as-IsIndexed k payment_created raw = created-IsIndexed (k.created raw)
  apply_as-IsIndexed k payment_cancelled raw = cancelled-IsIndexed (k.cancelled raw)
  apply_as-IsIndexed k subscription_created raw = subscription-IsIndexed (k.subscribed raw)
  apply_as-IsIndexed k subscription_activated raw = activated-IsIndexed (k.activated raw)
  apply_as-IsIndexed k subscription_deactivated raw = deactivated-IsIndexed (k.deactivated raw)
  apply_as-IsIndexed k (refund_event n) raw = indexed
  apply_as-IsIndexed k (unknown_event n) raw = indexed

run-IsIndexed : (k : Payloads) (s : Store) (es : List Event) → IsIndexed s → IsIndexed (run k s es)
unfolding run apply
run-IsIndexed k s [] ix = ix
run-IsIndexed k s (e ∷ es) ix =
    run-IsIndexed k (kept s (apply k s e)) es (apply_as-IsIndexed s ix k e.event_type e.payload)

no_entry : {C : Type 0} {v : String} → none ≡ some v → C
no_entry h = cc

empty-IsIndexed : IsIndexed new_store
unfolding new_store get
empty-IsIndexed key id h = no_entry h

-- In a store built from the empty one by any events, refused ones included, a key of the index
-- leads to a payment that has this key and is found by its own id.
pub run-by_key :
    (k : Payloads) (es : List Event) (key id : String)
    → get key (run k new_store es).idempotency_index ≡ some id
    → (p : Payment) × (get_payment_by_idempotency_key (run k new_store es) key ≡ some p)
      × (p.idempotency_key ≡ key)
      × (get_payment (run k new_store es) p.id ≡ some p)
unfolding get_payment get_payment_by_idempotency_key
run-by_key k es key id h =
    let w = run-IsIndexed k new_store es empty-IsIndexed key id h in
    (w.payment, rw h w.found, w.same_key, rw w.same_id w.found)
