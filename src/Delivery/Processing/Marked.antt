-- ===== src/Delivery/Processing/Marked.antt =====
-- What `processEvent` can promise when the event ends as delivered.
use ptrans.Prelude.{String, ◌≡◌, true, false, List, All}
use ptrans.Domain.Errors.{Result, ok}
use ptrans.Domain.Outbox.{OutboxEvent}
use ptrans.Domain.Webhook.{WebhookSubscription}
use ptrans.Storage.Schema.{Db, Store, ◌>>◌}
use ptrans.Storage.Users.{derive_user_tables}
use ptrans.Prelude.Text.{trim_space}
use ptrans.Delivery.Processing.AtLeastOnce.{marked, reached}

-- The claim about one run: if the event was not marked before and is marked after, then each
-- active subscription of the list has been reached.
abbrev pub Fulfils : OutboxEvent → List WebhookSubscription → Store → Store → Type 0
Fulfils e subs s s' =
    marked e.id s.db.outbox ≡ false
    → marked e.id s'.db.outbox ≡ true
    → All (λ t. t.active ≡ true → reached e s' t ≡ true) subs

-- What `list_subscriptions` does: it reads the table of the user.
pub record Lists (found : List WebhookSubscription) (s : Store)
    (r : Result (List WebhookSubscription) × Store) : Type 0 where
  pub outbox : r.1.db.outbox ≡ s.db.outbox
  pub listed : (subs : List WebhookSubscription) → r.0 ≡ ok subs → subs ≡ found

module _ (sha256_hex : String → String) where
  abbrev pub subscriptions_of : Db → String → List WebhookSubscription
  subscriptions_of db user = db.webhooks (derive_user_tables sha256_hex (trim_space user)).webhooks
