-- ===== src/Domain/Webhook.antt =====
-- internal/domain/webhook_subscription.go.
use ptrans.Prelude.{String, Bool, true, false}
use ptrans.Domain.Errors.{Time}

pub record WebhookSubscription : Type 0 where
  pub id : String
  pub url : String
  pub active : Bool
  pub create_at : Time
  pub updated_at : Time

pub activate : WebhookSubscription → WebhookSubscription
activate s = record s { active = true }

pub deactivate : WebhookSubscription → WebhookSubscription
deactivate s = record s { active = false }

pub set_active : WebhookSubscription → Bool → WebhookSubscription
set_active s flag = record s { active = flag }
