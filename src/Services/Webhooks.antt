-- ===== src/Services/Webhooks.antt =====
-- internal/service/webhook_service.go.
use ptrans.Prelude.{String, Bool, ◌&&◌, not, Option, none, some, List, str_eq, if◌then◌else◌}
use ptrans.Prelude.Text.{trim_space}
use ptrans.Domain.Errors.{Result, ok, err, Time, invalid_webhook_url}
use ptrans.Domain.Webhook.{WebhookSubscription}
use ptrans.Storage.Schema.{Action}
use ptrans.Services.Payments.{checked, user_error}

pub record WebhookRepository : Type 0 where
  pub create : String → WebhookSubscription → Action WebhookSubscription
  pub items : String → Action (List WebhookSubscription)
  pub find : String → String → Action WebhookSubscription
  pub activate : String → String → Bool → Time → Action Unit

-- What `url.Parse` gives; `text` is its `String()`.
pub record Url : Type 0 where
  pub scheme : String
  pub host : String
  pub text : String

unfoldable pub accept_url : Option Url → Result String
accept_url none = err invalid_webhook_url
accept_url (some u) =
    if not (str_eq u.scheme "http") && not (str_eq u.scheme "https")
    then err invalid_webhook_url
    else if str_eq u.host ""
    then err invalid_webhook_url
    else ok u.text

pub record CreateWebhookSubscriptionInput : Type 0 where
  pub user_id : String
  pub url : String
  pub active : Bool

unfoldable pub subscription_from : String → Bool → String → Time → WebhookSubscription
subscription_from url active id now = record {
  id = id;
  url = url;
  active = active;
  create_at = now;
  updated_at = now;
}

module _ (parse_url : String → Option Url) (repo : WebhookRepository) where
  unfoldable pub normalize_webhook_url : String → Result String
  unfolding accept_url
  normalize_webhook_url raw = accept_url (parse_url (trim_space raw))

  unfoldable pub create_from :
      CreateWebhookSubscriptionInput → String → Time → Result String → Action WebhookSubscription
  unfolding subscription_from
  create_from i id now (ok url) s = repo.create i.user_id (subscription_from url i.active id now) s
  create_from i id now (err e) s = (err e, s)

  unfoldable pub create_subscription :
      CreateWebhookSubscriptionInput → String → Time → Action WebhookSubscription
  unfolding create_from normalize_webhook_url user_error
  create_subscription i id now =
      checked (user_error i.user_id) (create_from i id now (normalize_webhook_url i.url))

  unfoldable pub list_subscriptions : String → Action (List WebhookSubscription)
  unfolding user_error
  list_subscriptions user = checked (user_error user) (repo.items user)

  unfoldable pub get_subscription : String → String → Action WebhookSubscription
  unfolding user_error
  get_subscription user id = checked (user_error user) (repo.find user id)

  unfoldable pub set_subscription_active : String → String → Bool → Time → Action Unit
  unfolding user_error
  set_subscription_active user id active now =
      checked (user_error user) (repo.activate user id active now)
