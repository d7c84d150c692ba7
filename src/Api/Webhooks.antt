-- ===== src/Api/Webhooks.antt =====
-- The handlers of webhook subscriptions in internal/httpapi/router.go.
use ptrans.Prelude.{ℕ, String, Bool, true, Option, none, some, List}
use ptrans.Domain.Errors.{Time}
use ptrans.Domain.Webhook.{WebhookSubscription}
use ptrans.Storage.Schema.{after}
use ptrans.Services.Webhooks.{
  WebhookRepository, Url, create_subscription, get_subscription, list_subscriptions,
  set_subscription_active,
}
use ptrans.Api.{
  subscription_items, subscription_body, Response, Handler, write_json, write_error, answer,
  Decoded, decoded, undecodable,
}

-- `none` is a field that the body does not have.
pub record CreateSubscriptionRequest : Type 0 where
  pub url : String
  pub active : Option Bool

pub record SetSubscriptionActiveRequest : Type 0 where
  pub active : Option Bool

unfoldable pub reply_subscription : ℕ → WebhookSubscription → Response
unfolding write_json
reply_subscription status w = write_json status (subscription_body w)

unfoldable pub reply_subscriptions : List WebhookSubscription → Response
unfolding write_json
reply_subscriptions ws = write_json 200 (subscription_items ws)

abbrev pub active_or_true : Option Bool → Bool
active_or_true none = true
active_or_true (some b) = b

module _ (parse_url : String → Option Url) (repo : WebhookRepository) where
  unfoldable pub handle_list_subscriptions : String → Handler
  unfolding reply_subscriptions answer
  handle_list_subscriptions user s =
      answer reply_subscriptions (list_subscriptions parse_url repo user s)

  unfoldable pub handle_create_subscription :
      Decoded CreateSubscriptionRequest → String → String → Time → Handler
  unfolding reply_subscription answer write_error
  handle_create_subscription (undecodable e) user id now s = (write_error 400 e, s)
  handle_create_subscription (decoded q) user id now s = answer (reply_subscription 201) (
      create_subscription parse_url repo
        (record { user_id = user; url = q.url; active = active_or_true q.active }) id now s)

  unfoldable pub handle_get_subscription : String → String → Handler
  unfolding reply_subscription answer
  handle_get_subscription id user s =
      answer (reply_subscription 200) (get_subscription parse_url repo user id s)

  unfoldable pub patch_active : Option Bool → String → String → Time → Handler
  unfolding reply_subscription answer write_error
  patch_active none id user now s = (write_error 400 "field active is required", s)
  patch_active (some active) id user now s = answer (reply_subscription 200) (
      after (set_subscription_active parse_url repo user id active now)
        (λ _. get_subscription parse_url repo user id) s)

  unfoldable pub handle_patch_subscription :
      Decoded SetSubscriptionActiveRequest → String → String → Time → Handler
  unfolding patch_active
  handle_patch_subscription (undecodable e) id user now s = (write_error 400 e, s)
  handle_patch_subscription (decoded q) id user now s = patch_active q.active id user now s
