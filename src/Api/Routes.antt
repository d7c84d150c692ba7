-- ===== src/Api/Routes.antt =====
-- `NewRouter`, `registerRefunds`, the health checks and `withCORS` of internal/httpapi. Matching
-- of paths and the log are net/http and log/slog; the two CORS headers are constants.
use ptrans.Prelude.{String, Bool, true, false, Option, none, some}
use ptrans.Prelude.Int.{ℤ}
use ptrans.Domain.Errors.{Time}
use ptrans.Services.Payments.{PaymentRepository}
use ptrans.Services.Webhooks.{WebhookRepository, Url}
use ptrans.Api.{
  health_body, empty_body, unavailable_body, Response, Handler, write_json, write_error, Decoded,
}
use ptrans.Api.Guards.{RateLimiter, require_user, with_rate_limit}
use ptrans.Api.Payments.{
  CreatePaymentRequest, handle_create_payment, handle_list_payments, handle_get_payment,
  handle_cancel_payment,
}
use ptrans.Api.Webhooks.{
  CreateSubscriptionRequest, SetSubscriptionActiveRequest, handle_list_subscriptions,
  handle_create_subscription, handle_get_subscription, handle_patch_subscription,
}
use ptrans.Api.Refunds.{
  RefundService, CreateRefundRequest, RefundQuery, handle_create_refund, handle_get_refund,
  handle_list_refunds, handle_list_reconciliations, handle_refund_recheck,
}

-- `ping` is the answer of the health checker, where there is one.
pub record Api : Type 0 where
  pub authenticate : Option (String → Option String)
  pub limiter : Option RateLimiter
  pub payments : PaymentRepository
  pub webhooks : WebhookRepository
  pub refunds : Option RefundService
  pub hash_of : ℤ → String → String
  pub parse_url : String → Option Url
  pub ping : Option Bool

-- The endpoints that need a user, with their parameters, headers and bodies; `new` is the id that
-- the service would make.
pub data Endpoint : Type 0 where
  list_payments : String → String → String → Endpoint
  create_payment : Decoded CreatePaymentRequest → String → String → Endpoint
  get_payment : String → Endpoint
  cancel_payment : String → Endpoint
  list_subscriptions : Endpoint
  create_subscription : Decoded CreateSubscriptionRequest → String → Endpoint
  get_subscription : String → Endpoint
  patch_subscription : Decoded SetSubscriptionActiveRequest → String → Endpoint

pub data RefundEndpoint : Type 0 where
  create_refund : Decoded CreateRefundRequest → String → RefundEndpoint
  list_refunds : RefundQuery → RefundEndpoint
  get_refund : String → RefundEndpoint
  list_reconciliations : String → String → String → RefundEndpoint
  recheck_refund : String → RefundEndpoint

pub data Route : Type 0 where
  preflight live ready : Route
  protected : Endpoint → Route
  refund_route : RefundEndpoint → Route

unfoldable pub handle_ready : Option Bool → Response
unfolding write_json
handle_ready none = write_json 200 (health_body "ok")
handle_ready (some true) = write_json 200 (health_body "ok")
handle_ready (some false) = write_json 503 (unavailable_body "database ping failed")

module _ (a : Api) (now : Time) where
  abbrev pub limited : String → String → Handler → Handler
  limited scope user next = with_rate_limit a.limiter scope user now next

  unfoldable pub serve_user : Endpoint → String → Handler
  unfolding handle_create_payment handle_list_payments handle_get_payment handle_cancel_payment
      handle_list_subscriptions handle_create_subscription handle_get_subscription
      handle_patch_subscription
  serve_user (list_payments page size status) user =
      handle_list_payments a.hash_of a.payments page size status user
  serve_user (create_payment body key new) user =
      limited "payments:create" user
        (handle_create_payment a.hash_of a.payments body key user new now)
  serve_user (get_payment id) user = handle_get_payment a.hash_of a.payments id user
  serve_user (cancel_payment id) user =
      limited "payments:cancel" user (handle_cancel_payment a.hash_of a.payments id user now)
  serve_user list_subscriptions user = handle_list_subscriptions a.parse_url a.webhooks user
  serve_user (create_subscription body new) user =
      limited "webhooks:create" user
        (handle_create_subscription a.parse_url a.webhooks body user new now)
  serve_user (get_subscription id) user = handle_get_subscription a.parse_url a.webhooks id user
  serve_user (patch_subscription body id) user =
      limited "webhooks:update" user
        (handle_patch_subscription a.parse_url a.webhooks body id user now)

  unfoldable pub serve_refund : RefundService → RefundEndpoint → String → Handler
  unfolding handle_create_refund handle_get_refund handle_list_refunds handle_list_reconciliations
      handle_refund_recheck
  serve_refund service (create_refund body key) user =
      limited "refunds:create" user (handle_create_refund service body key user)
  serve_refund service (list_refunds q) user = handle_list_refunds service q user
  serve_refund service (get_refund id) user = handle_get_refund service id user
  serve_refund service (list_reconciliations id page size) user =
      handle_list_reconciliations service id page size user
  serve_refund service (recheck_refund id) user =
      limited "refunds:recheck" user (handle_refund_recheck service id user)

  -- Without a service of refunds their paths do not exist.
  unfoldable pub route_refund : Option RefundService → String → RefundEndpoint → Handler
  unfolding serve_refund
  route_refund none authorization e s = (write_error 404 "404 page not found", s)
  route_refund (some service) authorization e s =
      require_user a.authenticate authorization (serve_refund service e) s

  unfoldable pub serve : String → Route → Handler
  unfolding serve_user route_refund handle_ready
  serve authorization preflight s = (write_json 204 empty_body, s)
  serve authorization live s = (write_json 200 (health_body "ok"), s)
  serve authorization ready s = (handle_ready a.ping, s)
  serve authorization (protected e) s = require_user a.authenticate authorization (serve_user e) s
  serve authorization (refund_route e) s = route_refund a.refunds authorization e s
