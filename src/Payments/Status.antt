-- ===== src/Payments/Status.antt =====
-- OrderStatusService of internal/payments/service.go: the status of an order, the public tracking
-- by intent key and the search by document. A subscription status that is not set is `none`.
pub mod Safety
use edn_core.Prelude.{Bool, true, false, not, ◌&&◌, Option, none, some, List, map, if◌then◌else◌}
use edn_core.Text.{Text, lit, is_empty, trim_space}
use edn_core.Checkout.{
  Time, is_zero, after, Order, OrderStatus, paid, Subscription, SubscriptionStatus,
}
use edn_core.Errors.{Error, Result, ok, err}
use edn_core.Payments.{OrderStatusResponse, TrackCheckoutResponse, AdminOrderSummary}
use edn_core.Payments.Helpers.{validate_order_nsu}
use edn_core.Payments.Session.{is_blank, is_resumable_status}
use edn_core.Effects.{
  Prog, ret, get_by_origin_order_nsu, get_by_nsu, find_by_intent_key, find_by_customer_document,
  time_now, attempt, ask, wrap, success, ◌>>=◌, ◌>>◌,
}

abbrev subscription_status_of : Result (Option Subscription) → Option SubscriptionStatus
subscription_status_of (ok (some subscription)) = some subscription.status
subscription_status_of _ = none

abbrev status_response : Order → Result (Option Subscription) → OrderStatusResponse
status_response order subscription = record {
  order_nsu = order.order_nsu;
  status = order.status;
  subscription_status = subscription_status_of subscription;
  receipt_url = order.receipt_url;
  plan_slug = order.plan_slug;
}

-- OrderStatusService.GetStatus
unfoldable pub get_status : Text → Prog (Result OrderStatusResponse)
get_status order_nsu = do
  ret (validate_order_nsu order_nsu)
  order ← wrap (ask (get_by_nsu order_nsu))
  subscription ← attempt (ask (get_by_origin_order_nsu order_nsu))
  success (status_response order subscription)

abbrev is_paid : OrderStatus → Bool
is_paid paid = true
is_paid _ = false

-- `effectivelyExpired`
abbrev effectively_expired : Order → Time → Bool
effectively_expired order now =
    not (is_zero order.expires_at) && after now order.expires_at && is_resumable_status order.status

unfoldable pub track_response : Order → Time → TrackCheckoutResponse
track_response order now =
    let resumable = is_resumable_status order.status && not (effectively_expired order now) in
    record {
      order_nsu = order.order_nsu;
      checkout_intent_key = order.checkout_intent_key;
      status = if effectively_expired order now then OrderStatus.expired else order.status;
      plan_slug = order.plan_slug;
      expires_at = order.expires_at;
      updated_at = order.updated_at;
      resumable = resumable;
      checkout_url =
          if resumable && not (is_empty (trim_space order.provider_checkout_url))
          then order.provider_checkout_url
          else lit "";
      receipt_url = if is_paid order.status then order.receipt_url else lit "";
    }

-- OrderStatusService.TrackByIntentKey
unfoldable pub track_by_intent_key : Text → Prog (Result TrackCheckoutResponse)
track_by_intent_key intent_key = do
  order ← ask (find_by_intent_key intent_key)
  now ← attempt (ask time_now)
  success (track_response order now)

unfoldable pub summary : Order → AdminOrderSummary
summary order = record {
  order_nsu = order.order_nsu;
  status = order.status;
  plan_slug = order.plan_slug;
  billing_cycle = order.billing_cycle;
  amount_cents = order.amount_cents;
  currency = order.currency;
  created_at = order.created_at;
  updated_at = order.updated_at;
  expires_at = if is_zero order.expires_at then none else some order.expires_at;
}

-- OrderStatusService.SearchByDocument
unfoldable pub search_by_document : Text → Prog (Result (List AdminOrderSummary))
search_by_document document = do
  orders ← wrap (ask (find_by_customer_document document))
  success (map summary orders)
