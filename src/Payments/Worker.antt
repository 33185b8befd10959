-- ===== src/Payments/Worker.antt =====
-- internal/payments/worker.go: the activation of subscriptions and the dispatch of the outbox.
-- The loop body of Dispatch returns no error, so it is a program without one.
pub mod Dispatching
pub mod Activating
use edn_core.Prelude.{Bool, true, false, not, Option, none, some, List, [], ◌∷◌, ℕ, if◌then◌else◌}
use edn_core.Text.{Text, lit, ◌=?◌}
use edn_core.Checkout.{
  Time, Order, Subscription, SubscriptionStatus, active, pending_activation, OutboxEvent,
}
use edn_core.Errors.{Result, ok, err}
use edn_core.Runtime.{Runtime}
use edn_core.Payments.{PaymentApprovedEvent}
use edn_core.Effects.{
  Prog, ret, get_by_origin_order_nsu, get_by_nsu, create_subscription, activate_subscription,
  invalidate_order_status, fetch_unpublished, mark_published, publish_payment_approved, time_now,
  new_uuid, bind, attempt, ask, wrap, success, ◌>>=◌, ◌>>◌,
}

abbrev pub is_active : SubscriptionStatus → Bool
is_active active = true
is_active _ = false

-- `existing`, which is nil when the lookup failed.
abbrev pub existing_of : Result (Option Subscription) → Option Subscription
existing_of (ok existing) = existing
existing_of (err _) = none

abbrev pub already_active : Option Subscription → Bool
already_active none = false
already_active (some subscription) = is_active subscription.status

module _ (rt : Runtime) where
  -- calculateEndsAt
  unfoldable pub calculate_ends_at : Time → Text → Time
  calculate_ends_at from billing_cycle =
      if billing_cycle =? lit "annual"
      then rt.add_date from 1 0 0
      else if billing_cycle =? lit "monthly"
      then rt.add_date from 0 1 0
      else rt.add_date from 0 1 0

  abbrev new_subscription : PaymentApprovedEvent → Order → Text → Time → Subscription
  new_subscription event order subscription_id now = record {
    subscription_id = subscription_id;
    customer_email = order.customer_email;
    plan_id = order.plan_id;
    plan_slug = order.plan_slug;
    status = pending_activation;
    origin_order_nsu = event.order_nsu;
    starts_at = now;
    ends_at = calculate_ends_at now order.billing_cycle;
    created_at = now;
    updated_at = now;
  }

  -- A subscription that another delivery created in between is left to the activation.
  unfoldable pub create_missing :
      PaymentApprovedEvent → Order → Time → Option Subscription → Prog (Result (Unit {0}))
  create_missing event order now (some existing) = success tt
  create_missing event order now none = do
    subscription_id ← attempt (ask new_uuid)
    attempt (ask (create_subscription (new_subscription event order subscription_id now)))
    success tt

  unfoldable pub activate_inactive :
      PaymentApprovedEvent → Option Subscription → Prog (Result (Unit {0}))
  unfolding create_missing
  activate_inactive event existing = do
    order ← wrap (ask (get_by_nsu event.order_nsu))
    now ← attempt (ask time_now)
    create_missing event order now existing
    wrap (
        ask (
          activate_subscription event.order_nsu now (calculate_ends_at now order.billing_cycle)
            now))
    attempt (ask (invalidate_order_status event.order_nsu))
    success tt

  -- ActivationService.Activate
  unfoldable pub activate : PaymentApprovedEvent → Prog (Result (Unit {0}))
  unfolding activate_inactive
  activate event = do
    found ← attempt (ask (get_by_origin_order_nsu event.order_nsu))
    if already_active (existing_of found)
        then success tt
        else activate_inactive event (existing_of found)

  unfoldable pub publish_decoded : OutboxEvent → Option PaymentApprovedEvent → Prog (Unit {0})
  publish_decoded event none = ret tt
  publish_decoded event (some approved) =
      bind (ask (publish_payment_approved approved)) (λ published. elim published [
        | err _ ↦ ret tt
        | ok _ ↦
            bind (ask time_now)
              (λ now. bind (ask (mark_published event.event_id now)) (λ _. ret tt))
      ])

  -- The body of Dispatch's loop.
  unfoldable pub dispatch_one : OutboxEvent → Prog (Unit {0})
  unfolding publish_decoded
  dispatch_one event =
      if not (event.event_type =? lit "payment.approved")
      then ret tt
      else publish_decoded event (rt.decode_event event.payload)

  unfoldable pub dispatch_all : List OutboxEvent → Prog (Result (Unit {0}))
  dispatch_all [] = success tt
  dispatch_all (event ∷ events) = bind (dispatch_one event) (λ _. dispatch_all events)

  -- OutboxDispatcher.Dispatch
  unfoldable pub dispatch : ℕ → Prog (Result (Unit {0}))
  dispatch batch_size = do events ← wrap (ask (fetch_unpublished batch_size)); dispatch_all events
