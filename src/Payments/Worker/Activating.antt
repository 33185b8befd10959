-- ===== src/Payments/Worker/Activating.antt =====
-- What the activation writes, and why it may.
use edn_core.Prelude.{
  inr, ◌≡◌, ◌⊎◌, refl, Bool, true, false, Option, none, some, [], arith, if◌then◌else◌,
}
use edn_core.Text.{Text, lit, ◌=?◌}
use edn_core.Checkout.{Time, Order, Subscription, pending_activation}
use edn_core.Errors.{Result, ok, err}
use edn_core.Runtime.{Runtime}
use edn_core.Payments.{PaymentApprovedEvent}
use edn_core.Payments.Worker.{
  already_active, existing_of, calculate_ends_at, create_missing, activate_inactive, activate,
}
use edn_core.Effects.{
  Prog, ask, attempt, wrap, success, invalidate_order_status, ◌>>◌, Call, Reply,
  get_by_origin_order_nsu, get_by_nsu, create_subscription, activate_subscription, time_now,
  new_uuid,
}
use edn_core.Effects.Run.{Environment, run}
use edn_core.Effects.Monitor.{Monitor, Allowed, Trusted, Spec, Spec-sound, state}
use edn_core.Payments.Monitors.{Fetched}

-- What a run of the activation has read and done.
pub record Activation : Type 0 where
  pub existing : Option Subscription
  pub order : Option Order
  pub now : Option Time
  pub activated : Bool

abbrev activation_step : Activation → (c : Call) → Reply c → Activation
activation_step s (get_by_origin_order_nsu _) r = record s { existing = existing_of r }
activation_step s (get_by_nsu _) (ok order) = record s { order = some order }
activation_step s time_now r = record s { now = some r }
activation_step s (activate_subscription _ _ _ _) (ok _) = record s { activated = true }
activation_step s _ _ = s

-- A period starts now and is a year for annual billing, and a month for any other.
abbrev Period : Runtime → Time → Text → Time → Type 0
Period rt from billing_cycle ends_at =
    ends_at
    ≡ (if billing_cycle =? lit "annual" then rt.add_date from 1 0 0 else rt.add_date from 0 1 0)

-- The subscription of an order is created only if there is none, from the order's own data.
pub record Created (rt : Runtime) (order : Order) (now : Time) (subscription : Subscription)
    : Type 0 where
  pub same_order : subscription.origin_order_nsu ≡ order.order_nsu
  pub same_plan : subscription.plan_id ≡ order.plan_id
  pub same_customer : subscription.customer_email ≡ order.customer_email
  pub waits : subscription.status ≡ pending_activation
  pub starts : subscription.starts_at ≡ now
  pub period : Period rt now order.billing_cycle subscription.ends_at

abbrev Creatable : Runtime → Option Order → Option Time → Subscription → Type 0
Creatable rt (some order) (some now) subscription = Created rt order now subscription
Creatable rt _ _ subscription = ⊥

abbrev Activatable : Runtime → Option Order → Option Time → Text → Time → Time → Type 0
Activatable rt (some order) (some now) nsu starts_at ends_at =
    (nsu ≡ order.order_nsu) × (starts_at ≡ now) × Period rt now order.billing_cycle ends_at
Activatable rt _ _ nsu starts_at ends_at = ⊥

-- What is not listed is not called.
abbrev ActivationCheck : Runtime → PaymentApprovedEvent → Activation → Call → Type 0
ActivationCheck rt event s (create_subscription subscription) =
    (s.existing ≡ none) × Creatable rt s.order s.now subscription
ActivationCheck rt event s (activate_subscription nsu starts_at ends_at _) =
    (already_active s.existing ≡ false) × Activatable rt s.order s.now nsu starts_at ends_at
ActivationCheck rt event s (get_by_origin_order_nsu nsu) = nsu ≡ event.order_nsu
ActivationCheck rt event s (get_by_nsu nsu) = nsu ≡ event.order_nsu
ActivationCheck rt event s (invalidate_order_status nsu) = nsu ≡ event.order_nsu
ActivationCheck rt event s time_now = Unit
ActivationCheck rt event s new_uuid = Unit
ActivationCheck rt event s _ = ⊥

abbrev pub activation_guard : Runtime → PaymentApprovedEvent → Monitor Activation
activation_guard rt event = record {
  start = record { existing = none; order = none; now = none; activated = false };
  step = activation_step;
  check = ActivationCheck rt event;
  trust = Fetched;
}

abbrev pub Activated : Activation → Result (Unit {0}) → Type 0
Activated s (err _) = (s.activated ≡ false) × (already_active s.existing ≡ false)
Activated s (ok _) = (s.activated ≡ true) ⊎ (already_active s.existing ≡ true)

calculate_ends_at-Period :
    (rt : Runtime) (now : Time) (billing_cycle : Text)
    → Period rt now billing_cycle (calculate_ends_at rt now billing_cycle)
unfolding calculate_ends_at
calculate_ends_at-Period rt now billing_cycle = ground arith

module _ (rt : Runtime) where
  -- The writes, once the order was read and the clock.
  abbrev writes :
      PaymentApprovedEvent → Option Subscription → Order → Time → Prog (Result (Unit {0}))
  writes event existing order now = do
    create_missing rt event order now existing
    wrap (
        ask (
          activate_subscription event.order_nsu now (calculate_ends_at rt now order.billing_cycle)
            now))
    attempt (ask (invalidate_order_status event.order_nsu))
    success tt

  abbrev read : Option Subscription → Order → Time → Activation
  read existing order now = record {
    existing = existing;
    order = some order;
    now = some now;
    activated = false;
  }

  writes-Activated :
      (event : PaymentApprovedEvent) (existing : Option Subscription) (order : Order) (now : Time)
      → already_active existing ≡ false
      → order.order_nsu ≡ event.order_nsu
      → Period rt now order.billing_cycle (calculate_ends_at rt now order.billing_cycle)
      → Spec
          (activation_guard rt event)
          Activated
          (read existing order now)
          (writes event existing order now)
  unfolding create_missing
  writes-Activated event none order now h same period = ground arith
  writes-Activated event (some existing) order now h same period = ground arith

  activate_inactive-Activated :
      (event : PaymentApprovedEvent) (existing : Option Subscription)
      → already_active existing ≡ false
      → Spec
          (activation_guard rt event)
          Activated
          (record { existing = existing; order = none; now = none; activated = false })
          (activate_inactive rt event existing)
  unfolding activate_inactive
  activate_inactive-Activated event existing h = (
    refl,
    elim [
      | ok order ↦ λ same. (
        tt,
        λ now _.
            writes-Activated event existing order now h same
              (calculate_ends_at-Period rt now order.billing_cycle),
      )
      | err e ↦ λ _. (refl, h)
    ],
  )

  activate-by_state :
      (event : PaymentApprovedEvent) (existing : Option Subscription) (b : Bool)
      → already_active existing ≡ b
      → Spec
          (activation_guard rt event)
          Activated
          (record { existing = existing; order = none; now = none; activated = false })
          (if b then success tt else activate_inactive rt event existing)
  activate-by_state event existing true h = inr h
  activate-by_state event existing false h = activate_inactive-Activated event existing h

  activate-Activated :
      (event : PaymentApprovedEvent)
      → Spec
          (activation_guard rt event)
          Activated
          (activation_guard rt event).start
          (activate rt event)
  unfolding activate
  activate-Activated event = (refl, λ found _. activate-by_state event (existing_of found) _ refl)

module _ (rt : Runtime) (env : Environment) (event : PaymentApprovedEvent) where
  -- If the order repository returns the order that it is asked for, then in every run of the
  -- activation: a subscription is created only if none was found for the order, pending, with the
  -- plan and the customer of the stored order, from now on for a year if the order is billed
  -- annually and for a month otherwise; the order's subscription is activated for that same period,
  -- and only if it was not found active; only the subscription and the order of the event are
  -- looked up; beside these two writes only the cached status of that order is invalidated, and
  -- nothing else is written; and the run ends without an error exactly if the subscription was
  -- activated or was found active.
  pub activate-justified :
      Trusted (activation_guard rt event) env
      → Allowed (activation_guard rt event) (run env [] (activate rt event)).0
        × Activated
            (state (activation_guard rt event) (run env [] (activate rt event)).0)
            (run env [] (activate rt event)).1
  activate-justified trusted =
      Spec-sound (activation_guard rt event) Activated env [] _ trusted tt
        (activate-Activated rt event)
