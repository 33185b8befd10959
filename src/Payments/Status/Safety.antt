-- ===== src/Payments/Status/Safety.antt =====
-- What the public tracking shows.
use edn_core.Prelude.{
  leb, ◌||◌, ◌≡◌, ◌≢◌, ◌⊎◌, refl, Bool, not, ◌&&◌, if◌then◌else◌, Option, none, some, [], arith,
}
use edn_core.Text.{Text, is_empty, trim_space}
use edn_core.Checkout.{Time, is_zero, Order, OrderStatus, paid}
use edn_core.Errors.{Result, ok, err}
use edn_core.Payments.{TrackCheckoutResponse}
use edn_core.Payments.Session.{is_resumable_status}
use edn_core.Payments.Status.{track_response, track_by_intent_key}
use edn_core.Effects.{Call, Reply, find_by_intent_key, time_now}
use edn_core.Effects.Run.{Environment, run}
use edn_core.Effects.Monitor.{Monitor, Allowed, Trusted, Spec, Spec-sound, state}
use edn_core.Payments.Monitors.{Fetched}

-- What a run has read.
pub record Reading : Type 0 where
  pub order : Option Order
  pub now : Option Time

abbrev reading_step : Reading → (c : Call) → Reply c → Reading
reading_step s (find_by_intent_key _) (ok order) = record s { order = some order }
reading_step s time_now r = record s { now = some r }
reading_step s _ _ = s

-- Only the lookup and the clock are called.
abbrev ReadingCheck : Reading → Call → Type 0
ReadingCheck s (find_by_intent_key _) = Unit
ReadingCheck s time_now = Unit
ReadingCheck s _ = ⊥

abbrev pub tracking_guard : Monitor Reading
tracking_guard = record {
  start = record { order = none; now = none };
  step = reading_step;
  check = ReadingCheck;
  trust = Fetched;
}

-- The order can still be paid: its status is open and it has no expiry that has passed.
abbrev pub is_open : Order → Time → Bool
is_open order now =
    is_resumable_status order.status && (is_zero order.expires_at || leb now order.expires_at)

pub record Shown (key : Text) (order : Order) (now : Time) (resp : TrackCheckoutResponse)
    : Type 0 where
  pub same_key : resp.checkout_intent_key ≡ key
  pub same_order : resp.order_nsu ≡ order.order_nsu
  pub same_plan : resp.plan_slug ≡ order.plan_slug
  pub same_expiry : resp.expires_at ≡ order.expires_at
  pub same_update : resp.updated_at ≡ order.updated_at
  pub can_resume : resp.resumable ≡ is_open order now
  pub link : resp.checkout_url ≡ (
      if is_open order now && not (is_empty (trim_space order.provider_checkout_url))
      then order.provider_checkout_url
      else [])
  pub receipt :
      ((order.status ≡ paid) × (resp.receipt_url ≡ order.receipt_url))
      ⊎ ((order.status ≢ paid) × (resp.receipt_url ≡ []))
  pub status : resp.status ≡ (
      if is_resumable_status order.status && not (is_open order now)
      then OrderStatus.expired
      else order.status)

abbrev Answers : Text → Option Order → Option Time → TrackCheckoutResponse → Type 0
Answers key (some order) (some now) resp = Shown key order now resp
Answers key _ _ resp = ⊥

abbrev pub Tracked : Text → Reading → Result TrackCheckoutResponse → Type 0
Tracked key s (err _) = s.order ≡ none
Tracked key s (ok resp) = Answers key s.order s.now resp

track_response-Shown :
    (key : Text) (order : Order) (now : Time)
    → order.checkout_intent_key ≡ key
    → Shown key order now (track_response order now)
unfolding track_response
track_response-Shown key order now h = record {
  same_key = h;
  same_order = refl;
  same_plan = refl;
  same_expiry = refl;
  same_update = refl;
  can_resume = ground arith;
  link = ground arith;
  receipt = ground arith;
  status = ground arith;
}

track-Tracked :
    (key : Text) → Spec tracking_guard (Tracked key) tracking_guard.start (track_by_intent_key key)
unfolding track_by_intent_key
track-Tracked key = (
  tt,
  elim [
    | ok order ↦ λ same. (tt, λ now _. track_response-Shown key order now same)
    | err e ↦ λ _. refl
  ],
)

module _ (env : Environment) (key : Text) where
  -- If the order repository returns the order that it is asked for, every run of the public
  -- tracking reads one order and the clock and calls nothing else, and its answer has that order's
  -- number, key, plan, expiry and time of change: it says that the checkout can be resumed exactly if the stored status is open and the expiry,
  -- if there is one, has not passed; it has the order's link exactly in that case (unless the link
  -- is blank), and the receipt exactly if the order is paid; and the status is "expired" if the
  -- stored status is open and the checkout cannot be resumed, and the stored one if not.
  pub track_by_intent_key-shows :
      Trusted tracking_guard env
      → Allowed tracking_guard (run env [] (track_by_intent_key key)).0
        × Tracked key
            (state tracking_guard (run env [] (track_by_intent_key key)).0)
            (run env [] (track_by_intent_key key)).1
  track_by_intent_key-shows trusted =
      Spec-sound tracking_guard (Tracked key) env [] _ trusted tt (track-Tracked key)
