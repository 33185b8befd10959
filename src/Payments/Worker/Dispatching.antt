-- ===== src/Payments/Worker/Dispatching.antt =====
-- What the outbox dispatcher publishes and marks.
use edn_core.Prelude.{
  subst, ◌≡◌, refl, sym, Bool, true, false, Option, none, some, List, [], ◌∷◌, ℕ, arith,
  if◌then◌else◌,
}
use edn_core.Text.{Text, lit, ◌=?◌}
use edn_core.Checkout.{OutboxEvent}
use edn_core.Errors.{Result, ok, err}
use edn_core.Runtime.{Runtime}
use edn_core.Payments.{PaymentApprovedEvent}
use edn_core.Payments.Worker.{publish_decoded, dispatch_one, dispatch_all, dispatch}
use edn_core.Effects.{Call, Reply, fetch_unpublished, mark_published, publish_payment_approved}
use edn_core.Effects.Run.{Environment, run}
use edn_core.Effects.Monitor.{Monitor, Allowed, Spec, Spec-sound, Spec-bind, Stays, state}

-- The fetched events that can be published, each with its identifier, in their order.
abbrev keep_decoded :
    Text
    → Option PaymentApprovedEvent
    → List (Text × PaymentApprovedEvent)
    → List (Text × PaymentApprovedEvent)
keep_decoded id none rest = rest
keep_decoded id (some approved) rest = (id, approved) ∷ rest

abbrev publishable : Runtime → List OutboxEvent → List (Text × PaymentApprovedEvent)
publishable rt [] = []
publishable rt (event ∷ events) =
    if event.event_type =? lit "payment.approved"
    then keep_decoded event.event_id (rt.decode_event event.payload) (publishable rt events)
    else publishable rt events

-- What is left to publish, and the event that was published and is not marked.
pub record Delivery : Type 0 where
  pub queue : List (Text × PaymentApprovedEvent)
  pub unmarked : Option Text

abbrev dequeue : List (Text × PaymentApprovedEvent) → Bool → Delivery
dequeue [] published = record { queue = []; unmarked = none }
dequeue ((id, _) ∷ queue) true = record { queue = queue; unmarked = some id }
dequeue ((id, _) ∷ queue) false = record { queue = queue; unmarked = none }

abbrev succeeded : Result (Unit {0}) → Bool
succeeded (ok _) = true
succeeded (err _) = false

abbrev delivery_step : Runtime → Delivery → (c : Call) → Reply c → Delivery
delivery_step rt s (fetch_unpublished _) (ok events) = record {
  queue = publishable rt events;
  unmarked = none;
}
delivery_step rt s (publish_payment_approved _) r = dequeue s.queue (succeeded r)
delivery_step rt s (mark_published _ _) _ = record s { unmarked = none }
delivery_step rt s _ _ = s

abbrev Next : List (Text × PaymentApprovedEvent) → PaymentApprovedEvent → Type 0
Next [] approved = ⊥
Next ((_, next) ∷ _) approved = approved ≡ next

abbrev DeliveryCheck : Delivery → Call → Type 0
DeliveryCheck s (publish_payment_approved approved) = Next s.queue approved
DeliveryCheck s (mark_published id _) = s.unmarked ≡ some id
DeliveryCheck s _ = Unit

abbrev waiting : Runtime → List OutboxEvent → Delivery
waiting rt events = record { queue = publishable rt events; unmarked = none }

abbrev pub outbox_guard : Runtime → Monitor Delivery
outbox_guard rt = record {
  start = waiting rt [];
  step = delivery_step rt;
  check = DeliveryCheck;
  trust = λ _ _. Unit;
}

-- Nothing is left to publish or to mark.
abbrev pub Delivered : Delivery → Result (Unit {0}) → Type 0
Delivered s r = (s.queue ≡ []) × (s.unmarked ≡ none)

module _ (rt : Runtime) where
  dispatch_one-step :
      (event : OutboxEvent) (events : List OutboxEvent)
      → Spec
          (outbox_guard rt)
          (Stays (outbox_guard rt) (waiting rt events))
          (waiting rt (event ∷ events))
          (dispatch_one rt event)
  unfolding dispatch_one publish_decoded
  dispatch_one-step event events = ground arith

  dispatch_all-Delivered :
      (events : List OutboxEvent)
      → Spec (outbox_guard rt) Delivered (waiting rt events) (dispatch_all rt events)
  unfolding dispatch_all
  dispatch_all-Delivered [] = (refl, refl)
  dispatch_all-Delivered (event ∷ events) =
      Spec-bind (outbox_guard rt) (Stays (outbox_guard rt) (waiting rt events)) Delivered _
        (dispatch_one rt event) _ (dispatch_one-step event events)
        (λ s r e.
          subst (λ t. Spec (outbox_guard rt) Delivered t (dispatch_all rt events)) (sym e)
            (dispatch_all-Delivered events))

  dispatch-Delivered :
      (batch_size : ℕ) → Spec (outbox_guard rt) Delivered (waiting rt []) (dispatch rt batch_size)
  unfolding dispatch
  dispatch-Delivered batch_size =
      (tt, elim [ ok events ↦ λ _. dispatch_all-Delivered events | err e ↦ λ _. (refl, refl) ])

module _ (rt : Runtime) (env : Environment) (batch_size : ℕ) where
  -- In every run of the outbox dispatcher, whatever the store and the publisher answer, the fetched
  -- events of type payment.approved whose payload decodes are handed to the publisher once each, in
  -- their order and with their decoded payload, and nothing else is; an event is marked as
  -- published only right after the publisher accepted it; and at the end none of them is left, even
  -- if the publisher or the marking failed for others.
  pub dispatch-delivers :
      Allowed (outbox_guard rt) (run env [] (dispatch rt batch_size)).0
      × Delivered
          (state (outbox_guard rt) (run env [] (dispatch rt batch_size)).0)
          (run env [] (dispatch rt batch_size)).1
  dispatch-delivers =
      Spec-sound (outbox_guard rt) Delivered env [] _ (λ h c. tt) tt
        (dispatch-Delivered rt batch_size)
