-- ===== src/Payments/Webhook/Selection.antt =====
-- selectWebhookEventForProcessing against its description.
use edn_core.Prelude.{
  ltb→lt, ◌≤◌, ◌<◌, ◌≡◌, refl, Bool, true, false, Option, none, some, List, [], ◌∷◌, arith, any,
  if◌then◌else◌,
}
use edn_core.Checkout.{Time, before, WebhookEvent}
use edn_core.Payments.Webhook.{
  is_processed, earliest, select_unprocessed, select_webhook_event_for_processing,
}

-- Every event of the list was received at `t` or later.
abbrev pub From : Time → List WebhookEvent → Type 0
From t [] = Unit
From t (o ∷ events) = (t ≤ o.received_at) × From t events

-- `e` stands in the list, no event was received before it, and those ahead of it were received
-- later.
pub data First (e : WebhookEvent) : List WebhookEvent → Type 0 where
  here : (events : List WebhookEvent) → From e.received_at events → First e (e ∷ events)
  there :
      (o : WebhookEvent) (events : List WebhookEvent)
      → e.received_at < o.received_at
      → First e events
      → First e (o ∷ events)

not_before : (t u : Time) → before t u ≡ false → u ≤ t
not_before t u h = ground arith

First-le :
    (e o : WebhookEvent) (events : List WebhookEvent)
    → First e (o ∷ events)
    → e.received_at ≤ o.received_at
First-le e _ _ (here _ _) = ground arith
First-le e _ _ (there o events earlier _) = ground arith

First-step :
    (e o : WebhookEvent) (events : List WebhookEvent)
    → o.received_at < e.received_at
    → (f : WebhookEvent) → First f (o ∷ events)
    → First f (e ∷ o ∷ events)
First-step e o events h f first = there e (o ∷ events) (by_le (First-le f o events first)) first
  where
    by_le : f.received_at ≤ o.received_at → f.received_at < e.received_at
    by_le le = ground arith

First-insert :
    (e o f : WebhookEvent) (events : List WebhookEvent)
    → e.received_at ≤ o.received_at
    → First f (e ∷ events)
    → First f (e ∷ o ∷ events)
First-insert e o _ events h (here _ from) = here (o ∷ events) (h, from)
First-insert e o f events h (there _ _ earlier first) =
    there e (o ∷ events) earlier (there o events (ground arith) first)

earliest-step :
    (selected event : WebhookEvent) (events : List WebhookEvent)
    → First (earliest event events) (event ∷ events)
    → First (earliest selected events) (selected ∷ events)
    → (b : Bool) → before event.received_at selected.received_at ≡ b
    → First (earliest (if b then event else selected) events) (selected ∷ event ∷ events)
earliest-step selected event events taken kept true h =
    First-step selected event events (ltb→lt _ _ h) _ taken
earliest-step selected event events taken kept false h =
    First-insert selected event _ events (not_before _ _ h) kept

-- The selection keeps its start, or replaces it by the first of the rest.
earliest-First :
    (selected : WebhookEvent) (events : List WebhookEvent)
    → First (earliest selected events) (selected ∷ events)
unfolding earliest
earliest-First selected [] = here [] tt
earliest-First selected (event ∷ events) =
    earliest-step selected event events (earliest-First event events)
      (earliest-First selected events) (before event.received_at selected.received_at) refl

-- What selectWebhookEventForProcessing promises of its result.
abbrev pub Selected : List WebhookEvent → Bool × Option WebhookEvent → Type 0
Selected events (true, chosen) = (any is_processed events ≡ true) × (chosen ≡ none)
Selected events (false, none) = events ≡ []
Selected events (false, some chosen) = (any is_processed events ≡ false) × First chosen events

select_unprocessed-Selected :
    (events : List WebhookEvent)
    → any is_processed events ≡ false
    → Selected events (false, select_unprocessed events)
unfolding select_unprocessed
select_unprocessed-Selected [] h = refl
select_unprocessed-Selected (event ∷ events) h = (h, earliest-First event events)

by_test :
    (events : List WebhookEvent) (b : Bool)
    → any is_processed events ≡ b
    → Selected events (if b then (true, none) else (false, select_unprocessed events))
by_test events true h = (h, refl)
by_test events false h = select_unprocessed-Selected events h

-- The selection from the events of a transaction reports a processed event, with no event to use,
-- exactly if one was processed; otherwise it returns no event only if there is none, and else the
-- event that was received earliest, the one stored first among those of the same time.
pub select_webhook_event_for_processing-Selected :
    (events : List WebhookEvent) → Selected events (select_webhook_event_for_processing events)
unfolding select_webhook_event_for_processing
select_webhook_event_for_processing-Selected events = by_test events (any is_processed events) refl
