-- ===== src/Payments/Webhook/Known.antt =====
-- The webhook events that a run of the service knows, and the one that it selects among them.
use edn_core.Prelude.{
  refl, ◌≡◌, Bool, true, false, ◌||◌, Option, none, some, List, [], ◌∷◌, ◌++◌, map, any, or_left,
  or_right, if◌then◌else◌,
}
use edn_core.Text.{Text, ◌=?◌}
use edn_core.Text.Laws.{test-same}
use edn_core.Checkout.{before, WebhookEvent}
use edn_core.Payments.Webhook.{
  is_processed, earliest, select_unprocessed, select_webhook_event_for_processing, or_else,
}
use edn_core.Payments.Webhook.Guard.{is_among}

-- The event, if there is one, was found or stored.
abbrev pub is_known : Option WebhookEvent → List Text → Bool
is_known none ids = true
is_known (some event) ids = is_among event.event_id ids

abbrev pub ids_of : List WebhookEvent → List Text
ids_of = map (λ e. e.event_id)

or_insert : (a b c : Bool) → (a || c) ≡ true → (a || (b || c)) ≡ true
or_insert true b c h = refl
or_insert false b c h = or_right b c h

earliest-by_test :
    (selected event : WebhookEvent) (events : List WebhookEvent) (ids : List Text)
    → is_among (earliest event events).event_id (event.event_id ∷ ids_of events ++ ids) ≡ true
    → is_among (earliest selected events).event_id (selected.event_id ∷ ids_of events ++ ids) ≡ true
    → (b : Bool)
    → is_among
        (earliest (if b then event else selected) events).event_id
        (selected.event_id ∷ event.event_id ∷ ids_of events ++ ids)
      ≡ true
earliest-by_test selected event events ids taken kept true =
    or_right ((earliest event events).event_id =? selected.event_id) _ taken
earliest-by_test selected event events ids taken kept false =
    let id = (earliest selected events).event_id in
    or_insert (id =? selected.event_id) (id =? event.event_id) (is_among id (ids_of events ++ ids))
      kept

earliest-is_among :
    (selected : WebhookEvent) (events : List WebhookEvent) (ids : List Text)
    → is_among (earliest selected events).event_id (selected.event_id ∷ ids_of events ++ ids) ≡ true
unfolding earliest
earliest-is_among selected [] ids =
    or_left (selected.event_id =? selected.event_id) _ (test-same selected.event_id)
earliest-is_among selected (event ∷ events) ids =
    earliest-by_test selected event events ids (earliest-is_among event events ids)
      (earliest-is_among selected events ids) (before event.received_at selected.received_at)

pub selected-is_known :
    (known : Option WebhookEvent) (found : List WebhookEvent) (ids : List Text)
    → is_known known ids ≡ true
    → is_known (or_else (select_unprocessed found) known) (ids_of found ++ ids) ≡ true
unfolding select_unprocessed
selected-is_known known [] ids h = h
selected-is_known known (event ∷ events) ids h = earliest-is_among event events ids

pub chosen-is_known :
    (found : List WebhookEvent)
    → is_known (select_webhook_event_for_processing found).1 (ids_of found ++ []) ≡ true
unfolding select_webhook_event_for_processing select_unprocessed
chosen-is_known found = by_test (any is_processed found) found
  where
    by_test :
        (b : Bool) (found : List WebhookEvent)
        → is_known
            (if◌then◌else◌ {A = Bool × Option WebhookEvent} b
              (true, none)
              (false, select_unprocessed found)).1
            (ids_of found ++ [])
          ≡ true
    by_test true found = refl
    by_test false [] = refl
    by_test false (event ∷ events) = earliest-is_among event events []
