-- ===== src/Payments/Webhook/Guard.antt =====
-- What a run of the webhook service has seen and done, and what it may do next.
use edn_core.Prelude.{
  any, ◌≡◌, ◌⊎◌, Bool, true, false, not, ◌||◌, Option, none, some, List, [], ◌∷◌, ◌++◌, map, all,
  any,
}
use edn_core.Text.{Text, ◌=?◌, is_empty}
use edn_core.Checkout.{Order, OrderStatus, Payment, WebhookEvent}
use edn_core.Errors.{Result, ok, err, is_exactly, duplicate_webhook, duplicate_outbox}
use edn_core.Payments.{InfinitePayVerifyResponse}
use edn_core.Payments.Webhook.{is_processed, is_approved, map_payment_to_order_status}
use edn_core.Effects.{
  Call, Reply, get_by_nsu, update_status, upsert_payment, get_payments_by_order_nsu, insert_webhook,
  find_by_transaction_nsu, mark_processed, insert_outbox, verify_payment, invalidate_order_status,
  check_webhook_dedup, set_webhook_tx_seen, set_webhook_hash_seen, acquire_order_lock,
  release_order_lock,
}
use edn_core.Effects.Monitor.{Monitor}
use edn_core.Payments.Monitors.{Fetched}

-- What a run has seen and done.
pub record Reconciliation : Type 0 where
  -- the transaction whose events were looked up last
  pub transaction : Option Text
  -- the ids of the events that were found or stored
  pub event_ids : List Text
  pub order : Option Order
  pub verified : Option InfinitePayVerifyResponse
  pub stored : Option (List Payment)
  pub payment : Option Payment
  pub status : Option (Text × OrderStatus)
  pub enqueued : Bool
  -- a processed event of the transaction was found; the event was refused as a duplicate
  pub processed : Bool
  pub duplicate : Bool

abbrev in_outbox : Result (Unit {0}) → Bool
in_outbox (ok _) = true
in_outbox (err e) = is_exactly e duplicate_outbox

-- A lookup that failed shows nothing new.
abbrev shows_processed : Bool → Result (List WebhookEvent) → Bool
shows_processed processed (ok events) = any is_processed events
shows_processed processed (err _) = processed

abbrev ids_found : Result (List WebhookEvent) → List Text
ids_found (ok events) = map (λ e. e.event_id) events
ids_found (err _) = []

abbrev pub is_among : Text → List Text → Bool
is_among id = any (λ k. id =? k)

abbrev reconciliation_step : Reconciliation → (c : Call) → Reply c → Reconciliation
reconciliation_step s (get_by_nsu _) (ok order) = record s { order = some order }
reconciliation_step s (verify_payment _ _ _) (ok verified) = record s { verified = some verified }
reconciliation_step s (get_payments_by_order_nsu _) (ok stored) = record s { stored = some stored }
reconciliation_step s (upsert_payment payment) (ok _) = record s { payment = some payment }
reconciliation_step s (update_status nsu status _) (ok _) = record s { status = some (nsu, status) }
reconciliation_step s (insert_outbox _) r = record s { enqueued = in_outbox r }
reconciliation_step s (find_by_transaction_nsu nsu) r = record s {
  transaction = some nsu;
  event_ids = ids_found r ++ s.event_ids;
  processed = shows_processed s.processed r;
}
reconciliation_step s (insert_webhook event) (ok _) = record s {
  event_ids = event.event_id ∷ s.event_ids;
}
reconciliation_step s (insert_webhook _) (err e) = record s {
  duplicate = is_exactly e duplicate_webhook;
}
reconciliation_step s _ _ = s

-- No stored payment of the order is of another transaction.
abbrev pub Consistent : Option (List Payment) → InfinitePayVerifyResponse → Type 0
Consistent none verified = is_empty verified.transaction_nsu ≡ true
Consistent (some stored) verified =
    all (λ p. p.transaction_nsu =? verified.transaction_nsu) stored ≡ true

-- The payment is the provider's: its transaction and amount, and the amount is the order's.
pub record Verified (order : Order) (verified : InfinitePayVerifyResponse)
    (stored : Option (List Payment)) (payment : Payment) : Type 0 where
  pub amount : verified.paid_amount_cents ≡ order.amount_cents
  pub paid_amount : payment.paid_amount_cents ≡ verified.paid_amount_cents
  pub order_amount : payment.amount_cents ≡ order.amount_cents
  pub transaction : payment.transaction_nsu ≡ verified.transaction_nsu
  pub status : payment.status ≡ verified.status
  pub same_order : payment.order_nsu ≡ order.order_nsu
  pub consistent : Consistent stored verified

abbrev Upsertable :
    Option Order → Option InfinitePayVerifyResponse → Option (List Payment) → Payment → Type 0
Upsertable (some order) (some verified) stored payment = Verified order verified stored payment
Upsertable _ _ stored payment = ⊥

-- The status follows the provider's, after the payment was stored.
abbrev Updatable : Option Payment → Option InfinitePayVerifyResponse → Text → OrderStatus → Type 0
Updatable (some payment) (some verified) nsu status =
    (payment.order_nsu ≡ nsu) × (status ≡ map_payment_to_order_status verified.status)
Updatable _ _ nsu status = ⊥

-- The outbox is written for an approved payment only, after payment and status.
abbrev Enqueuable :
    Option InfinitePayVerifyResponse → Option Payment → Option (Text × OrderStatus) → Type 0
Enqueuable (some verified) (some payment) (some status) = is_approved verified.status ≡ true
Enqueuable _ _ _ = ⊥

-- Payment and order status are stored as the provider verified them, and an approved payment is in
-- the outbox.
abbrev Applied :
    Option InfinitePayVerifyResponse → Option Payment → Option (Text × OrderStatus) → Bool → Type 0
Applied (some verified) (some payment) (some (nsu, status)) enqueued =
    (payment.transaction_nsu ≡ verified.transaction_nsu)
    × (payment.order_nsu ≡ nsu)
    × (status ≡ map_payment_to_order_status verified.status)
    × ((not (is_approved verified.status) || enqueued) ≡ true)
Applied _ _ _ enqueued = ⊥

-- The order that was read has this number.
abbrev OfOrder : Option Order → Text → Type 0
OfOrder none nsu = ⊥
OfOrder (some order) nsu = nsu ≡ order.order_nsu

-- Only the payments of the order that was read are looked up, only it is verified, under the
-- transaction whose events were looked up, and only its status is dropped from the cache. What is not
-- listed is not called.
abbrev ReconciliationCheck : Reconciliation → Call → Type 0
ReconciliationCheck s (upsert_payment payment) =
    (s.processed ≡ false) × Upsertable s.order s.verified s.stored payment
ReconciliationCheck s (update_status nsu status _) =
    (s.processed ≡ false) × Updatable s.payment s.verified nsu status
ReconciliationCheck s (insert_outbox _) =
    (s.processed ≡ false) × Enqueuable s.verified s.payment s.status
ReconciliationCheck s (mark_processed id _) =
    (s.processed ≡ false)
    × (is_among id s.event_ids ≡ true)
    × Applied s.verified s.payment s.status s.enqueued
ReconciliationCheck s (get_payments_by_order_nsu nsu) = OfOrder s.order nsu
ReconciliationCheck s (verify_payment _ order_nsu nsu) =
    OfOrder s.order order_nsu × (s.transaction ≡ some nsu)
ReconciliationCheck s (insert_webhook event) =
    (s.processed ≡ false)
    × OfOrder s.order event.order_nsu
    × (s.transaction ≡ some event.transaction_nsu)
ReconciliationCheck s (invalidate_order_status nsu) = OfOrder s.order nsu
ReconciliationCheck s (get_by_nsu _) = Unit
ReconciliationCheck s (find_by_transaction_nsu _) = Unit
ReconciliationCheck s (check_webhook_dedup _ _) = Unit
ReconciliationCheck s (set_webhook_tx_seen nsu) = s.transaction ≡ some nsu
ReconciliationCheck s (set_webhook_hash_seen _) = Unit
ReconciliationCheck s (acquire_order_lock _ _) = Unit
ReconciliationCheck s (release_order_lock _ _) = Unit
ReconciliationCheck s Call.time_now = Unit
ReconciliationCheck s Call.new_uuid = Unit
ReconciliationCheck s _ = ⊥

abbrev pub webhook_guard : Monitor Reconciliation
webhook_guard = record {
  start = record {
    transaction = none;
    event_ids = [];
    order = none;
    verified = none;
    stored = none;
    payment = none;
    status = none;
    enqueued = false;
    processed = false;
    duplicate = false;
  };
  step = reconciliation_step;
  check = ReconciliationCheck;
  trust = Fetched;
}

-- Why a run may end without an error.
abbrev pub Settled : Reconciliation → Result (Unit {0}) → Type 0
Settled s (err _) = Unit
Settled s (ok _) =
    Applied s.verified s.payment s.status s.enqueued ⊎ (s.processed ≡ true) ⊎ (s.duplicate ≡ true)
