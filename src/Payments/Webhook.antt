-- ===== src/Payments/Webhook.antt =====
-- internal/payments/webhook.go: WebhookService.Handle, which reconciles a payment.
pub mod Guard
pub mod Known
pub mod Integrity
pub mod Selection
use edn_core.Prelude.{
  Bool, true, false, not, ◌&&◌, ◌||◌, ℤ, int_eq, Option, none, some, is_some, List, [], ◌∷◌, ◌++◌,
  all, any, if◌then◌else◌,
}
use edn_core.Text.{Text, lit, ◌=?◌, is_empty}
use edn_core.Checkout.{
  Time, before, Order, OrderStatus, paid, failed, pending_review, PaymentStatus, approved, rejected,
  Payment, WebhookEvent, OutboxEvent,
}
use edn_core.Errors.{
  Error, Result, ok, err, errors_is, is_exactly, sentinel, wrapped, lock_not_acquired,
  lock_conflict, transaction_mismatch, amount_mismatch, duplicate_webhook, duplicate_outbox,
}
use edn_core.Runtime.{Runtime}
use edn_core.Payments.{MinimalWebhookPayload, InfinitePayVerifyResponse, PaymentApprovedEvent}
use edn_core.Payments.Helpers.{invalid}
use edn_core.Payments.Request.{calculate_event_hash}
use edn_core.Effects.{
  Call, Prog, ret, get_by_nsu, update_status, upsert_payment, get_payments_by_order_nsu,
  insert_webhook, find_by_transaction_nsu, mark_processed, insert_outbox, verify_payment,
  check_webhook_dedup, set_webhook_tx_seen, set_webhook_hash_seen, acquire_order_lock,
  release_order_lock, invalidate_order_status, time_now, new_uuid, bind, attempt, ask, wrap,
  success, fail, deferring, ◌>>=◌, ◌>>◌,
}

abbrev pub is_processed : WebhookEvent → Bool
is_processed event = is_some event.processed_at

-- The loop of selectWebhookEventForProcessing from its second event on.
unfoldable pub earliest : WebhookEvent → List WebhookEvent → WebhookEvent
earliest selected [] = selected
earliest selected (event ∷ events) =
    earliest (if before event.received_at selected.received_at then event else selected) events

unfoldable pub select_unprocessed : List WebhookEvent → Option WebhookEvent
unfolding earliest
select_unprocessed [] = none
select_unprocessed (event ∷ events) = some (earliest event events)

-- selectWebhookEventForProcessing: whether one was processed, and else the first that was received.
unfoldable pub select_webhook_event_for_processing : List WebhookEvent → Bool × Option WebhookEvent
unfolding select_unprocessed
select_webhook_event_for_processing events =
    if any is_processed events then (true, none) else (false, select_unprocessed events)

unfoldable pub map_payment_to_order_status : PaymentStatus → OrderStatus
map_payment_to_order_status approved = paid
map_payment_to_order_status rejected = failed
map_payment_to_order_status PaymentStatus.pending_review = OrderStatus.pending_review
map_payment_to_order_status _ = OrderStatus.pending

abbrev pub is_approved : PaymentStatus → Bool
is_approved approved = true
is_approved _ = false

-- A later find replaces an earlier one.
abbrev pub or_else {ℓ} : {A : Type ℓ} → Option A → Option A → Option A
or_else (some a) o = some a
or_else none o = o

-- What a webhook is processed with.
pub record Inbound : Type 0 where
  pub minimal : MinimalWebhookPayload
  pub event_hash : Text
  pub raw_body : Text

abbrev new_webhook_event :
    Runtime → Inbound → InfinitePayVerifyResponse → Text → Time → WebhookEvent
new_webhook_event rt w verified event_id now = record {
  event_id = event_id;
  provider = lit "infinitepay";
  event_hash = w.event_hash;
  order_nsu = w.minimal.order_nsu;
  transaction_nsu = w.minimal.transaction_nsu;
  status = verified.status;
  raw_payload = rt.encode_raw w.raw_body;
  received_at = now;
  processed_at = none;
}

abbrev new_payment : Runtime → Inbound → Order → InfinitePayVerifyResponse → Text → Time → Payment
new_payment rt w order verified payment_id now = record {
  payment_id = payment_id;
  order_nsu = w.minimal.order_nsu;
  transaction_nsu = verified.transaction_nsu;
  invoice_slug = w.minimal.invoice_slug;
  amount_cents = order.amount_cents;
  paid_amount_cents = verified.paid_amount_cents;
  installments = 0;
  capture_method = lit "";
  receipt_url = verified.receipt_url;
  status = verified.status;
  raw_payload = rt.encode_raw w.raw_body;
  created_at = now;
  updated_at = now;
}

-- The event's id is derived from the webhook event's, so a retry produces the same one.
abbrev new_outbox_event :
    Runtime → Inbound → Order → InfinitePayVerifyResponse → WebhookEvent → Time → OutboxEvent
new_outbox_event rt w order verified event now = record {
  event_id = rt.uuid_sha1 (lit "outbox.payment.approved:" ++ event.event_id);
  event_type = lit "payment.approved";
  payload = rt.encode_event (record {
    event_id = rt.uuid_sha1 (lit "payment.approved:" ++ event.event_id);
    order_nsu = w.minimal.order_nsu;
    transaction_nsu = w.minimal.transaction_nsu;
    plan_slug = order.plan_slug;
    plan_id = order.plan_id;
    amount_cents = order.amount_cents;
    paid_amount_cents = verified.paid_amount_cents;
    customer_email = order.customer_email;
    occurred_at = now;
  });
  published = false;
  created_at = now;
  published_at = none;
}

module _ (rt : Runtime) where
  -- Step 12: an event that is enqueued already counts as a success.
  unfoldable enqueue_approved :
      Inbound → Order → InfinitePayVerifyResponse → WebhookEvent → Time → Prog (Result (Unit {0}))
  enqueue_approved w order verified event now = do
    inserted ← attempt (ask (insert_outbox (new_outbox_event rt w order verified event now)))
    elim inserted [
      | ok _ ↦ success tt
      | err e ↦ if is_exactly e duplicate_outbox then success tt else fail (wrapped e)
    ]

  -- Steps 9 to 14.
  unfoldable pub apply_verified :
      Inbound → Order → InfinitePayVerifyResponse → WebhookEvent → Time → Prog (Result (Unit {0}))
  unfolding enqueue_approved
  apply_verified w order verified event now = do
    attempt (ask (set_webhook_tx_seen w.minimal.transaction_nsu))
    attempt (ask (set_webhook_hash_seen w.event_hash))
    payment_id ← attempt (ask new_uuid)
    wrap (ask (upsert_payment (new_payment rt w order verified payment_id now)))
    wrap (ask (update_status w.minimal.order_nsu (map_payment_to_order_status verified.status) now))
    if is_approved verified.status then enqueue_approved w order verified event now else success tt
    attempt (ask (invalidate_order_status w.minimal.order_nsu))
    attempt (ask (mark_processed event.event_id now))
    success tt

  -- Step 8: a stored event is used again; one that Mongo knows already ends the processing.
  unfoldable pub record_and_apply :
      Inbound → Order → InfinitePayVerifyResponse → Option WebhookEvent → Prog (Result (Unit {0}))
  record_and_apply w order verified (some event) = do
    now ← attempt (ask time_now)
    apply_verified w order verified event now
  record_and_apply w order verified none = do
    now ← attempt (ask time_now)
    event_id ← attempt (ask new_uuid)
    let event = new_webhook_event rt w verified event_id now
    inserted ← attempt (ask (insert_webhook event))
    elim inserted [
      | ok _ ↦ apply_verified w order verified event now
      | err e ↦ if is_exactly e duplicate_webhook then success tt else fail (wrapped e)
    ]

  -- Step 6b: the payments that are stored for the order must be of this transaction.
  unfoldable check_stored_payments : Inbound → InfinitePayVerifyResponse → Prog (Result (Unit {0}))
  check_stored_payments w verified = if is_empty verified.transaction_nsu then success tt else do
    existing ← wrap (ask (get_payments_by_order_nsu w.minimal.order_nsu))
    if all (λ p. p.transaction_nsu =? verified.transaction_nsu) existing
        then success tt
        else fail (wrapped (sentinel transaction_mismatch))

  -- Steps 5 to 7, and what follows once the gates are passed.
  unfoldable pub verify_and_apply : Inbound → Option WebhookEvent → Prog (Result (Unit {0}))
  unfolding check_stored_payments
  verify_and_apply w known = do
    order ← wrap (ask (get_by_nsu w.minimal.order_nsu))
    verified ←
        wrap (
          ask (verify_payment w.minimal.invoice_slug w.minimal.order_nsu w.minimal.transaction_nsu))
    if not (is_empty w.minimal.transaction_nsu)
          && not (is_empty verified.transaction_nsu)
          && not (w.minimal.transaction_nsu =? verified.transaction_nsu)
        then fail (wrapped (sentinel transaction_mismatch))
        else do
          check_stored_payments w verified
          if not (int_eq verified.paid_amount_cents order.amount_cents)
              then fail (wrapped (sentinel amount_mismatch))
              else record_and_apply w order verified known

  -- Step 4, under the order lock: the authoritative test for a processed transaction. If the
  -- lookup fails, the processing goes on.
  unfoldable pub handle_locked : Inbound → Option WebhookEvent → Prog (Result (Unit {0}))
  unfolding select_webhook_event_for_processing
  handle_locked w known = do
    events ← attempt (ask (find_by_transaction_nsu w.minimal.transaction_nsu))
    elim events [
      | err _ ↦ verify_and_apply w known
      | ok found ↦
          if any is_processed found
          then success tt
          else verify_and_apply w (or_else (select_unprocessed found) known)
    ]

  abbrev conflict_error : Error → Error
  conflict_error e =
      if errors_is e lock_not_acquired then wrapped (sentinel lock_conflict) else wrapped e

  -- Step 3.
  unfoldable pub lock_and_handle : Inbound → Option WebhookEvent → Prog (Result (Unit {0}))
  lock_and_handle w known = do
    lock_token ← attempt (ask new_uuid)
    locked ← attempt (ask (acquire_order_lock w.minimal.order_nsu lock_token))
    elim locked [
      | err e ↦ fail (conflict_error e)
      | ok _ ↦ deferring (release_order_lock w.minimal.order_nsu lock_token) (handle_locked w known)
    ]

  -- Redis's answer of step 2; an error counts as "not seen".
  abbrev pub was_seen : Result (Bool × Bool) → Bool
  was_seen (ok (tx_seen, hash_seen)) = tx_seen || hash_seen
  was_seen (err _) = false

  unfoldable pub dedup_and_handle : Inbound → Prog (Result (Unit {0}))
  dedup_and_handle w = do
    seen ← attempt (ask (check_webhook_dedup w.minimal.transaction_nsu w.event_hash))
    if was_seen seen
        then (do
          events ← attempt (ask (find_by_transaction_nsu w.minimal.transaction_nsu))
          elim events [
            | err _ ↦ lock_and_handle w none
            | ok found ↦
                let (processed, existing) = select_webhook_event_for_processing found in
                if processed then success tt else lock_and_handle w existing
          ])
        else lock_and_handle w none

  abbrev inbound : Text → MinimalWebhookPayload → Inbound
  inbound raw_body minimal = record {
    minimal = minimal;
    event_hash = calculate_event_hash rt raw_body;
    raw_body = raw_body;
  }

  unfoldable pub handle_payload : Text → Option MinimalWebhookPayload → Prog (Result (Unit {0}))
  handle_payload raw_body none = ret invalid
  handle_payload raw_body (some minimal) =
      if is_empty minimal.transaction_nsu || is_empty minimal.order_nsu
      then ret invalid
      else dedup_and_handle (inbound raw_body minimal)

  -- WebhookService.Handle
  unfoldable pub handle : Text → Prog (Result (Unit {0}))
  unfolding handle_payload
  handle raw_body = handle_payload raw_body (rt.decode_webhook raw_body)
