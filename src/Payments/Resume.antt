-- ===== src/Payments/Resume.antt =====
-- internal/payments/service.go: resuming a checkout by its intent key, with recovery of an order
-- that has no checkout link.
pub mod Safety
use edn_core.Prelude.{
  Bool, true, false, not, ◌&&◌, ◌||◌, ℤ, int_eq, Option, none, some, is_some, if◌then◌else◌,
}
use edn_core.Text.{Text, is_empty, trim_space}
use edn_core.Checkout.{Time, Order, OrderStatus, checkout_created}
use edn_core.Idempotency.{Key, KeyStatus, committed}
use edn_core.Tenancy.{Plan}
use edn_core.Errors.{
  Error, Result, ok, err, errors_is, sentinel, wrapped, order_not_found, lock_not_acquired,
  checkout_in_progress, checkout_non_resumable, checkout_expired, provider_state_ambiguous,
}
use edn_core.Payments.{
  CreateCheckoutResponse, InfinitePayCheckoutRequest, InfinitePayCheckoutResponse,
}
use edn_core.Payments.Session.{
  PaymentsConfig, checkout_create_operation, is_blank, has_expired, is_non_resumable,
  canonical_status, continuation_error_for_order, persist_checkout_session, resumed_response,
}
use edn_core.Effects.{
  Call, Prog, ret, call, find_by_intent_key, get_by_nsu, find_by_uuid,
  mark_provider_create_attempted, create_checkout, find_by_tenant_op_resource_id,
  acquire_order_lock, release_order_lock, set_order_status, time_now, new_uuid, bind, attempt, ask,
  success, fail, deferring, ◌>>=◌, ◌>>◌,
}

abbrev pub ambiguous : {A : Type 0} → Order → Prog (Result A)
ambiguous order = fail (continuation_error_for_order provider_state_ambiguous order)

-- `if err != nil { return …, checkoutContinuationErrorForOrder(ErrProviderStateAmbiguous, order) }`
abbrev or_ambiguous : {A : Type 0} → Order → Prog (Result A) → Prog (Result A)
or_ambiguous order p = bind p (elim [ ok a ↦ success a | err _ ↦ ambiguous order ])

abbrev pub is_committed : KeyStatus → Bool
is_committed committed = true
is_committed _ = false

unfoldable recover_from_idempotency_snapshot : Order → Prog (Result CreateCheckoutResponse)
unfolding persist_checkout_session
recover_from_idempotency_snapshot order = do
  rec ← or_ambiguous order (
      ask (find_by_tenant_op_resource_id order.tenant_id checkout_create_operation order.order_nsu))
  if not (is_committed rec.status) || is_empty rec.resource_url then ambiguous order else do
    updated_at ← attempt (ask time_now)
    or_ambiguous order (
        persist_checkout_session order.order_nsu rec.resource_url rec.external_ref checkout_created
          updated_at)
    attempt (ask (set_order_status order.order_nsu checkout_created))
    success (resumed_response order checkout_created rec.resource_url order.expires_at)

-- An order lock held elsewhere, or a lock that could not be asked for.
abbrev pub lock_error : Error → Error
lock_error e = if errors_is e lock_not_acquired then sentinel checkout_in_progress else wrapped e

-- The order's own link, status and expiry.
abbrev pub resumed : Order → CreateCheckoutResponse
resumed order =
    resumed_response order (canonical_status order.status) order.provider_checkout_url
      order.expires_at

module _ (cfg : PaymentsConfig) where
  abbrev recovery_request : Order → Plan → InfinitePayCheckoutRequest
  recovery_request order plan = record {
    handle = cfg.handle;
    order_nsu = order.order_nsu;
    plan_name = plan.name;
    amount_cents = plan.price_cents;
    currency = plan.currency;
    max_installments = plan.max_installments;
    customer_name = order.customer_name;
    customer_email = order.customer_email;
    customer_phone = order.customer_phone;
    customer_document = order.customer_document;
    webhook_url = cfg.webhook_url;
    redirect_url = cfg.redirect_url;
  }

  -- The part of recoverCheckoutSession that calls the provider, for an order with no trace of an
  -- earlier attempt.
  unfoldable recreate_at_provider : Order → Prog (Result CreateCheckoutResponse)
  unfolding persist_checkout_session
  recreate_at_provider order = if is_blank order.plan_id then ambiguous order else do
    plan ← or_ambiguous order (ask (find_by_uuid order.plan_id))
    if not (int_eq plan.price_cents order.amount_cents) then ambiguous order else do
      recovery_attempted_at ← attempt (ask time_now)
      or_ambiguous order
          (ask (mark_provider_create_attempted order.order_nsu recovery_attempted_at))
      provider_resp ← or_ambiguous order (ask (create_checkout (recovery_request order plan)))
      updated_at ← attempt (ask time_now)
      or_ambiguous order (
          persist_checkout_session order.order_nsu provider_resp.checkout_url
            provider_resp.invoice_slug checkout_created updated_at)
      attempt (ask (set_order_status order.order_nsu checkout_created))
      success (resumed_response order checkout_created provider_resp.checkout_url order.expires_at)

  -- The part of recoverCheckoutSession under the order lock, from the fresh read on.
  unfoldable recover_fresh : Order → Prog (Result CreateCheckoutResponse)
  unfolding recover_from_idempotency_snapshot recreate_at_provider
  recover_fresh order = do
    now ← attempt (ask time_now)
    if has_expired now order.expires_at then fail (sentinel checkout_expired) else do
      if is_non_resumable order.status then fail (sentinel checkout_non_resumable) else do
        if not (is_blank order.provider_checkout_url) then success (resumed order) else do
          if not (is_blank order.invoice_slug) then ambiguous order else do
            if is_some order.provider_create_attempted_at
                then recover_from_idempotency_snapshot order
                else recreate_at_provider order

  unfoldable recover_locked : Order → Prog (Result CreateCheckoutResponse)
  unfolding recover_fresh
  recover_locked first_read = do
    order ← or_ambiguous first_read (ask (get_by_nsu first_read.order_nsu))
    recover_fresh order

  unfoldable recover_checkout_session : Order → Prog (Result CreateCheckoutResponse)
  unfolding recover_locked
  recover_checkout_session first_read = do
    lock_token ← attempt (ask new_uuid)
    locked ← attempt (ask (acquire_order_lock first_read.order_nsu lock_token))
    elim locked [
      | err e ↦ fail (lock_error e)
      | ok _ ↦
          deferring (release_order_lock first_read.order_nsu lock_token) (recover_locked first_read)
    ]

  -- What resumeSession, and so RecoverByIntentKey, does with the order that it found.
  unfoldable resume_order : Order → Prog (Result CreateCheckoutResponse)
  unfolding recover_checkout_session
  resume_order order = do
    now ← attempt (ask time_now)
    if has_expired now order.expires_at then fail (sentinel checkout_expired) else do
      if is_non_resumable order.status then fail (sentinel checkout_non_resumable) else do
        if is_blank order.provider_checkout_url
            then recover_checkout_session order
            else success (resumed order)

  unfoldable pub resume_session : Text → Prog (Result CreateCheckoutResponse)
  unfolding resume_order
  resume_session intent_key = do
    found ← attempt (ask (find_by_intent_key intent_key))
    elim found [
      | err e ↦
          fail (if errors_is e order_not_found then sentinel checkout_non_resumable else wrapped e)
      | ok order ↦ resume_order order
    ]
