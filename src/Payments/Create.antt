-- ===== src/Payments/Create.antt =====
-- internal/payments/service.go: CreateSession, with the guard against a second open order for the
-- same customer and plan.
pub mod Safety
pub mod Pricing
pub mod Shape
use edn_core.Prelude.{
  ℕ, ◌+◌, Bool, true, false, not, ◌&&◌, ◌||◌, Option, none, some, List, [], ◌∷◌, if◌then◌else◌,
}
use edn_core.Text.{Text, lit, is_empty, trim_space}
use edn_core.Checkout.{Time, Order, OrderStatus, created, checkout_created, failed, expired}
use edn_core.Errors.{
  Error, Result, ok, err, errors_is, is_rejection, sentinel, wrapped, invalid_request,
  lock_not_acquired, duplicate_order, checkout_in_progress, checkout_already_open,
  checkout_recovery_required, provider_state_ambiguous,
}
use edn_core.Runtime.{Runtime}
use edn_core.Payments.{
  CreateCheckoutRequest, CreateCheckoutResponse, InfinitePayCheckoutRequest,
  InfinitePayCheckoutResponse,
}
use edn_core.Payments.Helpers.{to_lower_text, normalize_cpf, normalize_phone}
use edn_core.Payments.Request.{
  validate_create_checkout_request, calculate_checkout_request_hash, calculate_fingerprint_hash,
}
use edn_core.Payments.Scope.{
  ResolvedTenantScope, ResolvedCheckoutPlan, resolve_tenant_scope, resolve_checkout_plan,
}
use edn_core.Payments.Session.{
  PaymentsConfig, checkout_create_operation, checkout_intent_key_ttl, is_blank, has_expired,
  continuation_error_for_session, generate_checkout_intent_key, persist_checkout_session,
}
use edn_core.Payments.Resume.{lock_error, resume_session}
use edn_core.Payments.Replay.{
  Reservation, fresh, replay, reserve_or_replay_checkout, replay_existing_session,
}
use edn_core.Effects.{
  Call, Prog, ret, call, create_order, find_open_by_business_fingerprint, update_status,
  mark_provider_create_attempted, create_checkout, acquire_order_lock, release_order_lock,
  acquire_fingerprint_lock, release_fingerprint_lock, set_order_status, invalidate_order_status,
  commit_key, fail_key, time_now, new_uuid, bind, attempt, ask, wrap, success, fail, deferring,
  ◌>>=◌, ◌>>◌,
}
use edn_core.Payments.Draft.{
  Draft, text_of, expire_stale_order_under_lock, expire_or_block, reuse_open_order_for_fingerprint,
  new_order,
}

-- After a deterministic rejection the order and the key are closed; failures are only logged.
unfoldable terminalize : Draft → Text → Prog (Result (Unit {0}))
terminalize d order_nsu = do
  term_at ← attempt (ask time_now)
  marked ← attempt (ask (update_status order_nsu failed term_at))
  elim marked [
    | ok _ ↦ attempt (ask (invalidate_order_status order_nsu)) >> success tt
    | err _ ↦ success tt
  ]
  attempt (ask (fail_key d.scope.tenant_id checkout_create_operation d.idempotency_key term_at))
  success tt

-- The end of CreateSession: what the two writes have left behind decides the answer.
unfoldable conclude :
    Draft
    → Text
    → Text
    → InfinitePayCheckoutResponse
    → Result (Unit {0})
    → Result (Unit {0})
    → Prog (Result CreateCheckoutResponse)
conclude d order_nsu intent_key provider_resp (err _) (err _) =
    fail (continuation_error_for_session provider_state_ambiguous order_nsu intent_key)
conclude d order_nsu intent_key provider_resp (ok _) (err _) =
    fail (continuation_error_for_session checkout_recovery_required order_nsu intent_key)
conclude d order_nsu intent_key provider_resp committed (ok _) = do
  attempt (ask (set_order_status order_nsu checkout_created))
  success (record {
    order_nsu = order_nsu;
    checkout_intent_key = intent_key;
    status = checkout_created;
    checkout_url = provider_resp.checkout_url;
    expires_at = d.now + checkout_intent_key_ttl;
    resumed = false;
  })

abbrev pub fingerprint : Runtime → Draft → Text
fingerprint rt d =
    calculate_fingerprint_hash rt d.scope.tenant_id d.cpf d.plan.slug d.plan.billing_cycle

module _ (cfg : PaymentsConfig) where
  abbrev provider_request : Draft → Text → InfinitePayCheckoutRequest
  provider_request d order_nsu = record {
    handle = cfg.handle;
    order_nsu = order_nsu;
    plan_name = d.plan.name;
    amount_cents = d.plan.price_cents;
    currency = d.plan.currency;
    max_installments = d.plan.max_installments;
    customer_name = d.customer_name;
    customer_email = d.email;
    customer_phone = d.phone;
    customer_document = d.cpf;
    webhook_url = cfg.webhook_url;
    redirect_url = cfg.redirect_url;
  }

  -- From the provider's answer on.
  unfoldable after_provider :
      Draft
      → Text
      → Text
      → Result InfinitePayCheckoutResponse
      → Prog (Result CreateCheckoutResponse)
  unfolding terminalize conclude persist_checkout_session
  after_provider d order_nsu intent_key (err e) =
      if is_rejection e then (terminalize d order_nsu >> fail (wrapped e)) else fail (wrapped e)
  after_provider d order_nsu intent_key (ok provider_resp) = do
    updated_at ← attempt (ask time_now)
    committed ← attempt (
        ask (
          commit_key d.scope.tenant_id checkout_create_operation d.idempotency_key order_nsu
            checkout_created provider_resp.checkout_url provider_resp.invoice_slug updated_at))
    persisted ← attempt (
        persist_checkout_session order_nsu provider_resp.checkout_url provider_resp.invoice_slug
          checkout_created updated_at)
    conclude d order_nsu intent_key provider_resp committed persisted

  -- Under the order lock: record the attempt, then call the provider.
  unfoldable create_at_provider : Draft → Text → Text → Prog (Result CreateCheckoutResponse)
  unfolding after_provider
  create_at_provider d order_nsu intent_key = do
    attempted_at ← attempt (ask time_now)
    wrap (ask (mark_provider_create_attempted order_nsu attempted_at))
    provider_resp ← attempt (ask (create_checkout (provider_request d order_nsu)))
    after_provider d order_nsu intent_key provider_resp

  -- From the creation of the order on.
  unfoldable after_create :
      Draft → Text → Text → Result (Unit {0}) → Prog (Result CreateCheckoutResponse)
  unfolding create_at_provider replay_existing_session
  after_create d order_nsu intent_key (err e) =
      if errors_is e duplicate_order
      then replay_existing_session d.scope.tenant_id d.idempotency_key d.request_hash
      else fail (wrapped e)
  after_create d order_nsu intent_key (ok _) = do
    lock_token ← attempt (ask new_uuid)
    wrap (ask (acquire_order_lock order_nsu lock_token))
    deferring (release_order_lock order_nsu lock_token) (create_at_provider d order_nsu intent_key)

  unfoldable pub create_fresh : Draft → Text → Prog (Result CreateCheckoutResponse)
  unfolding after_create generate_checkout_intent_key
  create_fresh d order_nsu = do
    intent_key ← generate_checkout_intent_key
    order_created ← attempt (ask (create_order (new_order d order_nsu intent_key)))
    after_create d order_nsu intent_key order_created

  -- `if cpf != ""`: the check for an open order of the same customer and plan
  abbrev pub check_open_orders : Draft → Prog (Result (Option CreateCheckoutResponse))
  check_open_orders d = if is_empty d.cpf then success none else reuse_open_order_for_fingerprint d

  -- Under the fingerprint lock, from the reservation on.
  unfoldable pub create_reserved : Draft → Prog (Result CreateCheckoutResponse)
  create_reserved d = do
    reservation ← reserve_or_replay_checkout d.scope d.idempotency_key d.request_hash d.now
    elim reservation [
      | replay resp ↦ success resp
      | fresh order_nsu ↦ do
        reused ← check_open_orders d
        elim reused [ some resp ↦ success resp | none ↦ create_fresh d order_nsu ]
    ]

  -- Once the fingerprint lock was asked for.
  unfoldable pub create_under_fingerprint :
      Draft → Text → Text → Result (Unit {0}) → Prog (Result CreateCheckoutResponse)
  create_under_fingerprint d hash token (err e) = fail (lock_error e)
  create_under_fingerprint d hash token (ok _) =
      deferring (release_fingerprint_lock hash token) (create_reserved d)

  unfoldable pub create_serialized : Runtime → Draft → Prog (Result CreateCheckoutResponse)
  unfolding create_under_fingerprint
  create_serialized rt d = if is_empty d.cpf then create_reserved d else do
    let hash = fingerprint rt d
    token ← attempt (ask new_uuid)
    locked ← attempt (ask (acquire_fingerprint_lock hash token))
    create_under_fingerprint d hash token locked

  unfoldable pub create_new_session :
      Runtime → CreateCheckoutRequest → Text → Prog (Result CreateCheckoutResponse)
  create_new_session rt req idempotency_key = do
    ret (validate_create_checkout_request rt req)
    let phone = text_of (normalize_phone rt req.customer.phone)
    let email = to_lower_text rt (trim_space req.customer.email)
    let cpf = text_of (normalize_cpf rt req.customer.document)
    let customer_name = trim_space req.customer.name
    now ← attempt (ask time_now)
    scope ← resolve_tenant_scope rt req.organization_slug req.tenant_slug req.channel
    let request_hash =
        calculate_checkout_request_hash rt scope.organization scope.tenant scope.channel
          req.plan_slug req.billing_cycle customer_name email phone cpf
    plan ← wrap (resolve_checkout_plan rt scope req.plan_slug req.billing_cycle now)
    create_serialized rt (record {
      scope = scope;
      plan = plan;
      idempotency_key = idempotency_key;
      request_hash = request_hash;
      customer_name = customer_name;
      email = email;
      phone = phone;
      cpf = cpf;
      now = now;
    })

  -- CreateSession
  unfoldable pub create_session :
      Runtime → CreateCheckoutRequest → Prog (Result CreateCheckoutResponse)
  create_session rt req =
      let intent_key = trim_space req.checkout_intent_key in
      let idempotency_key = trim_space req.idempotency_key in
      if not (is_empty intent_key)
      then resume_session cfg intent_key
      else if is_empty idempotency_key
      then fail (wrapped (sentinel invalid_request))
      else create_new_session rt req idempotency_key
