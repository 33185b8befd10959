-- ===== src/Payments/Draft.antt =====
-- internal/payments/service.go: what CreateSession has worked out before it creates an order, the
-- order, and the orders that it finds open.
use edn_core.Prelude.{◌+◌, ◌||◌, Option, none, List, [], ◌∷◌, if◌then◌else◌}
use edn_core.Text.{Text, lit}
use edn_core.Checkout.{Time, Order, created, expired}
use edn_core.Errors.{Result, ok, err, sentinel, checkout_already_open}
use edn_core.Payments.{CreateCheckoutResponse}
use edn_core.Payments.Scope.{ResolvedTenantScope, ResolvedCheckoutPlan}
use edn_core.Payments.Session.{checkout_intent_key_ttl, is_blank, has_expired}
use edn_core.Payments.Resume.{lock_error}
use edn_core.Effects.{
  Prog, find_open_by_business_fingerprint, update_status, acquire_order_lock, release_order_lock,
  new_uuid, attempt, ask, wrap, success, fail, deferring, ◌>>=◌, ◌>>◌,
}

abbrev pub text_of : Result Text → Text
text_of (ok s) = s
text_of (err _) = []

-- What CreateSession has worked out before it creates an order.
pub record Draft : Type 0 where
  pub scope : ResolvedTenantScope
  pub plan : ResolvedCheckoutPlan
  pub idempotency_key : Text
  pub request_hash : Text
  pub customer_name : Text
  pub email : Text
  pub phone : Text
  pub cpf : Text
  pub now : Time

unfoldable pub expire_stale_order_under_lock : Text → Time → Prog (Result (Unit {0}))
expire_stale_order_under_lock order_nsu now = do
  token ← attempt (ask new_uuid)
  locked ← attempt (ask (acquire_order_lock order_nsu token))
  elim locked [
    | err e ↦ fail (lock_error e)
    | ok _ ↦
        deferring (release_order_lock order_nsu token)
          (wrap (ask (update_status order_nsu expired now)))
  ]

-- The loop of reuseOpenOrderForFingerprint: a stale order is expired, an active one blocks.
unfoldable pub expire_or_block : Time → List Order → Prog (Result (Option CreateCheckoutResponse))
expire_or_block now [] = success none
expire_or_block now (order ∷ orders) =
    if has_expired now order.expires_at || is_blank order.checkout_intent_key
    then (expire_stale_order_under_lock order.order_nsu now >> expire_or_block now orders)
    else fail (sentinel checkout_already_open)

unfoldable pub reuse_open_order_for_fingerprint :
    Draft → Prog (Result (Option CreateCheckoutResponse))
unfolding expire_or_block
reuse_open_order_for_fingerprint d = do
  existing ← wrap (
      ask (
        find_open_by_business_fingerprint d.scope.tenant_id d.cpf d.plan.slug d.plan.billing_cycle))
  expire_or_block d.now existing

abbrev pub new_order : Draft → Text → Text → Order
new_order d order_nsu intent_key = record {
  order_nsu = order_nsu;
  organization_id = d.scope.organization_id;
  tenant_id = d.scope.tenant_id;
  plan_id = d.plan.plan_id;
  plan_slug = d.plan.slug;
  plan_version = d.plan.plan_version;
  plan_source = d.plan.plan_source;
  billing_cycle = d.plan.billing_cycle;
  amount_cents = d.plan.price_cents;
  currency = d.plan.currency;
  customer_name = d.customer_name;
  customer_email = d.email;
  customer_phone = d.phone;
  customer_document = d.cpf;
  status = created;
  provider = lit "infinitepay";
  provider_checkout_url = lit "";
  invoice_slug = lit "";
  receipt_url = lit "";
  checkout_intent_key = intent_key;
  provider_create_attempted_at = none;
  expires_at = d.now + checkout_intent_key_ttl;
  created_at = d.now;
  updated_at = d.now;
}
