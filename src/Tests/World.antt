-- ===== src/Tests/World.antt =====
-- A concrete world: a library that is ASCII's, a seller with one plan, repositories that hold what
-- they are asked for, and a provider that accepts.
use edn_core.Prelude.{
  ◌+◌, ◌*◌, refl, true, false, ◌&&◌, leb, pos, none, some, [], ◌∷◌, arith, if◌then◌else◌,
}
use edn_core.Text.{Text, lit, is_space, is_ascii_digit}
use edn_core.Checkout.{hour, Order, checkout_created, approved, OutboxEvent}
use edn_core.Idempotency.{Key, KeyStatus}
use edn_core.Tenancy.{Plan}
use edn_core.Errors.{ok, err, sentinel, key_not_found}
use edn_core.Runtime.{Runtime, UnicodeLaws}
use edn_core.Payments.{CreateCheckoutRequest, PaymentApprovedEvent}
use edn_core.Payments.Session.{PaymentsConfig}
use edn_core.Payments.Monitors.{Fetched}
use edn_core.Effects.{
  Call, Reply, find_by_slug, find_by_org_and_slug, find_sellable_by_tenant_slug,
  list_active_by_tenant, find_by_uuid, get_by_nsu, find_by_intent_key, find_by_customer_document,
  find_open_by_business_fingerprint, get_payments_by_order_nsu, get_by_origin_order_nsu,
  find_by_transaction_nsu, fetch_unpublished, create_checkout, verify_payment, check_webhook_dedup,
  find_by_tenant_op_key, find_by_tenant_op_resource_id, time_now, new_uuid, rand_read,
}
use edn_core.Effects.Run.{History, Environment}

abbrev pub approved_event : PaymentApprovedEvent
approved_event = record {
  event_id = lit "e1";
  order_nsu = lit "o1";
  transaction_nsu = lit "t1";
  plan_slug = lit "pro";
  plan_id = lit "p1";
  amount_cents = pos 9900;
  paid_amount_cents = pos 9900;
  customer_email = lit "ana@example.com";
  occurred_at = 1000;
}

abbrev pub library : Runtime
library = record {
  is_digit = is_ascii_digit;
  to_lower = λ c. if leb 65 c && leb c 90 then c + 32 else c;
  sha256_hex = λ s. s;
  uuid_sha1 = λ s. s;
  add_date = λ t years months days. t + (years * 365 + months * 30 + days) * 24 * hour;
  decode_webhook = λ s.
      some (record { transaction_nsu = lit "t1"; order_nsu = lit "o1"; invoice_slug = lit "i1" });
  encode_event = λ event. event.order_nsu;
  decode_event = λ s. some approved_event;
  encode_raw = λ s. s;
}

library-UnicodeLaws : UnicodeLaws library
unfolding is_space is_ascii_digit
library-UnicodeLaws = record { ascii_digits = λ c h. refl; space_no_digit = λ c h. ground arith }

abbrev pub config : PaymentsConfig
config = record {
  handle = lit "shop";
  webhook_url = lit "https://shop.example/hook";
  redirect_url = lit "https://shop.example/done";
}

abbrev pub request : CreateCheckoutRequest
request = record {
  organization_slug = lit "acme";
  tenant_slug = lit "main";
  channel = lit "web";
  plan_slug = lit "pro";
  billing_cycle = lit "monthly";
  customer = record {
    name = lit "Ana";
    email = lit "ana@example.com";
    phone = lit "+5511987654321";
    document = lit "529.982.247-25";
  };
  checkout_intent_key = lit "";
  idempotency_key = lit "k1";
}

abbrev pub plan : Plan
plan = record {
  plan_uuid = lit "p1";
  organization_id = lit "org";
  tenant_id = lit "ten";
  slug = lit "pro";
  version = 3;
  name = lit "Pro";
  billing_cycle = lit "monthly";
  price_cents = pos 9900;
  currency = lit "BRL";
  max_installments = 1;
  channel = lit "web";
  active = true;
  valid_from = 0;
  valid_until = none;
}

-- An open order without a link.
abbrev pub order_of : Text → Text → Order
order_of order_nsu intent_key = record {
  order_nsu = order_nsu;
  organization_id = lit "org";
  tenant_id = lit "ten";
  plan_id = lit "p1";
  plan_slug = lit "pro";
  plan_version = 3;
  plan_source = lit "versioned";
  billing_cycle = lit "monthly";
  amount_cents = pos 9900;
  currency = lit "BRL";
  customer_name = lit "Ana";
  customer_email = lit "ana@example.com";
  customer_phone = lit "+5511987654321";
  customer_document = lit "52998224725";
  status = checkout_created;
  provider = lit "infinitepay";
  provider_checkout_url = lit "";
  invoice_slug = lit "";
  receipt_url = lit "";
  checkout_intent_key = intent_key;
  provider_create_attempted_at = none;
  expires_at = 5000;
  created_at = 500;
  updated_at = 500;
}

abbrev pub key : Key
key = record {
  operation = lit "checkout.create";
  organization_id = lit "org";
  tenant_id = lit "ten";
  idempotency_key = lit "k1";
  request_hash = lit "h";
  resource_type = lit "order";
  resource_id = lit "o1";
  resource_status = none;
  resource_url = lit "";
  external_ref = lit "";
  status = KeyStatus.pending;
  expirable = true;
  expires_at = 5000;
  created_at = 500;
  updated_at = 500;
}

abbrev pub outbox_event : OutboxEvent
outbox_event = record {
  event_id = lit "e1";
  event_type = lit "payment.approved";
  payload = lit "o1";
  published = false;
  created_at = 900;
  published_at = none;
}

abbrev reply : (c : Call) → Reply c
reply (find_by_slug slug) =
    ok (some (record { org_uuid = lit "org"; slug = slug; name = lit "Acme"; active = true }))
reply (find_by_org_and_slug org slug) = ok (
    some (record {
      tenant_uuid = lit "ten";
      organization_id = org;
      slug = slug;
      name = lit "Main";
      channels = lit "web" ∷ [];
      active = true;
    }))
reply (find_sellable_by_tenant_slug _ _ _ _ _) = ok plan
reply (list_active_by_tenant _ _) = ok (plan ∷ [])
reply (find_by_uuid _) = ok plan
reply (get_by_nsu nsu) = ok (order_of nsu (lit "i1"))
reply (find_by_intent_key intent_key) = ok (order_of (lit "o1") intent_key)
reply (find_by_customer_document _) = ok (order_of (lit "o1") (lit "i1") ∷ [])
reply (find_open_by_business_fingerprint _ _ _ _) = ok []
reply (get_payments_by_order_nsu _) = ok []
reply (get_by_origin_order_nsu _) = ok none
reply (find_by_transaction_nsu _) = ok []
reply (fetch_unpublished _) = ok (outbox_event ∷ [])
reply (create_checkout _) =
    ok (record { checkout_url = lit "https://pay.example/1"; invoice_slug = lit "inv1" })
reply (verify_payment _ _ transaction_nsu) = ok (record {
  provider_status = lit "approved";
  status = approved;
  paid_amount_cents = pos 9900;
  currency = lit "BRL";
  receipt_url = lit "https://pay.example/r1";
  transaction_nsu = transaction_nsu;
})
reply (check_webhook_dedup _ _) = ok (false, false)
reply (find_by_tenant_op_key _ _ _) = err (sentinel key_not_found)
reply (find_by_tenant_op_resource_id _ _ _) = ok key
reply time_now = 1000
reply new_uuid = lit "u1"
reply (rand_read n) = ok (1 ∷ 2 ∷ 3 ∷ [])
reply _ = ok tt

abbrev pub world : Environment
world h c = reply c

pub world-Fetched : (h : History) (c : Call) → Fetched c (world h c)
world-Fetched h (get_by_nsu _) = refl
world-Fetched h (find_by_intent_key _) = refl
world-Fetched h _ = tt
