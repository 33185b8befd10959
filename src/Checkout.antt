-- ===== src/Checkout.antt =====
-- internal/checkout/types.go: the documents of the checkout collections. The `_id` that MongoDB
-- assigns is left out, and a raw payload is a text. A stored status is the string that the source
-- converts to `OrderStatus` and the like (internal/payments/types.go): `other` holds any string
-- that is none of the constants. A time is the number of nanoseconds since Go's zero time, which
-- is 0, and an `int64` amount is an integer, since amounts are only compared.
use edn_core.Prelude.{ℕ, Bool, ℤ, Option, ◌==◌, ltb, ◌*◌}
use edn_core.Text.{Text}

abbrev pub Time : Type 0
Time = ℕ

-- time.Time's `IsZero`, `After` and `Add`, and the durations of the source
abbrev pub is_zero : Time → Bool
is_zero t = t == 0

abbrev pub after : Time → Time → Bool
after t u = ltb u t

abbrev pub before : Time → Time → Bool
before t u = ltb t u

abbrev pub second : ℕ
second = 1000000000

abbrev pub minute : ℕ
minute = 60 * second

abbrev pub hour : ℕ
hour = 60 * minute

pub data OrderStatus : Type 0 where
  created checkout_created pending paid failed expired pending_review : OrderStatus
  other : Text → OrderStatus

pub data PaymentStatus : Type 0 where
  pending approved rejected refunded chargeback pending_review : PaymentStatus
  other : Text → PaymentStatus

pub data SubscriptionStatus : Type 0 where
  pending_activation active suspended canceled expired : SubscriptionStatus
  other : Text → SubscriptionStatus

pub record Order : Type 0 where
  pub order_nsu : Text
  pub organization_id : Text
  pub tenant_id : Text
  pub plan_id : Text
  pub plan_slug : Text
  pub plan_version : ℕ
  pub plan_source : Text
  pub billing_cycle : Text
  pub amount_cents : ℤ
  pub currency : Text
  pub customer_name : Text
  pub customer_email : Text
  pub customer_phone : Text
  pub customer_document : Text
  pub status : OrderStatus
  pub provider : Text
  pub provider_checkout_url : Text
  pub invoice_slug : Text
  pub receipt_url : Text
  pub checkout_intent_key : Text
  pub provider_create_attempted_at : Option Time
  pub expires_at : Time
  pub created_at : Time
  pub updated_at : Time

pub record Payment : Type 0 where
  pub payment_id : Text
  pub order_nsu : Text
  pub transaction_nsu : Text
  pub invoice_slug : Text
  pub amount_cents : ℤ
  pub paid_amount_cents : ℤ
  pub installments : ℕ
  pub capture_method : Text
  pub receipt_url : Text
  pub status : PaymentStatus
  pub raw_payload : Text
  pub created_at : Time
  pub updated_at : Time

pub record Subscription : Type 0 where
  pub subscription_id : Text
  pub customer_email : Text
  pub plan_id : Text
  pub plan_slug : Text
  pub status : SubscriptionStatus
  pub origin_order_nsu : Text
  pub starts_at : Time
  pub ends_at : Time
  pub created_at : Time
  pub updated_at : Time

pub record WebhookEvent : Type 0 where
  pub event_id : Text
  pub provider : Text
  pub event_hash : Text
  pub order_nsu : Text
  pub transaction_nsu : Text
  pub status : PaymentStatus
  pub raw_payload : Text
  pub received_at : Time
  pub processed_at : Option Time

pub record OutboxEvent : Type 0 where
  pub event_id : Text
  pub event_type : Text
  pub payload : Text
  pub published : Bool
  pub created_at : Time
  pub published_at : Option Time
