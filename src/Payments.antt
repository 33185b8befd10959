-- ===== src/Payments.antt =====
-- internal/payments/types.go: requests, responses and provider payloads.
pub mod Helpers
pub mod Request
pub mod Scope
pub mod Session
pub mod Monitors
pub mod Resume
pub mod Webhook
pub mod Replay
pub mod Draft
pub mod Create
pub mod Worker
pub mod Status
pub mod Adapter
pub mod Http
use edn_core.Prelude.{ℕ, Bool, ℤ, Option}
use edn_core.Text.{Text}
use edn_core.Checkout.{Time, OrderStatus, PaymentStatus, SubscriptionStatus}

pub record CustomerPayload : Type 0 where
  pub name : Text
  pub email : Text
  pub phone : Text
  pub document : Text

pub record CreateCheckoutRequest : Type 0 where
  pub organization_slug : Text
  pub tenant_slug : Text
  pub channel : Text
  pub plan_slug : Text
  pub billing_cycle : Text
  pub customer : CustomerPayload
  pub checkout_intent_key : Text
  pub idempotency_key : Text

pub record CreateCheckoutResponse : Type 0 where
  pub order_nsu : Text
  pub checkout_intent_key : Text
  pub status : OrderStatus
  pub checkout_url : Text
  pub expires_at : Time
  pub resumed : Bool

pub record OrderStatusResponse : Type 0 where
  pub order_nsu : Text
  pub status : OrderStatus
  pub subscription_status : Option SubscriptionStatus
  pub receipt_url : Text
  pub plan_slug : Text

pub record TrackCheckoutResponse : Type 0 where
  pub order_nsu : Text
  pub checkout_intent_key : Text
  pub status : OrderStatus
  pub plan_slug : Text
  pub expires_at : Time
  pub updated_at : Time
  pub resumable : Bool
  pub checkout_url : Text
  pub receipt_url : Text

pub record AdminOrderSummary : Type 0 where
  pub order_nsu : Text
  pub status : OrderStatus
  pub plan_slug : Text
  pub billing_cycle : Text
  pub amount_cents : ℤ
  pub currency : Text
  pub created_at : Time
  pub updated_at : Time
  pub expires_at : Option Time

pub record PlanResponse : Type 0 where
  pub id : Text
  pub slug : Text
  pub name : Text
  pub billing_cycle : Text
  pub price_cents : ℤ
  pub currency : Text
  pub active : Bool
  pub max_installments : ℕ

pub record PaymentApprovedEvent : Type 0 where
  pub event_id : Text
  pub order_nsu : Text
  pub transaction_nsu : Text
  pub plan_slug : Text
  pub plan_id : Text
  pub amount_cents : ℤ
  pub paid_amount_cents : ℤ
  pub customer_email : Text
  pub occurred_at : Time

pub record InfinitePayCheckoutRequest : Type 0 where
  pub handle : Text
  pub order_nsu : Text
  pub plan_name : Text
  pub amount_cents : ℤ
  pub currency : Text
  pub max_installments : ℕ
  pub customer_name : Text
  pub customer_email : Text
  pub customer_phone : Text
  pub customer_document : Text
  pub webhook_url : Text
  pub redirect_url : Text

pub record InfinitePayCheckoutResponse : Type 0 where
  pub checkout_url : Text
  pub invoice_slug : Text

pub record InfinitePayVerifyResponse : Type 0 where
  pub provider_status : Text
  pub status : PaymentStatus
  pub paid_amount_cents : ℤ
  pub currency : Text
  pub receipt_url : Text
  pub transaction_nsu : Text

-- minimalWebhookPayload of internal/payments/webhook.go
pub record MinimalWebhookPayload : Type 0 where
  pub transaction_nsu : Text
  pub order_nsu : Text
  pub invoice_slug : Text
