-- ===== src/Idempotency.antt =====
-- internal/idempotency/types.go and the statuses of internal/idempotency/errors.go. The resource
-- status of a checkout key is an order status; the empty string is `none`.
use edn_core.Prelude.{Bool, Option}
use edn_core.Text.{Text}
use edn_core.Checkout.{Time, OrderStatus}

pub data KeyStatus : Type 0 where
  pending committed failed : KeyStatus
  other : Text → KeyStatus

pub record Key : Type 0 where
  pub operation : Text
  pub organization_id : Text
  pub tenant_id : Text
  pub idempotency_key : Text
  pub request_hash : Text
  pub resource_type : Text
  pub resource_id : Text
  pub resource_status : Option OrderStatus
  pub resource_url : Text
  pub external_ref : Text
  pub status : KeyStatus
  pub expirable : Bool
  pub expires_at : Time
  pub created_at : Time
  pub updated_at : Time
