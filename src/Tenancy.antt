-- ===== src/Tenancy.antt =====
-- The scopes and plans that a checkout resolves: internal/organizations/types.go,
-- internal/tenants/types.go and internal/plans/types.go, without the fields that no modelled code
-- reads (postal addresses, legal data, package references).
use edn_core.Prelude.{ℕ, Bool, ℤ, Option, List}
use edn_core.Text.{Text}
use edn_core.Checkout.{Time}

pub record Organization : Type 0 where
  pub org_uuid : Text
  pub slug : Text
  pub name : Text
  pub active : Bool

pub record Tenant : Type 0 where
  pub tenant_uuid : Text
  pub organization_id : Text
  pub slug : Text
  pub name : Text
  pub channels : List Text
  pub active : Bool

pub record Plan : Type 0 where
  pub plan_uuid : Text
  pub organization_id : Text
  pub tenant_id : Text
  pub slug : Text
  pub version : ℕ
  pub name : Text
  pub billing_cycle : Text
  pub price_cents : ℤ
  pub currency : Text
  pub max_installments : ℕ
  pub channel : Text
  pub active : Bool
  pub valid_from : Time
  pub valid_until : Option Time
