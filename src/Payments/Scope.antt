-- ===== src/Payments/Scope.antt =====
-- internal/payments/service.go: resolving organization, tenant and plan, and listing plans.
pub mod Plans
use edn_core.Prelude.{ℕ, ℤ, Option, some, List, [], ◌∷◌, ◌++◌, any, if◌then◌else◌}
use edn_core.Text.{Text, lit, ◌=?◌, trim_space}
use edn_core.Checkout.{Time}
use edn_core.Tenancy.{Organization, Tenant, Plan}
use edn_core.Errors.{
  Result, ok, err, sentinel, organization_not_found, tenant_not_found, plan_not_found,
}
use edn_core.Runtime.{Runtime}
use edn_core.Payments.{PlanResponse}
use edn_core.Payments.Helpers.{to_lower_text, normalize_sales_channel, validate_tenant_scope}
use edn_core.Effects.{
  Prog, ret, find_by_slug, find_by_org_and_slug, find_sellable_by_tenant_slug,
  list_active_by_tenant, attempt, bind, ask, wrap, success, ◌>>=◌, ◌>>◌,
}

pub record ResolvedTenantScope : Type 0 where
  pub organization_id : Text
  pub tenant_id : Text
  pub organization : Text
  pub tenant : Text
  pub channel : Text

pub record ResolvedCheckoutPlan : Type 0 where
  pub plan_id : Text
  pub plan_version : ℕ
  pub plan_source : Text
  pub name : Text
  pub slug : Text
  pub billing_cycle : Text
  pub price_cents : ℤ
  pub currency : Text
  pub max_installments : ℕ

-- `err != nil || org == nil || !org.Active`
unfoldable active_organization : Result (Option Organization) → Result Organization
active_organization (ok (some org)) =
    if org.active then ok org else err (sentinel organization_not_found)
active_organization _ = err (sentinel organization_not_found)

unfoldable active_tenant : Result (Option Tenant) → Result Tenant
active_tenant (ok (some tenant)) =
    if tenant.active then ok tenant else err (sentinel tenant_not_found)
active_tenant _ = err (sentinel tenant_not_found)

abbrev pub resolved_from : Plan → ResolvedCheckoutPlan
resolved_from plan = record {
  plan_id = plan.plan_uuid;
  plan_version = plan.version;
  plan_source = lit "versioned";
  name = plan.name;
  slug = plan.slug;
  billing_cycle = plan.billing_cycle;
  price_cents = plan.price_cents;
  currency = plan.currency;
  max_installments = plan.max_installments;
}

unfoldable resolved_plan : Result Plan → Result ResolvedCheckoutPlan
resolved_plan (err _) = err (sentinel plan_not_found)
resolved_plan (ok plan) = ok (resolved_from plan)

-- The key of `seen`: slug, '|', billing cycle.
abbrev pub plan_key : Plan → Text
plan_key plan = plan.slug ++ lit "|" ++ plan.billing_cycle

abbrev plan_response : Plan → PlanResponse
plan_response plan = record {
  id = plan.plan_uuid;
  slug = plan.slug;
  name = plan.name;
  billing_cycle = plan.billing_cycle;
  price_cents = plan.price_cents;
  currency = plan.currency;
  active = plan.active;
  max_installments = plan.max_installments;
}

-- versionedPlanResponses, with the keys already seen
unfoldable pub plan_responses_from : List Text → List Plan → List PlanResponse
plan_responses_from seen [] = []
plan_responses_from seen (plan ∷ plans) =
    let old = plan_responses_from seen plans in
    let new = plan_response plan ∷ plan_responses_from (plan_key plan ∷ seen) plans in
    if any (λ k. k =? plan_key plan) seen then old else new

unfoldable pub versioned_plan_responses : List Plan → List PlanResponse
unfolding plan_responses_from
versioned_plan_responses plans = plan_responses_from [] plans

module _ (rt : Runtime) where
  unfoldable pub resolve_tenant_scope : Text → Text → Text → Prog (Result ResolvedTenantScope)
  unfolding active_organization active_tenant
  resolve_tenant_scope organization_slug tenant_slug channel = do
    normalized_channel ← ret (normalize_sales_channel rt channel)
    ret (validate_tenant_scope rt organization_slug tenant_slug)
    found ← attempt (ask (find_by_slug (to_lower_text rt (trim_space organization_slug))))
    org ← ret (active_organization found)
    found' ←
        attempt
          (ask (find_by_org_and_slug org.org_uuid (to_lower_text rt (trim_space tenant_slug))))
    tenant ← ret (active_tenant found')
    success (record {
      organization_id = org.org_uuid;
      tenant_id = tenant.tenant_uuid;
      organization = org.slug;
      tenant = tenant.slug;
      channel = normalized_channel;
    })

  unfoldable pub resolve_checkout_plan :
      ResolvedTenantScope → Text → Text → Time → Prog (Result ResolvedCheckoutPlan)
  unfolding resolved_plan
  resolve_checkout_plan scope plan_slug billing_cycle now =
      bind
        (ask
          (find_sellable_by_tenant_slug scope.tenant_id plan_slug billing_cycle scope.channel now))
        (λ found. ret (resolved_plan found))

  -- PlanQueryService.ListActivePlans
  unfoldable pub list_active_plans : Text → Text → Text → Prog (Result (List PlanResponse))
  list_active_plans organization_slug tenant_slug channel = do
    scope ← resolve_tenant_scope organization_slug tenant_slug channel
    plans ← wrap (ask (list_active_by_tenant scope.tenant_id scope.channel))
    success (versioned_plan_responses plans)
