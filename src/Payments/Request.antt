-- ===== src/Payments/Request.antt =====
-- internal/payments/helpers.go: validating a checkout request, and the hashes that key it.
use edn_core.Prelude.{◌&&◌, not, [], ◌∷◌, if◌then◌else◌}
use edn_core.Text.{Text, lit, ◌=?◌, is_empty, trim_space, join}
use edn_core.Errors.{Result, ok, err}
use edn_core.Runtime.{Runtime}
use edn_core.Payments.{CreateCheckoutRequest}
use edn_core.Payments.Helpers.{
  invalid, is_plan_slug, is_email, to_lower_text, normalize_cpf, normalize_phone,
  normalize_sales_channel, validate_tenant_scope,
}

-- `if _, err := …; err != nil { return … }`
abbrev and_then : {A : Type 0} → Result A → Result (Unit {0}) → Result (Unit {0})
and_then (ok _) r = r
and_then (err e) r = err e

-- `return fmt.Errorf("%w: …", ErrInvalidRequest)` in place of the error itself
abbrev and_then_invalid : {A : Type 0} → Result A → Result (Unit {0}) → Result (Unit {0})
and_then_invalid (ok _) r = r
and_then_invalid (err e) r = invalid

module _ (rt : Runtime) where
  unfoldable pub validate_create_checkout_request : CreateCheckoutRequest → Result (Unit {0})
  validate_create_checkout_request req =
      if not (is_plan_slug req.plan_slug)
      then invalid
      else and_then (validate_tenant_scope rt req.organization_slug req.tenant_slug) (
          and_then (normalize_sales_channel rt req.channel) (
            if not (req.billing_cycle =? lit "monthly") && not (req.billing_cycle =? lit "annual")
            then invalid
            else if is_empty (trim_space req.customer.name)
            then invalid
            else if not (is_email (to_lower_text rt (trim_space req.customer.email)))
            then invalid
            else and_then_invalid (normalize_phone rt req.customer.phone)
                (and_then (normalize_cpf rt req.customer.document) (ok tt))))

  -- CalculateEventHash
  unfoldable pub calculate_event_hash : Text → Text
  calculate_event_hash body = rt.sha256_hex body

  unfoldable pub calculate_checkout_request_hash :
      Text → Text → Text → Text → Text → Text → Text → Text → Text → Text
  unfolding calculate_event_hash
  calculate_checkout_request_hash org tenant channel plan_slug billing_cycle name email phone cpf =
      calculate_event_hash (
        join (lit "|") (
          trim_space (to_lower_text rt org)
          ∷ trim_space (to_lower_text rt tenant)
          ∷ trim_space (to_lower_text rt channel)
          ∷ trim_space plan_slug
          ∷ trim_space billing_cycle
          ∷ trim_space name
          ∷ trim_space (to_lower_text rt email)
          ∷ trim_space phone
          ∷ trim_space cpf
          ∷ []))

  unfoldable pub calculate_fingerprint_hash : Text → Text → Text → Text → Text
  unfolding calculate_event_hash
  calculate_fingerprint_hash tenant_id cpf plan_slug billing_cycle =
      calculate_event_hash (join (lit "|") (tenant_id ∷ cpf ∷ plan_slug ∷ billing_cycle ∷ []))
