-- ===== src/Recreate.antt =====
-- cmd/recreate-checkout: the operator's tool that asks the API for a new checkout from the data of a
-- legacy order. What the repositories answer is an argument, the host of a URL is as url.Parse and
-- Hostname give it (`none` where parsing fails), and the request that is sent is the result.
pub mod Safety
use edn_core.Prelude.{
  ℕ, zero, suc, ◌-◌, ltb, Bool, true, false, not, ◌||◌, Option, none, some, is_some, List, [], ◌∷◌,
  ◌++◌, ◌==◌, length, drop, if◌then◌else◌,
}
use edn_core.Text.{Text, lit, is_empty, ◌=?◌, trim_space, keep, is_ascii_digit}
use edn_core.Checkout.{Order, OrderStatus, created}
use edn_core.Tenancy.{Organization, Tenant}
use edn_core.Errors.{Error, Result, ok, err, wrapped, other, errors_is, stored_order_not_found}
use edn_core.Runtime.{Runtime}
use edn_core.Payments.{CustomerPayload, CreateCheckoutRequest}
use edn_core.Payments.Helpers.{normalize_sales_channel}
use edn_core.Payments.Session.{is_blank}

-- The flags, and the database name of the configuration.
pub record Options : Type 0 where
  pub order_nsu : Text
  pub channel : Text
  pub base_url : Text
  pub idempotency_key : Text
  pub dry_run : Bool
  pub allow_unsafe_url : Bool
  pub database : Text

-- FindByNSU and the two FindByUUID
pub record Stores : Type 0 where
  pub find_order : Text → Result Order
  pub find_organization : Text → Result Organization
  pub find_tenant : Text → Result Tenant

-- How run ends: with an error, with the summary of a dry run, or with a POST of the request to an
-- endpoint under an idempotency key.
pub data Outcome : Type 0 where
  failed : Outcome
  summarised : CreateCheckoutRequest → Outcome
  posted : Text → Text → CreateCheckoutRequest → Outcome

abbrev is_created : OrderStatus → Bool
is_created created = true
is_created _ = false

-- checkOrderEligibility
unfoldable pub check_order_eligibility : Order → Bool
check_order_eligibility order =
    if not (is_created order.status)
    then false
    else if not (is_blank order.provider_checkout_url)
    then false
    else if not (is_blank order.invoice_slug)
    then false
    else not (is_some order.provider_create_attempted_at)

-- strings.TrimRight(s, "/")
unfoldable pub trim_slashes : Text → Text
trim_slashes [] = []
trim_slashes (c ∷ s) =
    let rest = trim_slashes s in
    if c == b'/' then (if is_empty rest then [] else c ∷ rest) else c ∷ rest

unfoldable pub infer_base_url : Text → Text
infer_base_url database =
    if database =? lit "edn-core-db-prd"
    then lit "https://edn-core.app"
    else if database =? lit "edn-core-db-dev"
    then lit "https://dev.edn-core.app"
    else lit "http://localhost:8080"

abbrev is_approved_host : Text → Bool
is_approved_host host =
    host =? lit "localhost"
    || host =? lit "127.0.0.1"
    || host =? lit "edn-core.app"
    || host =? lit "dev.edn-core.app"

abbrev pub has_approved_host : Option Text → Bool
has_approved_host none = false
has_approved_host (some host) = is_approved_host host

module _ (host_of : Text → Option Text) where
  -- validateApprovedBaseURL
  unfoldable pub validate_approved_base_url : Text → Bool
  validate_approved_base_url raw_url = has_approved_host (host_of raw_url)

  -- resolveAndValidateBaseURL
  unfoldable pub resolve_base_url : Text → Text → Bool → Result Text
  unfolding validate_approved_base_url
  resolve_base_url override database allow_unsafe =
      if is_empty override
      then ok (infer_base_url database)
      else if not (validate_approved_base_url (trim_slashes override))
      then (if not allow_unsafe then err (wrapped other) else ok (trim_slashes override))
      else ok (trim_slashes override)

abbrev pub checkout_request : Order → Organization → Tenant → Text → CreateCheckoutRequest
checkout_request order org tenant channel = record {
  organization_slug = org.slug;
  tenant_slug = tenant.slug;
  channel = channel;
  plan_slug = order.plan_slug;
  billing_cycle = order.billing_cycle;
  customer = record {
    name = order.customer_name;
    email = order.customer_email;
    phone = order.customer_phone;
    document = order.customer_document;
  };
  checkout_intent_key = lit "";
  idempotency_key = lit "";
}

abbrev key_of : Text → Text → Text
key_of idempotency_key nsu =
    if is_empty (trim_space idempotency_key)
    then lit "recreate-checkout-v1:" ++ nsu
    else trim_space idempotency_key

-- The end of run: a dry run sends nothing.
unfoldable pub send : Options → Text → CreateCheckoutRequest → Outcome
send options api_base req =
    if options.dry_run
    then summarised req
    else posted (api_base ++ lit "/v1/checkout/sessions")
        (key_of options.idempotency_key (trim_space options.order_nsu)) req

unfoldable pub recreate_from :
    Options → Text → Text → Order → Result Organization → (Text → Result Tenant) → Outcome
unfolding send
recreate_from options channel api_base order (err _) find_tenant = failed
recreate_from options channel api_base order (ok org) find_tenant =
    elim (find_tenant order.tenant_id) [
      | err _ ↦ failed
      | ok tenant ↦ send options api_base (checkout_request order org tenant channel)
    ]

unfoldable pub recreate_order : Options → Stores → Text → Text → Result Order → Outcome
unfolding check_order_eligibility
recreate_order options stores channel api_base (err _) = failed
recreate_order options stores channel api_base (ok order) =
    if not (check_order_eligibility order)
    then failed
    else recreate_from options channel api_base order
        (stores.find_organization order.organization_id) stores.find_tenant

-- run, once the configuration is loaded
unfoldable pub run_recreate : Runtime → (Text → Option Text) → Options → Stores → Outcome
run_recreate rt host_of options stores =
    if is_empty (trim_space options.order_nsu)
    then failed
    else elim (normalize_sales_channel rt options.channel) [
      | err _ ↦ failed
      | ok channel ↦
          elim (resolve_base_url host_of options.base_url options.database
            options.allow_unsafe_url) [
              | err _ ↦ failed
              | ok api_base ↦
                  recreate_order options stores channel api_base
                    (stores.find_order (trim_space options.order_nsu))
            ]
    ]

unfoldable pub stars : ℕ → Text
stars zero = []
stars (suc n) = b'*' ∷ stars n

-- maskPhone and maskDocument: the digits, of which the last few are shown
unfoldable pub mask_phone : Text → Text
unfolding stars
mask_phone phone =
    let digits = keep is_ascii_digit phone in
    if ltb (length digits) 2
    then lit "***"
    else stars (length digits - 2) ++ drop (length digits - 2) digits

unfoldable pub mask_document : Text → Text
unfolding stars
mask_document doc =
    let d = keep is_ascii_digit doc in
    if ltb (length d) 3 then lit "***" else stars (length d - 3) ++ drop (length d - 3) d
