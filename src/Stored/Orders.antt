-- ===== src/Stored/Orders.antt =====
-- internal/checkout/mongodb_repository.go: the orders, and the adapter of
-- internal/payments/mongodb_repository.go around them. Their unique indexes are those of
-- ensureOrdersIndexes in internal/platform/mongodb/checkout.go.
pub mod Queries
pub mod Writes
pub mod Lifetime
use edn_core.Prelude.{
  ℕ, leb, ◌==◌, Bool, true, false, not, ◌&&◌, ◌||◌, none, some, List, [], ◌∷◌, if◌then◌else◌,
}
use edn_core.Text.{Text, ◌=?◌, is_empty}
use edn_core.Checkout.{Time, Order, OrderStatus, created, checkout_created}
use edn_core.Errors.{
  Error, sentinel, Result, ok, err, errors_is, duplicate_order, stored_order_not_found,
  order_not_found,
}
use edn_core.Mongo.{Collection, UniqueIndex}
use edn_core.Stored.Results.{
  bson_date, optional_date, field_is, insert_result, find_result, find_all_result, update_result,
  with_result,
}

abbrev pub orders_indexes : List (UniqueIndex Order)
orders_indexes =
    record { fields = λ o. o.order_nsu ∷ []; holds_document = λ o. true }
    ∷ record {
      fields = λ o. o.checkout_intent_key ∷ [];
      holds_document = λ o. not (is_empty o.checkout_intent_key);
    }
    ∷ []

abbrev pub has_nsu : Text → Order → Bool
has_nsu order_nsu o = o.order_nsu =? order_nsu

abbrev pub has_intent_key : Text → Order → Bool
has_intent_key intent_key o = field_is o.checkout_intent_key intent_key

abbrev has_document : Text → Order → Bool
has_document normalized_document o = field_is o.customer_document normalized_document

-- The status is one of the open ones.
unfoldable pub is_open : OrderStatus → Bool
is_open created = true
is_open checkout_created = true
is_open OrderStatus.pending = true
is_open _ = false

unfoldable pub has_fingerprint : Text → Text → Text → Text → Order → Bool
unfolding is_open
has_fingerprint tenant_id normalized_cpf plan_slug billing_cycle o =
    field_is o.tenant_id tenant_id
    && (field_is o.customer_document normalized_cpf
        && (o.plan_slug =? plan_slug && (o.billing_cycle =? billing_cycle && is_open o.status)))

-- SetSort of `created_at` descending
abbrev pub newest_first : Order → Order → Bool
newest_first a b = leb b.created_at a.created_at

-- The document of an order.
abbrev pub as_stored : Order → Order
as_stored o = record o {
  provider_create_attempted_at = optional_date o.provider_create_attempted_at;
  expires_at = bson_date o.expires_at;
  created_at = bson_date o.created_at;
  updated_at = bson_date o.updated_at;
}

-- The `$set` documents.
abbrev pub with_status : OrderStatus → Time → Order → Order
with_status status updated_at o = record o { status = status; updated_at = bson_date updated_at }

abbrev pub with_provider_url : Text → Text → Time → Order → Order
with_provider_url checkout_url slug updated_at o = record o {
  provider_checkout_url = checkout_url;
  invoice_slug = slug;
  updated_at = bson_date updated_at;
}

abbrev pub with_receipt : Text → Time → Order → Order
with_receipt url updated_at o = record o { receipt_url = url; updated_at = bson_date updated_at }

abbrev pub with_attempt : Time → Order → Order
with_attempt attempted_at o = record o {
  provider_create_attempted_at = some (bson_date attempted_at);
  updated_at = bson_date attempted_at;
}

module _ (c : Collection Order) where
  -- mongoOrders.Create
  unfoldable pub create : Order → c.State → c.State × Result (Unit {0})
  create order s =
      with_result (insert_result (sentinel duplicate_order)) (c.insert_one (as_stored order) s)

  -- FindByNSU and FindByIntentKey
  unfoldable find_by_nsu : Text → c.State → Result Order
  find_by_nsu order_nsu s = find_result stored_order_not_found (c.find_one (has_nsu order_nsu) s)

  unfoldable pub find_by_intent_key : Text → c.State → Result Order
  find_by_intent_key intent_key s =
      find_result stored_order_not_found (c.find_one (has_intent_key intent_key) s)

  abbrev set : Text → (Order → Order) → c.State → c.State × Result (Unit {0})
  set order_nsu update s =
      with_result (update_result (sentinel stored_order_not_found))
        (c.update_one (has_nsu order_nsu) update s)

  -- UpdateStatus
  unfoldable pub update_status : Text → OrderStatus → Time → c.State → c.State × Result (Unit {0})
  update_status order_nsu status updated_at = set order_nsu (with_status status updated_at)

  -- UpdateProviderURL
  unfoldable pub update_provider_url :
      Text → Text → Text → Time → c.State → c.State × Result (Unit {0})
  update_provider_url order_nsu checkout_url invoice_slug updated_at =
      set order_nsu (with_provider_url checkout_url invoice_slug updated_at)

  -- UpdateReceipt
  unfoldable pub update_receipt : Text → Text → Time → c.State → c.State × Result (Unit {0})
  update_receipt order_nsu receipt_url updated_at =
      set order_nsu (with_receipt receipt_url updated_at)

  -- MarkProviderCreateAttempted
  unfoldable pub mark_provider_create_attempted :
      Text → Time → c.State → c.State × Result (Unit {0})
  mark_provider_create_attempted order_nsu attempted_at = set order_nsu (with_attempt attempted_at)

  -- FindByCustomerDocument
  unfoldable pub find_by_customer_document : Text → c.State → Result (List Order)
  find_by_customer_document normalized_document s =
      find_all_result (c.find_sorted (has_document normalized_document) newest_first (some 100) s)

  -- FindOpenByBusinessFingerprint
  unfoldable pub find_open_by_business_fingerprint :
      Text → Text → Text → Text → c.State → Result (List Order)
  unfolding has_fingerprint
  find_open_by_business_fingerprint tenant_id normalized_cpf plan_slug billing_cycle s =
      find_all_result (
        c.find_sorted (has_fingerprint tenant_id normalized_cpf plan_slug billing_cycle)
          newest_first none s)

-- `errors.Is(err, checkout.ErrOrderNotFound)`, of GetByNSU and FindByIntentKey in the adapter
abbrev pub adapt_not_found : Result Order → Result Order
adapt_not_found (ok order) = ok order
adapt_not_found (err e) =
    if errors_is e stored_order_not_found then err (sentinel order_not_found) else err e

module _ (c : Collection Order) where
  -- orderRepo.GetByNSU
  unfoldable pub get_by_nsu : Text → c.State → Result Order
  unfolding find_by_nsu
  get_by_nsu order_nsu s = adapt_not_found (find_by_nsu c order_nsu s)

  -- orderRepo.FindByIntentKey
  unfoldable pub adapted_find_by_intent_key : Text → c.State → Result Order
  unfolding find_by_intent_key
  adapted_find_by_intent_key intent_key s = adapt_not_found (find_by_intent_key c intent_key s)
