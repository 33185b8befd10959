-- ===== src/Payments/Session.antt =====
-- internal/payments/service.go and helpers.go: the steps that creating, resuming and replaying a
-- checkout session share.
use edn_core.Prelude.{
  ℕ, ◌+◌, ◌*◌, Bool, true, false, not, ◌&&◌, Option, none, some, List, if◌then◌else◌,
}
use edn_core.Text.{Text, lit, is_empty, trim_space}
use edn_core.Checkout.{
  Time, is_zero, after, minute, Order, OrderStatus, created, checkout_created, paid, failed,
  expired, pending_review,
}
use edn_core.Idempotency.{Key}
use edn_core.Errors.{
  Error, Result, ok, err, Sentinel, sentinel, wrapped, joined, new_checkout_continuation_error,
}
use edn_core.Payments.{CreateCheckoutResponse}
use edn_core.Payments.Helpers.IntentKey.{raw_url_encode}
use edn_core.Effects.{
  Prog, ret, call, update_provider_url, update_status, new_uuid, rand_read, bind, success,
}

-- The payments settings that a service reads.
pub record PaymentsConfig : Type 0 where
  pub handle : Text
  pub webhook_url : Text
  pub redirect_url : Text

abbrev pub checkout_create_operation : Text
checkout_create_operation = lit "checkout.create"

abbrev pub checkout_intent_key_ttl : Time
checkout_intent_key_ttl = 30 * minute

-- `strings.TrimSpace(s) == ""`
unfoldable pub is_blank : Text → Bool
is_blank s = is_empty (trim_space s)

-- `!order.ExpiresAt.IsZero() && now.After(order.ExpiresAt)`
abbrev pub has_expired : Time → Time → Bool
has_expired now expires_at = not (is_zero expires_at) && after now expires_at

-- The statuses that the resume path rejects.
abbrev pub is_non_resumable : OrderStatus → Bool
is_non_resumable paid = true
is_non_resumable failed = true
is_non_resumable expired = true
is_non_resumable pending_review = true
is_non_resumable _ = false

-- isResumableStatus
abbrev pub is_resumable_status : OrderStatus → Bool
is_resumable_status created = true
is_resumable_status checkout_created = true
is_resumable_status OrderStatus.pending = true
is_resumable_status _ = false

-- `if status == OrderStatusCreated { status = OrderStatusCheckoutCreated }`
abbrev pub canonical_status : OrderStatus → OrderStatus
canonical_status created = checkout_created
canonical_status status = status

-- checkoutContinuationErrorForOrder and checkoutContinuationErrorForSession
unfoldable pub continuation_error_for_order : Sentinel → Order → Error
continuation_error_for_order e order =
    new_checkout_continuation_error (sentinel e) order.order_nsu order.checkout_intent_key

unfoldable pub continuation_error_for_session : Sentinel → Text → Text → Error
continuation_error_for_session e order_nsu intent_key =
    new_checkout_continuation_error (sentinel e) order_nsu intent_key

-- GenerateCheckoutIntentKey
unfoldable intent_key_of : Result (List ℕ) → Prog (Result Text)
intent_key_of (ok bytes) = success (raw_url_encode bytes)
intent_key_of (err _) = call new_uuid success

unfoldable pub generate_checkout_intent_key : Prog (Result Text)
unfolding intent_key_of
generate_checkout_intent_key = call (rand_read 24) intent_key_of

-- The errors of persistCheckoutSession, by errors.Join.
abbrev join_errors : Result (Unit {0}) → Result (Unit {0}) → Result (Unit {0})
join_errors (ok _) (ok _) = ok tt
join_errors (err e) (ok _) = err (wrapped (wrapped e))
join_errors (ok _) (err f) = err (wrapped (wrapped f))
join_errors (err e) (err f) = err (joined (wrapped (wrapped e)) (wrapped f))

unfoldable pub persist_checkout_session :
    Text → Text → Text → OrderStatus → Time → Prog (Result (Unit {0}))
persist_checkout_session order_nsu checkout_url invoice_slug status updated_at =
    call (update_provider_url order_nsu checkout_url invoice_slug updated_at) (λ url_saved.
      call (update_status order_nsu status updated_at)
        (λ status_saved. ret (join_errors url_saved status_saved)))

abbrev status_or_created : Option OrderStatus → OrderStatus
status_or_created none = checkout_created
status_or_created (some status) = status

-- repairCheckoutOrder: a failure is logged only.
unfoldable pub repair_checkout_order :
    Text → Text → Text → Option OrderStatus → Time → Prog (Result (Unit {0}))
unfolding persist_checkout_session
repair_checkout_order order_nsu checkout_url invoice_slug resource_status updated_at =
    bind
      (persist_checkout_session order_nsu checkout_url invoice_slug
        (status_or_created resource_status) updated_at)
      (λ _. success tt)

-- createCheckoutResponseFromRecord
unfoldable pub create_checkout_response_from_record : Key → Time → CreateCheckoutResponse
create_checkout_response_from_record rec created_at = record {
  order_nsu = rec.resource_id;
  checkout_intent_key = lit "";
  status = status_or_created rec.resource_status;
  checkout_url = rec.resource_url;
  expires_at =
      (if is_zero created_at then rec.updated_at else created_at) + checkout_intent_key_ttl;
  resumed = false;
}

-- The canonical success payload of a resumed order.
abbrev pub resumed_response : Order → OrderStatus → Text → Time → CreateCheckoutResponse
resumed_response order status checkout_url expires_at = record {
  order_nsu = order.order_nsu;
  checkout_intent_key = order.checkout_intent_key;
  status = status;
  checkout_url = checkout_url;
  expires_at = expires_at;
  resumed = true;
}
