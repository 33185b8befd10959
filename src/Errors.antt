-- ===== src/Errors.antt =====
-- Go errors: the sentinels of internal/payments/errors.go and of the packages that store documents,
-- and the ways to wrap one. `wrapped` is `fmt.Errorf("…: %w", err)`
-- with the message left out, `other` an error of a driver or of the transport.
use edn_core.Prelude.{
  ℕ, Bool, true, false, ◌&&◌, ◌||◌, Option, none, some, ◌==◌, holds, if◌then◌else◌,
}
use edn_core.Text.{Text, is_empty, trim_space}

pub data Sentinel : Type 0 where
  plan_not_found plan_inactive organization_not_found tenant_not_found order_not_found : Sentinel
  amount_mismatch invalid_request checkout_conflict checkout_in_progress : Sentinel
  transaction_mismatch lock_conflict checkout_already_open checkout_non_resumable : Sentinel
  checkout_expired checkout_recovery_required provider_state_ambiguous : Sentinel
  -- internal/checkout/errors.go
  stored_order_not_found payment_not_found subscription_not_found duplicate_order : Sentinel
  duplicate_webhook lock_not_acquired duplicate_outbox : Sentinel
  -- internal/idempotency/errors.go
  key_not_found duplicate_key request_hash_conflict : Sentinel
  -- internal/plans/errors.go, internal/tenants/errors.go and internal/organizations/errors.go
  stored_plan_not_found duplicate_plan stored_tenant_not_found duplicate_tenant : Sentinel
  stored_organization_not_found duplicate_organization : Sentinel

unfoldable pub Sentinel-discrete : Discrete Sentinel
Sentinel-discrete = hlevel

pub data Error : Type 0 where
  sentinel : Sentinel → Error
  wrapped : Error → Error
  joined : Error → Error → Error
  -- checkoutContinuationError
  continuation : Error → Text → Text → Error
  -- ProviderCreateRejectedError
  provider_rejected : ℕ → Error
  other : Error

pub data Result {ℓ} (A : Type ℓ) : Type ℓ where
  ok : A → Result A
  err : Error → Result A

-- errors.Is
abbrev pub errors_is : Error → Sentinel → Bool
errors_is (sentinel s) t = holds (Sentinel-discrete s t)
errors_is (wrapped e) t = errors_is e t
errors_is (joined e f) t = errors_is e t || errors_is f t
errors_is (continuation e _ _) t = errors_is e t
errors_is (provider_rejected _) t = false
errors_is other t = false

-- `err == target`, which looks through no wrapping
abbrev pub is_exactly : Error → Sentinel → Bool
is_exactly (sentinel s) t = holds (Sentinel-discrete s t)
is_exactly _ t = false

-- errors.As with a `*ProviderCreateRejectedError`
abbrev pub is_rejection : Error → Bool
is_rejection (provider_rejected _) = true
is_rejection (wrapped e) = is_rejection e
is_rejection (joined e f) = is_rejection e || is_rejection f
is_rejection (continuation e _ _) = is_rejection e
is_rejection _ = false

first_of_two : Option (Text × Text) → Option (Text × Text) → Option (Text × Text)
first_of_two none o = o
first_of_two (some p) o = some p

-- errors.As with a `*checkoutContinuationError`: the outermost one
unfoldable pub as_continuation : Error → Option (Text × Text)
unfolding first_of_two
as_continuation (continuation _ nsu key) = some (nsu, key)
as_continuation (wrapped e) = as_continuation e
as_continuation (joined e f) = first_of_two (as_continuation e) (as_continuation f)
as_continuation _ = none

-- newCheckoutContinuationError for an error that is not nil
unfoldable pub new_checkout_continuation_error : Error → Text → Text → Error
new_checkout_continuation_error e nsu key =
    if is_empty (trim_space nsu) && is_empty (trim_space key)
    then e
    else continuation e (trim_space nsu) (trim_space key)

-- isDeterministicProviderCreateStatus
unfoldable pub is_deterministic_provider_create_status : ℕ → Bool
is_deterministic_provider_create_status code =
    code == 400 || code == 401 || code == 402 || code == 403 || code == 404 || code == 422
