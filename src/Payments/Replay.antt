-- ===== src/Payments/Replay.antt =====
-- internal/payments/service.go: reserving an idempotency key, and answering a repeated request from
-- what is stored under it.
use edn_core.Prelude.{◌+◌, ◌*◌, Bool, true, false, not, ◌&&◌, ◌||◌, none, is_some, if◌then◌else◌}
use edn_core.Text.{Text, lit, ◌=?◌, is_empty}
use edn_core.Checkout.{Time, is_zero, hour, Order, checkout_created}
use edn_core.Idempotency.{Key, KeyStatus}
use edn_core.Errors.{
  Result, ok, err, errors_is, sentinel, wrapped, order_not_found, duplicate_key, checkout_conflict,
  checkout_in_progress,
}
use edn_core.Payments.{CreateCheckoutResponse}
use edn_core.Payments.Scope.{ResolvedTenantScope}
use edn_core.Payments.Session.{
  checkout_create_operation, checkout_intent_key_ttl, is_blank, canonical_status,
  repair_checkout_order, create_checkout_response_from_record, resumed_response,
}
use edn_core.Payments.Resume.{is_committed, ambiguous}
use edn_core.Effects.{
  Prog, ret, get_by_nsu, reserve, find_by_tenant_op_key, new_uuid, attempt, ask, wrap, success,
  fail, ◌>>=◌, ◌>>◌,
}

abbrev pub is_failed : KeyStatus → Bool
is_failed KeyStatus.failed = true
is_failed _ = false

abbrev pub is_pending : KeyStatus → Bool
is_pending KeyStatus.pending = true
is_pending _ = false

-- A response from a record, as replayed: `resp.Resumed = true`.
abbrev replayed : Key → Time → Text → CreateCheckoutResponse
replayed existing created_at intent_key =
    let resp = create_checkout_response_from_record existing created_at in
    record resp { checkout_intent_key = intent_key; resumed = true }

-- `expiresAt := order.ExpiresAt`, or the time to live after the creation if that is not set
abbrev expiry_of : Order → Time
expiry_of order =
    if is_zero order.expires_at
    then order.created_at + checkout_intent_key_ttl
    else order.expires_at

-- The key that was reserved before must stand for the same request, and must not have failed.
abbrev check_existing : Key → Text → Result (Unit {0})
check_existing existing request_hash =
    if not (existing.request_hash =? request_hash)
    then err (sentinel checkout_conflict)
    else if is_failed existing.status || is_empty existing.resource_id
    then err (sentinel checkout_conflict)
    else ok tt

-- An order without a link is answered from the key's snapshot, and repaired from it.
unfoldable replay_unlinked : Key → Order → Text → Prog (Result CreateCheckoutResponse)
unfolding repair_checkout_order
replay_unlinked existing order intent_key =
    if is_empty existing.resource_url
    then (if is_some order.provider_create_attempted_at
        then ambiguous order
        else fail (sentinel checkout_in_progress))
    else do
      repair_checkout_order order.order_nsu existing.resource_url existing.external_ref
          existing.resource_status existing.updated_at
      success (replayed existing order.created_at intent_key)

-- What replayExistingSession does once it has looked the order up.
unfoldable replay_found : Key → Result Order → Prog (Result CreateCheckoutResponse)
unfolding replay_unlinked
replay_found existing (err e) =
    if is_committed existing.status && not (is_empty existing.resource_url)
    then success (replayed existing 0 (lit ""))
    else if errors_is e order_not_found && is_pending existing.status
    then fail (sentinel checkout_in_progress)
    else fail (wrapped e)
replay_found existing (ok order) =
    if is_blank order.provider_checkout_url
    then replay_unlinked existing order (lit "")
    else success (
        resumed_response order (canonical_status order.status) order.provider_checkout_url
          (expiry_of order))

unfoldable pub replay_existing_session : Text → Text → Text → Prog (Result CreateCheckoutResponse)
unfolding replay_found
replay_existing_session tenant_id idempotency_key request_hash = do
  existing ← wrap (ask (find_by_tenant_op_key tenant_id checkout_create_operation idempotency_key))
  ret (check_existing existing request_hash)
  order ← attempt (ask (get_by_nsu existing.resource_id))
  replay_found existing order

-- A fresh order to create under this NSU, or a response to replay.
pub data Reservation : Type 0 where
  fresh : Text → Reservation
  replay : CreateCheckoutResponse → Reservation

abbrev as_replay : Prog (Result CreateCheckoutResponse) → Prog (Result Reservation)
as_replay p = p >>= λ resp. success (replay resp)

-- What reserveOrReplayCheckout does once it has looked the order of an existing key up.
unfoldable reserved_before : Key → Result Order → Prog (Result Reservation)
unfolding replay_unlinked
reserved_before existing (ok order) =
    if is_blank order.provider_checkout_url
    then as_replay (replay_unlinked existing order order.checkout_intent_key)
    else success (
        replay
          (resumed_response order checkout_created order.provider_checkout_url (expiry_of order)))
reserved_before existing (err e) =
    if is_committed existing.status && not (is_empty existing.resource_url)
    then success (replay (replayed existing 0 (lit "")))
    else if errors_is e order_not_found && is_pending existing.status
    then success (fresh existing.resource_id)
    else fail (wrapped e)

abbrev new_key : ResolvedTenantScope → Text → Text → Text → Time → Key
new_key scope idempotency_key request_hash order_nsu now = record {
  operation = checkout_create_operation;
  organization_id = scope.organization_id;
  tenant_id = scope.tenant_id;
  idempotency_key = idempotency_key;
  request_hash = request_hash;
  resource_type = lit "order";
  resource_id = order_nsu;
  resource_status = none;
  resource_url = lit "";
  external_ref = lit "";
  status = KeyStatus.pending;
  expirable = true;
  expires_at = now + 24 * hour;
  created_at = now;
  updated_at = now;
}

unfoldable pub reserve_or_replay_checkout :
    ResolvedTenantScope → Text → Text → Time → Prog (Result Reservation)
unfolding reserved_before
reserve_or_replay_checkout scope idempotency_key request_hash now = do
  proposed ← attempt (ask new_uuid)
  reserved ← attempt (ask (reserve (new_key scope idempotency_key request_hash proposed now)))
  elim reserved [
    | ok _ ↦ success (fresh proposed)
    | err e ↦ if not (errors_is e duplicate_key) then fail (wrapped e) else do
      existing ←
          wrap
            (ask (find_by_tenant_op_key scope.tenant_id checkout_create_operation idempotency_key))
      ret (check_existing existing request_hash)
      order ← attempt (ask (get_by_nsu existing.resource_id))
      reserved_before existing order
  ]
