-- ===== src/Cleanup.antt =====
-- cmd/fail-stuck-checkouts: the operator's tool that fails stuck checkouts. Its repositories have
-- the methods of internal/payments/ports.go that it calls under other names (FindByNSU is
-- `get_by_nsu`, and Fail of internal/idempotency is `fail_key`). Printing is left out, and a reason
-- is no text but the plan itself.
pub mod Safety
use edn_core.Prelude.{
  Bool, true, false, not, ◌||◌, Option, none, some, is_some, List, [], ◌∷◌, if◌then◌else◌,
}
use edn_core.Text.{Text, is_empty}
use edn_core.Checkout.{Time, Order, OrderStatus, created, checkout_created, failed}
use edn_core.Idempotency.{Key, KeyStatus}
use edn_core.Errors.{
  Error, Result, ok, err, sentinel, wrapped, other, errors_is, lock_not_acquired,
  stored_order_not_found, key_not_found,
}
use edn_core.Payments.Resume.{is_committed}
use edn_core.Payments.Replay.{is_pending}
use edn_core.Payments.Session.{checkout_create_operation}
use edn_core.Effects.{
  Prog, ret, acquire_order_lock, release_order_lock, get_by_nsu, find_by_tenant_op_resource_id,
  update_status, invalidate_order_status, fail_key, time_now, new_uuid, bind, attempt, ask, wrap,
  success, fail, deferring, ◌>>=◌, ◌>>◌,
}

-- cleanupAction
pub data Action : Type 0 where
  fail_both fail_idem_only no_op hard_stop : Action

abbrev pub is_open : OrderStatus → Bool
is_open created = true
is_open checkout_created = true
is_open OrderStatus.pending = true
is_open _ = false

-- checkStuckEligibility
unfoldable pub check_stuck_eligibility : Order → Bool
check_stuck_eligibility order =
    if not (is_open order.status)
    then false
    else if not (is_empty order.provider_checkout_url)
    then false
    else is_some order.provider_create_attempted_at

abbrev pub is_failed : OrderStatus → Bool
is_failed failed = true
is_failed _ = false

abbrev is_error : Result (Unit {0}) → Bool
is_error (ok _) = false
is_error (err _) = true

-- `idemKey != nil && idemKey.Status == …`
abbrev pub has_status : (KeyStatus → Bool) → Option Key → Bool
has_status test none = false
has_status test (some key) = test key.status

-- cleanupPlan, without its reason
pub record Plan : Type 0 where
  pub action : Action
  pub idem_key : Option Key

abbrev plan_of : Action → Option Key → Plan
plan_of action key = record { action = action; idem_key = key }

-- decidePlan
unfoldable pub decide_plan : Order → Option Key → Plan
unfolding check_stuck_eligibility
decide_plan order key =
    if has_status is_committed key
    then plan_of hard_stop key
    else if is_failed order.status
    then (if has_status is_pending key then plan_of fail_idem_only key else plan_of no_op key)
    else if not (check_stuck_eligibility order)
    then plan_of hard_stop none
    else plan_of fail_both key

unfoldable pub fail_record : Order → Option Key → Time → Prog (Result (Unit {0}))
fail_record order none now = success tt
fail_record order (some key) now =
    wrap (ask (fail_key order.tenant_id checkout_create_operation key.idempotency_key now))

unfoldable pub execute_plan : Text → Order → Plan → Prog (Result (Unit {0}))
unfolding fail_record
execute_plan nsu order plan = do
  now ← attempt (ask time_now)
  elim plan.action [
    | fail_both ↦ do
      wrap (ask (update_status nsu failed now))
      attempt (ask (invalidate_order_status nsu))
      if has_status is_pending plan.idem_key
          then fail_record order plan.idem_key now
          else success tt
    | fail_idem_only ↦ fail_record order plan.idem_key now
    | no_op ↦ success tt
    | hard_stop ↦ success tt
  ]

unfoldable pub follow_plan : Text → Bool → Order → Plan → Prog (Result (Unit {0}))
unfolding execute_plan
follow_plan nsu dry_run order plan = elim plan.action [
  | hard_stop ↦ fail other
  | no_op ↦ success tt
  | _ ↦ if dry_run then success tt else execute_plan nsu order plan
]

-- Steps 3 to 5, with the answer to the lookup of the idempotency record.
unfoldable pub plan_and_execute : Text → Bool → Order → Result Key → Prog (Result (Unit {0}))
unfolding follow_plan decide_plan
plan_and_execute nsu dry_run order (ok key) =
    follow_plan nsu dry_run order (decide_plan order (some key))
plan_and_execute nsu dry_run order (err e) =
    if errors_is e key_not_found
    then follow_plan nsu dry_run order (decide_plan order none)
    else fail (wrapped e)

-- Steps 2 to 5, under the lock.
unfoldable pub process_locked : Text → Bool → Prog (Result (Unit {0}))
process_locked nsu dry_run = do
  fetched ← attempt (ask (get_by_nsu nsu))
  elim fetched [
    | err e ↦ if errors_is e stored_order_not_found then fail other else fail (wrapped e)
    | ok order ↦ do
      found ←
          attempt
            (ask (find_by_tenant_op_resource_id order.tenant_id checkout_create_operation nsu))
      plan_and_execute nsu dry_run order found
  ]

-- processNSU
unfoldable pub process_nsu : Text → Bool → Prog (Result (Unit {0}))
process_nsu nsu dry_run = do
  token ← attempt (ask new_uuid)
  locked ← attempt (ask (acquire_order_lock nsu token))
  elim locked [
    | err e ↦ if errors_is e lock_not_acquired then fail other else fail (wrapped e)
    | ok _ ↦ deferring (release_order_lock nsu token) (process_locked nsu dry_run)
  ]

-- The loop of run: each order is processed, and whether one failed is kept.
unfoldable pub process_all : List Text → Bool → Bool → Prog (Result (Unit {0}))
process_all [] dry_run any_failed = if any_failed then fail other else success tt
process_all (nsu ∷ nsus) dry_run any_failed =
    bind (process_nsu nsu dry_run) (λ r. process_all nsus dry_run (any_failed || is_error r))
