-- ===== src/Cleanup/Safety.antt =====
-- What the cleanup writes, and why it may.
use edn_core.Prelude.{◌≡◌, ◌⊎◌, Bool, true, false, Option, none, some, is_some, arith}
use edn_core.Text.{Text, is_empty}
use edn_core.Checkout.{Order, OrderStatus, failed}
use edn_core.Idempotency.{Key}
use edn_core.Errors.{Result, ok, err}
use edn_core.Payments.Resume.{is_committed}
use edn_core.Payments.Replay.{is_pending}
use edn_core.Payments.Session.{checkout_create_operation}
use edn_core.Cleanup.{
  is_open, has_status, is_failed, check_stuck_eligibility, decide_plan, Action, fail_both,
  fail_idem_only, no_op, hard_stop,
}
use edn_core.Effects.{
  Call, Reply, acquire_order_lock, release_order_lock, get_by_nsu, find_by_tenant_op_resource_id,
  update_status, invalidate_order_status, fail_key, new_uuid,
}
use edn_core.Effects.Monitor.{Monitor}
use edn_core.Payments.Monitors.{Fetched}

-- What a run knows of the order that it works on: the lock, what it has read under it, and whether
-- it has failed the order.
pub record Knowledge : Type 0 where
  pub lock : Option Text
  pub order : Option Order
  pub key : Option Key
  pub order_failed : Bool

abbrev found_key : Result Key → Option Key
found_key (ok key) = some key
found_key (err _) = none

abbrev ignorant : Knowledge
ignorant = record { lock = none; order = none; key = none; order_failed = false }

abbrev knowledge_step : Knowledge → (c : Call) → Reply c → Knowledge
knowledge_step s (acquire_order_lock nsu _) (ok _) = record ignorant { lock = some nsu }
knowledge_step s (release_order_lock _ _) _ = ignorant
knowledge_step s (get_by_nsu _) (ok order) = record s { order = some order }
knowledge_step s (find_by_tenant_op_resource_id _ _ _) r = record s { key = found_key r }
knowledge_step s (update_status _ _ _) (ok _) = record s { order_failed = true }
knowledge_step s _ _ = s

-- The order of this number was read under its lock, is open and has no link, and a provider call
-- is on record for it.
pub record Stuck (order : Order) (nsu : Text) : Type 0 where
  pub same_order : order.order_nsu ≡ nsu
  pub open_status : is_open order.status ≡ true
  pub no_link : is_empty order.provider_checkout_url ≡ true
  pub attempted : is_some order.provider_create_attempted_at ≡ true

abbrev Failable : Option Order → Option Key → Text → OrderStatus → Type 0
Failable none key nsu status = ⊥
Failable (some order) key nsu status =
    Stuck order nsu × (status ≡ failed) × (has_status is_committed key ≡ false)

-- The record is the one that was read, still pending, and the order is failed.
abbrev Releasable : Option Order → Option Key → Bool → Text → Text → Text → Type 0
Releasable (some order) (some key) order_failed tenant operation id =
    (tenant ≡ order.tenant_id)
    × (operation ≡ checkout_create_operation)
    × (id ≡ key.idempotency_key)
    × (is_pending key.status ≡ true)
    × ((is_failed order.status ≡ true) ⊎ (order_failed ≡ true))
Releasable _ _ order_failed tenant operation id = ⊥

abbrev OfTenant : Option Order → Text → Type 0
OfTenant none tenant = ⊥
OfTenant (some order) tenant = tenant ≡ order.tenant_id

-- Beside the locks and the two writes only lookups of the locked order and its
-- record, the clock, fresh tokens and, not on a dry run, the invalidation of its cached status are
-- called.
abbrev CleanupCheck : Bool → Knowledge → Call → Type 0
CleanupCheck dry_run s (acquire_order_lock _ _) = s.lock ≡ none
CleanupCheck dry_run s (release_order_lock nsu _) = s.lock ≡ some nsu
CleanupCheck dry_run s (update_status nsu status _) =
    (dry_run ≡ false) × (s.lock ≡ some nsu) × Failable s.order s.key nsu status
CleanupCheck dry_run s (fail_key tenant operation id _) =
    (dry_run ≡ false)
    × (is_some s.lock ≡ true)
    × Releasable s.order s.key s.order_failed tenant operation id
CleanupCheck dry_run s (get_by_nsu nsu) = s.lock ≡ some nsu
CleanupCheck dry_run s (find_by_tenant_op_resource_id tenant operation id) =
    OfTenant s.order tenant × (operation ≡ checkout_create_operation) × (s.lock ≡ some id)
CleanupCheck dry_run s (invalidate_order_status nsu) = (dry_run ≡ false) × (s.lock ≡ some nsu)
CleanupCheck dry_run s Call.time_now = Unit
CleanupCheck dry_run s new_uuid = Unit
CleanupCheck dry_run s _ = ⊥

abbrev pub cleanup_guard : Bool → Monitor Knowledge
cleanup_guard dry_run = record {
  start = ignorant;
  step = knowledge_step;
  check = CleanupCheck dry_run;
  trust = Fetched;
}

abbrev AnyHow : Text → Knowledge → Result (Unit {0}) → Type 0
AnyHow nsu s r = s.lock ≡ some nsu

module _ (nsu : Text) (dry_run : Bool) (order : Order) (same : order.order_nsu ≡ nsu) where
  abbrev known : Option Key → Knowledge
  known key = record { lock = some nsu; order = some order; key = key; order_failed = false }

-- What the plan is for, in terms of the order and its record.
abbrev Planned : Order → Option Key → Action → Type 0
Planned order key fail_both =
    (check_stuck_eligibility order ≡ true)
    × (is_failed order.status ≡ false)
    × (has_status is_committed key ≡ false)
Planned order key fail_idem_only =
    (is_failed order.status ≡ true) × (has_status is_pending key ≡ true)
Planned order key no_op =
    (is_failed order.status ≡ true)
    × (has_status is_pending key ≡ false)
    × (has_status is_committed key ≡ false)
Planned order key hard_stop =
    (has_status is_committed key ≡ true)
    ⊎ ((is_failed order.status ≡ false) × (check_stuck_eligibility order ≡ false))

-- The plan is decided as described, for every order and record: the record is committed or the
-- order is neither failed nor stuck, and nothing is to be written; the order is failed and its
-- record pending, and the record is failed; the order is failed and its record is not pending, and
-- there is nothing to do; or the order is stuck, and both are failed.
decide_plan-Planned :
    (order : Order) (key : Option Key) → Planned order key (decide_plan order key).action
unfolding decide_plan
decide_plan-Planned order key = ground arith
