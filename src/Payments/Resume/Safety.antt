-- ===== src/Payments/Resume/Safety.antt =====
-- resumeSession and its recovery: the provider, the locks and the links.
use edn_core.Prelude.{◌≡◌, ◌⊎◌, true, false, Option, none, some, [], arith}
use edn_core.Text.{Text}
use edn_core.Checkout.{Order}
use edn_core.Errors.{Result, ok, err}
use edn_core.Tenancy.{Plan}
use edn_core.Payments.{CreateCheckoutResponse, InfinitePayCheckoutRequest}
use edn_core.Payments.Session.{PaymentsConfig, is_blank, is_non_resumable}
use edn_core.Payments.Resume.{resume_session}
use edn_core.Effects.{
  Call, Reply, create_checkout, get_by_nsu, find_by_intent_key, find_by_uuid, update_provider_url,
}
use edn_core.Effects.Run.{Environment, run}
use edn_core.Effects.Monitor.{Monitor, Allowed, Trusted, Spec, Spec-sound, Stays, state}
use edn_core.Payments.Monitors.{provider_guard, AnyEnd, no_locks, lock_guard, lock_balance, Fetched}

-- What a run has seen: the order as last read, the plan, and the link that was saved.
pub record Progress : Type 0 where
  pub order : Option Order
  pub plan : Option Plan
  pub saved : Option Text

abbrev progress_step : Progress → (c : Call) → Reply c → Progress
progress_step s (get_by_nsu _) (ok order) = record s { order = some order }
progress_step s (find_by_intent_key _) (ok order) = record s { order = some order }
progress_step s (find_by_uuid _) (ok plan) = record s { plan = some plan }
progress_step s (update_provider_url _ url _ _) (ok _) = record s { saved = some url }
progress_step s _ _ = s

-- The order has no trace of an earlier provider checkout, is open, and is charged at its own price,
-- which is still the plan's.
pub record Unattempted (order : Order) (plan : Plan) (req : InfinitePayCheckoutRequest)
    : Type 0 where
  pub same_order : req.order_nsu ≡ order.order_nsu
  pub own_price : req.amount_cents ≡ order.amount_cents
  pub plan_price : plan.price_cents ≡ order.amount_cents
  pub no_link : is_blank order.provider_checkout_url ≡ true
  pub no_invoice : is_blank order.invoice_slug ≡ true
  pub no_attempt : order.provider_create_attempted_at ≡ none
  pub open_status : is_non_resumable order.status ≡ false

abbrev Justified : Option Order → Option Plan → InfinitePayCheckoutRequest → Type 0
Justified (some order) (some plan) req = Unattempted order plan req
Justified _ _ _ = ⊥

abbrev Unlinked : Option Order → Text → Type 0
Unlinked (some order) nsu = (order.order_nsu ≡ nsu) × (is_blank order.provider_checkout_url ≡ true)
Unlinked none nsu = ⊥

abbrev ProgressCheck : Progress → Call → Type 0
ProgressCheck s (create_checkout req) = Justified s.order s.plan req
ProgressCheck s (update_provider_url nsu _ _ _) = Unlinked s.order nsu
ProgressCheck s _ = Unit

abbrev pub recovery_guard : Monitor Progress
recovery_guard = record {
  start = record { order = none; plan = none; saved = none };
  step = progress_step;
  check = ProgressCheck;
  trust = Fetched;
}

abbrev link : Option Order → Option Text
link none = none
link (some order) = some order.provider_checkout_url

-- A link that is handed out was saved in this run, or stands on the order as last read.
abbrev pub Durable : Progress → Result CreateCheckoutResponse → Type 0
Durable s (ok resp) =
    (resp.resumed ≡ true)
    × ((s.saved ≡ some resp.checkout_url) ⊎ (link s.order ≡ some resp.checkout_url))
Durable s (err _) = Unit

module _ (cfg : PaymentsConfig) (intent_key : Text) where
  pub provider_once_Spec :
      Spec provider_guard AnyEnd provider_guard.start (resume_session cfg intent_key)
  unfolding resume_session
  provider_once_Spec = ground arith

  pub balance_Spec :
      Spec lock_balance (Stays lock_balance no_locks) no_locks (resume_session cfg intent_key)
  unfolding resume_session
  balance_Spec = ground arith

  lock_Spec : Spec lock_guard (λ h r. h ≡ no_locks) no_locks (resume_session cfg intent_key)
  unfolding resume_session
  lock_Spec = ground arith

  recovery_Spec : Spec recovery_guard Durable recovery_guard.start (resume_session cfg intent_key)
  unfolding resume_session
  recovery_Spec = ground arith

module _ (cfg : PaymentsConfig) (env : Environment) (intent_key : Text) where
  -- In every run of resumeSession (and so of RecoverByIntentKey), whatever the repositories, the
  -- provider and the other processes answer, the provider is asked for a checkout once at most, and
  -- only after the attempt was recorded for the same order.
  pub resume_session-provider_once :
      Allowed provider_guard (run env [] (resume_session cfg intent_key)).0
  resume_session-provider_once =
      (Spec-sound provider_guard AnyEnd env [] _ (λ h c. tt) tt
        (provider_once_Spec cfg intent_key)).0

  -- If the repositories return the orders that they are asked for, every run of resumeSession
  -- writes to an order, records an attempt and calls the provider under the lock of that order,
  -- releases exactly the lock that it took, and holds no lock at the end.
  pub resume_session-locked :
      Trusted lock_guard env
      → Allowed lock_guard (run env [] (resume_session cfg intent_key)).0
        × (state lock_guard (run env [] (resume_session cfg intent_key)).0 ≡ no_locks)
  resume_session-locked trusted =
      Spec-sound lock_guard (λ h r. h ≡ no_locks) env [] _ trusted tt (lock_Spec cfg intent_key)

  -- If the repositories return the orders that they are asked for, resumeSession asks the provider
  -- for a checkout only of an order that, as last read, is open, has no link, no invoice and no
  -- recorded attempt, at the order's own price, which is still the plan's; it overwrites no link;
  -- and a response without an error is marked as resumed, with a link that was saved on the order
  -- in this run or stands on the order as last read.
  pub resume_session-justified :
      Trusted recovery_guard env
      → Allowed recovery_guard (run env [] (resume_session cfg intent_key)).0
        × Durable
            (state recovery_guard (run env [] (resume_session cfg intent_key)).0)
            (run env [] (resume_session cfg intent_key)).1
  resume_session-justified trusted =
      Spec-sound recovery_guard Durable env [] _ trusted tt (recovery_Spec cfg intent_key)
