-- ===== src/Payments/Create/Shape.antt =====
-- How the parts of CreateSession compose, for any monitor.
use edn_core.Prelude.{refl, Bool, true, false, not, Option, none, some, if◌then◌else◌}
use edn_core.Text.{Text, is_empty, trim_space}
use edn_core.Checkout.{Time}
use edn_core.Errors.{Error, Result, ok, err, sentinel, wrapped, invalid_request}
use edn_core.Runtime.{Runtime}
use edn_core.Payments.{CreateCheckoutRequest, CreateCheckoutResponse}
use edn_core.Payments.Request.{validate_create_checkout_request}
use edn_core.Payments.Scope.{ResolvedTenantScope, resolve_tenant_scope, resolve_checkout_plan}
use edn_core.Payments.Session.{PaymentsConfig}
use edn_core.Payments.Resume.{resume_session}
use edn_core.Payments.Replay.{Reservation, fresh, replay, reserve_or_replay_checkout}
use edn_core.Payments.Create.{
  create_fresh, check_open_orders, create_reserved, create_serialized, create_new_session,
  create_session,
}
use edn_core.Payments.Draft.{Draft, reuse_open_order_for_fingerprint}
use edn_core.Effects.{success, fail, ret, attempt, ask, time_now, ◌>>=◌, wrap}
use edn_core.Effects.Monitor.{Monitor, Spec, Spec-then, Stays}

-- A new session under any monitor `m`: if the parts before the order's creation stay in state `s`,
-- and the creation ends in `Q`, then so does all of it.
module _ {S : Type 0} (m : Monitor S) (s : S) (Q : S → Result CreateCheckoutResponse → Type 0)
    (done : (r : Result CreateCheckoutResponse) → Q s r) where
  pub create_reserved-Spec :
      (cfg : PaymentsConfig) (d : Draft)
      → Spec m
          (Stays m s)
          s
          (reserve_or_replay_checkout d.scope d.idempotency_key d.request_hash d.now)
      → Spec m (Stays m s) s (reuse_open_order_for_fingerprint d)
      → ((nsu : Text) → Spec m Q s (create_fresh cfg d nsu))
      → Spec m Q s (create_reserved cfg d)
  unfolding create_reserved
  create_reserved-Spec cfg d reserving reusing creating =
      Spec-then m Q s (reserve_or_replay_checkout d.scope d.idempotency_key d.request_hash d.now) _
        reserving after_reserve (λ e. done (err e))
    where
      checked :
          (b : Bool)
          → Spec m (Stays m s) s (if b then success none else reuse_open_order_for_fingerprint d)
      checked true = refl
      checked false = reusing

      after_check :
          (nsu : Text) (o : Option CreateCheckoutResponse)
          → Spec m Q s (elim o [ some resp ↦ success resp | none ↦ create_fresh cfg d nsu ])
      after_check nsu none = creating nsu
      after_check nsu (some resp) = done (ok resp)

      after_reserve :
          (r : Reservation)
          → Spec m Q s (elim r [
            | replay resp ↦ success resp
            | fresh nsu ↦ check_open_orders cfg d >>= λ reused. elim reused [
              | some resp ↦ success resp
              | none ↦ create_fresh cfg d nsu
            ]
          ])
      after_reserve (replay resp) = done (ok resp)
      after_reserve (fresh nsu) =
          Spec-then m Q s (check_open_orders cfg d) _ (checked (is_empty d.cpf)) (after_check nsu)
            (λ e. done (err e))

  pub create_new_session-Spec :
      (cfg : PaymentsConfig) (rt : Runtime) (req : CreateCheckoutRequest) (key : Text)
      → Spec m (Stays m s) s (attempt (ask time_now))
      → Spec m
          (Stays m s)
          s
          (resolve_tenant_scope rt req.organization_slug req.tenant_slug req.channel)
      → ((scope : ResolvedTenantScope) (now : Time)
          → Spec m
              (Stays m s)
              s
              (wrap (resolve_checkout_plan rt scope req.plan_slug req.billing_cycle now)))
      → ((d : Draft) → Spec m Q s (create_serialized cfg rt d))
      → Spec m Q s (create_new_session cfg rt req key)
  unfolding create_new_session
  create_new_session-Spec cfg rt req key clock scoping planning creating =
      Spec-then m Q s (ret (validate_create_checkout_request rt req)) _ refl
        (λ _.
          Spec-then m Q s (attempt (ask time_now)) _ clock
            (λ now.
              Spec-then m Q s
                (resolve_tenant_scope rt req.organization_slug req.tenant_slug req.channel) _
                scoping
                (λ scope.
                  Spec-then m Q s
                    (wrap (resolve_checkout_plan rt scope req.plan_slug req.billing_cycle now)) _
                    (planning scope now) (λ plan. creating _) failed)
                failed)
            failed)
        failed
    where
      failed : (e : Error) → Q s (err e)
      failed e = done (err e)

  pub create_session-Spec :
      (cfg : PaymentsConfig) (rt : Runtime) (req : CreateCheckoutRequest)
      → ((key : Text) → Spec m Q s (resume_session cfg key))
      → ((key : Text) → Spec m Q s (create_new_session cfg rt req key))
      → Spec m Q s (create_session cfg rt req)
  unfolding create_session
  create_session-Spec cfg rt req resuming creating =
      go (is_empty (trim_space req.checkout_intent_key)) (is_empty (trim_space req.idempotency_key))
    where
      go :
          (a b : Bool)
          → Spec m Q s (
              if not a
              then resume_session cfg (trim_space req.checkout_intent_key)
              else if b
              then fail (wrapped (sentinel invalid_request))
              else create_new_session cfg rt req (trim_space req.idempotency_key))
      go false b = resuming _
      go true true = done _
      go true false = creating _
