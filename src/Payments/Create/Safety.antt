-- ===== src/Payments/Create/Safety.antt =====
-- CreateSession: its calls of the provider, and its locks.
use edn_core.Prelude.{
  ◌≡◌, refl, Bool, true, false, Option, none, some, List, [], ◌∷◌, arith, if◌then◌else◌,
}
use edn_core.Text.{Text, is_empty}
use edn_core.Checkout.{Time, Order}
use edn_core.Errors.{Result, ok, err}
use edn_core.Runtime.{Runtime}
use edn_core.Payments.{CreateCheckoutRequest}
use edn_core.Payments.Scope.{ResolvedTenantScope, resolve_tenant_scope, resolve_checkout_plan}
use edn_core.Payments.Session.{PaymentsConfig}
use edn_core.Payments.Resume.Safety.{provider_once_Spec, balance_Spec}
use edn_core.Payments.Create.Shape.{
  create_reserved-Spec, create_new_session-Spec, create_session-Spec,
}
use edn_core.Payments.Replay.{reserve_or_replay_checkout}
use edn_core.Payments.Create.{
  create_fresh, create_reserved, create_under_fingerprint, fingerprint, create_serialized,
  create_new_session, create_session,
}
use edn_core.Payments.Draft.{
  Draft, expire_stale_order_under_lock, expire_or_block, reuse_open_order_for_fingerprint,
}
use edn_core.Effects.{Prog, attempt, ask, new_uuid, acquire_fingerprint_lock, ◌>>=◌}
use edn_core.Effects.Run.{Environment, run}
use edn_core.Effects.Monitor.{Allowed, Trusted, Spec, Spec-sound, Spec-bind, Stays, state}
use edn_core.Payments.Monitors.{idle, provider_guard, AnyEnd, Held, no_locks, lock_balance}

-- The calls of the provider.
module _ (cfg : PaymentsConfig) where
  expire_or_block-idle :
      (now : Time) (orders : List Order)
      → Spec provider_guard (Stays provider_guard idle) idle (expire_or_block now orders)
  unfolding expire_or_block expire_stale_order_under_lock
  expire_or_block-idle now [] = ground arith
  expire_or_block-idle now (o ∷ orders) = ground (arith, expire_or_block-idle now orders)

  reuse-idle :
      (d : Draft)
      → Spec provider_guard (Stays provider_guard idle) idle (reuse_open_order_for_fingerprint d)
  unfolding reuse_open_order_for_fingerprint
  reuse-idle d = grind (arith, expire_or_block-idle)

  reserve-idle :
      (scope : ResolvedTenantScope) (key hash : Text) (now : Time)
      → Spec provider_guard
          (Stays provider_guard idle)
          idle
          (reserve_or_replay_checkout scope key hash now)
  unfolding reserve_or_replay_checkout
  reserve-idle scope key hash now = ground arith

  create_fresh-once :
      (d : Draft) (nsu : Text) → Spec provider_guard AnyEnd idle (create_fresh cfg d nsu)
  unfolding create_fresh
  create_fresh-once d nsu = ground arith

  create_reserved-once : (d : Draft) → Spec provider_guard AnyEnd idle (create_reserved cfg d)
  create_reserved-once d =
      create_reserved-Spec provider_guard idle AnyEnd (λ r. tt) cfg d
        (reserve-idle d.scope d.idempotency_key d.request_hash d.now) (reuse-idle d)
        (create_fresh-once d)

  under_fingerprint-once :
      (d : Draft) (hash token : Text) (locked : Result (Unit {0}))
      → Spec provider_guard AnyEnd idle (create_under_fingerprint cfg d hash token locked)
  unfolding create_under_fingerprint
  under_fingerprint-once d hash token (err e) = tt
  under_fingerprint-once d hash token (ok _) =
      Spec-bind provider_guard AnyEnd AnyEnd idle (create_reserved cfg d) _ (create_reserved-once d)
        (λ s r _. (tt, λ _ _. tt))

  create_serialized-once :
      (rt : Runtime) (d : Draft) → Spec provider_guard AnyEnd idle (create_serialized cfg rt d)
  unfolding create_serialized
  create_serialized-once rt d = go (is_empty d.cpf)
    where
      go :
          (b : Bool)
          → Spec provider_guard AnyEnd idle (
              if b
              then create_reserved cfg d
              else attempt (ask new_uuid) >>= λ token.
                  attempt (ask (acquire_fingerprint_lock (fingerprint rt d) token))
                  >>= create_under_fingerprint cfg d (fingerprint rt d) token)
      go true = create_reserved-once d
      go false = (
        tt,
        λ token _. (tt, λ locked _. under_fingerprint-once d (fingerprint rt d) token locked),
      )

  create_new_session-once :
      (rt : Runtime) (req : CreateCheckoutRequest) (key : Text)
      → Spec provider_guard AnyEnd idle (create_new_session cfg rt req key)
  unfolding resolve_tenant_scope resolve_checkout_plan
  create_new_session-once rt req key =
      create_new_session-Spec provider_guard idle AnyEnd (λ r. tt) cfg rt req key (ground arith)
        (ground arith) (λ scope now. ground arith) (create_serialized-once rt)

  create_session-once :
      (rt : Runtime) (req : CreateCheckoutRequest)
      → Spec provider_guard AnyEnd idle (create_session cfg rt req)
  create_session-once rt req =
      create_session-Spec provider_guard idle AnyEnd (λ r. tt) cfg rt req (provider_once_Spec cfg)
        (create_new_session-once rt req)

abbrev if_locked : Result (Unit {0}) → Text → Text → Option (Text × Text)
if_locked (ok _) hash token = some (hash, token)
if_locked (err _) hash token = none

-- The state with at most the fingerprint lock held.
abbrev only_fingerprint : Option (Text × Text) → Held
only_fingerprint f = record { order_lock = none; fingerprint_lock = f }

-- The locks.
module _ (cfg : PaymentsConfig) (f : Option (Text × Text)) where
  expire_or_block-balanced :
      (now : Time) (orders : List Order)
      → Spec lock_balance
          (Stays lock_balance (only_fingerprint f))
          (only_fingerprint f)
          (expire_or_block now orders)
  unfolding expire_or_block expire_stale_order_under_lock
  expire_or_block-balanced now [] = ground arith
  expire_or_block-balanced now (o ∷ orders) = ground (arith, expire_or_block-balanced now orders)

  reuse-balanced :
      (d : Draft)
      → Spec lock_balance
          (Stays lock_balance (only_fingerprint f))
          (only_fingerprint f)
          (reuse_open_order_for_fingerprint d)
  unfolding reuse_open_order_for_fingerprint
  reuse-balanced d = grind (arith, expire_or_block-balanced)

  reserve-balanced :
      (scope : ResolvedTenantScope) (key hash : Text) (now : Time)
      → Spec lock_balance
          (Stays lock_balance (only_fingerprint f))
          (only_fingerprint f)
          (reserve_or_replay_checkout scope key hash now)
  unfolding reserve_or_replay_checkout
  reserve-balanced scope key hash now = ground arith

  create_fresh-balanced :
      (d : Draft) (nsu : Text)
      → Spec lock_balance
          (Stays lock_balance (only_fingerprint f))
          (only_fingerprint f)
          (create_fresh cfg d nsu)
  unfolding create_fresh
  create_fresh-balanced d nsu = ground arith

  create_reserved-balanced :
      (d : Draft)
      → Spec lock_balance
          (Stays lock_balance (only_fingerprint f))
          (only_fingerprint f)
          (create_reserved cfg d)
  create_reserved-balanced d =
      create_reserved-Spec lock_balance (only_fingerprint f)
        (Stays lock_balance (only_fingerprint f)) (λ r. refl) cfg d
        (reserve-balanced d.scope d.idempotency_key d.request_hash d.now) (reuse-balanced d)
        (create_fresh-balanced d)

module _ (cfg : PaymentsConfig) where
  abbrev Balanced : {A : Type 0} → Prog A → Type 0
  Balanced p = Spec lock_balance (Stays lock_balance no_locks) no_locks p

  under_fingerprint-balanced :
      (d : Draft) (hash token : Text) (locked : Result (Unit {0}))
      → Spec lock_balance
          (Stays lock_balance no_locks)
          (only_fingerprint (if_locked locked hash token))
          (create_under_fingerprint cfg d hash token locked)
  unfolding create_under_fingerprint
  under_fingerprint-balanced d hash token (err e) = refl
  under_fingerprint-balanced d hash token (ok _) =
      Spec-bind lock_balance (Stays lock_balance (only_fingerprint (some (hash, token))))
        (Stays lock_balance no_locks) (only_fingerprint (some (hash, token)))
        (create_reserved cfg d) _ (create_reserved-balanced cfg (some (hash, token)) d)
        (λ s r e. (ground arith, λ _ _. ground arith))

  create_serialized-Balanced : (rt : Runtime) (d : Draft) → Balanced (create_serialized cfg rt d)
  unfolding create_serialized
  create_serialized-Balanced rt d = go (is_empty d.cpf)
    where
      go :
          (b : Bool)
          → Balanced (
              if b
              then create_reserved cfg d
              else attempt (ask new_uuid) >>= λ token.
                  attempt (ask (acquire_fingerprint_lock (fingerprint rt d) token))
                  >>= create_under_fingerprint cfg d (fingerprint rt d) token)
      go true = create_reserved-balanced cfg none d
      go false = (
        tt,
        λ token _. (
          refl,
          elim [
            | err e ↦ λ _. under_fingerprint-balanced d (fingerprint rt d) token (err e)
            | ok u ↦ λ _. under_fingerprint-balanced d (fingerprint rt d) token (ok u)
          ],
        ),
      )

  create_new_session-Balanced :
      (rt : Runtime) (req : CreateCheckoutRequest) (key : Text)
      → Balanced (create_new_session cfg rt req key)
  unfolding resolve_tenant_scope resolve_checkout_plan
  create_new_session-Balanced rt req key =
      create_new_session-Spec lock_balance no_locks (Stays lock_balance no_locks) (λ r. refl) cfg rt
        req key (ground arith) (ground arith) (λ scope now. ground arith)
        (create_serialized-Balanced rt)

  create_session-Balanced :
      (rt : Runtime) (req : CreateCheckoutRequest) → Balanced (create_session cfg rt req)
  create_session-Balanced rt req =
      create_session-Spec lock_balance no_locks (Stays lock_balance no_locks) (λ r. refl) cfg rt req
        (balance_Spec cfg) (create_new_session-Balanced rt req)

module _ (cfg : PaymentsConfig) (rt : Runtime) (env : Environment)
    (req : CreateCheckoutRequest) where
  -- In every run of CreateSession, on its create, replay and resume paths alike and whatever the
  -- repositories, the locks, the provider and other processes answer, the provider is asked for a
  -- checkout once at most, and only after the attempt was recorded for the same order.
  pub create_session-provider_once :
      Allowed provider_guard (run env [] (create_session cfg rt req)).0
  create_session-provider_once =
      (Spec-sound provider_guard AnyEnd env [] _ (λ h c. tt) tt (create_session-once cfg rt req)).0

  -- If the repositories return the orders that they are asked for, every run of CreateSession takes
  -- no lock twice, releases each lock that it took by its key and token and no other, records and
  -- makes the provider attempt under the lock of the order, and holds no lock at the end.
  pub create_session-lock_balance :
      Trusted lock_balance env
      → Allowed lock_balance (run env [] (create_session cfg rt req)).0
        × (state lock_balance (run env [] (create_session cfg rt req)).0 ≡ no_locks)
  create_session-lock_balance trusted =
      Spec-sound lock_balance (Stays lock_balance no_locks) env [] _ trusted tt
        (create_session-Balanced cfg rt req)
