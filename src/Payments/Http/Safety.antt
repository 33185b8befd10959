-- ===== src/Payments/Http/Safety.antt =====
-- What the HTTP answers promise: for the relay's 200, and for the tracking with its recovery.
use edn_core.Prelude.{
  ◌≡◌, ◌⊎◌, refl, Bool, true, false, ◌==◌, Option, none, some, [], arith, if◌then◌else◌,
}
use edn_core.Text.{Text}
use edn_core.Errors.{Result, ok, err}
use edn_core.Runtime.{Runtime}
use edn_core.Payments.{CreateCheckoutResponse, TrackCheckoutResponse}
use edn_core.Payments.Session.{PaymentsConfig}
use edn_core.Payments.Resume.{resume_session}
use edn_core.Payments.Resume.Safety.{provider_once_Spec, balance_Spec}
use edn_core.Payments.Status.{track_by_intent_key}
use edn_core.Payments.Webhook.Guard.{Reconciliation, Settled}
use edn_core.Payments.Http.{
  Response, answer, after_recovery, after_tracking, track_checkout_session, needs_recovery, tracked,
}
use edn_core.Relay.{map_core_status}
use edn_core.Effects.{bind, ret}
use edn_core.Effects.Run.{Environment, run}
use edn_core.Effects.Monitor.{
  Allowed, Trusted, Spec, Spec-sound, Spec-bind, Spec-after, Spec-any, Stays, state,
}
use edn_core.Payments.Monitors.{provider_guard, AnyEnd, no_locks, lock_balance, Attempt, idle}

-- Either the webhook was handled to its end, or the provider does not get a 200 from the relay.
abbrev pub Acknowledged : Reconciliation → Response → Type 0
Acknowledged s resp = Settled s (ok tt) ⊎ (((map_core_status resp.code).0 == 200) ≡ false)

-- The tracking endpoint.
module _ (cfg : PaymentsConfig) where
  track-idle :
      (s : Attempt) (key : Text)
      → Spec provider_guard (Stays provider_guard s) s (track_by_intent_key key)
  unfolding track_by_intent_key
  track-idle s key = ground arith

  after_recovery-Stays :
      (s : Attempt) (key : Text) (resp : TrackCheckoutResponse) (r : Result CreateCheckoutResponse)
      → Spec provider_guard (Stays provider_guard s) s (after_recovery key resp r)
  unfolding after_recovery track_by_intent_key
  after_recovery-Stays s key resp (ok _) = ground arith
  after_recovery-Stays s key resp (err e) = ground arith

  after_recovery-balanced :
      (key : Text) (resp : TrackCheckoutResponse) (r : Result CreateCheckoutResponse)
      → Spec lock_balance (Stays lock_balance no_locks) no_locks (after_recovery key resp r)
  unfolding after_recovery track_by_intent_key
  after_recovery-balanced key resp (ok _) = ground arith
  after_recovery-balanced key resp (err e) = ground arith

  after_tracking-once :
      (key : Text) (r : Result TrackCheckoutResponse)
      → Spec provider_guard AnyEnd idle (after_tracking cfg key r)
  unfolding after_tracking
  after_tracking-once key (err e) = tt
  after_tracking-once key (ok resp) = by_need (needs_recovery resp)
    where
      by_need :
          (b : Bool)
          → Spec provider_guard AnyEnd idle (
              if b
              then bind (resume_session cfg key) (after_recovery key resp)
              else ret (answer 200 (tracked resp)))
      by_need true =
          Spec-bind provider_guard AnyEnd AnyEnd idle (resume_session cfg key) _
            (provider_once_Spec cfg key)
            (λ s r _.
              Spec-any provider_guard (Stays provider_guard s) s (after_recovery key resp r)
                (after_recovery-Stays s key resp r))
      by_need false = tt

  after_tracking-balanced :
      (key : Text) (r : Result TrackCheckoutResponse)
      → Spec lock_balance (Stays lock_balance no_locks) no_locks (after_tracking cfg key r)
  unfolding after_tracking
  after_tracking-balanced key (err e) = refl
  after_tracking-balanced key (ok resp) = by_need (needs_recovery resp)
    where
      by_need :
          (b : Bool)
          → Spec lock_balance (Stays lock_balance no_locks) no_locks (
              if b
              then bind (resume_session cfg key) (after_recovery key resp)
              else ret (answer 200 (tracked resp)))
      by_need true =
          Spec-after lock_balance (Stays lock_balance no_locks) no_locks (resume_session cfg key) _
            (balance_Spec cfg key) (λ r. after_recovery-balanced key resp r)
      by_need false = refl

  track_session-once :
      (body : Option Text) → Spec provider_guard AnyEnd idle (track_checkout_session cfg body)
  unfolding track_checkout_session track_by_intent_key
  track_session-once none = tt
  track_session-once (some key) = grind (arith, after_tracking-once)

  track_session-balanced :
      (body : Option Text)
      → Spec lock_balance (Stays lock_balance no_locks) no_locks (track_checkout_session cfg body)
  unfolding track_checkout_session track_by_intent_key
  track_session-balanced none = refl
  track_session-balanced (some key) = grind (arith, after_tracking-balanced)

module _ (cfg : PaymentsConfig) (env : Environment) (body : Option Text) where
  -- If the repositories return the orders that they are asked for, every run of the public tracking
  -- endpoint, with its synchronous recovery and its fresh read, asks the provider for a checkout
  -- once at most, after the attempt was recorded for the same order and under that order's lock,
  -- releases exactly the lock that it took, and holds no lock at the end.
  pub track_checkout_session-once :
      Trusted lock_balance env
      → Allowed provider_guard (run env [] (track_checkout_session cfg body)).0
        × Allowed lock_balance (run env [] (track_checkout_session cfg body)).0
        × (state lock_balance (run env [] (track_checkout_session cfg body)).0 ≡ no_locks)
  track_checkout_session-once trusted =
      let balanced =
        Spec-sound lock_balance (Stays lock_balance no_locks) env []
          (track_checkout_session cfg body) trusted tt (track_session-balanced cfg body) in
      (
        (Spec-sound provider_guard AnyEnd env [] _ (λ h c. tt) tt (track_session-once cfg body)).0,
        balanced.0,
        balanced.1,
      )
