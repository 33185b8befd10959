-- ===== src/Protection/Flight.antt =====
-- The requests that the middleware of the leads lets run at the same time.
use edn_core.Prelude.{
  ℕ, suc, ◌≤◌, ◌<◌, ltb, ◌≡◌, ◌↔◌, refl, ap, inl, inr, Bool, Bool-cases, true, false, Option, arith,
}
use edn_core.Text.{Text}
use edn_core.Checkout.{Time}
use edn_core.Ratelimit.{Limiter, allow}
use edn_core.Protection.{
  client_key, Passage, served, rate_limited, ProtectionConfig, positive_or, Protection,
  new_protection, take_slot, after_allow, enter, leave,
}

-- How many handlers are running after a request with this answer.
abbrev running : Passage → ℕ → ℕ
running served n = suc n
running (rate_limited _) n = n

module _ (split_host_port : Text → Option Text) (cfg : ProtectionConfig) where
  -- The states that requests and ends of handlers lead to, with the number of handlers that run.
  pub data Reached : Protection → ℕ → Type 0 where
    starts : Reached (new_protection cfg) 0
    enters :
        (p : Protection) (n : ℕ) (remote_addr : Text) (now : Time)
        → Reached p n
        → Reached
            (enter split_host_port p remote_addr now).0
            (running (enter split_host_port p remote_addr now).1 n)
    ends : (p : Protection) (n : ℕ) → Reached p (suc n) → Reached (leave p) n

  -- The slots that are taken are those of the handlers that run, within the configured number.
  abbrev Within : Protection → ℕ → Type 0
  Within p n =
      (p.in_flight ≡ n)
      × (p.in_flight ≤ p.capacity)
      × (p.capacity ≡ positive_or 10 cfg.max_in_flight)

  take_slot-Within :
      (p : Protection) (n : ℕ) → Within p n → Within (take_slot p).0 (running (take_slot p).1 n)
  take_slot-Within p n (e, le, c) = elim (Bool-cases (ltb p.in_flight p.capacity)) [
    | inl free ↦ rw free (ap suc e, ground arith, c)
    | inr full ↦ rw full (e, le, c)
  ]

  after_allow-Within :
      (p : Protection) (n : ℕ) (answer : Limiter × (Bool × ℕ))
      → Within p n
      → Within (after_allow p answer).0 (running (after_allow p answer).1 n)
  after_allow-Within p n (next, (true, _)) h = take_slot-Within (record p { limiter = next }) n h
  after_allow-Within p n (next, (false, _)) h = h

  Reached-Within : {p : Protection} {n : ℕ} → Reached p n → Within p n
  unfolding new_protection enter
  Reached-Within starts = (refl, omega arith, refl)
  Reached-Within (enters p n remote_addr now r) =
      after_allow-Within p n (allow p.limiter (client_key split_host_port remote_addr) now)
        (Reached-Within r)
  Reached-Within (ends p n r) = let (e, le, c) = Reached-Within r in (ground arith, omega arith, c)

  take_slot-served :
      (p : Protection) (n : ℕ)
      → Within p n
      → (take_slot p).1 ≡ served ↔ n < positive_or 10 cfg.max_in_flight
  take_slot-served p n (e, le, c) = elim (Bool-cases (ltb p.in_flight p.capacity)) [
    | inl free ↦ rw free (λ h. ground arith, λ h. refl)
    | inr full ↦ rw full (λ h. cc, λ h. absurd (ground arith))
  ]

  after_allow-served :
      (p : Protection) (n : ℕ) (answer : Limiter × (Bool × ℕ))
      → Within p n
      → (after_allow p answer).1 ≡ served
        ↔ (answer.1.0 ≡ true) × (n < positive_or 10 cfg.max_in_flight)
  after_allow-served p n (next, (true, _)) h =
      let (there, back) = take_slot-served (record p { limiter = next }) n h in
      (λ k. (refl, there k), λ k. back k.1)
  after_allow-served p n (next, (false, _)) h = (λ k. cc, λ k. cc)

  -- Whatever requests and ends of handlers there have been: at most as many handlers run as
  -- configured (10 where the setting is not positive), the slots that are taken are theirs, and the
  -- next request is served exactly if the limiter accepts it and fewer than that many run.
  pub Reached-Bounded :
      (p : Protection) (n : ℕ) (remote_addr : Text) (now : Time)
      → Reached p n
      → (n ≤ positive_or 10 cfg.max_in_flight)
        × (p.in_flight ≡ n)
        × ((enter split_host_port p remote_addr now).1 ≡ served
            ↔ ((allow p.limiter (client_key split_host_port remote_addr) now).1.0 ≡ true)
              × (n < positive_or 10 cfg.max_in_flight))
  unfolding enter
  Reached-Bounded p n remote_addr now r =
      let w = Reached-Within r in
      (
        omega arith,
        w.0,
        after_allow-served p n (allow p.limiter (client_key split_host_port remote_addr) now) w,
      )
