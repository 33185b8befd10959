-- ===== src/Protection.antt =====
-- internal/payments/protection.go and internal/leads/protection.go: the middlewares in front of the
-- public endpoints. net.SplitHostPort is an argument, which gives the host. A wait in seconds is
-- rounded up exactly, as math.Ceil does for windows of less than 2 ^ 22 seconds.
pub mod Waiting
pub mod Flight
use edn_core.Prelude.{
  ℕ, zero, suc, ◌+◌, ◌-◌, ◌*◌, ◌/◌, ltb, ◌==◌, ℤ, pos, negsuc, Bool, true, false, Option, none,
  some, if◌then◌else◌,
}
use edn_core.Text.{Text, lit, is_empty, trim_space}
use edn_core.Checkout.{Time, second, minute}
use edn_core.Ratelimit.{Limiter, new, allow}

abbrev host_or : Text → Option Text → Text
host_or address none = address
host_or address (some host) = if is_empty host then address else host

-- paymentsClientKey and clientKey
unfoldable pub client_key : (Text → Option Text) → Text → Text
unfolding trim_space
client_key split_host_port remote_addr =
    let address = trim_space remote_addr in
    if is_empty address then lit "unknown" else host_or address (split_host_port address)

-- The header Retry-After of paymentsWriteRateLimited, and of writeRateLimited with formatRetryAfter
unfoldable pub retry_after_seconds : ℕ → ℕ
retry_after_seconds retry_after =
    let wait = if retry_after == 0 then second else retry_after in
    let secs = (wait + (second - 1)) / second in if secs == 0 then 1 else secs

-- NewCreateSessionRateLimiter, NewTrackRateLimiter and NewAdminSearchRateLimiter
abbrev create_session_limiter : Limiter
create_session_limiter = new 10 minute

abbrev track_limiter : Limiter
track_limiter = new 30 minute

abbrev admin_search_limiter : Limiter
admin_search_limiter = new 20 minute

-- The next handler serves the request, or the answer is 429 with a time to wait in seconds.
pub data Passage : Type 0 where
  served : Passage
  rate_limited : ℕ → Passage

abbrev pub passage : Bool × ℕ → Passage
passage (true, _) = served
passage (false, retry_after) = rate_limited (retry_after_seconds retry_after)

-- The handler of buildCreateSessionMiddleware, buildTrackMiddleware and buildAdminSearchMiddleware
unfoldable pub protect : (Text → Option Text) → Limiter → Text → Time → Limiter × Passage
unfolding client_key
protect split_host_port l remote_addr now =
    let (next, answer) = allow l (client_key split_host_port remote_addr) now in
    (next, passage answer)

-- The settings that are read; what is not positive has a default.
pub record ProtectionConfig : Type 0 where
  pub rate_limit_window_sec : ℤ
  pub rate_limit_requests : ℤ
  pub max_in_flight : ℤ

abbrev pub positive_or : ℕ → ℤ → ℕ
positive_or default (pos zero) = default
positive_or default (pos (suc n)) = suc n
positive_or default (negsuc _) = default

-- The limiter and the channel: its capacity, and how many slots are taken.
pub record Protection : Type 0 where
  pub limiter : Limiter
  pub capacity : ℕ
  pub in_flight : ℕ

-- NewProtectionMiddleware
unfoldable pub new_protection : ProtectionConfig → Protection
new_protection cfg = record {
  limiter =
      new (positive_or 60 cfg.rate_limit_requests)
        (positive_or 60 cfg.rate_limit_window_sec * second);
  capacity = positive_or 10 cfg.max_in_flight;
  in_flight = 0;
}

abbrev pub take_slot : Protection → Protection × Passage
take_slot p =
    if ltb p.in_flight p.capacity
    then (record p { in_flight = suc p.in_flight }, served)
    else (p, rate_limited (retry_after_seconds second))

abbrev pub after_allow : Protection → Limiter × (Bool × ℕ) → Protection × Passage
after_allow p (next, (true, _)) = take_slot (record p { limiter = next })
after_allow p (next, (false, retry_after)) =
    (record p { limiter = next }, rate_limited (retry_after_seconds retry_after))

-- Its handler up to the next one, and the deferred receive
unfoldable pub enter : (Text → Option Text) → Protection → Text → Time → Protection × Passage
unfolding client_key retry_after_seconds
enter split_host_port p remote_addr now =
    after_allow p (allow p.limiter (client_key split_host_port remote_addr) now)

abbrev pub leave : Protection → Protection
leave p = record p { in_flight = p.in_flight - 1 }
