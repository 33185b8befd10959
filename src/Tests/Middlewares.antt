-- ===== src/Tests/Middlewares.antt =====
-- The theorems on the middlewares and the administration of tenants at concrete inputs.
use edn_core.Prelude.{◌*◌, ◌≤◌, ◌<◌, ◌≡◌, ◌↔◌, refl, pos, negsuc, true, none, List, [], ◌∷◌, arith}
use edn_core.Text.{Text, lit, Text-discrete}
use edn_core.Checkout.{Time, second, minute}
use edn_core.Ratelimit.{Limiter, new, allow}
use edn_core.Protection.{
  retry_after_seconds, client_key, served, rate_limited, protect, ProtectionConfig, Protection,
  new_protection, enter,
}
use edn_core.Protection.Waiting.{protect_all, protect-after_wait}
use edn_core.Protection.Flight.{Reached, starts, enters, Reached-Bounded}
use edn_core.Prelude.{◌⊎◌, false}
use edn_core.Tenancy.{Tenant}
use edn_core.Mongo.{Collection}
use edn_core.Stored.Tenants.{tenants_indexes}
use edn_core.Tenants.{deactivates, authenticate, serve}
use edn_core.Tenants.Kept.{Administered, serve-Administered}
use edn_core.Tests.Memory.{memory}
use edn_core.Tests.Memory.Backed.{memory-CollectionLaws}

-- A limit of one request, which is used up.
abbrev used_up : Limiter
used_up = (protect (λ s. none) (new 1 minute) (lit "a") 1000).0

abbrev others : List (Text × Time)
others = (lit "b", 3000) ∷ []

told_to_wait : (protect (λ s. none) used_up (lit "a") (2 * second)).1 ≡ rate_limited 59
unfolding protect allow retry_after_seconds Text-discrete
told_to_wait = refl

protect-after_wait_example :
    (protect
      (λ s. none)
      (protect_all (λ s. none) (protect (λ s. none) used_up (lit "a") (2 * second)).0 others)
      (lit "a")
      (61 * second)).1
    ≡ served
unfolding client_key Text-discrete
protect-after_wait_example =
    protect-after_wait (λ s. none) used_up (lit "a") (2 * second) (61 * second) 59 others
      told_to_wait (refl, tt) (omega arith)

abbrev settings : ProtectionConfig
settings = record {
  rate_limit_window_sec = pos 60;
  rate_limit_requests = negsuc 0;
  max_in_flight = pos 1;
}

abbrev one_running : Protection
one_running = (enter (λ s. none) (new_protection settings) (lit "a") 1000).0

one_runs : Reached (λ s. none) settings one_running 1
unfolding enter new_protection allow
one_runs = enters (new_protection settings) 0 (lit "a") 1000 starts

Reached-Bounded_example :
    (1 ≤ 1)
    × (one_running.in_flight ≡ 1)
    × ((enter (λ s. none) one_running (lit "b") 2000).1 ≡ served
        ↔ ((allow one_running.limiter (client_key (λ s. none) (lit "b")) 2000).1.0 ≡ true)
          × (1 < 1))
Reached-Bounded_example = Reached-Bounded (λ s. none) settings one_running 1 (lit "b") 2000 one_runs

abbrev tenants : Collection Tenant
tenants = memory tenants_indexes

abbrev stored_tenants : List Tenant
stored_tenants =
    record {
      tenant_uuid = lit "t1";
      organization_id = lit "org";
      slug = lit "main";
      name = lit "Main";
      channels = lit "web" ∷ [];
      active = true;
    }
    ∷ []

serve-Administered_example :
    ((authenticate (lit "Bearer s") (lit "Bearer s") ≡ false)
      × ((serve tenants
            (lit "Bearer s")
            (lit "t2")
            (lit "Bearer s")
            (deactivates (lit "t1"))
            stored_tenants).0
          ≡ stored_tenants)
      × ((serve tenants
            (lit "Bearer s")
            (lit "t2")
            (lit "Bearer s")
            (deactivates (lit "t1"))
            stored_tenants).1.0
          ≡ 401))
    ⊎ ((authenticate (lit "Bearer s") (lit "Bearer s") ≡ true)
        × Administered tenants
            (memory-CollectionLaws tenants_indexes)
            (lit "Bearer s")
            (lit "t2")
            (deactivates (lit "t1"))
            stored_tenants
            (serve tenants
              (lit "Bearer s")
              (lit "t2")
              (lit "Bearer s")
              (deactivates (lit "t1"))
              stored_tenants).0)
serve-Administered_example =
    serve-Administered tenants (memory-CollectionLaws tenants_indexes) (lit "Bearer s") (lit "t2")
      (lit "Bearer s") (deactivates (lit "t1")) stored_tenants (refl, tt)
