-- ===== src/Recreate/Safety.antt =====
-- What recreate-checkout sends, and to whom; and what its masks show.
use edn_core.Prelude.{
  ℕ, zero, suc, ◌-◌, ◌≤◌, ◌≡◌, ◌⊎◌, refl, ltb, true, false, Option, none, [], ◌∷◌, ◌++◌, ◌==◌,
  length, drop, arith, if◌then◌else◌,
}
use edn_core.Text.{Text, lit, is_empty, keep, is_ascii_digit}
use edn_core.Checkout.{Order, created}
use edn_core.Errors.{Result, ok, err}
use edn_core.Runtime.{Runtime}
use edn_core.Payments.{CreateCheckoutRequest}
use edn_core.Payments.Session.{is_blank}
use edn_core.Recreate.{
  Options, Outcome, failed, summarised, posted, trim_slashes, infer_base_url, has_approved_host,
  stars, mask_phone, mask_document,
}

-- The order shows no trace of a checkout at the provider, and the request repeats its plan and its
-- customer.
pub record Repeats (order : Order) (req : CreateCheckoutRequest) : Type 0 where
  pub is_new : order.status ≡ created
  pub no_link : is_blank order.provider_checkout_url ≡ true
  pub no_invoice : is_blank order.invoice_slug ≡ true
  pub no_attempt : order.provider_create_attempted_at ≡ none
  pub same_plan : req.plan_slug ≡ order.plan_slug
  pub same_cycle : req.billing_cycle ≡ order.billing_cycle
  pub same_name : req.customer.name ≡ order.customer_name
  pub same_document : req.customer.document ≡ order.customer_document
  pub no_resume : req.checkout_intent_key ≡ []

abbrev OfOrder : Result Order → CreateCheckoutRequest → Type 0
OfOrder (ok order) req = Repeats order req
OfOrder (err _) req = ⊥

-- The API's address is the database's own, or the override, whose host is on the list or which the
-- operator has allowed.
abbrev Destined : (Text → Option Text) → Options → Text → Type 0
Destined host_of options endpoint =
    (endpoint ≡ infer_base_url options.database ++ lit "/v1/checkout/sessions")
    ⊎ ((endpoint ≡ trim_slashes options.base_url ++ lit "/v1/checkout/sessions")
        × ((has_approved_host (host_of (trim_slashes options.base_url)) ≡ true)
            ⊎ (options.allow_unsafe_url ≡ true)))

abbrev pub Justified : (Text → Option Text) → Options → Result Order → Outcome → Type 0
Justified host_of options found failed = Unit
Justified host_of options found (summarised req) = (options.dry_run ≡ true) × OfOrder found req
Justified host_of options found (posted endpoint key req) =
    (options.dry_run ≡ false)
    × OfOrder found req
    × Destined host_of options endpoint
    × (is_empty key ≡ false)

abbrev Resolved : (Text → Option Text) → Options → Result Text → Type 0
Resolved host_of options (err _) = Unit
Resolved host_of options (ok base) = Destined host_of options (base ++ lit "/v1/checkout/sessions")

-- How many characters of a masked text are not a star.
abbrev pub shown : Text → ℕ
shown [] = 0
shown (c ∷ s) = if c == b'*' then shown s else suc (shown s)

shown_of_stars : (n : ℕ) (s : Text) → shown (stars n ++ s) ≡ shown s
unfolding stars
shown_of_stars zero s = refl
shown_of_stars (suc n) s = shown_of_stars n s

shown-length : (s : Text) → shown s ≤ length s
shown-length [] = omega arith
shown-length (c ∷ s) = ground (arith, shown-length s)

length-drop : (n : ℕ) (s : Text) → length (drop n s) ≡ length s - n
length-drop zero s = omega arith
length-drop (suc n) [] = omega arith
length-drop (suc n) (c ∷ s) = omega (arith, length-drop n s)

-- A masked phone number shows two characters of it at most, and a masked document three.
shown-mask_phone :
    (phone doc : Text) → (shown (mask_phone phone) ≤ 2) × (shown (mask_document doc) ≤ 3)
unfolding mask_phone mask_document
shown-mask_phone phone doc = (tail 2 (keep is_ascii_digit phone), tail 3 (keep is_ascii_digit doc))
  where
    tail :
        (n : ℕ) (d : Text)
        → shown
            (if ltb (length d) n then lit "***" else stars (length d - n) ++ drop (length d - n) d)
          ≤ n
    tail n d = ground (
      arith,
      shown_of_stars (length d - n) (drop (length d - n) d),
      shown-length (drop (length d - n) d),
      length-drop (length d - n) d,
    )
