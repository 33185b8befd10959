-- ===== src/Stored/Plans/Selling.antt =====
-- Which plan is sold.
use edn_core.Prelude.{
  ℕ, ◌≤◌, ◌≡◌, refl, ◌⊎◌, inl, inr, leb_total, both, either, or_right, or_left, Bool, true, ◌||◌,
  Option, none, some, List, [], ◌∷◌, leb, leb→le, arith,
}
use edn_core.Text.{Text, lit, ◌=?◌}
use edn_core.Text.Laws.{eq_of_test, test_of_eq}
use edn_core.Checkout.{Time}
use edn_core.Tenancy.{Plan}
use edn_core.Errors.{Result, ok, err, sentinel, wrapped, other, stored_plan_not_found}
use edn_core.Mongo.{
  Collection, CollectionLaws, Has, Fetch, found, no_documents, fetch_failed, FoundFirst, IsOrder,
}
use edn_core.Mongo.Documents.{any_of_Has}
use edn_core.Stored.Results.{find_result}
use edn_core.Stored.Plans.{
  plans_indexes, active_plan_filter, open_until, if_given, latest_first,
  find_sellable_by_tenant_slug,
}

abbrev NotOver : Time → Option Time → Type 0
NotOver at none = Unit
NotOver at (some until) = at ≤ until

-- The plan is on sale for the tenant under the slug, in the billing cycle and on the channel, at the
-- time; an empty slug, cycle or channel and the channel "all" ask for nothing.
pub record Sellable (tenant slug cycle channel : Text) (at : Time) (p : Plan) : Type 0 where
  pub of_tenant : p.tenant_id ≡ tenant
  pub is_active : p.active ≡ true
  pub begun : p.valid_from ≤ at
  pub not_over : NotOver at p.valid_until
  pub of_slug : (slug ≡ []) ⊎ (p.slug ≡ slug)
  pub of_cycle : (cycle ≡ []) ⊎ (p.billing_cycle ≡ cycle)
  pub on_channel :
      (channel ≡ []) ⊎ ((channel ≡ lit "all") ⊎ ((p.channel ≡ channel) ⊎ (p.channel ≡ lit "all")))

latest_first-IsOrder : IsOrder latest_first
latest_first-IsOrder = record {
  total = λ a b. leb_total b.version a.version;
  trans = λ a b c h k. ground arith;
}

-- The plan of the latest version that is on sale, or the error for none.
abbrev pub Sold : Text → Text → Text → Text → Time → List Plan → Result Plan → Type 0
Sold tenant slug cycle channel at plans (ok p) =
    Has p plans
    × Sellable tenant slug cycle channel at p
    × ((q : Plan) → Has q plans → Sellable tenant slug cycle channel at q → q.version ≤ p.version)
Sold tenant slug cycle channel at plans (err e) =
    ((e ≡ sentinel stored_plan_not_found)
      × ((q : Plan) → Has q plans → Sellable tenant slug cycle channel at q → ⊥))
    ⊎ (e ≡ wrapped other)

leb_of_le : (a b : ℕ) → a ≤ b → leb a b ≡ true
leb_of_le a b h = ground arith

open_until-NotOver : (at : Time) (o : Option Time) → open_until at o ≡ true → NotOver at o
open_until-NotOver at none h = tt
open_until-NotOver at (some until) h = leb→le at until h

over_of : (at : Time) (o : Option Time) → NotOver at o → open_until at o ≡ true
over_of at none h = refl
over_of at (some until) h = leb_of_le at until h

given :
    (value field : Text) → if_given value (field =? value) ≡ true → (value ≡ []) ⊎ (field ≡ value)
given [] field h = inl refl
given (c ∷ value) field h = inr (eq_of_test field (c ∷ value) h)

if_given_of :
    (value field : Text) → (value ≡ []) ⊎ (field ≡ value) → if_given value (field =? value) ≡ true
if_given_of [] field h = refl
if_given_of (c ∷ value) field (inl e) = cc
if_given_of (c ∷ value) field (inr e) = test_of_eq field (c ∷ value) e

abbrev Shown : Text → Text → Type 0
Shown channel field =
    (channel ≡ []) ⊎ ((channel ≡ lit "all") ⊎ ((field ≡ channel) ⊎ (field ≡ lit "all")))

abbrev shown : Text → Text → Bool
shown channel field = channel =? lit "all" || (field =? channel || field =? lit "all")

shown_of : (channel field : Text) → shown channel field ≡ true → Shown channel field
shown_of channel field h = elim (either _ _ h) [
  | inl e ↦ inr (inl (eq_of_test channel (lit "all") e))
  | inr k ↦ elim (either _ _ k) [
    | inl e ↦ inr (inr (inl (eq_of_test field channel e)))
    | inr e ↦ inr (inr (inr (eq_of_test field (lit "all") e)))
  ]
]

channel_of :
    (channel field : Text) → if_given channel (shown channel field) ≡ true → Shown channel field
channel_of [] field h = inl refl
channel_of (c ∷ channel) field h = shown_of (c ∷ channel) field h

of_channel :
    (channel field : Text) → Shown channel field → if_given channel (shown channel field) ≡ true
of_channel [] field h = refl
of_channel (c ∷ channel) field (inl e) = cc
of_channel (c ∷ channel) field (inr (inl e)) = rw (test_of_eq (c ∷ channel) (lit "all") e)
of_channel (c ∷ channel) field (inr (inr (inl e))) =
    or_right _ _ (or_left _ _ (test_of_eq field (c ∷ channel) e))
of_channel (c ∷ channel) field (inr (inr (inr e))) =
    or_right _ _ (or_right _ _ (test_of_eq field (lit "all") e))

module _ (tenant slug cycle channel : Text) (at : Time) (p : Plan) where
  filter-Sellable :
      active_plan_filter tenant slug cycle channel at p ≡ true
      → Sellable tenant slug cycle channel at p
  unfolding active_plan_filter
  filter-Sellable h =
      let (tenant, h1) = both _ _ h in
      let (live, h2) = both _ _ h1 in
      let (from, h3) = both _ _ h2 in
      let (until, h4) = both _ _ h3 in
      let (named, h5) = both _ _ h4 in
      let (cycled, channelled) = both _ _ h5 in
      record {
        of_tenant = eq_of_test _ _ tenant;
        is_active = live;
        begun = leb→le _ _ from;
        not_over = open_until-NotOver at p.valid_until until;
        of_slug = given slug p.slug named;
        of_cycle = given cycle p.billing_cycle cycled;
        on_channel = channel_of channel p.channel channelled;
      }

  Sellable-filter :
      Sellable tenant slug cycle channel at p
      → active_plan_filter tenant slug cycle channel at p ≡ true
  unfolding active_plan_filter
  Sellable-filter s =
      rw
        (
          test_of_eq p.tenant_id tenant s.of_tenant,
          s.is_active,
          leb_of_le p.valid_from at s.begun,
          over_of at p.valid_until s.not_over,
          if_given_of slug p.slug s.of_slug,
          if_given_of cycle p.billing_cycle s.of_cycle,
        )
        (of_channel channel p.channel s.on_channel)

module _ (c : Collection Plan) (laws : CollectionLaws plans_indexes c)
    (tenant slug cycle channel : Text) (at : Time) (s : c.State) where
  -- FindSellableByTenantSlug returns a stored plan that is on sale for the tenant, slug, cycle, channel
  -- and time, of the latest version of all that are; it answers ErrNotFound only if none is, and any
  -- other error is one of the driver.
  pub find_sellable-Sold :
      Sold tenant slug cycle channel at
        (c.docs s)
        (find_sellable_by_tenant_slug c tenant slug cycle channel at s)
  unfolding find_sellable_by_tenant_slug
  find_sellable-Sold =
      go (c.find_first (active_plan_filter tenant slug cycle channel at) latest_first s) (
        laws.find_first_law (active_plan_filter tenant slug cycle channel at) latest_first s
          latest_first-IsOrder)
    where
      go :
          (f : Fetch Plan)
          → FoundFirst (active_plan_filter tenant slug cycle channel at) latest_first (c.docs s) f
          → Sold tenant slug cycle channel at (c.docs s) (find_result stored_plan_not_found f)
      go (found p) (stored, accepted, first) = (
        stored,
        filter-Sellable tenant slug cycle channel at p accepted,
        λ q h on_sale.
            leb→le q.version p.version
              (first q h (Sellable-filter tenant slug cycle channel at q on_sale)),
      )
      go no_documents missing = inl (
        refl,
        λ q h on_sale.
            let accepted = Sellable-filter tenant slug cycle channel at q on_sale in
            cc (
              missing,
              any_of_Has (active_plan_filter tenant slug cycle channel at) q (c.docs s) h accepted,
            ),
      )
      go fetch_failed h = inr refl
