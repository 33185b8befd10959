-- ===== src/Stored/Plans.antt =====
-- internal/plans/mongodb_repository.go: the plans. Their unique indexes are those of
-- ensureVersionedPlansIndexes in internal/platform/mongodb/tenancy.go; the number of a version is a
-- field of the second, here as a text of that length. The time of the clock is an argument,
-- and it and the times of a plan are as BSON holds them, in milliseconds.
pub mod Selling
use edn_core.Prelude.{
  ℕ, zero, suc, ◌==◌, leb, Bool, true, false, not, ◌&&◌, ◌||◌, Option, none, some, List, [], ◌∷◌,
  if◌then◌else◌,
}
use edn_core.Text.{Text, lit, ◌=?◌, is_empty, text_leb}
use edn_core.Checkout.{Time}
use edn_core.Tenancy.{Plan}
use edn_core.Errors.{sentinel, Result, stored_plan_not_found, duplicate_plan}
use edn_core.Mongo.{Collection, UniqueIndex}
use edn_core.Stored.Results.{insert_result, find_result, find_all_result, with_result}

-- A number as an index value.
unfoldable pub unary : ℕ → Text
unary zero = []
unary (suc n) = 1 ∷ unary n

abbrev pub plans_indexes : List (UniqueIndex Plan)
plans_indexes =
    record { fields = λ p. p.plan_uuid ∷ []; holds_document = λ p. true }
    ∷ record {
      fields = λ p. p.tenant_id ∷ p.slug ∷ p.billing_cycle ∷ unary p.version ∷ [];
      holds_document = λ p. true;
    }
    ∷ []

-- `valid_until` is absent, or not before `at`
abbrev pub open_until : Time → Option Time → Bool
open_until at none = true
open_until at (some until) = leb at until

-- A condition that is made only for a value that is not empty.
abbrev pub if_given : Text → Bool → Bool
if_given value test = is_empty value || test

-- buildActivePlanFilter
unfoldable pub active_plan_filter : Text → Text → Text → Text → Time → Plan → Bool
active_plan_filter tenant_id slug billing_cycle channel at p =
    p.tenant_id =? tenant_id
    && (p.active
        && (leb p.valid_from at
            && (open_until at p.valid_until
                && (if_given slug (p.slug =? slug)
                    && (if_given billing_cycle (p.billing_cycle =? billing_cycle)
                        && if_given channel (
                            channel =? lit "all"
                            || (p.channel =? channel || p.channel =? lit "all")))))))

-- SetSort of `version` descending, and of slug, billing cycle and version
abbrev pub latest_first : Plan → Plan → Bool
latest_first a b = leb b.version a.version

unfoldable listed_before : Plan → Plan → Bool
listed_before a b =
    if a.slug =? b.slug
    then if a.billing_cycle =? b.billing_cycle
      then leb b.version a.version
      else text_leb a.billing_cycle b.billing_cycle
    else text_leb a.slug b.slug

module _ (c : Collection Plan) where
  -- mongoPlans.Create
  unfoldable pub create : Plan → c.State → c.State × Result (Unit {0})
  create plan s = with_result (insert_result (sentinel duplicate_plan)) (c.insert_one plan s)

  -- FindByUUID
  unfoldable pub find_by_uuid : Text → c.State → Result Plan
  find_by_uuid plan_uuid s =
      find_result stored_plan_not_found (c.find_one (λ p. p.plan_uuid =? plan_uuid) s)

  -- FindActiveByTenantSlug, at the time `now`
  unfoldable find_active_by_tenant_slug : Text → Text → Time → c.State → Result Plan
  unfolding active_plan_filter
  find_active_by_tenant_slug tenant_id slug now s =
      find_result stored_plan_not_found
        (c.find_first (active_plan_filter tenant_id slug [] [] now) latest_first s)

  -- FindSellableByTenantSlug
  unfoldable pub find_sellable_by_tenant_slug :
      Text → Text → Text → Text → Time → c.State → Result Plan
  unfolding active_plan_filter
  find_sellable_by_tenant_slug tenant_id slug billing_cycle channel at s =
      find_result stored_plan_not_found
        (c.find_first (active_plan_filter tenant_id slug billing_cycle channel at) latest_first s)

  -- ListActiveByTenant, at the time `now`
  unfoldable pub list_active_by_tenant : Text → Text → Time → c.State → Result (List Plan)
  unfolding active_plan_filter listed_before
  list_active_by_tenant tenant_id channel now s =
      find_all_result
        (c.find_sorted (active_plan_filter tenant_id [] [] channel now) listed_before none s)
