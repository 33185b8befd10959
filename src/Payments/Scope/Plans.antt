-- ===== src/Payments/Scope/Plans.antt =====
-- versionedPlanResponses: the slugs and billing cycles of the public plan list.
use edn_core.Prelude.{
  ◌≡◌, refl, ap, sym, ◌∙◌, subst, Bool, true, false, not, ◌&&◌, ◌||◌, List, [], ◌∷◌, ◌++◌, map, any,
  arith, if◌then◌else◌,
}
use edn_core.Text.{Text, lit, ◌=?◌}
use edn_core.Tenancy.{Plan}
use edn_core.Payments.{PlanResponse}
use edn_core.Payments.Scope.{plan_key, plan_responses_from, versioned_plan_responses}

abbrev pub has : Text → List Text → Bool
has key keys = any (λ k. k =? key) keys

abbrev response_key : PlanResponse → Text
response_key resp = resp.slug ++ lit "|" ++ resp.billing_cycle

abbrev Distinct : List Text → Type 0
Distinct [] = Unit
Distinct (key ∷ keys) = (has key keys ≡ false) × Distinct keys

has-step :
    (p k : Text) (seen : List Text) (plans_have : Bool) (b : Bool)
    → has p seen ≡ b
    → (if b
        then plans_have && not (has k seen)
        else p =? k || plans_have && not (p =? k || has k seen))
      ≡ ((p =? k || plans_have) && not (has k seen))
has-step p k seen plans_have b h = grind arith

abbrev keys_from : List Text → List Plan → List Text
keys_from seen plans = map response_key (plan_responses_from seen plans)

keys_from-case :
    (p k : Text) (seen : List Text) (plans : List Plan) (resp : PlanResponse)
    → response_key resp ≡ p
    → has k (keys_from seen plans) ≡ (has k (map plan_key plans) && not (has k seen))
    → has k (keys_from (p ∷ seen) plans) ≡ (has k (map plan_key plans) && not (has k (p ∷ seen)))
    → (b : Bool) → has p seen ≡ b
    → has k (
        map response_key (
          if b
          then plan_responses_from seen plans
          else resp ∷ plan_responses_from (p ∷ seen) plans))
      ≡ ((p =? k || has k (map plan_key plans)) && not (has k seen))
keys_from-case p k seen plans resp same old new true h =
    old ∙ has-step p k seen (has k (map plan_key plans)) true h
keys_from-case p k seen plans resp same old new false h =
    ap (λ q. q =? k || has k (keys_from (p ∷ seen) plans)) same
    ∙ ap (λ r. p =? k || r) new
    ∙ has-step p k seen (has k (map plan_key plans)) false h

has-keys_from :
    (k : Text) (seen : List Text) (plans : List Plan)
    → has k (keys_from seen plans) ≡ (has k (map plan_key plans) && not (has k seen))
unfolding plan_responses_from
has-keys_from k seen [] = refl
has-keys_from k seen (plan ∷ plans) =
    keys_from-case (plan_key plan) k seen plans _ refl (has-keys_from k seen plans)
      (has-keys_from k (plan_key plan ∷ seen) plans) (has (plan_key plan) seen) refl

not_seen : (p : Text) (seen : List Text) (b : Bool) → (b && not (has p (p ∷ seen))) ≡ false
not_seen p seen b = grind arith

Distinct-case :
    (p : Text) (seen : List Text) (plans : List Plan) (resp : PlanResponse)
    → response_key resp ≡ p
    → Distinct (keys_from seen plans)
    → Distinct (keys_from (p ∷ seen) plans)
    → (b : Bool)
    → Distinct (
        map response_key (
          if b
          then plan_responses_from seen plans
          else resp ∷ plan_responses_from (p ∷ seen) plans))
Distinct-case p seen plans resp same old new true = old
Distinct-case p seen plans resp same old new false = (
  subst (λ q. has q (keys_from (p ∷ seen) plans) ≡ false) (sym same)
      (has-keys_from p (p ∷ seen) plans ∙ not_seen p seen (has p (map plan_key plans))),
  new,
)

keys_from-Distinct : (seen : List Text) (plans : List Plan) → Distinct (keys_from seen plans)
unfolding plan_responses_from
keys_from-Distinct seen [] = tt
keys_from-Distinct seen (plan ∷ plans) =
    Distinct-case (plan_key plan) seen plans _ refl (keys_from-Distinct seen plans)
      (keys_from-Distinct (plan_key plan ∷ seen) plans) (has (plan_key plan) seen)

and_true : (b : Bool) → (b && not false) ≡ b
and_true true = refl
and_true false = refl

-- The public plan list has each pair of a slug and a billing cycle (written with '|' between them)
-- once at most, and has a pair exactly if a stored plan has it.
versioned_plan_responses-keys :
    (plans : List Plan) (k : Text)
    → Distinct (map response_key (versioned_plan_responses plans))
      × (has k (map response_key (versioned_plan_responses plans)) ≡ has k (map plan_key plans))
unfolding versioned_plan_responses
versioned_plan_responses-keys plans k =
    (keys_from-Distinct [] plans, has-keys_from k [] plans ∙ and_true (has k (map plan_key plans)))
