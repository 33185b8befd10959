-- ===== src/Payments/Create/Pricing.antt =====
-- CreateSession: what a new checkout is charged, and what its response rests on.
use edn_core.Prelude.{
  ◌≡◌, refl, Bool, true, false, Option, none, some, List, [], ◌∷◌, arith, if◌then◌else◌,
}
use edn_core.Text.{Text, is_empty}
use edn_core.Checkout.{Time, Order}
use edn_core.Errors.{Result, ok, err}
use edn_core.Runtime.{Runtime}
use edn_core.Tenancy.{Plan}
use edn_core.Payments.{CreateCheckoutRequest, CreateCheckoutResponse, InfinitePayCheckoutRequest}
use edn_core.Payments.Request.{validate_create_checkout_request}
use edn_core.Payments.Scope.{
  ResolvedTenantScope, resolved_from, resolve_tenant_scope, resolve_checkout_plan,
}
use edn_core.Payments.Session.{PaymentsConfig}
use edn_core.Payments.Replay.{reserve_or_replay_checkout}
use edn_core.Payments.Create.Shape.{create_reserved-Spec}
use edn_core.Payments.Create.{
  create_fresh, create_reserved, create_under_fingerprint, fingerprint, create_serialized,
  create_new_session,
}
use edn_core.Payments.Draft.{
  Draft, expire_stale_order_under_lock, expire_or_block, reuse_open_order_for_fingerprint,
}
use edn_core.Effects.{
  Call, Reply, ret, find_sellable_by_tenant_slug, create_order, create_checkout,
  update_provider_url, acquire_fingerprint_lock, new_uuid, attempt, ask, ◌>>=◌,
}
use edn_core.Effects.Run.{Environment, run}
use edn_core.Effects.Monitor.{
  Monitor, Allowed, Spec, Spec-sound, Spec-bind, Spec-then, Stays, state,
}

-- What a run has seen: the plan, the order that it created, and the link that it saved.
pub record Sale : Type 0 where
  pub plan : Option Plan
  pub created : Option Order
  pub saved : Option (Text × Text)

-- A link counts once the order was created in this run.
abbrev saved_for : Option Order → Option (Text × Text) → Text × Text → Option (Text × Text)
saved_for none old new = old
saved_for (some _) old new = some new

abbrev sale_step : Sale → (c : Call) → Reply c → Sale
sale_step s (find_sellable_by_tenant_slug _ _ _ _ _) (ok plan) = record s { plan = some plan }
sale_step s (create_order order) (ok _) = record s { created = some order }
sale_step s (update_provider_url nsu url _ _) (ok _) = record s {
  saved = saved_for s.created s.saved (nsu, url);
}
sale_step s _ _ = s

-- The order carries the plan's identity, price and currency.
pub record OfPlan (plan : Plan) (order : Order) : Type 0 where
  pub plan_id : order.plan_id ≡ plan.plan_uuid
  pub plan_version : order.plan_version ≡ plan.version
  pub price : order.amount_cents ≡ plan.price_cents
  pub currency : order.currency ≡ plan.currency
  pub unattempted : order.provider_create_attempted_at ≡ none

abbrev Sold : Option Plan → Order → Type 0
Sold (some plan) order = OfPlan plan order
Sold none order = ⊥

-- The provider is asked for the created order, at its amount, and for the same customer.
pub record Charges (order : Order) (req : InfinitePayCheckoutRequest) : Type 0 where
  pub same_order : req.order_nsu ≡ order.order_nsu
  pub same_amount : req.amount_cents ≡ order.amount_cents
  pub same_currency : req.currency ≡ order.currency
  pub same_customer : req.customer_document ≡ order.customer_document

abbrev Charged : Option Order → InfinitePayCheckoutRequest → Type 0
Charged (some order) req = Charges order req
Charged none req = ⊥

abbrev SaleCheck : Sale → Call → Type 0
SaleCheck s (create_order order) = Sold s.plan order
SaleCheck s (create_checkout req) = Charged s.created req
SaleCheck s _ = Unit

abbrev pub sale_guard : Monitor Sale
sale_guard = record {
  start = record { plan = none; created = none; saved = none };
  step = sale_step;
  check = SaleCheck;
  trust = λ _ _. Unit;
}

-- The response names the created order with its key and expiry, and its link is saved on the order.
pub record Delivered (order : Order) (saved : Option (Text × Text)) (resp : CreateCheckoutResponse)
    : Type 0 where
  pub same_order : resp.order_nsu ≡ order.order_nsu
  pub same_key : resp.checkout_intent_key ≡ order.checkout_intent_key
  pub same_expiry : resp.expires_at ≡ order.expires_at
  pub new : resp.resumed ≡ false
  pub link_saved : saved ≡ some (order.order_nsu, resp.checkout_url)

abbrev Outcome : Option Order → Option (Text × Text) → Result CreateCheckoutResponse → Type 0
Outcome (some order) saved (ok resp) = Delivered order saved resp
Outcome _ _ _ = Unit

abbrev pub Concluded : Sale → Result CreateCheckoutResponse → Type 0
Concluded s r = Outcome s.created s.saved r

abbrev planned : Plan → Sale
planned plan = record { plan = some plan; created = none; saved = none }

module _ (cfg : PaymentsConfig) (plan : Plan) where
  create_fresh-sale :
      (d : Draft) (nsu : Text)
      → d.plan ≡ resolved_from plan
      → Spec sale_guard Concluded (planned plan) (create_fresh cfg d nsu)
  unfolding create_fresh
  create_fresh-sale d nsu h = ground arith

  expire_or_block-sale :
      (now : Time) (orders : List Order)
      → Spec sale_guard
          (Stays sale_guard (planned plan))
          (planned plan)
          (expire_or_block now orders)
  unfolding expire_or_block expire_stale_order_under_lock
  expire_or_block-sale now [] = ground arith
  expire_or_block-sale now (o ∷ orders) = ground (arith, expire_or_block-sale now orders)

  reuse-sale :
      (d : Draft)
      → Spec sale_guard
          (Stays sale_guard (planned plan))
          (planned plan)
          (reuse_open_order_for_fingerprint d)
  unfolding reuse_open_order_for_fingerprint
  reuse-sale d = grind (arith, expire_or_block-sale)

  reserve-sale :
      (scope : ResolvedTenantScope) (key hash : Text) (now : Time)
      → Spec sale_guard
          (Stays sale_guard (planned plan))
          (planned plan)
          (reserve_or_replay_checkout scope key hash now)
  unfolding reserve_or_replay_checkout
  reserve-sale scope key hash now = ground arith

  no_order-Concluded : (r : Result CreateCheckoutResponse) → Concluded (planned plan) r
  no_order-Concluded r = tt

  create_reserved-sale :
      (d : Draft)
      → d.plan ≡ resolved_from plan
      → Spec sale_guard Concluded (planned plan) (create_reserved cfg d)
  create_reserved-sale d h =
      create_reserved-Spec sale_guard (planned plan) Concluded no_order-Concluded cfg d
        (reserve-sale d.scope d.idempotency_key d.request_hash d.now) (reuse-sale d)
        (λ nsu. create_fresh-sale d nsu h)

  under_fingerprint-sale :
      (d : Draft) (hash token : Text) (locked : Result (Unit {0}))
      → d.plan ≡ resolved_from plan
      → Spec sale_guard Concluded (planned plan) (create_under_fingerprint cfg d hash token locked)
  unfolding create_under_fingerprint
  under_fingerprint-sale d hash token (err e) h = tt
  under_fingerprint-sale d hash token (ok _) h =
      Spec-bind sale_guard Concluded Concluded (planned plan) (create_reserved cfg d) _
        (create_reserved-sale d h) (λ s r q. (tt, λ _ _. q))

  create_serialized-sale :
      (rt : Runtime) (d : Draft)
      → d.plan ≡ resolved_from plan
      → Spec sale_guard Concluded (planned plan) (create_serialized cfg rt d)
  unfolding create_serialized
  create_serialized-sale rt d h = go (is_empty d.cpf)
    where
      go :
          (b : Bool)
          → Spec sale_guard Concluded (planned plan) (
              if b
              then create_reserved cfg d
              else attempt (ask new_uuid) >>= λ token.
                  attempt (ask (acquire_fingerprint_lock (fingerprint rt d) token))
                  >>= create_under_fingerprint cfg d (fingerprint rt d) token)
      go true = create_reserved-sale d h
      go false = (
        tt,
        λ token _. (tt, λ locked _. under_fingerprint-sale d (fingerprint rt d) token locked h),
      )

module _ (cfg : PaymentsConfig) (rt : Runtime) (req : CreateCheckoutRequest) (key : Text) where
  create_new_session-sale :
      Spec sale_guard Concluded sale_guard.start (create_new_session cfg rt req key)
  unfolding create_new_session resolve_checkout_plan
  create_new_session-sale =
      Spec-then sale_guard Concluded sale_guard.start
        (ret (validate_create_checkout_request rt req)) _ refl
        (λ _. (
          tt,
          λ now _.
              Spec-then sale_guard Concluded sale_guard.start
                (resolve_tenant_scope rt req.organization_slug req.tenant_slug req.channel) _
                scoping
                (λ scope. (
                  tt,
                  elim [
                    | err _ ↦ λ _. tt
                    | ok plan ↦ λ _. create_serialized-sale cfg plan rt _ refl
                  ],
                ))
                (λ e. tt),
        ))
        (λ e. tt)
    where
      scoping :
          Spec sale_guard
            (Stays sale_guard sale_guard.start)
            sale_guard.start
            (resolve_tenant_scope rt req.organization_slug req.tenant_slug req.channel)
      scoping = unfold resolve_tenant_scope in ground arith

  -- In every run of the create path of CreateSession, an order is created only with the identity,
  -- version, price and currency of the plan that the repository returned in this run; the provider
  -- is asked for a checkout only of the order created in this run, at the order's amount and
  -- currency and for its customer; and if an order was created and the run ends without an error,
  -- the response names that order with its intent key and expiry, is not marked as resumed, and its
  -- link is the one saved on the order.
  pub create_new_session-charges_plan :
      (env : Environment)
      → Allowed sale_guard (run env [] (create_new_session cfg rt req key)).0
        × Concluded
            (state sale_guard (run env [] (create_new_session cfg rt req key)).0)
            (run env [] (create_new_session cfg rt req key)).1
  create_new_session-charges_plan env =
      Spec-sound sale_guard Concluded env [] _ (λ h c. tt) tt create_new_session-sale
