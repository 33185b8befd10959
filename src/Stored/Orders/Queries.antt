-- ===== src/Stored/Orders/Queries.antt =====
-- What the queries for orders find.
use edn_core.Prelude.{
  leb_total, ◌≤◌, ◌↔◌, ◌≡◌, ◌≢◌, refl, sym, ◌⊎◌, inl, inr, Bool, true, false, none, List, [], ◌∷◌,
  any, and_split, arith,
}
use edn_core.Text.{Text}
use edn_core.Text.Laws.{eq_of_test, test_of_eq}
use edn_core.Checkout.{Order, OrderStatus, created, checkout_created}
use edn_core.Errors.{
  sentinel, wrapped, other, Result, ok, err, Sentinel-discrete, stored_order_not_found,
  order_not_found,
}
use edn_core.Mongo.{
  Collection, CollectionLaws, Fetch, found, no_documents, fetch_failed, FetchAll, fetched,
  query_failed, Has, FoundOne, FoundSorted, Sorted, IsOrder,
}
use edn_core.Stored.Results.{field_is, find_result, find_all_result}
use edn_core.Stored.Orders.{
  orders_indexes, is_open, has_nsu, has_intent_key, has_fingerprint, newest_first, get_by_nsu,
  adapted_find_by_intent_key, adapt_not_found, find_open_by_business_fingerprint,
}

-- An order that the test accepts, the error for a missing order if there is none, or an error of the
-- driver.
abbrev pub Answer : (Order → Bool) → List Order → Result Order → Type 0
Answer p orders (ok order) = Has order orders × (p order ≡ true)
Answer p orders (err e) =
    ((e ≡ sentinel order_not_found) × (any p orders ≡ false)) ⊎ (e ≡ wrapped other)

adapted-Answer :
    (p : Order → Bool) (orders : List Order) (f : Fetch Order)
    → FoundOne p orders f
    → Answer p orders (adapt_not_found (find_result stored_order_not_found f))
unfolding Sentinel-discrete
adapted-Answer p orders (found d) h = h
adapted-Answer p orders no_documents h = inl (refl, h)
adapted-Answer p orders fetch_failed h = inr refl

module _ (c : Collection Order) (laws : CollectionLaws orders_indexes c) (s : c.State) where
  pub get_by_nsu-Answer : (nsu : Text) → Answer (has_nsu nsu) (c.docs s) (get_by_nsu c nsu s)
  unfolding get_by_nsu
  get_by_nsu-Answer nsu =
      adapted-Answer (has_nsu nsu) (c.docs s) (c.find_one (has_nsu nsu) s)
        (laws.find_one_law (has_nsu nsu) s)

  pub find_by_intent_key-Answer :
      (key : Text) → Answer (has_intent_key key) (c.docs s) (adapted_find_by_intent_key c key s)
  unfolding adapted_find_by_intent_key
  find_by_intent_key-Answer key =
      adapted-Answer (has_intent_key key) (c.docs s) (c.find_one (has_intent_key key) s)
        (laws.find_one_law (has_intent_key key) s)

newest_first-IsOrder : IsOrder newest_first
newest_first-IsOrder = record {
  total = λ a b. leb_total b.created_at a.created_at;
  trans = λ a b c h k. ground arith;
}

-- The order is the tenant's and the customer's, for the plan and the billing cycle, and still open. An
-- order without a tenant or a document is nobody's.
pub record OpenFor (tenant cpf plan cycle : Text) (o : Order) : Type 0 where
  pub same_tenant : o.tenant_id ≡ tenant
  pub has_tenant : tenant ≢ []
  pub same_customer : o.customer_document ≡ cpf
  pub has_customer : cpf ≢ []
  pub same_plan : o.plan_slug ≡ plan
  pub same_cycle : o.billing_cycle ≡ cycle
  pub still_open :
      (o.status ≡ created) ⊎ ((o.status ≡ checkout_created) ⊎ (o.status ≡ OrderStatus.pending))

-- No order is older than one that follows it.
abbrev pub NewestFirst : List Order → Type 0
NewestFirst [] = Unit
NewestFirst (o ∷ orders) =
    ((later : Order) → Has later orders → later.created_at ≤ o.created_at) × NewestFirst orders

-- The open orders of a fingerprint, all of them, the newest first.
abbrev pub OpenOrders : Text → Text → Text → Text → List Order → Result (List Order) → Type 0
OpenOrders tenant cpf plan cycle orders (ok found_orders) =
    ((o : Order) → Has o found_orders ↔ Has o orders × OpenFor tenant cpf plan cycle o)
    × NewestFirst found_orders
OpenOrders tenant cpf plan cycle orders (err e) = e ≡ wrapped other

newest_first-NewestFirst : (orders : List Order) → Sorted newest_first orders → NewestFirst orders
newest_first-NewestFirst [] sorted = tt
newest_first-NewestFirst (o ∷ orders) (first, sorted) = (
  λ later h. (let k : newest_first o later ≡ true = first later h in ground arith),
  newest_first-NewestFirst orders sorted,
)

field_is-eq : (field value : Text) → field_is field value ≡ true → (field ≡ value) × (value ≢ [])
field_is-eq [] value h = cc
field_is-eq (c ∷ field) value h = let e = eq_of_test (c ∷ field) value h in (e, λ k. cc (e, k))

field_is-true : (field value : Text) → field ≡ value → value ≢ [] → field_is field value ≡ true
field_is-true [] value e ne = absurd (ne (sym e))
field_is-true (c ∷ field) value e ne = test_of_eq (c ∷ field) value e

is_open-cases :
    (status : OrderStatus)
    → is_open status ≡ true
    → (status ≡ created) ⊎ ((status ≡ checkout_created) ⊎ (status ≡ OrderStatus.pending))
unfolding is_open
is_open-cases status h = ground arith

cases-is_open :
    (status : OrderStatus)
    → (status ≡ created) ⊎ ((status ≡ checkout_created) ⊎ (status ≡ OrderStatus.pending))
    → is_open status ≡ true
unfolding is_open
cases-is_open status h = ground arith

has_fingerprint-OpenFor :
    (tenant cpf plan cycle : Text) (o : Order)
    → has_fingerprint tenant cpf plan cycle o ≡ true
    → OpenFor tenant cpf plan cycle o
unfolding has_fingerprint
has_fingerprint-OpenFor tenant cpf plan cycle o h =
    let (t, r1) = and_split _ _ h in
    let (d, r2) = and_split _ _ r1 in
    let (p, r3) = and_split _ _ r2 in
    let (b, open_status) = and_split _ _ r3 in
    record {
      same_tenant = (field_is-eq o.tenant_id tenant t).0;
      has_tenant = (field_is-eq o.tenant_id tenant t).1;
      same_customer = (field_is-eq o.customer_document cpf d).0;
      has_customer = (field_is-eq o.customer_document cpf d).1;
      same_plan = eq_of_test o.plan_slug plan p;
      same_cycle = eq_of_test o.billing_cycle cycle b;
      still_open = is_open-cases o.status open_status;
    }

OpenFor-has_fingerprint :
    (tenant cpf plan cycle : Text) (o : Order)
    → OpenFor tenant cpf plan cycle o
    → has_fingerprint tenant cpf plan cycle o ≡ true
unfolding has_fingerprint
OpenFor-has_fingerprint tenant cpf plan cycle o h =
    rw
      (
        field_is-true o.tenant_id tenant h.same_tenant h.has_tenant,
        field_is-true o.customer_document cpf h.same_customer h.has_customer,
        test_of_eq o.plan_slug plan h.same_plan,
        test_of_eq o.billing_cycle cycle h.same_cycle,
        cases-is_open o.status h.still_open,
      )
      refl

module _ (c : Collection Order) (laws : CollectionLaws orders_indexes c) (s : c.State)
    (tenant cpf plan cycle : Text) where
  -- FindOpenByBusinessFingerprint returns exactly the stored orders of the tenant, document, plan and
  -- billing cycle whose status is created, checkout created or pending, without a limit and by creation
  -- time, the newest first; none if the tenant or the document is empty. Its only error is one of the
  -- driver.
  pub find_open-OpenOrders :
      OpenOrders tenant cpf plan cycle
        (c.docs s)
        (find_open_by_business_fingerprint c tenant cpf plan cycle s)
  unfolding find_open_by_business_fingerprint
  find_open-OpenOrders =
      go (c.find_sorted (has_fingerprint tenant cpf plan cycle) newest_first none s) (
        laws.find_sorted_law (has_fingerprint tenant cpf plan cycle) newest_first none s
          newest_first-IsOrder)
    where
      go :
          (f : FetchAll Order)
          → FoundSorted (has_fingerprint tenant cpf plan cycle) newest_first none (c.docs s) f
          → OpenOrders tenant cpf plan cycle (c.docs s) (find_all_result f)
      go (fetched found_orders) (sound, sorted, complete) = (
        λ o. (
          λ h. ((sound o h).0, has_fingerprint-OpenFor tenant cpf plan cycle o (sound o h).1),
          λ h. complete o h.0 (OpenFor-has_fingerprint tenant cpf plan cycle o h.1),
        ),
        newest_first-NewestFirst found_orders sorted,
      )
      go query_failed h = refl
