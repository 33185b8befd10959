-- ===== src/Tests/Stores.antt =====
-- The theorems on the repositories, on collections in memory.
use edn_core.Prelude.{◌≡◌, ◌≢◌, refl, ◌⊎◌, List, [], ◌∷◌, pos, arith}
use edn_core.Text.{lit, Text-discrete}
use edn_core.Checkout.{Order, OrderStatus, Payment, approved, OutboxEvent}
use edn_core.Idempotency.{Key}
use edn_core.Tenancy.{Plan}
use edn_core.Errors.{ok, err, wrapped, other}
use edn_core.Mongo.{Collection, Texts-discrete}
use edn_core.Effects.{Call, Reply, get_by_nsu, find_by_intent_key}
use edn_core.Effects.Run.{History}
use edn_core.Payments.Monitors.{Fetched}
use edn_core.Stored.Orders
use edn_core.Stored.Orders.{
  orders_indexes, create, find_open_by_business_fingerprint, adapted_find_by_intent_key,
}
use edn_core.Stored.Orders.Queries.{OpenOrders, find_open-OpenOrders}
use edn_core.Stored.Orders.Writes.{Operation, creates, sets_status, perform_all, terms}
use edn_core.Stored.Orders.Lifetime.{get_after_create}
use edn_core.Stored.Backing.{ReadsOrders, reads-Fetched}
use edn_core.Stored.Payments
use edn_core.Stored.Payments.{payments_indexes, upsert, find_by_transaction_nsu}
use edn_core.Stored.Payments.Upserting.{Upsert, StoredAs, find-after_upsert}
use edn_core.Stored.Keys.{keys_indexes, reserve}
use edn_core.Stored.Keys.Steps.{perform, here, next, writes, fails}
use edn_core.Stored.Keys.Reserving.{Holds, reserve-Holds}
use edn_core.Stored.Outbox.{outbox_indexes, fetch_unpublished}
use edn_core.Stored.Outbox.Fetching
use edn_core.Stored.Outbox.Fetching.{fetch_unpublished-Fetched}
use edn_core.Stored.Plans.{plans_indexes, find_sellable_by_tenant_slug}
use edn_core.Stored.Plans.Selling.{Sold, find_sellable-Sold}
use edn_core.Tests.World.{world, order_of, key, outbox_event, plan}
use edn_core.Tests.Memory.{memory}
use edn_core.Tests.Memory.Backed.{memory-CollectionLaws}

abbrev orders : Collection Order
orders = memory orders_indexes

abbrev first_order : Order
first_order = order_of (lit "o1") (lit "i1")

abbrev second_order : Order
second_order = order_of (lit "o2") (lit "i2")

abbrev operations : List Operation
operations = sets_status (lit "o1") OrderStatus.paid 600 ∷ creates second_order ∷ []

abbrev stored_orders : List Order
stored_orders = order_of (lit "o3") (lit "i3") ∷ []

second_created : (create orders second_order stored_orders).1 ≡ ok tt
unfolding create Texts-discrete Text-discrete
second_created = refl

get_after_create_example :
    ((p : Order) × (Orders.get_by_nsu orders
          (lit "o2")
          (perform_all orders operations (create orders second_order stored_orders).0)
        ≡ ok p)
      × (terms p ≡ terms (Orders.as_stored second_order)))
    ⊎ (Orders.get_by_nsu orders
          (lit "o2")
          (perform_all orders operations (create orders second_order stored_orders).0)
        ≡ err (wrapped other))
get_after_create_example =
    get_after_create orders (memory-CollectionLaws orders_indexes) second_order operations
      stored_orders (refl, tt) second_created

find_open-OpenOrders_example :
    OpenOrders (lit "ten") (lit "52998224725") (lit "pro") (lit "monthly") stored_orders (
      find_open_by_business_fingerprint orders
        (lit "ten")
        (lit "52998224725")
        (lit "pro")
        (lit "monthly")
        stored_orders)
find_open-OpenOrders_example =
    find_open-OpenOrders orders (memory-CollectionLaws orders_indexes) stored_orders (lit "ten")
      (lit "52998224725") (lit "pro") (lit "monthly")

-- The environment that reads the orders of a collection that grows.
abbrev grown : History → List Order
grown h = first_order ∷ second_order ∷ []

abbrev answer : History → (c : Call) → Reply c
answer h (get_by_nsu nsu) = Orders.get_by_nsu orders nsu (grown h)
answer h (find_by_intent_key intent_key) = adapted_find_by_intent_key orders intent_key (grown h)
answer h c = world h c

answer-ReadsOrders : ReadsOrders orders answer
answer-ReadsOrders = record {
  state_at = grown;
  by_nsu = λ h nsu. refl;
  by_intent_key = λ h key. refl;
}

reads-Fetched_example : Fetched (get_by_nsu (lit "o2")) (answer [] (get_by_nsu (lit "o2")))
reads-Fetched_example =
    reads-Fetched orders (memory-CollectionLaws orders_indexes) answer answer-ReadsOrders []
      (get_by_nsu (lit "o2"))

abbrev payments : Collection Payment
payments = memory payments_indexes

abbrev payment : Payment
payment = record {
  payment_id = lit "p1";
  order_nsu = lit "o1";
  transaction_nsu = lit "t1";
  invoice_slug = lit "i1";
  amount_cents = pos 9900;
  paid_amount_cents = pos 9900;
  installments = 1;
  capture_method = lit "pix";
  receipt_url = lit "";
  status = approved;
  raw_payload = lit "{}";
  created_at = 900;
  updated_at = 900;
}

abbrev stored_payments : List Payment
stored_payments = record payment { payment_id = lit "p0"; created_at = 800 } ∷ []

upserted : (upsert payments payment stored_payments).1 ≡ ok tt
unfolding upsert Text-discrete
upserted = refl

find-after_upsert_example :
    Upsert payments
      (memory-CollectionLaws payments_indexes)
      payment
      stored_payments
      (upsert payments payment stored_payments).0
    × (((p : Payment) × (find_by_transaction_nsu payments
              (lit "t1")
              (upsert payments payment stored_payments).0
            ≡ ok p)
          × StoredAs (Payments.as_stored payment) stored_payments p)
        ⊎ (find_by_transaction_nsu payments (lit "t1") (upsert payments payment stored_payments).0
            ≡ err (wrapped other)))
find-after_upsert_example =
    find-after_upsert payments (memory-CollectionLaws payments_indexes) payment stored_payments
      (refl, tt) upserted

abbrev keys : Collection Key
keys = memory keys_indexes

reserved : (reserve keys key []).1 ≡ ok tt
unfolding reserve
reserved = refl

abbrev failed_key : List Key
failed_key =
    (perform keys (fails (lit "ten") (lit "checkout.create") (lit "k1") 700)
      (reserve keys key []).0).0

reserve-Holds_example : ((reserve keys key failed_key).1 ≢ ok tt) × Holds keys key failed_key
reserve-Holds_example =
    reserve-Holds keys (memory-CollectionLaws keys_indexes) key [] failed_key key tt reserved
      (next _ _ here (writes (fails (lit "ten") (lit "checkout.create") (lit "k1") 700)))
      (refl, refl, refl)

abbrev outbox : Collection OutboxEvent
outbox = memory outbox_indexes

fetch_unpublished-Fetched_example :
    Fetching.Fetched 10 (outbox_event ∷ []) (fetch_unpublished outbox 10 (outbox_event ∷ []))
fetch_unpublished-Fetched_example =
    fetch_unpublished-Fetched outbox (memory-CollectionLaws outbox_indexes) 10 (outbox_event ∷ [])
      (λ e. omega arith)

abbrev plans : Collection Plan
plans = memory plans_indexes

find_sellable-Sold_example :
    Sold (lit "ten") (lit "pro") (lit "monthly") (lit "web") 1000 (plan ∷ []) (
      find_sellable_by_tenant_slug plans
        (lit "ten")
        (lit "pro")
        (lit "monthly")
        (lit "web")
        1000
        (plan ∷ []))
find_sellable-Sold_example =
    find_sellable-Sold plans (memory-CollectionLaws plans_indexes) (lit "ten") (lit "pro")
      (lit "monthly") (lit "web") 1000 (plan ∷ [])
