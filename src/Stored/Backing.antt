-- ===== src/Stored/Backing.antt =====
-- The services on top of the repository for orders.
use edn_core.Prelude.{◌≡◌, sym, subst, both, List}
use edn_core.Text.{Text}
use edn_core.Text.Laws.{eq_of_test}
use edn_core.Checkout.{Order}
use edn_core.Errors.{Result, ok, err}
use edn_core.Mongo.{Collection, CollectionLaws}
use edn_core.Effects.{Call, get_by_nsu, find_by_intent_key}
use edn_core.Effects.Run.{History, Environment}
use edn_core.Payments.Monitors.{Fetched}
use edn_core.Stored.Orders
use edn_core.Stored.Orders.{orders_indexes, has_nsu, has_intent_key, adapted_find_by_intent_key}
use edn_core.Stored.Orders.Queries.{Answer, get_by_nsu-Answer, find_by_intent_key-Answer}

-- The environment answers the queries for orders by the repository, each in some state of the
-- collection: between two calls, other processes may have written to it.
pub record ReadsOrders (c : Collection Order) (env : Environment) : Type 0 where
  pub state_at : History → c.State
  pub by_nsu :
      (h : History) (nsu : Text) → env h (get_by_nsu nsu) ≡ Orders.get_by_nsu c nsu (state_at h)
  pub by_intent_key :
      (h : History) (key : Text)
      → env h (find_by_intent_key key) ≡ adapted_find_by_intent_key c key (state_at h)

Fetched-by_nsu :
    (nsu : Text) (orders : List Order) (r : Result Order)
    → Answer (has_nsu nsu) orders r
    → Fetched (get_by_nsu nsu) r
Fetched-by_nsu nsu orders (ok o) (_, e) = eq_of_test o.order_nsu nsu e
Fetched-by_nsu nsu orders (err e) h = tt

Fetched-by_key :
    (key : Text) (orders : List Order) (r : Result Order)
    → Answer (has_intent_key key) orders r
    → Fetched (find_by_intent_key key) r
Fetched-by_key key orders (ok o) (_, e) = eq_of_test o.checkout_intent_key key (both _ _ e).1
Fetched-by_key key orders (err e) h = tt

module _ (c : Collection Order) (laws : CollectionLaws orders_indexes c) (env : Environment)
    (reads : ReadsOrders c env) where
  -- The repository meets what the theorems on the services rely on: if an environment answers the
  -- queries for orders by the repository, in whatever states of the collection, then each order that a
  -- query returns is the one that was asked for.
  pub reads-Fetched : (h : History) (call : Call) → Fetched call (env h call)
  reads-Fetched h (get_by_nsu nsu) =
      subst (Fetched (get_by_nsu nsu)) (sym (reads.by_nsu h nsu))
        (Fetched-by_nsu nsu _ _ (get_by_nsu-Answer c laws (reads.state_at h) nsu))
  reads-Fetched h (find_by_intent_key key) =
      subst (Fetched (find_by_intent_key key)) (sym (reads.by_intent_key h key))
        (Fetched-by_key key _ _ (find_by_intent_key-Answer c laws (reads.state_at h) key))
  reads-Fetched h _ = tt
