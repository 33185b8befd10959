-- ===== src/Stored/Orders/Writes.antt =====
-- The writes of the repository, and what each does to the orders.
use edn_core.Prelude.{ℤ, ◌≡◌, refl, ap, ◌⊎◌, inl, inr, Bool, List, [], ◌∷◌, ◌++◌, map}
use edn_core.Text.{Text}
use edn_core.Checkout.{Time, Order, OrderStatus}
use edn_core.Errors.{Result}
use edn_core.Mongo.{
  clash, Collection, CollectionLaws, InsertOutcome, Inserted, inserted, duplicate_key,
  insert_failed,
}
use edn_core.Mongo.Documents.{NoClash, Inserted-NoClash, Updated-NoClash, map-Updated}
use edn_core.Stored.Orders.{
  orders_indexes, as_stored, has_nsu, with_status, with_provider_url, with_receipt, with_attempt,
  create, update_status, update_provider_url, update_receipt, mark_provider_create_attempted,
}

-- The writes of the repository.
pub data Operation : Type 0 where
  creates : Order → Operation
  sets_status : Text → OrderStatus → Time → Operation
  sets_provider_url : Text → Text → Text → Time → Operation
  sets_receipt : Text → Text → Time → Operation
  marks_attempt : Text → Time → Operation

module _ (c : Collection Order) where
  unfoldable pub perform : Operation → c.State → c.State × Result (Unit {0})
  perform (creates o) = create c o
  perform (sets_status nsu status at) = update_status c nsu status at
  perform (sets_provider_url nsu url slug at) = update_provider_url c nsu url slug at
  perform (sets_receipt nsu url at) = update_receipt c nsu url at
  perform (marks_attempt nsu at) = mark_provider_create_attempted c nsu at

  unfoldable pub perform_all : List Operation → c.State → c.State
  perform_all [] s = s
  perform_all (op ∷ ops) s = perform_all ops (perform op s).0

-- What was agreed on when the order was created.
abbrev pub Terms : Type 0
Terms = Text × Text × Text × Text × Text × Text × ℤ × Text × Text × Text × Text × Time × Time

abbrev pub terms : Order → Terms
terms o = (
  o.order_nsu, o.organization_id, o.tenant_id, o.plan_id, o.plan_slug, o.billing_cycle,
  o.amount_cents, o.currency, o.customer_email, o.customer_document, o.checkout_intent_key,
  o.expires_at, o.created_at,
)

-- The documents of the orders that are created: their times are in milliseconds.
abbrev pub created_by : List Operation → List Order
created_by [] = []
created_by (creates o ∷ ops) = as_stored o ∷ created_by ops
created_by (_ ∷ ops) = created_by ops

-- A write that creates nothing or `added`.
abbrev pub Grown : List Order → List Order → List Order → Type 0
Grown added xs ys = (map terms ys ≡ map terms xs) ⊎ (map terms ys ≡ map terms added ++ map terms xs)

-- What one write does: `added` is what it creates, if it succeeds.
abbrev Effect : List Order → List Order → List Order → Type 0
Effect added xs ys = (NoClash orders_indexes xs → NoClash orders_indexes ys) × Grown added xs ys

module _ (c : Collection Order) (laws : CollectionLaws orders_indexes c) where
  pub create-Effect :
      (o : Order) (s : c.State) → Effect (as_stored o ∷ []) (c.docs s) (c.docs (create c o s).0)
  unfolding create
  create-Effect o s = (
    Inserted-NoClash orders_indexes (as_stored o) (c.docs s) _ (c.insert_one (as_stored o) s).1
        (laws.insert_law (as_stored o) s),
    go (c.insert_one (as_stored o) s).1 (laws.insert_law (as_stored o) s),
  )
    where
      ys : List Order
      ys = c.docs (c.insert_one (as_stored o) s).0

      go :
          (r : InsertOutcome)
          → Inserted orders_indexes (as_stored o) (c.docs s) r ys
          → (map terms ys ≡ map terms (c.docs s))
            ⊎ (map terms ys ≡ terms (as_stored o) ∷ map terms (c.docs s))
      go inserted (_, e) = inr (ap (map terms) e)
      go duplicate_key (_, e) = inl (ap (map terms) e)
      go insert_failed (inl e) = inl (ap (map terms) e)
      go insert_failed (inr (_, e)) = inr (ap (map terms) e)

  update-Effect :
      (p : Order → Bool) (f : Order → Order) (s : c.State)
      → ((a b : Order) → clash orders_indexes (f a) b ≡ clash orders_indexes a b)
      → ((a b : Order) → clash orders_indexes a (f b) ≡ clash orders_indexes a b)
      → ((a : Order) → terms (f a) ≡ terms a)
      → Effect [] (c.docs s) (c.docs (c.update_one p f s).0)
  update-Effect p f s left right same = (
    Updated-NoClash orders_indexes p f left right (c.docs s) _ (c.update_one p f s).1
        (laws.update_law p f s),
    inl (map-Updated terms p f same (c.docs s) _ (c.update_one p f s).1 (laws.update_law p f s)),
  )

  pub perform-Effect :
      (op : Operation) (s : c.State)
      → Effect (created_by (op ∷ [])) (c.docs s) (c.docs (perform c op s).0)
  unfolding perform update_status update_provider_url update_receipt mark_provider_create_attempted
  perform-Effect (creates o) s = create-Effect o s
  perform-Effect (sets_status nsu status at) s =
      update-Effect (has_nsu nsu) (with_status status at) s (λ a b. refl) (λ a b. refl) (λ a. refl)
  perform-Effect (sets_provider_url nsu url slug at) s =
      update-Effect (has_nsu nsu) (with_provider_url url slug at) s (λ a b. refl) (λ a b. refl)
        (λ a. refl)
  perform-Effect (sets_receipt nsu url at) s =
      update-Effect (has_nsu nsu) (with_receipt url at) s (λ a b. refl) (λ a b. refl) (λ a. refl)
  perform-Effect (marks_attempt nsu at) s =
      update-Effect (has_nsu nsu) (with_attempt at) s (λ a b. refl) (λ a b. refl) (λ a. refl)
