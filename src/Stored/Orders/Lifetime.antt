-- ===== src/Stored/Orders/Lifetime.antt =====
-- An order from its creation on: what the operations of the repository leave alone.
use edn_core.Prelude.{
  ◌≡◌, refl, sym, ap, ◌∙◌, subst, ◌⊎◌, inl, inr, true, List, [], ◌∷◌, ◌++◌, map, arith,
}
use edn_core.Text.Laws.{test_of_eq}
use edn_core.Checkout.{Order}
use edn_core.Errors.{duplicate_order, sentinel, wrapped, other, Result, ok, err}
use edn_core.Mongo.{
  clash, Collection, CollectionLaws, InsertOutcome, Inserted, inserted, duplicate_key,
  insert_failed, Has,
}
use edn_core.Mongo.Documents.{NoClash, Has-of_map, same_of_clash, any_of_Has, test-same_texts}
use edn_core.Stored.Results.{insert_result}
use edn_core.Stored.Orders.{orders_indexes, as_stored, has_nsu, create, get_by_nsu}
use edn_core.Stored.Orders.Queries.{Answer, get_by_nsu-Answer}
use edn_core.Stored.Orders.Writes.{
  Operation, perform, perform_all, Terms, terms, created_by, Grown, create-Effect, perform-Effect,
  creates, sets_status, sets_provider_url, sets_receipt, marks_attempt,
}

Has-append : {A : Type 0} (x : A) (xs ys : List A) → Has x (xs ++ ys) → Has x xs ⊎ Has x ys
Has-append x [] ys h = inr h
Has-append x (a ∷ xs) ys (inl e) = inl (inl e)
Has-append x (a ∷ xs) ys (inr h) = elim (Has-append x xs ys h) [
  | inl k ↦ inl (inr k)
  | inr k ↦ inr k
]

Has-append_right : {A : Type 0} (x : A) (xs ys : List A) → Has x ys → Has x (xs ++ ys)
Has-append_right x [] ys h = h
Has-append_right x (a ∷ xs) ys h = inr (Has-append_right x xs ys h)

old_of_Grown :
    (added xs ys : List Order) (x : Terms)
    → Grown added xs ys
    → Has x (map terms xs)
    → Has x (map terms ys)
old_of_Grown added xs ys x (inl e) h = subst (Has x) (sym e) h
old_of_Grown added xs ys x (inr e) h =
    subst (Has x) (sym e) (Has-append_right x (map terms added) (map terms xs) h)

new_of_Grown :
    (added xs ys : List Order) (x : Terms)
    → Grown added xs ys
    → Has x (map terms ys)
    → Has x (map terms added) ⊎ Has x (map terms xs)
new_of_Grown added xs ys x (inl e) h = inr (subst (Has x) e h)
new_of_Grown added xs ys x (inr e) h =
    Has-append x (map terms added) (map terms xs) (subst (Has x) e h)

created_first :
    (op : Operation) (ops : List Operation) (x : Terms)
    → Has x (map terms (created_by (op ∷ [])))
    → Has x (map terms (created_by (op ∷ ops)))
created_first (creates o) ops x (inl e) = inl e
created_first (creates o) ops x (inr h) = absurd h
created_first (sets_status _ _ _) ops x h = absurd h
created_first (sets_provider_url _ _ _ _) ops x h = absurd h
created_first (sets_receipt _ _ _) ops x h = absurd h
created_first (marks_attempt _ _) ops x h = absurd h

created_later :
    (op : Operation) (ops : List Operation) (x : Terms)
    → Has x (map terms (created_by ops))
    → Has x (map terms (created_by (op ∷ ops)))
created_later (creates o) ops x h = inr h
created_later (sets_status _ _ _) ops x h = h
created_later (sets_provider_url _ _ _ _) ops x h = h
created_later (sets_receipt _ _ _) ops x h = h
created_later (marks_attempt _ _) ops x h = h

module _ (c : Collection Order) where
  abbrev Kept : c.State → c.State → List Operation → Type 0
  Kept s t ops =
      NoClash orders_indexes (c.docs t)
      × ((x : Terms) → Has x (map terms (c.docs s)) → Has x (map terms (c.docs t)))
      × ((x : Terms)
          → Has x (map terms (c.docs t))
          → Has x (map terms (c.docs s)) ⊎ Has x (map terms (created_by ops)))

clash_of_nsu : (a b : Order) → a.order_nsu ≡ b.order_nsu → clash orders_indexes a b ≡ true
clash_of_nsu a b e = rw (test-same_texts (a.order_nsu ∷ []) (b.order_nsu ∷ []) (ap (λ t. t ∷ []) e))

found_is_it :
    (o p : Order) (xs : List Order)
    → NoClash orders_indexes xs
    → Has p xs
    → terms p ≡ terms o
    → (r : Result Order) → Answer (has_nsu o.order_nsu) xs r
    → ((q : Order) × (r ≡ ok q) × (terms q ≡ terms o)) ⊎ (r ≡ err (wrapped other))
found_is_it o p xs n hp ep (ok q) (hq, e) =
    let same : q.order_nsu ≡ p.order_nsu = ground arith in
    let qp =
      same_of_clash orders_indexes q p xs n (clash_of_nsu q p same) (clash_of_nsu p q (sym same)) hq
        hp in
    inl (q, refl, ap terms qp ∙ ep)
found_is_it o p xs n hp ep (err f) (inl (_, missing)) = cc (
  missing,
  any_of_Has (has_nsu o.order_nsu) p xs hp (test_of_eq p.order_nsu o.order_nsu (ap (λ t. t.0) ep)),
)
found_is_it o p xs n hp ep (err f) (inr e) = inr (ap err e)

module _ (c : Collection Order) (laws : CollectionLaws orders_indexes c) where
  -- Whatever operations follow one another and whichever of them fail, no two orders get the same
  -- number or intent key, each stored order keeps its terms, and each order that is new has the terms
  -- with which one of the operations created it, the times in milliseconds.
  perform_all-Kept :
      (ops : List Operation) (s : c.State)
      → NoClash orders_indexes (c.docs s)
      → Kept c s (perform_all c ops s) ops
  unfolding perform_all
  perform_all-Kept [] s n = (n, λ x h. h, λ x h. inl h)
  perform_all-Kept (op ∷ ops) s n =
      let first = perform-Effect c laws op s in
      let (n', old, fresh) = perform_all-Kept ops (perform c op s).0 (first.0 n) in
      (
        n',
        λ x h. old x (old_of_Grown (created_by (op ∷ [])) (c.docs s) _ x first.1 h),
        λ x h. elim (fresh x h) [
          | inl k ↦ elim (new_of_Grown (created_by (op ∷ [])) (c.docs s) _ x first.1 k) [
            | inl a ↦ inr (created_first op ops x a)
            | inr b ↦ inl b
          ]
          | inr k ↦ inr (created_later op ops x k)
        ],
      )

  created_is_there :
      (o : Order) (s : c.State)
      → (create c o s).1 ≡ ok tt
      → Has (terms (as_stored o)) (map terms (c.docs (create c o s).0))
  unfolding create
  created_is_there o s h = go (c.insert_one (as_stored o) s).1 (laws.insert_law (as_stored o) s) h
    where
      go :
          (r : InsertOutcome)
          → Inserted orders_indexes
              (as_stored o)
              (c.docs s)
              r
              (c.docs (c.insert_one (as_stored o) s).0)
          → insert_result (sentinel duplicate_order) r ≡ ok tt
          → Has (terms (as_stored o)) (map terms (c.docs (c.insert_one (as_stored o) s).0))
      go inserted (_, e) h =
          subst (λ ys. Has (terms (as_stored o)) (map terms ys)) (sym e) (inl refl)
      go duplicate_key _ h = cc
      go insert_failed _ h = cc

  -- An order that was created is found under its number with its terms unchanged, but for its times,
  -- which are kept in milliseconds, after any later operations, unless the driver fails.
  pub get_after_create :
      (o : Order) (ops : List Operation) (s : c.State)
      → NoClash orders_indexes (c.docs s)
      → (create c o s).1 ≡ ok tt
      → ((p : Order) × (get_by_nsu c o.order_nsu (perform_all c ops (create c o s).0) ≡ ok p)
          × (terms p ≡ terms (as_stored o)))
        ⊎ (get_by_nsu c o.order_nsu (perform_all c ops (create c o s).0) ≡ err (wrapped other))
  get_after_create o ops s n h =
      let s1 = (create c o s).0 in
      let t = perform_all c ops s1 in
      let e1 = create-Effect c laws o s in
      let (n, old, _) = perform_all-Kept ops s1 (e1.0 n) in
      let (p, hp, ep) =
        Has-of_map terms (terms (as_stored o)) (c.docs t)
          (old (terms (as_stored o)) (created_is_there o s h)) in
      found_is_it (as_stored o) p (c.docs t) n hp ep (get_by_nsu c o.order_nsu t)
        (get_by_nsu-Answer c laws t o.order_nsu)
