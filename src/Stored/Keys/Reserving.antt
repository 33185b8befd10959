-- ===== src/Stored/Keys/Reserving.antt =====
-- A reserved idempotency key stays reserved for its request.
use edn_core.Prelude.{
  ◌≡◌, ◌≢◌, refl, sym, ap, ◌∙◌, subst, ◌⊎◌, inl, inr, true, List, [], ◌∷◌, map, arith,
}
use edn_core.Text.Laws.{eq_of_test, test_of_eq}
use edn_core.Idempotency.{Key}
use edn_core.Errors.{Sentinel, ok, err, sentinel, wrapped, other, key_not_found}
use edn_core.Mongo.{
  Collection, CollectionLaws, clash, Has, Fetch, found, no_documents, fetch_failed, FoundOne,
  InsertOutcome, Inserted, inserted, duplicate_key, insert_failed,
}
use edn_core.Mongo.Documents.{
  NoClash, Inserted-NoClash, Has-of_map, same_of_clash, any_of_Has, test-same_texts,
}
use edn_core.Stored.Results.{find_result, insert_result}
use edn_core.Stored.Keys.{keys_indexes, has_key, reserve, find_by_tenant_op_key}
use edn_core.Stored.Keys.Steps.{claim, Reserved, Reach, Reach-Reserved}

-- The two keys are for the same operation of a tenant.
abbrev SameKey : Key → Key → Type 0
SameKey a b =
    (a.tenant_id ≡ b.tenant_id)
    × (a.operation ≡ b.operation)
    × (a.idempotency_key ≡ b.idempotency_key)

clash_of_SameKey : (a b : Key) → SameKey a b → clash keys_indexes a b ≡ true
clash_of_SameKey a b (p, q, r) = rw (
    test-same_texts (a.tenant_id ∷ a.operation ∷ a.idempotency_key ∷ [])
      (b.tenant_id ∷ b.operation ∷ b.idempotency_key ∷ []) (cc))

has_key-SameKey :
    (k d : Key) → has_key k.tenant_id k.operation k.idempotency_key d ≡ true → SameKey d k
has_key-SameKey k d h = (
  eq_of_test d.tenant_id k.tenant_id (ground arith),
  eq_of_test d.operation k.operation (ground arith),
  eq_of_test d.idempotency_key k.idempotency_key (ground arith),
)

SameKey-has_key :
    (k d : Key) → SameKey d k → has_key k.tenant_id k.operation k.idempotency_key d ≡ true
SameKey-has_key k d (p, q, r) = rw (
  test_of_eq d.tenant_id k.tenant_id p,
  test_of_eq d.operation k.operation q,
  test_of_eq d.idempotency_key k.idempotency_key r,
)

SameKey-of_claim : (a b : Key) → claim a ≡ claim b → SameKey a b
SameKey-of_claim a b e = (ap (λ t. t.0) e, ap (λ t. t.1) e, ap (λ t. t.2) e)

SameKey-flip : (a b : Key) → SameKey a b → SameKey b a
SameKey-flip a b (p, q, r) = (sym p, sym q, sym r)

SameKey-chain : (a b d : Key) → SameKey a b → SameKey b d → SameKey a d
SameKey-chain a b d (p, q, r) (p', q', r') = (p ∙ p', q ∙ q', r ∙ r')

-- The request that was reserved, or an error of the driver.
abbrev pub Holds : (c : Collection Key) → Key → c.State → Type 0
Holds c k t =
    ((r : Key) × (find_by_tenant_op_key c k.tenant_id k.operation k.idempotency_key t ≡ ok r)
      × (r.request_hash ≡ k.request_hash))
    ⊎ (find_by_tenant_op_key c k.tenant_id k.operation k.idempotency_key t ≡ err (wrapped other))

found_claim :
    (k : Key) (xs : List Key) (f : Fetch Key)
    → Reserved k xs
    → FoundOne (has_key k.tenant_id k.operation k.idempotency_key) xs f
    → ((r : Key) × (find_result key_not_found f ≡ ok r) × (r.request_hash ≡ k.request_hash))
      ⊎ (find_result key_not_found f ≡ err (wrapped other))
found_claim k xs (found r) (n, h) (hr, e) =
    let (q, hq, eq) = Has-of_map claim (claim k) xs h in
    let qk = SameKey-of_claim q k eq in
    let rk = has_key-SameKey k r e in
    let same =
      same_of_clash keys_indexes r q xs n
        (clash_of_SameKey r q (SameKey-chain r k q rk (SameKey-flip q k qk)))
        (clash_of_SameKey q r (SameKey-chain q k r qk (SameKey-flip r k rk))) hr hq in
    inl (r, refl, ap (λ t. t.request_hash) same ∙ ap (λ t. t.3) eq)
found_claim k xs no_documents (n, h) missing =
    let (q, hq, eq) = Has-of_map claim (claim k) xs h in
    cc (
      missing,
      any_of_Has (has_key k.tenant_id k.operation k.idempotency_key) q xs hq
          (SameKey-has_key k q (SameKey-of_claim q k eq)),
    )
found_claim k xs fetch_failed r h = inr refl

refused :
    (k d : Key) (xs ys : List Key) (o : InsertOutcome)
    → Reserved k xs
    → SameKey d k
    → Inserted keys_indexes d xs o ys
    → insert_result (wrapped (sentinel Sentinel.duplicate_key)) o ≢ ok tt
refused k d xs ys inserted (n, h) same (fresh, _) =
    let (q, hq, eq) = Has-of_map claim (claim k) xs h in
    let there = any_of_Has (clash keys_indexes d) q xs hq (
      clash_of_SameKey d q
        (SameKey-chain d k q same (SameKey-flip q k (SameKey-of_claim q k eq)))) in
    λ e. cc (fresh, there)
refused k d xs ys duplicate_key r same law = λ e. cc
refused k d xs ys insert_failed r same law = λ e. cc

module _ (c : Collection Key) (laws : CollectionLaws keys_indexes c) (k : Key) where
  reserve-Reserved :
      (s : c.State)
      → NoClash keys_indexes (c.docs s)
      → (reserve c k s).1 ≡ ok tt
      → Reserved k (c.docs (reserve c k s).0)
  unfolding reserve
  reserve-Reserved s n h = (
    Inserted-NoClash keys_indexes k (c.docs s) _ (c.insert_one k s).1 (laws.insert_law k s) n,
    go (c.insert_one k s).1 (laws.insert_law k s) h,
  )
    where
      go :
          (o : InsertOutcome)
          → Inserted keys_indexes k (c.docs s) o (c.docs (c.insert_one k s).0)
          → insert_result (wrapped (sentinel Sentinel.duplicate_key)) o ≡ ok tt
          → Has (claim k) (map claim (c.docs (c.insert_one k s).0))
      go inserted (_, e) h = subst (λ ys. Has (claim k) (map claim ys)) (sym e) (inl refl)
      go duplicate_key _ h = cc
      go insert_failed _ h = cc

  -- A key, once it was reserved, stays reserved until it expires, whatever writes and removals of
  -- expired keys follow: a reservation with the same tenant, operation and key does not succeed, and
  -- a query for it finds the request that was reserved unless the driver fails.
  pub reserve-Holds :
      (s t : c.State) (d : Key)
      → NoClash keys_indexes (c.docs s)
      → (reserve c k s).1 ≡ ok tt
      → Reach c k.expires_at (reserve c k s).0 t
      → SameKey d k
      → ((reserve c d t).1 ≢ ok tt) × Holds c k t
  unfolding reserve find_by_tenant_op_key
  reserve-Holds s t d n h reach same =
      let r = Reach-Reserved c laws k k.expires_at (omega arith) reach (reserve-Reserved s n h) in
      (
        refused k d (c.docs t) _ (c.insert_one d t).1 r same (laws.insert_law d t),
        found_claim k (c.docs t) (c.find_one (has_key k.tenant_id k.operation k.idempotency_key) t)
            r (laws.find_one_law (has_key k.tenant_id k.operation k.idempotency_key) t),
      )
