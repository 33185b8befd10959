-- ===== src/Stored/Keys/Steps.antt =====
-- What the writes of the repository, and the database, do to a reserved key.
use edn_core.Prelude.{
  ◌≤◌, ◌<◌, ◌≡◌, refl, sym, ap, subst, inl, inr, Bool, true, false, List, [], ◌∷◌, map, arith,
}
use edn_core.Text.{Text}
use edn_core.Checkout.{Time, OrderStatus}
use edn_core.Idempotency.{Key}
use edn_core.Errors.{Result}
use edn_core.Mongo.{
  Collection, CollectionLaws, clash, clashes, Has, InsertOutcome, Inserted, inserted, duplicate_key,
  insert_failed,
}
use edn_core.Mongo.Documents.{NoClash, Inserted-NoClash, Updated-NoClash, map-Updated}
use edn_core.Stored.Keys.{keys_indexes, has_key, with_commit, with_failure, reserve, commit, fail}

-- The writes of the repository.
pub data Operation : Type 0 where
  reserves : Key → Operation
  commits : Text → Text → Text → Text → OrderStatus → Text → Text → Time → Operation
  fails : Text → Text → Text → Time → Operation

-- The database has removed expirable keys that have expired by `now`: the TTL index has
-- expireAfterSeconds 0 on `expires_at`, for the keys that are expirable.
pub data Pruned (now : Time) : List Key → List Key → Type 0 where
  done : Pruned now [] []
  keeps : (k : Key) (xs ys : List Key) → Pruned now xs ys → Pruned now (k ∷ xs) (k ∷ ys)
  drops :
      (k : Key) (xs ys : List Key)
      → k.expirable ≡ true
      → k.expires_at ≤ now
      → Pruned now xs ys
      → Pruned now (k ∷ xs) ys

module _ (c : Collection Key) where
  unfoldable pub perform : Operation → c.State → c.State × Result (Unit {0})
  perform (reserves k) = reserve c k
  perform (commits tenant op key id status url ref at) = commit c tenant op key id status url ref at
  perform (fails tenant op key at) = fail c tenant op key at

  -- A write of any process, or a removal by the database before the time `until`.
  pub data Step (until : Time) (s : c.State) : c.State → Type 0 where
    writes : (op : Operation) → Step until s (perform op s).0
    expires :
        (now : Time) (t : c.State) → now < until → Pruned now (c.docs s) (c.docs t) → Step until s t

  pub data Reach (until : Time) (s : c.State) : c.State → Type 0 where
    here : Reach until s s
    next : (t u : c.State) → Reach until s t → Step until t u → Reach until s u

-- What a reservation fixes.
abbrev Claim : Type 0
Claim = Text × Text × Text × Text × Time

abbrev pub claim : Key → Claim
claim k = (k.tenant_id, k.operation, k.idempotency_key, k.request_hash, k.expires_at)

-- The key is reserved, for the request of `k`.
abbrev pub Reserved : Key → List Key → Type 0
Reserved k xs = NoClash keys_indexes xs × Has (claim k) (map claim xs)

clashes-Pruned :
    (d : Key) {now : Time} {xs ys : List Key}
    → Pruned now xs ys
    → clashes keys_indexes d xs ≡ false
    → clashes keys_indexes d ys ≡ false
clashes-Pruned d done h = refl
clashes-Pruned d (keeps k xs ys r) h = ground (arith, clashes-Pruned d r)
clashes-Pruned d (drops k xs ys e late r) h = ground (arith, clashes-Pruned d r)

NoClash-Pruned :
    {now : Time} {xs ys : List Key}
    → Pruned now xs ys
    → NoClash keys_indexes xs
    → NoClash keys_indexes ys
NoClash-Pruned done n = tt
NoClash-Pruned (keeps k xs ys r) (fresh, n) = (clashes-Pruned k r fresh, NoClash-Pruned r n)
NoClash-Pruned (drops k xs ys e late r) (_, n) = NoClash-Pruned r n

claim-Pruned :
    (k : Key) {now : Time} {xs ys : List Key}
    → Pruned now xs ys
    → now < k.expires_at
    → Has (claim k) (map claim xs)
    → Has (claim k) (map claim ys)
claim-Pruned k done e h = h
claim-Pruned k (keeps x xs ys r) e (inl p) = inl p
claim-Pruned k (keeps x xs ys r) e (inr h) = inr (claim-Pruned k r e h)
claim-Pruned k (drops x xs ys d late r) e (inl p) =
    let same : k.expires_at ≡ x.expires_at = ap (λ t. t.4) p in absurd (omega arith)
claim-Pruned k (drops x xs ys d late r) e (inr h) = claim-Pruned k r e h

module _ (c : Collection Key) (laws : CollectionLaws keys_indexes c) (k : Key) (until : Time)
    (soon : until ≤ k.expires_at) where
  update-Reserved :
      (p : Key → Bool) (f : Key → Key) (s : c.State)
      → ((a b : Key) → clash keys_indexes (f a) b ≡ clash keys_indexes a b)
      → ((a b : Key) → clash keys_indexes a (f b) ≡ clash keys_indexes a b)
      → ((a : Key) → claim (f a) ≡ claim a)
      → Reserved k (c.docs s)
      → Reserved k (c.docs (c.update_one p f s).0)
  update-Reserved p f s left right same (n, h) =
      let law = laws.update_law p f s in
      (
        Updated-NoClash keys_indexes p f left right (c.docs s) _ (c.update_one p f s).1 law n,
        subst (Has (claim k))
            (sym (map-Updated claim p f same (c.docs s) _ (c.update_one p f s).1 law)) h,
      )

  insert_claim :
      (d : Key) (xs ys : List Key) (o : InsertOutcome)
      → Inserted keys_indexes d xs o ys
      → Has (claim k) (map claim xs)
      → Has (claim k) (map claim ys)
  insert_claim d xs ys inserted (_, e) h = subst (λ t. Has (claim k) (map claim t)) (sym e) (inr h)
  insert_claim d xs ys duplicate_key (_, e) h = subst (λ t. Has (claim k) (map claim t)) (sym e) h
  insert_claim d xs ys insert_failed (inl e) h = subst (λ t. Has (claim k) (map claim t)) (sym e) h
  insert_claim d xs ys insert_failed (inr (_, e)) h =
      subst (λ t. Has (claim k) (map claim t)) (sym e) (inr h)

  perform-Reserved :
      (op : Operation) (s : c.State)
      → Reserved k (c.docs s)
      → Reserved k (c.docs (perform c op s).0)
  unfolding perform reserve commit fail
  perform-Reserved (reserves d) s (n, h) =
      let law = laws.insert_law d s in
      (
        Inserted-NoClash keys_indexes d (c.docs s) _ (c.insert_one d s).1 law n,
        insert_claim d (c.docs s) _ (c.insert_one d s).1 law h,
      )
  perform-Reserved (commits tenant op key id status url ref at) s r =
      update-Reserved (has_key tenant op key) (with_commit id status url ref at) s (λ a b. refl)
        (λ a b. refl) (λ a. refl) r
  perform-Reserved (fails tenant op key at) s r =
      update-Reserved (has_key tenant op key) (with_failure at) s (λ a b. refl) (λ a b. refl)
        (λ a. refl) r

  pub Reach-Reserved :
      {s t : c.State} → Reach c until s t → Reserved k (c.docs s) → Reserved k (c.docs t)
  Reach-Reserved here r = r
  Reach-Reserved (next t u reach (writes op)) r = perform-Reserved op t (Reach-Reserved reach r)
  Reach-Reserved (next t u reach (expires now _ early pruned)) r =
      let (n, h) = Reach-Reserved reach r in
      (NoClash-Pruned pruned n, claim-Pruned k pruned (omega arith) h)
