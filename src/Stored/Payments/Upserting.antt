-- ===== src/Stored/Payments/Upserting.antt =====
-- A payment that was stored is the one that is found.
use edn_core.Prelude.{
  zero, suc, ◌≡◌, ◌≢◌, refl, sym, ap, ◌∙◌, subst, ◌⊎◌, inl, inr, Bool, true, false, List, [], ◌∷◌,
  any,
}
use edn_core.Text.Laws.{eq_of_test, test-same}
use edn_core.Checkout.{Payment}
use edn_core.Errors.{ok, err, wrapped, other, payment_not_found}
use edn_core.Mongo.{
  Collection, CollectionLaws, clash, Has, Replaced, here, there, Fetch, found, no_documents,
  fetch_failed, FoundOne, UpdateOutcome, matched, update_failed, Upserted,
}
use edn_core.Mongo.Documents.{NoClash, Upserted-NoClash, same_of_clash, any_of_Has, test-same_texts}
use edn_core.Stored.Results.{find_result}
use edn_core.Stored.Payments.{
  payments_indexes, as_stored, has_transaction, with_payment, upsert_result, upsert,
  find_by_transaction_nsu,
}

-- The document of `payment`, created when it was first stored.
abbrev pub StoredAs : Payment → List Payment → Payment → Type 0
StoredAs payment before p =
    (p ≡ record payment { created_at = p.created_at })
    × (((q : Payment) × Has q before
          × (q.transaction_nsu ≡ payment.transaction_nsu)
          × (p.created_at ≡ q.created_at))
        ⊎ ((any (has_transaction payment.transaction_nsu) before ≡ false)
            × (p.created_at ≡ payment.created_at)))

-- The document that an update has replaced.
Replaced-StoredAs :
    (payment : Payment) {xs ys : List Payment}
    → Replaced (has_transaction payment.transaction_nsu) (with_payment payment) xs ys
    → (p : Payment) × Has p ys
      × (p ≡ record payment { created_at = p.created_at })
      × ((q : Payment) × Has q xs
          × (q.transaction_nsu ≡ payment.transaction_nsu)
          × (p.created_at ≡ q.created_at))
Replaced-StoredAs payment (here x xs h) =
    let e = eq_of_test x.transaction_nsu payment.transaction_nsu h in
    (
      with_payment payment x,
      inl refl,
      ap (λ t. record payment { transaction_nsu = t; created_at = x.created_at }) e,
      (x, inl refl, e, refl),
    )
Replaced-StoredAs payment (there x xs ys r) =
    let (p, h, e, (q, k, f, g)) = Replaced-StoredAs payment r in (p, inr h, e, (q, inr k, f, g))

-- Payments of other transactions stay.
Replaced-others :
    (payment : Payment) {xs ys : List Payment} (x : Payment)
    → Replaced (has_transaction payment.transaction_nsu) (with_payment payment) xs ys
    → x.transaction_nsu ≢ payment.transaction_nsu
    → Has x xs
    → Has x ys
Replaced-others payment x (here y xs h) ne (inl e) =
    absurd
      (ne (ap (λ p. p.transaction_nsu) e ∙ eq_of_test y.transaction_nsu payment.transaction_nsu h))
Replaced-others payment x (here y xs h) ne (inr k) = inr k
Replaced-others payment x (there y xs ys r) ne (inl e) = inl e
Replaced-others payment x (there y xs ys r) ne (inr k) = inr (Replaced-others payment x r ne k)

clash_of_transaction :
    (a b : Payment) → a.transaction_nsu ≡ b.transaction_nsu → clash payments_indexes a b ≡ true
clash_of_transaction a b e =
    rw (test-same_texts (a.transaction_nsu ∷ []) (b.transaction_nsu ∷ []) (ap (λ t. t ∷ []) e))

found_stored :
    (payment : Payment) (before xs : List Payment)
    → NoClash payments_indexes xs
    → (p : Payment) → Has p xs
    → StoredAs payment before p
    → (f : Fetch Payment) → FoundOne (has_transaction payment.transaction_nsu) xs f
    → ((q : Payment) × (find_result payment_not_found f ≡ ok q) × StoredAs payment before q)
      ⊎ (find_result payment_not_found f ≡ err (wrapped other))
found_stored payment before xs n p hp stored (found q) (hq, e) =
    let pe : p.transaction_nsu ≡ payment.transaction_nsu = ap (λ t. t.transaction_nsu) stored.0 in
    let same : q.transaction_nsu ≡ p.transaction_nsu =
      eq_of_test q.transaction_nsu payment.transaction_nsu e ∙ sym pe in
    let pq =
      same_of_clash payments_indexes p q xs n (clash_of_transaction p q (sym same))
        (clash_of_transaction q p same) hp hq in
    inl (q, refl, subst (StoredAs payment before) pq stored)
found_stored payment before xs n p hp stored no_documents missing = cc (
  missing,
  any_of_Has (has_transaction payment.transaction_nsu) p xs hp (
      ap (λ t. has_transaction payment.transaction_nsu t) stored.0
      ∙ test-same payment.transaction_nsu),
)
found_stored payment before xs n p hp stored fetch_failed h = inr refl

module _ (c : Collection Payment) (laws : CollectionLaws payments_indexes c) where
  abbrev pub Upsert : Payment → c.State → c.State → Type 0
  Upsert payment s t =
      NoClash payments_indexes (c.docs t)
      × ((p : Payment) × Has p (c.docs t) × StoredAs (as_stored payment) (c.docs s) p)
      × ((x : Payment)
          → x.transaction_nsu ≢ payment.transaction_nsu
          → Has x (c.docs s)
          → Has x (c.docs t))

  upsert-Upsert :
      (payment : Payment) (s : c.State)
      → NoClash payments_indexes (c.docs s)
      → (upsert c payment s).1 ≡ ok tt
      → Upsert payment s (upsert c payment s).0
  unfolding upsert
  upsert-Upsert payment s n h =
      let g = go o law h in
      (
        Upserted-NoClash payments_indexes p f left right (as_stored payment) (c.docs s) ys o law n,
        g.0,
        g.1,
      )
    where
      p : Payment → Bool
      p = has_transaction payment.transaction_nsu

      f : Payment → Payment
      f = with_payment (as_stored payment)

      o : UpdateOutcome
      o = (c.upsert_one p f (as_stored payment) s).1

      ys : List Payment
      ys = c.docs (c.upsert_one p f (as_stored payment) s).0

      law : Upserted payments_indexes p f (as_stored payment) (c.docs s) o ys
      law = laws.upsert_law p f (as_stored payment) s

      left : (a b : Payment) → clash payments_indexes (f a) b ≡ clash payments_indexes a b
      left a b = refl

      right : (a b : Payment) → clash payments_indexes a (f b) ≡ clash payments_indexes a b
      right a b = refl

      go :
          (r : UpdateOutcome)
          → Upserted payments_indexes p f (as_stored payment) (c.docs s) r ys
          → upsert_result r ≡ ok tt
          → ((p : Payment) × Has p ys × StoredAs (as_stored payment) (c.docs s) p)
            × ((x : Payment)
                → x.transaction_nsu ≢ payment.transaction_nsu
                → Has x (c.docs s)
                → Has x ys)
      go (matched zero) (missing, _, e) h = (
        (
          as_stored payment,
          subst (Has (as_stored payment)) (sym e) (inl refl),
          (refl, inr (missing, refl)),
        ),
        λ x ne k. subst (Has x) (sym e) (inr k),
      )
      go (matched (suc _)) r h =
          let (q, k, e, old) = Replaced-StoredAs (as_stored payment) r in
          ((q, k, (e, inl old)), λ x ne k. Replaced-others (as_stored payment) x r ne k)
      go update_failed r h = cc

  -- After an upsert that succeeds the transaction has one payment, with the fields of the upsert, its
  -- times in milliseconds, and the creation time of its first one; the payments of other transactions stay as they are, and a
  -- query for the transaction finds that payment unless the driver fails.
  pub find-after_upsert :
      (payment : Payment) (s : c.State)
      → NoClash payments_indexes (c.docs s)
      → (upsert c payment s).1 ≡ ok tt
      → Upsert payment s (upsert c payment s).0
        × (((p : Payment) × (find_by_transaction_nsu c payment.transaction_nsu
                  (upsert c payment s).0
                ≡ ok p)
              × StoredAs (as_stored payment) (c.docs s) p)
            ⊎ (find_by_transaction_nsu c payment.transaction_nsu (upsert c payment s).0
                ≡ err (wrapped other)))
  unfolding find_by_transaction_nsu
  find-after_upsert payment s n h =
      let u = upsert-Upsert payment s n h in
      (
        u,
        found_stored (as_stored payment) (c.docs s) (c.docs (upsert c payment s).0) u.0 u.1.0 u.1.1
            u.1.2 (c.find_one (has_transaction payment.transaction_nsu) (upsert c payment s).0)
            (laws.find_one_law (has_transaction payment.transaction_nsu) (upsert c payment s).0),
      )
