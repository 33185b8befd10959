-- ===== src/Whatsapp/Intake/Redelivery.antt =====
-- A payload that is delivered again, within the life of its dedupe records.
use edn_core.Prelude.{
  ℕ, suc, ◌+◌, ◌<◌, All, or_left, or_right, or_cases, arith, ◌≡◌, refl, sym, ap, ◌∙◌, subst, inl,
  inr, true, some, List, [], ◌∷◌,
}
use edn_core.Text.{Text, ◌=?◌}
use edn_core.Text.Laws.{eq_of_test}
use edn_core.Checkout.{Time}
use edn_core.Stored.Results.{bson_date}
use edn_core.Mongo.{inserted, duplicate_key, insert_failed}
use edn_core.Whatsapp.{DedupeRecord, MessageReceipt, IntakeInput, dedupe_ttl}
use edn_core.Whatsapp.Store.{
  Sessions, SessionsLaws, dedupe_document, receipt_document, Outcome, ran, no_session,
  commit_failed, has_dedupe, Transacted, store_result, StoreResult, stored, err_duplicate,
  err_other, Pruned, unchanged, kept, removed,
}
use edn_core.Whatsapp.Intake.{
  WorkItem, dedupe_key_of, dedupe_of, receipt_of, valid_items, IntakeResult, processed,
  after_insert, persist, process_messages,
}
use edn_core.Whatsapp.Intake.Storing.{AllStored, Processed, process_messages-Processed}

abbrev Unchanged : (m : Sessions) → m.State → m.State → Type 0
Unchanged m s t = (m.dedupes t ≡ m.dedupes s) × (m.receipts t ≡ m.receipts s)

module _ (m : Sessions) (laws : SessionsLaws m) (sha256_hex : Text → Text) (uuid : ℕ → Text)
    (input : IntakeInput) where
  Unchanged-chain : (s t u : m.State) → Unchanged m s t → Unchanged m t u → Unchanged m s u
  Unchanged-chain s t u (p, q) (p', q') = (p' ∙ p, q' ∙ q)

  -- A transaction for a key that is there.
  nothing_new :
      (item : WorkItem) (id : Text) (s t : m.State) (o : Outcome)
      → has_dedupe (dedupe_key_of item) (m.dedupes s) ≡ true
      → Transacted
          (dedupe_document (dedupe_of input item))
          (receipt_document (receipt_of sha256_hex input item id))
          (m.dedupes s)
          (m.receipts s)
          o
          (m.dedupes t)
          (m.receipts t)
      → Unchanged m s t
  nothing_new item id s t no_session old law = law
  nothing_new item id s t commit_failed old (inl law) = law
  nothing_new item id s t commit_failed old (inr both) = cc (old, both.0)
  nothing_new item id s t (ran inserted inserted) old law = cc (old, law.0)
  nothing_new item id s t (ran inserted duplicate_key) old law = law
  nothing_new item id s t (ran inserted insert_failed) old law = law
  nothing_new item id s t (ran duplicate_key _) old law = law.1
  nothing_new item id s t (ran insert_failed _) old law = law

  after_insert-Unchanged :
      (s t : m.State) (o : Outcome) (rest : m.State × IntakeResult)
      → Unchanged m s t
      → Unchanged m t rest.0
      → Unchanged m s (after_insert (store_result o) rest t).0
  after_insert-Unchanged s t no_session rest a b = a
  after_insert-Unchanged s t commit_failed rest a b = a
  after_insert-Unchanged s t (ran inserted inserted) rest a b = Unchanged-chain s t rest.0 a b
  after_insert-Unchanged s t (ran inserted duplicate_key) rest a b = a
  after_insert-Unchanged s t (ran inserted insert_failed) rest a b = a
  after_insert-Unchanged s t (ran duplicate_key _) rest a b = Unchanged-chain s t rest.0 a b
  after_insert-Unchanged s t (ran insert_failed _) rest a b = a

  persist-Unchanged :
      (n : ℕ) (items : List WorkItem) (s : m.State)
      → AllStored items (m.dedupes s)
      → Unchanged m s (persist m sha256_hex uuid input n items s).0
  unfolding persist
  persist-Unchanged n [] s a = (refl, refl)
  persist-Unchanged n (item ∷ items) s (old, a) =
      let d = dedupe_document (dedupe_of input item) in
      let r = receipt_document (receipt_of sha256_hex input item (uuid n)) in
      let t = (m.with_transaction d r s).0 in
      let same =
        nothing_new item (uuid n) s t (m.with_transaction d r s).1 old
          (laws.transaction_law d r s) in
      after_insert-Unchanged s t (m.with_transaction d r s).1
        (persist m sha256_hex uuid input (suc n) items t) same
        (persist-Unchanged (suc n) items t (subst (AllStored items) (sym same.0) a))

-- A record of the key has not expired at `now`.
abbrev pub Lasts : Time → Text → DedupeRecord → Type 0
Lasts now key d = d.dedupe_key ≡ key → now < d.expires_at

-- No record of an item has expired at `now`.
abbrev pub Lasting : Time → List WorkItem → List DedupeRecord → Type 0
Lasting now items ds = All (λ item. All (Lasts now (dedupe_key_of item)) ds) items

module _ (m : Sessions) (laws : SessionsLaws m) (sha256_hex : Text → Text) (uuid : ℕ → Text)
    (input : IntakeInput) (P : DedupeRecord → Type 0)
    (new : (item : WorkItem) → P (dedupe_document (dedupe_of input item))) where
  Transacted-All :
      (item : WorkItem) (r : MessageReceipt) (s t : m.State) (o : Outcome)
      → Transacted
          (dedupe_document (dedupe_of input item))
          r
          (m.dedupes s)
          (m.receipts s)
          o
          (m.dedupes t)
          (m.receipts t)
      → All P (m.dedupes s)
      → All P (m.dedupes t)
  Transacted-All item r s t no_session law a = subst (All P) (sym law.0) a
  Transacted-All item r s t commit_failed (inl law) a = subst (All P) (sym law.0) a
  Transacted-All item r s t commit_failed (inr both) a = subst (All P) (sym both.1) (new item, a)
  Transacted-All item r s t (ran inserted inserted) both a =
      subst (All P) (sym both.1) (new item, a)
  Transacted-All item r s t (ran inserted duplicate_key) law a = subst (All P) (sym law.0) a
  Transacted-All item r s t (ran inserted insert_failed) law a = subst (All P) (sym law.0) a
  Transacted-All item r s t (ran duplicate_key _) law a = subst (All P) (sym law.1.0) a
  Transacted-All item r s t (ran insert_failed _) law a = subst (All P) (sym law.0) a

  after_insert-All :
      (r : StoreResult) (rest : m.State × IntakeResult) (t : m.State)
      → All P (m.dedupes t)
      → All P (m.dedupes rest.0)
      → All P (m.dedupes (after_insert r rest t).0)
  after_insert-All stored rest t a b = b
  after_insert-All err_duplicate rest t a b = b
  after_insert-All err_other rest t a b = a

  -- What holds of the records that are there and of those of the input holds afterwards.
  persist-All :
      (n : ℕ) (items : List WorkItem) (s : m.State)
      → All P (m.dedupes s)
      → All P (m.dedupes (persist m sha256_hex uuid input n items s).0)
  unfolding persist
  persist-All n [] s a = a
  persist-All n (item ∷ items) s a =
      let d = dedupe_document (dedupe_of input item) in
      let r = receipt_document (receipt_of sha256_hex input item (uuid n)) in
      let t = (m.with_transaction d r s).0 in
      let b =
        Transacted-All item r s t (m.with_transaction d r s).1 (laws.transaction_law d r s) a in
      after_insert-All (store_result (m.with_transaction d r s).1)
        (persist m sha256_hex uuid input (suc n) items t) t b (persist-All (suc n) items t b)

-- A record that has not expired is not removed.
has_dedupe-Pruned :
    (now : Time) (key : Text) {ds es : List DedupeRecord}
    → Pruned now ds es
    → All (Lasts now key) ds
    → has_dedupe key ds ≡ true
    → has_dedupe key es ≡ true
has_dedupe-Pruned now key unchanged a h = h
has_dedupe-Pruned now key (kept d ds es p) (_, a) h =
    elim (or_cases (key =? d.dedupe_key) (has_dedupe key ds) h) [
      | inl same ↦ or_left (key =? d.dedupe_key) (has_dedupe key es) same
      | inr later ↦
          or_right (key =? d.dedupe_key) (has_dedupe key es) (has_dedupe-Pruned now key p a later)
    ]
has_dedupe-Pruned now key (removed d ds es expired p) (lasts, a) h =
    elim (or_cases (key =? d.dedupe_key) (has_dedupe key ds) h) [
      | inl same ↦ let k = lasts (sym (eq_of_test key d.dedupe_key same)) in absurd (omega arith)
      | inr later ↦ has_dedupe-Pruned now key p a later
    ]

AllStored-Pruned :
    (now : Time) (items : List WorkItem) {ds es : List DedupeRecord}
    → Pruned now ds es
    → Lasting now items ds
    → AllStored items ds
    → AllStored items es
AllStored-Pruned now [] p a h = tt
AllStored-Pruned now (item ∷ items) p (l, a) (k, h) =
    (has_dedupe-Pruned now (dedupe_key_of item) p l k, AllStored-Pruned now items p a h)

pub stored_items :
    (m : Sessions) (laws : SessionsLaws m) (sha256_hex : Text → Text) (uuid : ℕ → Text)
    (input : IntakeInput) (s : m.State) (run : m.State × IntakeResult)
    → Processed m laws sha256_hex uuid input s run
    → run.1 ≡ processed
    → (items : List WorkItem) × (valid_items input.payload ≡ some items)
      × AllStored items (m.dedupes run.0)
stored_items m laws sha256_hex uuid input s (t, r) (inl (e, _, _)) h = cc (e, h)
stored_items m laws sha256_hex uuid input s (t, processed) (inr (items, e, (_, a))) h =
    (items, e, a)
stored_items m laws sha256_hex uuid input s (t, IntakeResult.invalid_payload) (inr _) h = cc
stored_items m laws sha256_hex uuid input s (t, IntakeResult.persist_failed) (inr _) h = cc

module _ (m : Sessions) (laws : SessionsLaws m) (sha256_hex : Text → Text) where
  again-Unchanged :
      (uuid : ℕ → Text) (input : IntakeInput) (items : List WorkItem) (t : m.State)
      → valid_items input.payload ≡ some items
      → AllStored items (m.dedupes t)
      → Unchanged m t (process_messages m sha256_hex uuid input t).0
  unfolding process_messages
  again-Unchanged uuid input items t e present =
      rw e (persist-Unchanged m laws sha256_hex uuid input 0 items t present)

  process_messages-Lasting :
      (uuid : ℕ → Text) (input : IntakeInput) (now : Time) (items wanted : List WorkItem)
      (s : m.State)
      → valid_items input.payload ≡ some items
      → now < bson_date (input.received_at + dedupe_ttl)
      → Lasting now wanted (m.dedupes s)
      → Lasting now wanted (m.dedupes (process_messages m sha256_hex uuid input s).0)
  unfolding process_messages
  process_messages-Lasting uuid input now items [] s e fresh a = tt
  process_messages-Lasting uuid input now items (item ∷ wanted) s e fresh (l, a) = (
    rw e (
        persist-All m laws sha256_hex uuid input (Lasts now (dedupe_key_of item)) (λ i _. fresh) 0
          items s l),
    process_messages-Lasting uuid input now items wanted s e fresh a,
  )

  -- Meta delivers a notification again until it is acknowledged, and the TTL index removes expired
  -- dedupe records in the meantime. Let a payload be processed with success, at a time when its
  -- messages have no dedupe record that expires before `now`, and let `now` be within the dedupe window
  -- of seven days, to the millisecond. If `u` is the store after that but for expired dedupe records
  -- that were removed until `now`, processing the same payload again, with another request id, time
  -- and other receipt ids, leaves the dedupe records and the receipts of `u` as they are, whatever its
  -- transactions come to.
  pub process_messages-redelivered :
      (uuid uuid' : ℕ → Text) (input again : IntakeInput) (s u : m.State) (now : Time)
      (items : List WorkItem)
      → again.payload ≡ input.payload
      → valid_items input.payload ≡ some items
      → now < bson_date (input.received_at + dedupe_ttl)
      → Lasting now items (m.dedupes s)
      → (process_messages m sha256_hex uuid input s).1 ≡ processed
      → Pruned now (m.dedupes (process_messages m sha256_hex uuid input s).0) (m.dedupes u)
      → (m.dedupes (process_messages m sha256_hex uuid' again u).0 ≡ m.dedupes u)
        × (m.receipts (process_messages m sha256_hex uuid' again u).0 ≡ m.receipts u)
  process_messages-redelivered uuid uuid' input again s u now items same e fresh lasting done
        pruned =
      let (found, f, present) =
        stored_items m laws sha256_hex uuid input s (process_messages m sha256_hex uuid input s)
          (process_messages-Processed m laws sha256_hex uuid input s) done in
      let equal : found ≡ items = cc (e, f) in
      again-Unchanged uuid' again items u (ap valid_items same ∙ e) (
        AllStored-Pruned now items pruned
          (process_messages-Lasting uuid input now items items s e fresh lasting)
          (subst (λ is. AllStored is (m.dedupes (process_messages m sha256_hex uuid input s).0))
            equal present))
