-- ===== src/Whatsapp/Intake/Storing.antt =====
-- What processing a payload leaves in the store.
use edn_core.Prelude.{
  ℕ, suc, ◌≡◌, refl, sym, ap, ◌∙◌, ◌⊎◌, inl, inr, true, Option, none, some, List, [], ◌∷◌, map, All,
  or_left,
}
use edn_core.Text.{Text}
use edn_core.Text.Laws.{test_of_eq}
use edn_core.Mongo.{inserted, duplicate_key, insert_failed}
use edn_core.Whatsapp.{DedupeRecord, MessageReceipt, IntakeInput}
use edn_core.Whatsapp.Store.{
  Sessions, SessionsLaws, dedupe_document, receipt_document, Outcome, ran, no_session,
  commit_failed, has_dedupe, Nothing, Both, Transacted, store_result,
}
use edn_core.Whatsapp.Intake.{
  WorkItem, dedupe_key_of, dedupe_of, receipt_of, valid_items, IntakeResult, processed,
  invalid_payload, persist_failed, after_insert, persist, persist_valid, process_messages,
}
use edn_core.Whatsapp.Intake.Adding.{
  dedupe_keys, among, Added, among-append, has_dedupe-keys, Added-none, Added-one,
}

-- The keys of all items are there.
abbrev pub AllStored : List WorkItem → List DedupeRecord → Type 0
AllStored items ds = All (λ item. has_dedupe (dedupe_key_of item) ds ≡ true) items

abbrev wanted_of : List WorkItem → List Text
wanted_of = map dedupe_key_of

abbrev IfProcessed : IntakeResult → Type 0 → Type 0
IfProcessed processed P = P
IfProcessed invalid_payload P = Unit
IfProcessed persist_failed P = Unit

IfProcessed-map : {P Q : Type 0} (r : IntakeResult) → (P → Q) → IfProcessed r P → IfProcessed r Q
IfProcessed-map processed f p = f p
IfProcessed-map invalid_payload f p = tt
IfProcessed-map persist_failed f p = tt

still_stored :
    (wanted : List Text) (k : Text) (ds : List DedupeRecord) (rs : List MessageReceipt)
    (ds' : List DedupeRecord) (rs' : List MessageReceipt)
    → Added wanted ds rs ds' rs'
    → has_dedupe k ds ≡ true
    → has_dedupe k ds' ≡ true
still_stored wanted k ds rs ds' rs' (ks, e, _, _, _) h =
    has_dedupe-keys k ds'
    ∙ ap (among k) e
    ∙ among-append k ks (dedupe_keys ds) (sym (has_dedupe-keys k ds) ∙ h)

module _ (m : Sessions) (laws : SessionsLaws m) (sha256_hex : Text → Text) (uuid : ℕ → Text)
    (input : IntakeInput) where
  abbrev Persisted : List WorkItem → m.State → m.State × IntakeResult → Type 0
  Persisted items s run =
      Added (wanted_of items) (m.dedupes s) (m.receipts s) (m.dedupes run.0) (m.receipts run.0)
      × IfProcessed run.1 (AllStored items (m.dedupes run.0))

  module _ (item : WorkItem) (items : List WorkItem) (id : Text) (s t : m.State) where
    abbrev First : Outcome → Type 0
    First o =
        Transacted (dedupe_document (dedupe_of input item))
          (receipt_document (receipt_of sha256_hex input item id)) (m.dedupes s) (m.receipts s) o
          (m.dedupes t) (m.receipts t)

    wrote :
        (rest : m.State × IntakeResult)
        → Both
            (dedupe_document (dedupe_of input item))
            (receipt_document (receipt_of sha256_hex input item id))
            (m.dedupes s)
            (m.receipts s)
            (m.dedupes t)
            (m.receipts t)
        → Persisted items t rest
        → Persisted (item ∷ items) s rest
    wrote (u, r) both (added, present) = (
      Added-one (wanted_of items) (dedupe_document (dedupe_of input item))
          (receipt_document (receipt_of sha256_hex input item id)) (m.dedupes s) (m.receipts s)
          (m.dedupes t) (m.receipts t) (m.dedupes u) (m.receipts u) refl both added,
      IfProcessed-map r
          (λ a. (
            still_stored (wanted_of items) (dedupe_key_of item) (m.dedupes t) (m.receipts t)
                (m.dedupes u) (m.receipts u) added
                (ap (has_dedupe (dedupe_key_of item)) both.1
                  ∙ or_left _ _ (test_of_eq (dedupe_key_of item) (dedupe_key_of item) refl)),
            a,
          ))
          present,
    )

    skipped :
        (rest : m.State × IntakeResult)
        → has_dedupe (dedupe_key_of item) (m.dedupes s) ≡ true
        → Nothing (m.dedupes s) (m.receipts s) (m.dedupes t) (m.receipts t)
        → Persisted items t rest
        → Persisted (item ∷ items) s rest
    skipped (u, r) old same (added, present) = (
      Added-none (wanted_of items) (dedupe_key_of item) (m.dedupes s) (m.receipts s) (m.dedupes t)
          (m.receipts t) (m.dedupes u) (m.receipts u) same added,
      IfProcessed-map r
          (λ a. (
            still_stored (wanted_of items) (dedupe_key_of item) (m.dedupes t) (m.receipts t)
                (m.dedupes u) (m.receipts u) added
                (ap (has_dedupe (dedupe_key_of item)) same.0 ∙ old),
            a,
          ))
          present,
    )

    -- The loop ends; the write may have been made all the same.
    ended :
        Nothing (m.dedupes s) (m.receipts s) (m.dedupes t) (m.receipts t)
          ⊎ Both
              (dedupe_document (dedupe_of input item))
              (receipt_document (receipt_of sha256_hex input item id))
              (m.dedupes s)
              (m.receipts s)
              (m.dedupes t)
              (m.receipts t)
        → Persisted (item ∷ items) s (t, persist_failed)
    ended (inl same) = (
      Added-none (wanted_of items) (dedupe_key_of item) (m.dedupes s) (m.receipts s) (m.dedupes t)
          (m.receipts t) (m.dedupes t) (m.receipts t) same ([], refl, refl, tt, tt),
      tt,
    )
    ended (inr both) = (
      Added-one (wanted_of items) (dedupe_document (dedupe_of input item))
          (receipt_document (receipt_of sha256_hex input item id)) (m.dedupes s) (m.receipts s)
          (m.dedupes t) (m.receipts t) (m.dedupes t) (m.receipts t) refl both
          ([], refl, refl, tt, tt),
      tt,
    )

    insert-Persisted :
        (o : Outcome) (rest : m.State × IntakeResult)
        → First o
        → Persisted items t rest
        → Persisted (item ∷ items) s (after_insert (store_result o) rest t)
    insert-Persisted no_session rest law p = ended (inl law)
    insert-Persisted commit_failed rest law p = ended law
    insert-Persisted (ran inserted inserted) rest law p = wrote rest law p
    insert-Persisted (ran inserted duplicate_key) rest law p = ended (inl law)
    insert-Persisted (ran inserted insert_failed) rest law p = ended (inl law)
    insert-Persisted (ran duplicate_key _) rest law p = skipped rest law.0 law.1 p
    insert-Persisted (ran insert_failed _) rest law p = ended (inl law)

  persist-Persisted :
      (n : ℕ) (items : List WorkItem) (s : m.State)
      → Persisted items s (persist m sha256_hex uuid input n items s)
  unfolding persist
  persist-Persisted n [] s = (([], refl, refl, tt, tt), tt)
  persist-Persisted n (item ∷ items) s =
      let d = dedupe_document (dedupe_of input item) in
      let r = receipt_document (receipt_of sha256_hex input item (uuid n)) in
      insert-Persisted item items (uuid n) s (m.with_transaction d r s).0
        (m.with_transaction d r s).1
        (persist m sha256_hex uuid input (suc n) items (m.with_transaction d r s).0)
        (laws.transaction_law d r s) (persist-Persisted (suc n) items (m.with_transaction d r s).0)

  -- What ProcessMessages has done, by its result. An invalid payload changes nothing. Otherwise the
  -- dedupe records and the receipts have got the same new keys, each once and each that of a message of
  -- the payload, and after a success every message has its dedupe record.
  abbrev pub Processed : m.State → m.State × IntakeResult → Type 0
  Processed s run =
      ((run.1 ≡ invalid_payload) × (valid_items input.payload ≡ none) × (run.0 ≡ s))
      ⊎ ((items : List WorkItem) × (valid_items input.payload ≡ some items) × Persisted items s run)

  -- Whatever the transactions come to, ProcessMessages leaves the store as follows. If the payload has
  -- a message without an id, or messages without a phone number id, nothing is written. Otherwise the
  -- dedupe records and the receipts get the same new keys, in the same order; each of these is the key
  -- of a message of the payload, was not there before and is added once; and if the call succeeds,
  -- every message of the payload has a dedupe record.
  pub process_messages-Processed :
      (s : m.State) → Processed s (process_messages m sha256_hex uuid input s)
  unfolding process_messages
  process_messages-Processed s = go (valid_items input.payload) refl
    where
      go :
          (found : Option (List WorkItem))
          → valid_items input.payload ≡ found
          → Processed s (persist_valid m sha256_hex uuid input found s)
      go none e = inl (refl, e, refl)
      go (some items) e = inr (items, e, persist-Persisted 0 items s)
