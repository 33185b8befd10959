-- ===== src/Whatsapp/Store.antt =====
-- internal/whatsapp/mongodb_repository.go: one message in a transaction. The transaction is the driver's
-- (session.WithTransaction, which is not part of the repository): a parameter that runs the callback
-- on the two collections, with its documented behaviour, all or nothing. The unique indexes are those
-- of internal/platform/mongodb/whatsapp.go: the dedupe key, and the receipt id, which is a fresh UUID.
-- Its TTL index removes dedupe records that have expired, at any time between the calls (`Pruned`).
use edn_core.Prelude.{◌≤◌, ◌≡◌, ◌⊎◌, Bool, true, false, List, [], ◌∷◌, any}
use edn_core.Text.{Text, ◌=?◌}
use edn_core.Checkout.{Time}
use edn_core.Stored.Results.{bson_date}
use edn_core.Mongo.{InsertOutcome, inserted, duplicate_key, insert_failed}
use edn_core.Whatsapp.{DedupeRecord, MessageReceipt}

-- No session was started; the callback ran, with the outcomes of its inserts (the second is made only
-- after a first one that succeeds), and was committed if it returned no error, else aborted; or the
-- commit got no reply.
pub data Outcome : Type 0 where
  no_session commit_failed : Outcome
  ran : InsertOutcome → InsertOutcome → Outcome

-- What InsertMessageWithDedupe returns.
pub data StoreResult : Type 0 where
  stored err_duplicate err_other : StoreResult

abbrev pub has_dedupe : Text → List DedupeRecord → Bool
has_dedupe key = any (λ d. key =? d.dedupe_key)

-- The documents: their times are BSON dates.
abbrev pub dedupe_document : DedupeRecord → DedupeRecord
dedupe_document d = record d {
  created_at = bson_date d.created_at;
  expires_at = bson_date d.expires_at;
}

abbrev pub receipt_document : MessageReceipt → MessageReceipt
receipt_document r = record r { received_at = bson_date r.received_at }

-- What the TTL index may have removed until `now`.
pub data Pruned (now : Time) : List DedupeRecord → List DedupeRecord → Type 0 where
  unchanged : Pruned now [] []
  kept :
      (d : DedupeRecord) (ds es : List DedupeRecord)
      → Pruned now ds es
      → Pruned now (d ∷ ds) (d ∷ es)
  removed :
      (d : DedupeRecord) (ds es : List DedupeRecord)
      → d.expires_at ≤ now
      → Pruned now ds es
      → Pruned now (d ∷ ds) es

pub record Sessions : Type 1 where
  pub State : Type 0
  pub dedupes : State → List DedupeRecord
  pub receipts : State → List MessageReceipt
  pub with_transaction : DedupeRecord → MessageReceipt → State → State × Outcome

abbrev pub Nothing :
    List DedupeRecord → List MessageReceipt → List DedupeRecord → List MessageReceipt → Type 0
Nothing ds rs ds' rs' = (ds' ≡ ds) × (rs' ≡ rs)

abbrev pub Both :
    DedupeRecord
    → MessageReceipt
    → List DedupeRecord
    → List MessageReceipt
    → List DedupeRecord
    → List MessageReceipt
    → Type 0
Both d r ds rs ds' rs' = (has_dedupe d.dedupe_key ds ≡ false) × (ds' ≡ d ∷ ds) × (rs' ≡ r ∷ rs)

-- All or nothing. The first insert fails with a duplicate key exactly where the dedupe key is taken.
abbrev pub Transacted :
    DedupeRecord
    → MessageReceipt
    → List DedupeRecord
    → List MessageReceipt
    → Outcome
    → List DedupeRecord
    → List MessageReceipt
    → Type 0
Transacted d r ds rs no_session ds' rs' = Nothing ds rs ds' rs'
Transacted d r ds rs commit_failed ds' rs' = Nothing ds rs ds' rs' ⊎ Both d r ds rs ds' rs'
Transacted d r ds rs (ran inserted inserted) ds' rs' = Both d r ds rs ds' rs'
Transacted d r ds rs (ran inserted _) ds' rs' = Nothing ds rs ds' rs'
Transacted d r ds rs (ran duplicate_key _) ds' rs' =
    (has_dedupe d.dedupe_key ds ≡ true) × Nothing ds rs ds' rs'
Transacted d r ds rs (ran insert_failed _) ds' rs' = Nothing ds rs ds' rs'

pub record SessionsLaws (m : Sessions) : Type 0 where
  pub transaction_law :
      (d : DedupeRecord) (r : MessageReceipt) (s : m.State)
      → Transacted d r
          (m.dedupes s)
          (m.receipts s)
          (m.with_transaction d r s).1
          (m.dedupes (m.with_transaction d r s).0)
          (m.receipts (m.with_transaction d r s).0)

-- The callback, from the outcomes of its inserts.
abbrev callback : InsertOutcome → InsertOutcome → StoreResult
callback duplicate_key _ = err_duplicate
callback insert_failed _ = err_other
callback inserted inserted = stored
callback inserted duplicate_key = err_other
callback inserted insert_failed = err_other

abbrev pub store_result : Outcome → StoreResult
store_result no_session = err_other
store_result commit_failed = err_other
store_result (ran dedupe receipt) = callback dedupe receipt

module _ (m : Sessions) where
  -- MongoRepository.InsertMessageWithDedupe
  unfoldable pub insert_message_with_dedupe :
      DedupeRecord → MessageReceipt → m.State → m.State × StoreResult
  insert_message_with_dedupe dedupe receipt s =
      let (t, outcome) = m.with_transaction (dedupe_document dedupe) (receipt_document receipt) s in
      (t, store_result outcome)
