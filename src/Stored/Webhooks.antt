-- ===== src/Stored/Webhooks.antt =====
-- internal/checkout/mongodb_repository.go: the webhook events. Their unique index is that of
-- ensureWebhookEventsIndexes in internal/platform/mongodb/checkout.go.
use edn_core.Prelude.{zero, suc, Bool, true, false, some, List, [], ◌∷◌}
use edn_core.Text.{Text, ◌=?◌}
use edn_core.Checkout.{Time, WebhookEvent}
use edn_core.Errors.{
  sentinel, wrapped, other, Result, ok, err, stored_order_not_found, duplicate_webhook,
}
use edn_core.Mongo.{Collection, UniqueIndex, Count, counted, count_failed}
use edn_core.Stored.Results.{
  bson_date, optional_date, insert_result, find_all_result, update_result, with_result,
}

abbrev webhooks_indexes : List (UniqueIndex WebhookEvent)
webhooks_indexes = record { fields = λ e. e.event_hash ∷ []; holds_document = λ e. true } ∷ []

abbrev has_hash : Text → WebhookEvent → Bool
has_hash event_hash e = e.event_hash =? event_hash

abbrev count_result : Count → Result Bool
count_result (counted zero) = ok false
count_result (counted (suc _)) = ok true
count_result count_failed = err (wrapped other)

-- The document of an event.
abbrev as_stored : WebhookEvent → WebhookEvent
as_stored e = record e {
  received_at = bson_date e.received_at;
  processed_at = optional_date e.processed_at;
}

abbrev with_processed : Time → WebhookEvent → WebhookEvent
with_processed processed_at e = record e { processed_at = some (bson_date processed_at) }

module _ (c : Collection WebhookEvent) where
  -- mongoWebhookEvents.Insert
  unfoldable pub insert : WebhookEvent → c.State → c.State × Result (Unit {0})
  insert event s =
      with_result (insert_result (sentinel duplicate_webhook)) (c.insert_one (as_stored event) s)

  -- ExistsByEventHash
  unfoldable exists_by_event_hash : Text → c.State → Result Bool
  exists_by_event_hash event_hash s = count_result (c.count_documents (has_hash event_hash) s)

  -- FindByTransactionNSU
  unfoldable pub find_by_transaction_nsu : Text → c.State → Result (List WebhookEvent)
  find_by_transaction_nsu nsu s = find_all_result (c.find (λ e. e.transaction_nsu =? nsu) s)

  -- MarkProcessed
  unfoldable pub mark_processed : Text → Time → c.State → c.State × Result (Unit {0})
  mark_processed id processed_at s =
      with_result (update_result (wrapped (sentinel stored_order_not_found)))
        (c.update_one (λ e. e.event_id =? id) (with_processed processed_at) s)
