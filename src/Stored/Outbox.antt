-- ===== src/Stored/Outbox.antt =====
-- internal/checkout/mongodb_repository.go: the outbox. The index that ensureOutboxEventsIndexes in
-- internal/platform/mongodb/checkout.go creates is not unique.
pub mod Fetching
use edn_core.Prelude.{ℕ, leb, ◌==◌, Bool, true, not, Option, none, some, List, [], if◌then◌else◌}
use edn_core.Text.{Text, ◌=?◌}
use edn_core.Checkout.{Time, OutboxEvent}
use edn_core.Errors.{sentinel, other, Result, duplicate_outbox}
use edn_core.Mongo.{Collection, UniqueIndex}
use edn_core.Stored.Results.{
  bson_date, optional_date, insert_result, find_all_result, update_result, with_result,
}

-- ensureOutboxEventsIndexes: its index is for the queries only, none is unique.
abbrev pub outbox_indexes : List (UniqueIndex OutboxEvent)
outbox_indexes = []

-- The document of an event.
abbrev as_stored : OutboxEvent → OutboxEvent
as_stored e = record e {
  created_at = bson_date e.created_at;
  published_at = optional_date e.published_at;
}

-- `published: false`, and the creation time ascending
abbrev pub unpublished : OutboxEvent → Bool
unpublished e = not e.published

abbrev pub oldest_first : OutboxEvent → OutboxEvent → Bool
oldest_first a b = leb a.created_at b.created_at

-- A limit of 0 is no limit to the driver.
abbrev pub limit_of : ℕ → Option ℕ
limit_of n = if n == 0 then none else some n

module _ (c : Collection OutboxEvent) where
  -- mongoOutboxEvents.Insert
  unfoldable pub insert : OutboxEvent → c.State → c.State × Result (Unit {0})
  insert event s =
      with_result (insert_result (sentinel duplicate_outbox)) (c.insert_one (as_stored event) s)

  -- FetchUnpublished
  unfoldable pub fetch_unpublished : ℕ → c.State → Result (List OutboxEvent)
  fetch_unpublished limit s =
      find_all_result (c.find_sorted unpublished oldest_first (limit_of limit) s)

  -- MarkPublished
  unfoldable pub mark_published : Text → Time → c.State → c.State × Result (Unit {0})
  mark_published id published_at s = with_result (update_result other) (
      c.update_one (λ e. e.event_id =? id)
        (λ e. record e { published = true; published_at = some (bson_date published_at) }) s)
