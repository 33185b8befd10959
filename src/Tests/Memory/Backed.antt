-- ===== src/Tests/Memory/Backed.antt =====
-- The collection in memory behaves as the driver does.
use edn_core.Prelude.{List}
use edn_core.Mongo.{CollectionLaws, UniqueIndex}
use edn_core.Tests.Memory.{filter, sort, memory}
use edn_core.Tests.Memory.Finding.{
  filter_sound, filter_complete, first-FoundOne, insert_in-Inserted, update_in-Updated,
  upsert_in-Upserted, count_in-Counted,
}
use edn_core.Tests.Memory.Sorting.{
  sort_sound, sort-Sorted, limited-Limited, limited_sound, limited-Sorted, first-FoundFirst,
}

module _ {D : Type 0} (is : List (UniqueIndex D)) where
  pub memory-CollectionLaws : CollectionLaws is (memory is)
  memory-CollectionLaws = record {
    insert_law = λ d xs. insert_in-Inserted is d xs;
    find_one_law = λ p xs. first-FoundOne p xs;
    find_first_law = λ p before xs order. first-FoundFirst before order p xs;
    find_law = λ p xs. (λ x h. filter_sound p x xs h, λ x h e. filter_complete p x xs h e);
    find_sorted_law = λ p before limit xs order. (
      λ x h. filter_sound p x xs (
          sort_sound before x (filter p xs)
            (limited_sound before order limit x (sort before (filter p xs)) h)),
      limited-Sorted before order limit (sort before (filter p xs))
          (sort-Sorted before order (filter p xs)),
      limited-Limited before order p limit xs,
    );
    update_law = λ p f xs. update_in-Updated p f xs;
    upsert_law = λ p f d xs. upsert_in-Upserted is p f d xs;
    count_law = λ p xs. count_in-Counted p xs;
  }
