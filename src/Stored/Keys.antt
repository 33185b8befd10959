-- ===== src/Stored/Keys.antt =====
-- internal/idempotency/mongodb_repository.go: the idempotency keys. Their unique index is the first of
-- ensureIdempotencyKeysIndexes in internal/platform/mongodb/tenancy.go; a TTL index of that function
-- lets the database remove keys that are expirable and have expired. The times of a key are as BSON
-- holds them, in milliseconds.
pub mod Steps
pub mod Reserving
use edn_core.Prelude.{Bool, true, ◌&&◌, some, List, [], ◌∷◌}
use edn_core.Text.{Text, ◌=?◌}
use edn_core.Checkout.{Time, OrderStatus}
use edn_core.Idempotency.{Key, KeyStatus, committed}
use edn_core.Errors.{sentinel, wrapped, Result, key_not_found, duplicate_key}
use edn_core.Mongo.{Collection, UniqueIndex}
use edn_core.Stored.Results.{insert_result, find_result, update_result, with_result}

abbrev pub keys_indexes : List (UniqueIndex Key)
keys_indexes =
    record {
      fields = λ k. k.tenant_id ∷ k.operation ∷ k.idempotency_key ∷ [];
      holds_document = λ k. true;
    }
    ∷ []

abbrev pub has_key : Text → Text → Text → Key → Bool
has_key tenant_id operation idempotency_key k =
    k.tenant_id =? tenant_id && (k.operation =? operation && k.idempotency_key =? idempotency_key)

abbrev has_resource : Text → Text → Text → Key → Bool
has_resource tenant_id operation resource_id k =
    k.tenant_id =? tenant_id && (k.operation =? operation && k.resource_id =? resource_id)

-- The `$set` documents of Commit and Fail.
abbrev pub with_commit : Text → OrderStatus → Text → Text → Time → Key → Key
with_commit id resource_status url ref at k = record k {
  status = committed;
  resource_id = id;
  resource_status = some resource_status;
  resource_url = url;
  external_ref = ref;
  updated_at = at;
}

abbrev pub with_failure : Time → Key → Key
with_failure at k = record k { status = KeyStatus.failed; updated_at = at }

module _ (c : Collection Key) where
  -- mongoRepository.Reserve
  unfoldable pub reserve : Key → c.State → c.State × Result (Unit {0})
  reserve key s =
      with_result (insert_result (wrapped (sentinel duplicate_key))) (c.insert_one key s)

  -- FindByTenantOpKey and FindByTenantOpResourceID
  unfoldable pub find_by_tenant_op_key : Text → Text → Text → c.State → Result Key
  find_by_tenant_op_key tenant_id operation idempotency_key s =
      find_result key_not_found (c.find_one (has_key tenant_id operation idempotency_key) s)

  unfoldable pub find_by_tenant_op_resource_id : Text → Text → Text → c.State → Result Key
  find_by_tenant_op_resource_id tenant_id operation resource_id s =
      find_result key_not_found (c.find_one (has_resource tenant_id operation resource_id) s)

  -- Commit
  unfoldable pub commit :
      Text
      → Text
      → Text
      → Text
      → OrderStatus
      → Text
      → Text
      → Time
      → c.State
      → c.State × Result (Unit {0})
  commit tenant_id operation idempotency_key id resource_status url ref at s =
      with_result (update_result (wrapped (sentinel key_not_found))) (
        c.update_one (has_key tenant_id operation idempotency_key)
          (with_commit id resource_status url ref at) s)

  -- Fail
  unfoldable pub fail : Text → Text → Text → Time → c.State → c.State × Result (Unit {0})
  fail tenant_id operation idempotency_key at s =
      with_result (update_result (wrapped (sentinel key_not_found)))
        (c.update_one (has_key tenant_id operation idempotency_key) (with_failure at) s)
