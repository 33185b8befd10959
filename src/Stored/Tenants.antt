-- ===== src/Stored/Tenants.antt =====
-- internal/tenants/mongodb_repository.go: the tenants. Their unique indexes are those of
-- ensureTenantsIndexes in internal/platform/mongodb/tenancy.go.
use edn_core.Prelude.{Bool, true, false, ◌&&◌, List, [], ◌∷◌}
use edn_core.Text.{Text, ◌=?◌}
use edn_core.Tenancy.{Tenant}
use edn_core.Errors.{sentinel, wrapped, Result, stored_tenant_not_found, duplicate_tenant}
use edn_core.Mongo.{Collection, UniqueIndex}
use edn_core.Stored.Results.{
  insert_result, find_result, find_all_result, update_result, with_result,
}

abbrev pub tenants_indexes : List (UniqueIndex Tenant)
tenants_indexes =
    record { fields = λ t. t.tenant_uuid ∷ []; holds_document = λ t. true }
    ∷ record { fields = λ t. t.organization_id ∷ t.slug ∷ []; holds_document = λ t. true }
    ∷ []

abbrev pub has_uuid : Text → Tenant → Bool
has_uuid tenant_uuid t = t.tenant_uuid =? tenant_uuid

-- The `$set` documents; the times of a tenant are left out, since no decision reads them.
abbrev pub with_patch : Tenant → Tenant → Tenant
with_patch patch t = record t {
  name = patch.name;
  channels = patch.channels;
  active = patch.active;
}

abbrev pub deactivated : Tenant → Tenant
deactivated t = record t { active = false }

module _ (c : Collection Tenant) where
  -- mongoRepository.Create
  unfoldable pub create : Tenant → c.State → c.State × Result (Unit {0})
  create tenant s =
      with_result (insert_result (wrapped (sentinel duplicate_tenant))) (c.insert_one tenant s)

  -- FindByUUID, FindByOrgAndSlug and ListByOrg
  unfoldable pub find_by_uuid : Text → c.State → Result Tenant
  find_by_uuid tenant_uuid s =
      find_result stored_tenant_not_found (c.find_one (has_uuid tenant_uuid) s)

  unfoldable find_by_org_and_slug : Text → Text → c.State → Result Tenant
  find_by_org_and_slug organization_id slug s =
      find_result stored_tenant_not_found
        (c.find_one (λ t. t.organization_id =? organization_id && t.slug =? slug) s)

  unfoldable pub list_by_org : Text → c.State → Result (List Tenant)
  list_by_org organization_id s =
      find_all_result (c.find (λ t. t.organization_id =? organization_id) s)

  -- Update
  unfoldable pub update : Text → Tenant → c.State → c.State × Result (Unit {0})
  update tenant_uuid patch s =
      with_result (update_result (sentinel stored_tenant_not_found))
        (c.update_one (has_uuid tenant_uuid) (with_patch patch) s)

  -- Deactivate
  unfoldable pub deactivate : Text → c.State → c.State × Result (Unit {0})
  deactivate tenant_uuid s =
      with_result (update_result (sentinel stored_tenant_not_found))
        (c.update_one (has_uuid tenant_uuid) deactivated s)
