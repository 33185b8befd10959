-- ===== src/Tenants/Kept.antt =====
-- What the administration of tenants leaves alone.
use edn_core.Prelude.{
  ◌≡◌, refl, ap, ◌⊎◌, inl, inr, Bool, Bool-cases, true, false, ◌||◌, none, some, ◌∷◌, map,
}
use edn_core.Text.{Text, is_empty}
use edn_core.Tenancy.{Tenant}
use edn_core.Mongo.{
  Collection, CollectionLaws, InsertOutcome, Inserted, inserted, duplicate_key, insert_failed,
  clash,
}
use edn_core.Mongo.Documents.{NoClash, Inserted-NoClash, Updated-NoClash, map-Updated}
use edn_core.Stored.Tenants.{
  tenants_indexes, has_uuid, with_patch, deactivated, create, update, deactivate,
}
use edn_core.Tenants.{
  CreateRequest, Request, lists_by_org, creates, gets_by_uuid, updates, deactivates, authenticate,
  new_tenant, patch_of, create_tenant, serve_authenticated, serve,
}

-- What names a tenant: its UUID, its organization and its slug.
abbrev pub Identity : Type 0
Identity = Text × Text × Text

abbrev pub identity : Tenant → Identity
identity t = (t.tenant_uuid, t.organization_id, t.slug)

module _ (c : Collection Tenant) (laws : CollectionLaws tenants_indexes c)
    (auth_token uuid : Text) where
  -- The tenants are the same by what names them, or the request has created its tenant.
  abbrev pub Same : Request → c.State → c.State → Type 0
  Same request s t =
      (map identity (c.docs t) ≡ map identity (c.docs s))
      ⊎ ((org : Text) × (req : CreateRequest) × (request ≡ creates org (some req))
          × (c.docs t ≡ new_tenant uuid org req ∷ c.docs s))

  abbrev pub Administered : Request → c.State → c.State → Type 0
  Administered request s t = NoClash tenants_indexes (c.docs t) × Same request s t

  create-Same :
      (org : Text) (req : CreateRequest) (s : c.State)
      → NoClash tenants_indexes (c.docs s)
      → Administered (creates org (some req)) s (create_tenant c auth_token uuid org req s).0
  unfolding create
  create-Same org req s n = elim (Bool-cases (is_empty req.slug || is_empty req.name)) [
    | inl bad ↦ rw bad (n, inl refl)
    | inr good ↦ rw good (
      Inserted-NoClash tenants_indexes d (c.docs s) _ (c.insert_one d s).1 (laws.insert_law d s) n,
      go (c.insert_one d s).1 (laws.insert_law d s),
    )
  ]
    where
      d : Tenant
      d = new_tenant uuid org req

      go :
          (o : InsertOutcome)
          → Inserted tenants_indexes d (c.docs s) o (c.docs (c.insert_one d s).0)
          → Same (creates org (some req)) s (c.insert_one d s).0
      go inserted (_, e) = inr (org, req, refl, e)
      go duplicate_key (_, e) = inl (ap (map identity) e)
      go insert_failed (inl e) = inl (ap (map identity) e)
      go insert_failed (inr (_, e)) = inr (org, req, refl, e)

  update-Same :
      (request : Request) (p : Tenant → Bool) (f : Tenant → Tenant) (s : c.State)
      → ((a b : Tenant) → clash tenants_indexes (f a) b ≡ clash tenants_indexes a b)
      → ((a b : Tenant) → clash tenants_indexes a (f b) ≡ clash tenants_indexes a b)
      → ((a : Tenant) → identity (f a) ≡ identity a)
      → NoClash tenants_indexes (c.docs s)
      → Administered request s (c.update_one p f s).0
  update-Same request p f s left right same n = (
    Updated-NoClash tenants_indexes p f left right (c.docs s) _ (c.update_one p f s).1
        (laws.update_law p f s) n,
    inl (map-Updated identity p f same (c.docs s) _ (c.update_one p f s).1 (laws.update_law p f s)),
  )

  authenticated-Administered :
      (request : Request) (s : c.State)
      → NoClash tenants_indexes (c.docs s)
      → Administered request s (serve_authenticated c auth_token uuid request s).0
  unfolding serve_authenticated update deactivate
  authenticated-Administered (lists_by_org org) s n = (n, inl refl)
  authenticated-Administered (creates org none) s n = (n, inl refl)
  authenticated-Administered (creates org (some req)) s n = create-Same org req s n
  authenticated-Administered (gets_by_uuid id) s n = (n, inl refl)
  authenticated-Administered (updates id none) s n = (n, inl refl)
  authenticated-Administered (updates id (some req)) s n =
      update-Same (updates id (some req)) (has_uuid id) (with_patch (patch_of req)) s (λ a b. refl)
        (λ a b. refl) (λ a. refl) n
  authenticated-Administered (deactivates id) s n =
      update-Same (deactivates id) (has_uuid id) deactivated s (λ a b. refl) (λ a b. refl)
        (λ a. refl) n

  -- A request to administer tenants without the configured token changes nothing and is answered with
  -- 401. Any other leaves no two tenants with the same UUID, or with the same slug in one organization;
  -- and it keeps the UUID, the organization and the slug of each tenant, and adds none but the tenant
  -- that it creates in the organization of its path.
  pub serve-Administered :
      (got : Text) (request : Request) (s : c.State)
      → NoClash tenants_indexes (c.docs s)
      → ((authenticate auth_token got ≡ false)
          × ((serve c auth_token uuid got request s).0 ≡ s)
          × ((serve c auth_token uuid got request s).1.0 ≡ 401))
        ⊎ ((authenticate auth_token got ≡ true)
            × Administered request s (serve c auth_token uuid got request s).0)
  unfolding serve
  serve-Administered got request s n = elim (Bool-cases (authenticate auth_token got)) [
    | inl e ↦ inr (e, rw e (authenticated-Administered request s n))
    | inr e ↦ inl (e, rw e refl, rw e refl)
  ]
