-- ===== src/Tenants.antt =====
-- internal/tenants/handler.go: the administration of tenants, from the request to the answer. What
-- decoding a body gives is an argument, and so is the fresh UUID. The path's organization is an argument
-- of the handlers that read it.
pub mod Kept
use edn_core.Prelude.{
  ℕ, Bool, true, false, not, ◌||◌, Option, none, some, List, [], ◌∷◌, if◌then◌else◌,
}
use edn_core.Text.{Text, lit, ◌=?◌, is_empty}
use edn_core.Tenancy.{Tenant}
use edn_core.Errors.{
  Result, ok, err, errors_is, Error, Sentinel, stored_tenant_not_found, duplicate_tenant,
}
use edn_core.Mongo.{Collection}
use edn_core.Stored.Tenants.{create, find_by_uuid, list_by_org, update, deactivate}

-- createRequest and updateRequest
pub record CreateRequest : Type 0 where
  pub slug : Text
  pub name : Text
  pub channels : List Text

pub record UpdateRequest : Type 0 where
  pub name : Text
  pub channels : List Text
  pub active : Bool

-- The routes, with the parameters of the path that are read.
pub data Request : Type 0 where
  lists_by_org : Text → Request
  creates : Text → Option CreateRequest → Request
  gets_by_uuid : Text → Request
  updates : Text → Option UpdateRequest → Request
  deactivates : Text → Request

pub data Body : Type 0 where
  no_body : Body
  error updated : Text → Body
  one : Tenant → Body
  all : List Tenant → Body

abbrev pub Answer : Type 0
Answer = ℕ × Body

abbrev internal_error : Answer
internal_error = (500, error (lit "internal_error"))

abbrev not_found : Answer
not_found = (404, error (lit "not_found"))

abbrev bad_request : Text → Answer
bad_request details = (400, error details)

abbrev pub authenticate : Text → Text → Bool
authenticate auth_token got =
    if is_empty auth_token || is_empty got then false else got =? auth_token

-- The error of a repository where one sentinel has an answer of its own.
abbrev failed : Sentinel → Answer → Error → Answer
failed s known e = if errors_is e s then known else internal_error

abbrev listed : Result (List Tenant) → Answer
listed (ok tenants) = (200, all tenants)
listed (err e) = internal_error

abbrev got_one : Result Tenant → Answer
got_one (ok tenant) = (200, one tenant)
got_one (err e) = failed stored_tenant_not_found not_found e

abbrev pub done : Answer → Sentinel → Answer → Result (Unit {0}) → Answer
done success s known (ok _) = success
done success s known (err e) = failed s known e

abbrev or_web : List Text → List Text
or_web [] = lit "web" ∷ []
or_web (c ∷ channels) = c ∷ channels

abbrev pub new_tenant : Text → Text → CreateRequest → Tenant
new_tenant uuid organization_id req = record {
  tenant_uuid = uuid;
  organization_id = organization_id;
  slug = req.slug;
  name = req.name;
  channels = or_web req.channels;
  active = true;
}

abbrev pub patch_of : UpdateRequest → Tenant
patch_of req = record {
  tenant_uuid = [];
  organization_id = [];
  slug = [];
  name = req.name;
  channels = req.channels;
  active = req.active;
}

abbrev pub answering : {S A : Type 0} → (A → Answer) → S × A → S × Answer
answering f (s, a) = (s, f a)

module _ (c : Collection Tenant) (auth_token uuid : Text) where
  abbrev pub create_tenant : Text → CreateRequest → c.State → c.State × Answer
  create_tenant organization_id req s =
      if is_empty req.slug || is_empty req.name
      then (s, bad_request (lit "slug and name are required"))
      else answering
          (done (201, one (new_tenant uuid organization_id req)) duplicate_tenant
            (409, error (lit "duplicate")))
          (create c (new_tenant uuid organization_id req) s)

  -- ListByOrg, Create, GetByUUID, Update and Deactivate behind the authentication
  unfoldable pub serve_authenticated : Request → c.State → c.State × Answer
  unfolding create find_by_uuid list_by_org update deactivate
  serve_authenticated (lists_by_org organization_id) s =
      (s, listed (list_by_org c organization_id s))
  serve_authenticated (creates organization_id none) s = (s, bad_request (lit "invalid_payload"))
  serve_authenticated (creates organization_id (some req)) s = create_tenant organization_id req s
  serve_authenticated (gets_by_uuid tenant_uuid) s = (s, got_one (find_by_uuid c tenant_uuid s))
  serve_authenticated (updates tenant_uuid none) s = (s, bad_request (lit "invalid_payload"))
  serve_authenticated (updates tenant_uuid (some req)) s =
      answering (done (200, updated (lit "updated")) stored_tenant_not_found not_found)
        (update c tenant_uuid (patch_of req) s)
  serve_authenticated (deactivates tenant_uuid) s =
      answering (done (204, no_body) stored_tenant_not_found not_found) (deactivate c tenant_uuid s)

  unfoldable pub serve : Text → Request → c.State → c.State × Answer
  unfolding serve_authenticated
  serve got request s =
      if not (authenticate auth_token got)
      then (s, (401, error (lit "unauthorized")))
      else serve_authenticated request s
