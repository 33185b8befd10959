-- ===== src/Relay.antt =====
-- internal/webhookrelay/handler.go: the public relay. The media type is as mime.ParseMediaType
-- returns it (`none` where that fails), and the forward to the core is an argument.
pub mod Answers
use edn_core.Prelude.{
  ◌⊎◌, inl, inr, ℕ, Bool, true, false, not, ◌&&◌, ◌||◌, ◌==◌, Option, none, some, List, [], ◌∷◌,
  all, any, if◌then◌else◌,
}
use edn_core.Text.{Text, lit, is_empty, ◌=?◌}
use edn_core.Errors.{Result, ok, err}

abbrev pub relay_path_prefix : Text
relay_path_prefix = lit "/v1/webhooks/infinitepay/"

-- What follows the prefix, if the text has it.
unfoldable pub after_prefix : Text → Text → Option Text
after_prefix [] s = some s
after_prefix (p ∷ prefix) [] = none
after_prefix (p ∷ prefix) (c ∷ s) =
    let rest = after_prefix prefix s in if p == c then rest else none

pub record Paths : Type 0 where
  pub secret_path : Text
  pub next_secret_path : Text

unfoldable pub candidate_allowed : Paths → Text → Bool
candidate_allowed paths candidate =
    if any (λ c. c == b'/') candidate
    then false
    else if not (is_empty paths.next_secret_path)
    then candidate =? paths.secret_path || candidate =? paths.next_secret_path
    else candidate =? paths.secret_path

-- Handler.pathAllowed
unfoldable pub path_allowed : Paths → Text → Bool
path_allowed paths url_path = elim (after_prefix relay_path_prefix url_path) [
  | none ↦ false
  | some candidate ↦ candidate_allowed paths candidate
]

-- mapCoreStatus
unfoldable pub map_core_status : ℕ → ℕ × Text
map_core_status core_status =
    if core_status == 200 || core_status == 202
    then (200, lit "{\"status\":\"ok\"}")
    else if core_status == 422
    then (422, lit "{\"error\":\"unprocessable_entity\"}")
    else (400, lit "{\"error\":\"bad_request\"}")

-- isAllowedContentType; `to_lower` is strings.ToLower, of the language's library.
abbrev MediaType : Type 0
MediaType = Option (Text × List (Text × Text))

unfoldable pub is_allowed_content_type : (Text → Text) → MediaType → Bool
is_allowed_content_type to_lower none = false
is_allowed_content_type to_lower (some (mediatype, params)) =
    if not (mediatype =? lit "application/json")
    then false
    else all (λ p. to_lower p.0 =? lit "charset" && to_lower p.1 =? lit "utf-8") params

-- What reading the body gives: io.ReadAll behind http.MaxBytesReader.
pub data ReadBody : Type 0 where
  too_large unreadable : ReadBody
  read : Text → ReadBody

pub record Request : Type 0 where
  pub is_post : Bool
  pub path : Text
  pub media_type : MediaType
  pub body : ReadBody

abbrev bad_request : ℕ × Text
bad_request = (400, lit "{\"error\":\"bad_request\"}")

abbrev pub forwarded : Result ℕ → ℕ × Text
forwarded (err _) = bad_request
forwarded (ok core_status) = map_core_status core_status

-- Steps 1 to 4 of ServeHTTP: the answer that ends the request, or the body to forward.
unfoldable pub gates : (Text → Text) → Paths → Request → (ℕ × Text) ⊎ Text
gates to_lower paths req =
    if not req.is_post
    then inl (405, lit "{\"error\":\"method_not_allowed\"}")
    else if not (path_allowed paths req.path)
    then inl (404, lit "{\"error\":\"not_found\"}")
    else if not (is_allowed_content_type to_lower req.media_type)
    then inl (415, lit "{\"error\":\"unsupported_media_type\"}")
    else elim req.body [
      | too_large ↦ inl (413, lit "{\"error\":\"payload_too_large\"}")
      | unreadable ↦ inl bad_request
      | read [] ↦ inl bad_request
      | read (c ∷ raw_body) ↦ inr (c ∷ raw_body)
    ]

-- Handler.ServeHTTP, with the throttle's decision and the core's answer to a body
unfoldable pub serve_http : (Text → Text) → Paths → Bool → (Text → Result ℕ) → Request → ℕ × Text
unfolding gates
serve_http to_lower paths acquired forward req = elim (gates to_lower paths req) [
  | inl refused ↦ refused
  | inr raw_body ↦ if not acquired then bad_request else forwarded (forward raw_body)
]
