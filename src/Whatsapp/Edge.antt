-- ===== src/Whatsapp/Edge.antt =====
-- internal/whatsapp/public_handler.go and forward.go: the public endpoint of the webhook and its hop to the
-- intake.
pub mod Delivery
pub mod Accepting
pub mod Acknowledging
use edn_core.Prelude.{
  ℕ, ◌+◌, ◌-◌, ◌*◌, leb, ◌==◌, Bool, true, false, not, ◌&&◌, ◌||◌, Option, none, some, List, [],
  ◌∷◌, ◌++◌, all, drop, if◌then◌else◌,
}
use edn_core.Text.{Text, lit, ◌=?◌, is_empty}
use edn_core.Whatsapp.Handler.{
  Library, Headers, BodyRead, body, too_large, read_failed, Response, bad_request,
  payload_too_large, service_unavailable, status_ok,
}

abbrev forbidden : Response
forbidden = (403, lit "{\"error\":\"forbidden\"}")

abbrev pub unsupported_media_type : Response
unsupported_media_type = (415, lit "{\"error\":\"unsupported_media_type\"}")

-- PublicHandler.ServeVerify
unfoldable serve_verify : Text → Text → Text → Text → Response
serve_verify verify_token mode token challenge =
    if is_empty mode || is_empty token || is_empty challenge
    then bad_request
    else if not (mode =? lit "subscribe")
    then bad_request
    else if not (token =? verify_token)
    then forbidden
    else (200, challenge)

pub data SigCheckResult : Type 0 where
  sig_ok sig_absent sig_malformed sig_invalid : SigCheckResult

-- encoding/hex.DecodeString: one digit, two digits, a text
unfoldable hex_digit : ℕ → Option ℕ
hex_digit c =
    if leb 48 c && leb c 57
    then some (c - 48)
    else if leb 97 c && leb c 102
    then some (c - 87)
    else if leb 65 c && leb c 70
    then some (c - 55)
    else none

abbrev hex_byte : Option ℕ → Option ℕ → Option Text → Option Text
hex_byte (some a) (some b) (some rest) = some ((16 * a + b) ∷ rest)
hex_byte (some a) (some b) none = none
hex_byte (some a) none _ = none
hex_byte none _ _ = none

unfoldable hex_decode : Text → Option Text
unfolding hex_digit
hex_decode [] = some []
hex_decode (a ∷ []) = none
hex_decode (a ∷ b ∷ s) = hex_byte (hex_digit a) (hex_digit b) (hex_decode s)

-- strings.HasPrefix
unfoldable has_prefix : Text → Text → Bool
has_prefix s [] = true
has_prefix [] (p ∷ prefix) = false
has_prefix (c ∷ s) (p ∷ prefix) = c == p && has_prefix s prefix

abbrev compare_mac : Text → Option Text → SigCheckResult
compare_mac mac none = sig_malformed
compare_mac mac (some expected) =
    if is_empty expected then sig_malformed else if mac =? expected then sig_ok else sig_invalid

-- isJSONContentType, from the parsed media type
abbrev charset_utf8 : (Text → Text) → Text × Text → Bool
charset_utf8 to_lower (k, v) = to_lower k =? lit "charset" && to_lower v =? lit "utf-8"

abbrev json_media_type : (Text → Text) → Option (Text × List (Text × Text)) → Bool
json_media_type to_lower none = false
json_media_type to_lower (some (media_type, params)) =
    media_type =? lit "application/json" && all (charset_utf8 to_lower) params

-- mapCoreToPublicStatus
unfoldable pub map_core_to_public_status : ℕ → Response
map_core_to_public_status core_status =
    if core_status == 200 || core_status == 202
    then status_ok
    else if core_status == 400
    then bad_request
    else service_unavailable

abbrev pub after_forward : Option ℕ → Response
after_forward none = service_unavailable
after_forward (some core_status) = map_core_to_public_status core_status

module _ (lib : Library) (app_secret : Text) where
  -- isJSONContentType
  unfoldable pub is_json_content_type : Text → Bool
  is_json_content_type ct =
      if is_empty ct then false else json_media_type lib.to_lower (lib.parse_media_type ct)

  -- PublicHandler.checkSignature
  unfoldable pub check_signature : Text → Text → SigCheckResult
  unfolding has_prefix hex_decode
  check_signature raw sig_header =
      if is_empty sig_header
      then sig_absent
      else if not (has_prefix sig_header (lit "sha256="))
      then sig_malformed
      else compare_mac (lib.hmac_sha256 app_secret raw) (hex_decode (drop 7 sig_header))

  -- The hop to the intake, with the raw body: the status code, or no answer.
  module _ {S : Type 0} (forward : Text → S → S × Option ℕ) where
    abbrev pub relay : SigCheckResult → Text → S → S × Response
    relay sig_ok raw s = let (t, status) = forward raw s in (t, after_forward status)
    relay sig_absent raw s = (s, bad_request)
    relay sig_malformed raw s = (s, bad_request)
    relay sig_invalid raw s = (s, forbidden)

    abbrev pub notify_body : Text → BodyRead → S → S × Response
    notify_body sig_header (body raw) s = relay (check_signature raw sig_header) raw s
    notify_body sig_header too_large s = (s, payload_too_large)
    notify_body sig_header read_failed s = (s, bad_request)

    -- PublicHandler.ServeNotification
    unfoldable pub serve_notification : Text → Text → BodyRead → S → S × Response
    unfolding is_json_content_type check_signature map_core_to_public_status
    serve_notification content_type sig_header read s =
        if not (is_json_content_type content_type)
        then (s, unsupported_media_type)
        else notify_body sig_header read s

-- A header that is set where its value is not empty.
abbrev header_if : Text → Text → Headers → Headers
header_if name value headers = if is_empty value then headers else (name, value) ∷ headers

-- What the token provider answers: there may be none, or it may fail.
data Identity : Type 0 where
  no_provider token_failed : Identity
  token : Text → Identity

abbrev with_identity : Identity → Option Headers
with_identity no_provider = some []
with_identity token_failed = none
with_identity (token tok) = some (header_if (lit "Authorization") (lit "Bearer " ++ tok) [])

abbrev correlation : Text → Text → Text → Option Headers → Option Headers
correlation request_id received_at internal_token none = none
correlation request_id received_at internal_token (some auth) = some (
    header_if (lit "X-EDN-Internal-Token") internal_token (
      header_if (lit "X-EDN-Relay-Received-At") received_at (
        header_if (lit "X-EDN-Relay-Request-ID") request_id
          ((lit "Content-Type", lit "application/json") ∷ auth))))

-- ForwardClient.Forward: the headers of its request, unless the token provider fails
unfoldable forward_headers : Text → Text → Text → Identity → Option Headers
forward_headers request_id received_at internal_token identity =
    correlation request_id received_at internal_token (with_identity identity)
