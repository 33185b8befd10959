-- ===== src/Whatsapp/Handler.antt =====
-- internal/whatsapp/internal_handler.go: the intake endpoint. The functions of the language's library that
-- the two handlers use are a record; a request is its headers and what reading its body gives.
use edn_core.Prelude.{
  ℕ, ◌+◌, ◌==◌, Bool, not, ◌||◌, Option, none, some, List, [], ◌∷◌, length, if◌then◌else◌,
}
use edn_core.Text.{Text, lit, ◌=?◌, is_empty}
use edn_core.Checkout.{Time}
use edn_core.Whatsapp.{MetaChange, MetaWebhookPayload, IntakeInput}
use edn_core.Whatsapp.Store.{Sessions}
use edn_core.Whatsapp.Intake.{
  IntakeResult, processed, invalid_payload, persist_failed, process_messages,
}

-- mime.ParseMediaType, strings.ToLower, HMAC-SHA256, the JSON decoder, time.Parse of RFC 3339 and the
-- SHA-256 digest in hexadecimal
pub record Library : Type 0 where
  pub parse_media_type : Text → Option (Text × List (Text × Text))
  pub to_lower : Text → Text
  pub hmac_sha256 : Text → Text → Text
  pub decode_payload : Text → Option MetaWebhookPayload
  pub parse_time : Text → Option Time
  pub sha256_hex : Text → Text

abbrev pub Headers : Type 0
Headers = List (Text × Text)

-- http.Header.Get, for the names as the code spells them
unfoldable pub header_get : Text → Headers → Text
header_get name [] = []
header_get name ((n, v) ∷ headers) = if n =? name then v else header_get name headers

-- http.MaxBytesReader and io.ReadAll
pub data BodyRead : Type 0 where
  body : Text → BodyRead
  too_large read_failed : BodyRead

-- Status code and body.
abbrev pub Response : Type 0
Response = ℕ × Text

abbrev pub bad_request : Response
bad_request = (400, lit "{\"error\":\"bad_request\"}")

abbrev pub unauthorized : Response
unauthorized = (401, lit "{\"error\":\"unauthorized\"}")

abbrev pub payload_too_large : Response
payload_too_large = (413, lit "{\"error\":\"payload_too_large\"}")

abbrev pub service_unavailable : Response
service_unavailable = (503, lit "{\"error\":\"service_unavailable\"}")

abbrev pub status_ok : Response
status_ok = (200, lit "{\"status\":\"ok\"}")

abbrev pub ignored : Response
ignored = (200, lit "{\"status\":\"ignored\"}")

unfoldable pub count_messages : List MetaChange → ℕ
count_messages [] = 0
count_messages (change ∷ changes) = length change.messages + count_messages changes

unfoldable pub msg_count : MetaWebhookPayload → ℕ
unfolding count_messages
msg_count [] = 0
msg_count (entry ∷ entries) = count_messages entry.changes + msg_count entries

abbrev intake_response : IntakeResult → Response
intake_response processed = status_ok
intake_response invalid_payload = bad_request
intake_response persist_failed = service_unavailable

abbrev or_else : Text → Text → Text
or_else text default = if is_empty text then default else text

abbrev time_or : Time → Option Time → Time
time_or now none = now
time_or now (some t) = t

abbrev parsed : (Text → Option Time) → Text → Option Time
parsed parse_time ts = if is_empty ts then none else parse_time ts

module _ (lib : Library) (m : Sessions) (internal_token : Text) (uuid : ℕ → Text) (generated : Text)
    (now : Time) where
  abbrev pub intake_input : Headers → Text → MetaWebhookPayload → IntakeInput
  intake_input headers raw payload = record {
    ingress_request_id = or_else (header_get (lit "X-EDN-Relay-Request-ID") headers) generated;
    received_at =
        time_or now (parsed lib.parse_time (header_get (lit "X-EDN-Relay-Received-At") headers));
    raw_payload = raw;
    payload = payload;
  }

  abbrev pub respond : m.State × IntakeResult → m.State × Response
  respond (t, result) = (t, intake_response result)

  abbrev pub intake_payload :
      Headers → Text → Option MetaWebhookPayload → m.State → m.State × Response
  intake_payload headers raw none s = (s, bad_request)
  intake_payload headers raw (some payload) s =
      if msg_count payload == 0
      then (s, ignored)
      else respond (process_messages m lib.sha256_hex uuid (intake_input headers raw payload) s)

  abbrev pub intake_body : Headers → BodyRead → m.State → m.State × Response
  intake_body headers (body raw) s = intake_payload headers raw (lib.decode_payload raw) s
  intake_body headers too_large s = (s, payload_too_large)
  intake_body headers read_failed s = (s, bad_request)

  -- The secondary token is compared where one is configured.
  abbrev pub token_accepted : Headers → Bool
  token_accepted headers =
      is_empty internal_token || header_get (lit "X-EDN-Internal-Token") headers =? internal_token

  -- InternalHandler.ServeHTTP
  unfoldable pub serve_intake : Headers → BodyRead → m.State → m.State × Response
  unfolding msg_count header_get
  serve_intake headers read s =
      if not (token_accepted headers) then (s, unauthorized) else intake_body headers read s
