-- ===== src/Whatsapp/Edge/Acknowledging.antt =====
-- What it means that the edge acknowledges a notification.
use edn_core.Prelude.{ℕ, ◌≡◌, refl, Bool, true, false, not, Option, arith, if◌then◌else◌}
use edn_core.Text.{Text}
use edn_core.Checkout.{Time}
use edn_core.Whatsapp.Store.{Sessions, SessionsLaws}
use edn_core.Whatsapp.Handler.{Library, Headers, BodyRead, body, too_large, read_failed}
use edn_core.Whatsapp.Edge.{
  SigCheckResult, sig_ok, sig_absent, sig_malformed, sig_invalid, check_signature, relay,
  notify_body, is_json_content_type, unsupported_media_type,
}
use edn_core.Whatsapp.Edge.Delivery.{forward_to_intake, Transit, deliver, Accepted}
use edn_core.Whatsapp.Edge.Accepting.{forward-Accepted}

-- A notification that the edge acknowledges.
module _ (lib : Library) (m : Sessions) (laws : SessionsLaws m) (internal_token : Text)
    (uuid : ℕ → Text) (generated : Text) (now : Time) (app_secret : Text) (transit : Transit)
    (headers : Option Headers) (content_type sig_header : Text) where
  -- The signature is that of the body, and the store has its messages.
  abbrev pub Signed : BodyRead → m.State → Type 0
  Signed (body raw) t =
      (check_signature lib app_secret raw sig_header ≡ sig_ok) × Accepted lib m raw t
  Signed too_large t = ⊥
  Signed read_failed t = ⊥

  relay-Signed :
      (raw : Text) (s : m.State) (check : SigCheckResult)
      → check_signature lib app_secret raw sig_header ≡ check
      → (relay lib app_secret
          (forward_to_intake lib m internal_token uuid generated now transit headers)
          check
          raw
          s).1.0
        ≡ 200
      → Signed
          (body raw)
          (relay lib app_secret
            (forward_to_intake lib m internal_token uuid generated now transit headers)
            check
            raw
            s).0
  relay-Signed raw s sig_ok e h =
      (e, forward-Accepted lib m laws internal_token uuid generated now transit headers raw s h)
  relay-Signed raw s sig_absent e h = absurd (omega arith)
  relay-Signed raw s sig_malformed e h = absurd (omega arith)
  relay-Signed raw s sig_invalid e h = absurd (omega arith)

  body-Signed :
      (read : BodyRead) (s : m.State) (json : Bool)
      → (if not json
          then (s, unsupported_media_type)
          else notify_body lib app_secret
              (forward_to_intake lib m internal_token uuid generated now transit headers)
              sig_header
              read
              s).1.0
        ≡ 200
      → Signed read
          (if not json
            then (s, unsupported_media_type)
            else notify_body lib app_secret
                (forward_to_intake lib m internal_token uuid generated now transit headers)
                sig_header
                read
                s).0
  body-Signed read s false h = absurd (omega arith)
  body-Signed (body raw) s true h =
      relay-Signed raw s (check_signature lib app_secret raw sig_header) refl h
  body-Signed too_large s true h = absurd (omega arith)
  body-Signed read_failed s true h = absurd (omega arith)

  -- If the edge acknowledges a notification with 200, then its signature is the HMAC of the body as it
  -- was received under the app secret, the body decodes to a valid payload, and every message of it has
  -- a dedupe record in the store; so whatever goes wrong between the edge and the store, Meta is told
  -- to deliver again.
  pub deliver-ok :
      (read : BodyRead) (s : m.State)
      → (deliver lib m internal_token uuid generated now app_secret transit headers content_type
          sig_header read s).1.0
        ≡ 200
      → Signed read
          (deliver lib m internal_token uuid generated now app_secret transit headers content_type
            sig_header read s).0
  unfolding deliver
  deliver-ok read s h = body-Signed read s (is_json_content_type lib app_secret content_type) h
