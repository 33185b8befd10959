-- ===== src/Whatsapp/Edge/Delivery.antt =====
-- A notification on its way from the edge to the store.
use edn_core.Prelude.{ℕ, ◌≡◌, Bool, true, false, Option, none, some, List}
use edn_core.Text.{Text}
use edn_core.Checkout.{Time}
use edn_core.Whatsapp.{MetaWebhookPayload}
use edn_core.Whatsapp.Store.{Sessions}
use edn_core.Whatsapp.Intake.{WorkItem, valid_items}
use edn_core.Whatsapp.Intake.Storing.{AllStored}
use edn_core.Whatsapp.Handler.{
  Library, Headers, BodyRead, body, too_large, read_failed, Response, serve_intake,
}
use edn_core.Whatsapp.Edge.{serve_notification}

-- What becomes of the request between the two services.
pub data Transit : Type 0 where
  lost : Transit
  arrives : BodyRead → Bool → Transit

-- The body that arrives, if it arrives whole, is the one that was sent.
abbrev pub received : Text → BodyRead → BodyRead
received raw (body _) = body raw
received raw too_large = too_large
received raw read_failed = read_failed

module _ (lib : Library) (m : Sessions) (internal_token : Text) (uuid : ℕ → Text) (generated : Text)
    (now : Time) where
  -- The answer of the intake may be lost as well.
  abbrev pub answered : Bool → m.State × Response → m.State × Option ℕ
  answered true (t, (status, _)) = (t, some status)
  answered false (t, _) = (t, none)

  abbrev pub over : Transit → Headers → Text → m.State → m.State × Option ℕ
  over lost headers raw s = (s, none)
  over (arrives read reply) headers raw s =
      answered reply
        (serve_intake lib m internal_token uuid generated now headers (received raw read) s)

  -- ForwardClient.Forward, to the intake
  abbrev pub forward_to_intake : Transit → Option Headers → Text → m.State → m.State × Option ℕ
  forward_to_intake transit none raw s = (s, none)
  forward_to_intake transit (some headers) raw s = over transit headers raw s

  module _ (app_secret : Text) (transit : Transit) (headers : Option Headers)
      (content_type sig_header : Text) where
    unfoldable pub deliver : BodyRead → m.State → m.State × Response
    unfolding serve_notification serve_intake
    deliver read s =
        serve_notification lib app_secret (forward_to_intake transit headers) content_type
          sig_header read s

-- The store has all messages of a body.
abbrev pub Accepted : Library → (m : Sessions) → Text → m.State → Type 0
Accepted lib m raw t =
    (payload : MetaWebhookPayload) × (items : List WorkItem) × (lib.decode_payload raw
      ≡ some payload)
    × (valid_items payload ≡ some items)
    × AllStored items (m.dedupes t)
