-- ===== src/Whatsapp.antt =====
-- internal/whatsapp: the messages of the Meta webhook, from the public edge (public_handler.go) through
-- the internal intake (internal_handler.go, service.go) to the store (mongodb_repository.go). The
-- types of types.go are without the fields that no code reads; a body is a text of bytes.
pub mod Store
pub mod Intake
pub mod Handler
pub mod Edge
use edn_core.Prelude.{ℕ, ◌+◌, ◌*◌, List}
use edn_core.Text.{Text, lit}
use edn_core.Checkout.{Time, hour}

pub record MetaMessage : Type 0 where
  pub sender : Text
  pub id : Text
  pub kind : Text

pub record MetaChange : Type 0 where
  pub phone_number_id : Text
  pub messages : List MetaMessage

pub record MetaEntry : Type 0 where
  pub changes : List MetaChange

abbrev pub MetaWebhookPayload : Type 0
MetaWebhookPayload = List MetaEntry

pub record MessageReceipt : Type 0 where
  pub receipt_id : Text
  pub provider : Text
  pub message_id : Text
  pub phone_number_id : Text
  pub sender : Text
  pub message_type : Text
  pub received_at : Time
  pub payload_hash : Text
  pub dedupe_key : Text
  pub ingress_request_id : Text

pub record DedupeRecord : Type 0 where
  pub dedupe_key : Text
  pub message_id : Text
  pub phone_number_id : Text
  pub created_at : Time
  pub expires_at : Time

pub record IntakeInput : Type 0 where
  pub ingress_request_id : Text
  pub received_at : Time
  pub raw_payload : Text
  pub payload : MetaWebhookPayload

abbrev pub provider_meta_whats_app : Text
provider_meta_whats_app = lit "meta_whatsapp"

abbrev pub dedupe_ttl : Time
dedupe_ttl = 7 * (24 * hour)
