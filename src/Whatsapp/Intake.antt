-- ===== src/Whatsapp/Intake.antt =====
-- internal/whatsapp/service.go: IntakeService.ProcessMessages, in its two phases. The UUIDs of the
-- receipts and the hash of the payload are arguments.
pub mod Adding
pub mod Storing
pub mod Redelivery
use edn_core.Prelude.{
  ℕ, suc, ◌+◌, Bool, true, false, Option, none, some, List, [], ◌∷◌, ◌++◌, if◌then◌else◌,
}
use edn_core.Text.{Text, lit, is_empty}
use edn_core.Checkout.{Time}
use edn_core.Whatsapp.{
  MetaMessage, MetaChange, MetaEntry, MetaWebhookPayload, MessageReceipt, DedupeRecord, IntakeInput,
  provider_meta_whats_app, dedupe_ttl,
}
use edn_core.Whatsapp.Store.{
  Sessions, StoreResult, stored, err_duplicate, err_other, insert_message_with_dedupe,
}

-- workItem
pub record WorkItem : Type 0 where
  pub phone_number_id : Text
  pub msg : MetaMessage

-- The lists of both parts, if both are valid.
abbrev both_lists : Option (List WorkItem) → Option (List WorkItem) → Option (List WorkItem)
both_lists none b = none
both_lists (some a) none = none
both_lists (some a) (some b) = some (a ++ b)

-- Phase 1: the messages of the payload, or `none` for ErrInvalidPayload
unfoldable pub valid_messages : Text → List MetaMessage → Option (List WorkItem)
valid_messages phone_number_id [] = some []
valid_messages phone_number_id (msg ∷ msgs) =
    let rest = valid_messages phone_number_id msgs in
    if is_empty msg.id
    then none
    else both_lists (some (record { phone_number_id = phone_number_id; msg = msg } ∷ [])) rest

abbrev pub valid_change_messages : Text → List MetaMessage → Option (List WorkItem)
valid_change_messages phone_number_id [] = some []
valid_change_messages phone_number_id (msg ∷ msgs) =
    if is_empty phone_number_id then none else valid_messages phone_number_id (msg ∷ msgs)

unfoldable pub valid_changes : List MetaChange → Option (List WorkItem)
unfolding valid_messages
valid_changes [] = some []
valid_changes (change ∷ changes) =
    both_lists (valid_change_messages change.phone_number_id change.messages)
      (valid_changes changes)

unfoldable pub valid_items : MetaWebhookPayload → Option (List WorkItem)
unfolding valid_changes
valid_items [] = some []
valid_items (entry ∷ entries) = both_lists (valid_changes entry.changes) (valid_items entries)

abbrev pub dedupe_key_of : WorkItem → Text
dedupe_key_of item = item.phone_number_id ++ lit ":" ++ item.msg.id

abbrev pub dedupe_of : IntakeInput → WorkItem → DedupeRecord
dedupe_of input item = record {
  dedupe_key = dedupe_key_of item;
  message_id = item.msg.id;
  phone_number_id = item.phone_number_id;
  created_at = input.received_at;
  expires_at = input.received_at + dedupe_ttl;
}

abbrev pub receipt_of : (Text → Text) → IntakeInput → WorkItem → Text → MessageReceipt
receipt_of sha256_hex input item uuid = record {
  receipt_id = uuid;
  provider = provider_meta_whats_app;
  message_id = item.msg.id;
  phone_number_id = item.phone_number_id;
  sender = item.msg.sender;
  message_type = item.msg.kind;
  received_at = input.received_at;
  payload_hash = sha256_hex input.raw_payload;
  dedupe_key = dedupe_key_of item;
  ingress_request_id = input.ingress_request_id;
}

pub data IntakeResult : Type 0 where
  processed invalid_payload persist_failed : IntakeResult

-- A duplicate is skipped; another error ends the loop.
abbrev pub after_insert : {S : Type 0} → StoreResult → S × IntakeResult → S → S × IntakeResult
after_insert stored rest t = rest
after_insert err_duplicate rest t = rest
after_insert err_other rest t = (t, persist_failed)

module _ (m : Sessions) (sha256_hex : Text → Text) (uuid : ℕ → Text) where
  -- Phase 2, from the `n`-th UUID on
  unfoldable pub persist : IntakeInput → ℕ → List WorkItem → m.State → m.State × IntakeResult
  unfolding insert_message_with_dedupe
  persist input n [] s = (s, processed)
  persist input n (item ∷ items) s =
      let (t, result) =
        insert_message_with_dedupe m (dedupe_of input item)
          (receipt_of sha256_hex input item (uuid n)) s in
      let rest = persist input (suc n) items t in after_insert result rest t

  abbrev pub persist_valid : IntakeInput → Option (List WorkItem) → m.State → m.State × IntakeResult
  persist_valid input none s = (s, invalid_payload)
  persist_valid input (some items) s = persist input 0 items s

  -- IntakeService.ProcessMessages
  unfoldable pub process_messages : IntakeInput → m.State → m.State × IntakeResult
  unfolding valid_items persist
  process_messages input s = persist_valid input (valid_items input.payload) s
