-- ===== src/Tests/Capture.antt =====
-- The theorems on the checkout store, the WhatsApp webhook and the leads, on stores in memory.
use edn_core.Prelude.{
  ℕ, ◌+◌, ◌<◌, ◌*◌, ◌≡◌, ◌≢◌, refl, sym, subst, none, true, some, List, [], ◌∷◌, arith,
}
use edn_core.Text.{Text, lit, trim_space, Text-discrete}
use edn_core.Checkout.{Time, second}
use edn_core.Errors.{ok}
use edn_core.Mongo.{Collection}
use edn_core.CheckoutStore.{acquire_order_lock}
use edn_core.CheckoutStore.Commands.{Command, acquires_order, releases_order, issue_all}
use edn_core.CheckoutStore.Locks.{order_lock-exclusive}
use edn_core.Whatsapp.{MetaWebhookPayload, IntakeInput, dedupe_ttl}
use edn_core.Whatsapp.Store.{Pruned, kept, unchanged, dedupe_document}
use edn_core.Stored.Results.{bson_date}
use edn_core.Whatsapp.Intake.{WorkItem, valid_items, dedupe_of, processed, process_messages}
use edn_core.Whatsapp.Intake.Storing.{Processed, process_messages-Processed}
use edn_core.Whatsapp.Intake.Redelivery.{process_messages-redelivered}
use edn_core.Whatsapp.Handler.{Library, body}
use edn_core.Whatsapp.Edge.Delivery.{arrives, deliver}
use edn_core.Whatsapp.Edge.Acknowledging.{Signed, deliver-ok}
use edn_core.Leads.{SubmitRequest, unless, valid, validate}
use edn_core.Leads.Valid.{Normal, validate-Normal}
use edn_core.Leads.Service.{Lead, LeadsConfig, leads_indexes}
use edn_core.Leads.Handler.{serve_lead}
use edn_core.Leads.Capture.{Answered, serve_lead-Answered}
use edn_core.Tests.Memory.{memory}
use edn_core.Tests.Memory.Backed.{memory-CollectionLaws}
use edn_core.Tests.Server.{server, server-RedisLaws, sessions, sessions-SessionsLaws}

abbrev attempts : List (Time × Command)
attempts =
    (2 * second, acquires_order (lit "o1") (lit "t2"))
    ∷ (3 * second, releases_order (lit "o1") (lit "t2"))
    ∷ []

order_taken : (acquire_order_lock server (lit "o1") (lit "t1") second (λ k. none)).1 ≡ ok tt
unfolding acquire_order_lock
order_taken = refl

order_lock-exclusive_example :
    (acquire_order_lock server (lit "o1") (lit "t3") (10 * second) (
      issue_all server attempts
        (acquire_order_lock server (lit "o1") (lit "t1") second (λ k. none)).0)).1
    ≢ ok tt
order_lock-exclusive_example =
    order_lock-exclusive server server-RedisLaws (lit "o1") (lit "t1") second (λ k. none) attempts
      order_taken ((omega arith, tt), ((omega arith, λ same e. absurd (ground arith)), tt))
      (lit "t3") (10 * second) (omega arith)

abbrev payload : MetaWebhookPayload
payload =
    record {
      changes =
          record {
            phone_number_id = lit "55";
            messages = record { sender = lit "5511"; id = lit "m1"; kind = lit "text" } ∷ [];
          }
          ∷ [];
    }
    ∷ []

abbrev input : Text → IntakeInput
input request_id = record {
  ingress_request_id = request_id;
  received_at = 1000;
  raw_payload = lit "{}";
  payload = payload;
}

abbrev same_id : ℕ → Text
same_id n = lit "u1"

process_messages-Processed_example :
    Processed sessions sessions-SessionsLaws
      (λ s. s)
      same_id
      (input (lit "r1"))
      ([], [])
      (process_messages sessions (λ s. s) same_id (input (lit "r1")) ([], []))
process_messages-Processed_example =
    process_messages-Processed sessions sessions-SessionsLaws (λ s. s) same_id (input (lit "r1"))
      ([], [])

first_processed :
    (process_messages sessions (λ s. s) same_id (input (lit "r1")) ([], [])).1 ≡ processed
unfolding process_messages
first_processed = refl

-- The item of the payload, and the store after it, in which its record lasts beyond a second.
abbrev the_item : WorkItem
the_item = record {
  phone_number_id = lit "55";
  msg = record { sender = lit "5511"; id = lit "m1"; kind = lit "text" };
}

the_items : valid_items payload ≡ some (the_item ∷ [])
unfolding valid_items
the_items = refl

abbrev after_first : sessions.State
after_first = (process_messages sessions (λ s. s) same_id (input (lit "r1")) ([], [])).0

second_is_within : second < bson_date (1000 + dedupe_ttl)
unfolding bson_date
second_is_within = omega arith

is_its_record :
    sessions.dedupes after_first ≡ dedupe_document (dedupe_of (input (lit "r1")) the_item) ∷ []
unfolding process_messages
is_its_record = refl

record_is_kept : Pruned second (sessions.dedupes after_first) (sessions.dedupes after_first)
record_is_kept =
    subst (λ ds. Pruned second ds ds) (sym is_its_record)
      (kept (dedupe_document (dedupe_of (input (lit "r1")) the_item)) [] [] unchanged)

process_messages-redelivered_example :
    (sessions.dedupes (process_messages sessions (λ s. s) same_id (input (lit "r2")) after_first).0
      ≡ sessions.dedupes after_first)
    × (sessions.receipts
          (process_messages sessions (λ s. s) same_id (input (lit "r2")) after_first).0
        ≡ sessions.receipts after_first)
process_messages-redelivered_example =
    process_messages-redelivered sessions sessions-SessionsLaws (λ s. s) same_id same_id
      (input (lit "r1")) (input (lit "r2")) ([], []) after_first second (the_item ∷ []) refl
      the_items second_is_within (tt, tt) first_processed record_is_kept

abbrev meta : Library
meta = record {
  parse_media_type = λ s. some (s, []);
  to_lower = λ s. s;
  hmac_sha256 = λ secret raw. 170 ∷ [];
  decode_payload = λ s. some payload;
  parse_time = λ s. none;
  sha256_hex = λ s. s;
}

abbrev delivered : sessions.State × (ℕ × Text)
delivered =
    deliver meta sessions [] same_id (lit "r1") 1000 (lit "secret") (arrives (body []) true)
      (some []) (lit "application/json") (lit "sha256=aa") (body (lit "{}")) ([], [])

acknowledged : delivered.1.0 ≡ 200
unfolding deliver process_messages Text-discrete
acknowledged = refl

deliver-ok_example :
    Signed meta sessions sessions-SessionsLaws [] same_id
      (lit "r1")
      1000
      (lit "secret")
      (arrives (body []) true)
      (some [])
      (lit "application/json")
      (lit "sha256=aa")
      (body (lit "{}"))
      delivered.0
deliver-ok_example =
    deliver-ok meta sessions sessions-SessionsLaws [] same_id (lit "r1") 1000 (lit "secret")
      (arrives (body []) true) (some []) (lit "application/json") (lit "sha256=aa")
      (body (lit "{}")) ([], []) acknowledged

abbrev lead_request : SubmitRequest
lead_request = record {
  name = lit " Ana ";
  email = lit "ana@example.com";
  phone = lit "+55 11 98765-4321";
  source = lit "site";
  submitted_at = [];
  lead = none;
  parsed_submitted_at = none;
  business_name = [];
  profile = [];
  message = [];
  consent = true;
}

abbrev normalized_request : SubmitRequest
normalized_request = record lead_request { name = lit "Ana"; phone = lit "5511987654321" }

lead_valid : validate (λ s. none) lead_request ≡ valid normalized_request
unfolding validate unless trim_space Text-discrete
lead_valid = refl

validate-Normal_example : Normal normalized_request
validate-Normal_example = validate-Normal (λ s. none) lead_request normalized_request lead_valid

abbrev leads : Collection Lead
leads = memory leads_indexes

abbrev leads_config : LeadsConfig
leads_config = record { tenant_id = lit "ten"; notification_webhook_url = [] }

serve_lead-Answered_example :
    Answered leads
      (memory-CollectionLaws leads_indexes)
      leads_config
      (lit "token")
      (λ s. none)
      (lit "u1")
      1000
      (lit "token")
      (some lead_request)
      []
      (serve_lead leads leads_config
        (lit "token")
        (λ s. none)
        (lit "u1")
        1000
        (lit "token")
        true
        (some lead_request)
        []).0
      (serve_lead leads leads_config
        (lit "token")
        (λ s. none)
        (lit "u1")
        1000
        (lit "token")
        true
        (some lead_request)
        []).1
serve_lead-Answered_example =
    serve_lead-Answered leads (memory-CollectionLaws leads_indexes) leads_config (lit "token")
      (λ s. none) (lit "u1") 1000 (lit "token") true (some lead_request) []
