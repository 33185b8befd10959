-- ===== src/Whatsapp/Edge/Accepting.antt =====
-- What the intake has stored when it answers 200 or 202.
use edn_core.Prelude.{
  ℕ, ◌==◌, ◌≡◌, ◌≢◌, refl, ◌⊎◌, inl, inr, Bool, Bool-cases, true, false, not, Option, none, some,
  List, [], ◌∷◌, length, arith, if◌then◌else◌,
}
use edn_core.Text.{Text}
use edn_core.Checkout.{Time}
use edn_core.Whatsapp.{MetaMessage, MetaChange, MetaWebhookPayload}
use edn_core.Whatsapp.Store.{Sessions, SessionsLaws}
use edn_core.Whatsapp.Intake.{
  valid_change_messages, valid_changes, valid_items, IntakeResult, processed, invalid_payload,
  persist_failed, process_messages,
}
use edn_core.Whatsapp.Intake.Storing.{Processed, process_messages-Processed}
use edn_core.Whatsapp.Intake.Redelivery.{stored_items}
use edn_core.Whatsapp.Handler.{
  Library, Headers, BodyRead, body, too_large, read_failed, ignored, unauthorized, count_messages,
  msg_count, respond, intake_input, intake_payload, intake_body, token_accepted, serve_intake,
}
use edn_core.Whatsapp.Edge.{map_core_to_public_status, after_forward}
use edn_core.Whatsapp.Edge.Delivery.{
  forward_to_intake, Transit, received, over, Accepted, lost, arrives,
}

pub no_change :
    (phone : Text) (msgs : List MetaMessage)
    → length msgs ≡ 0
    → valid_change_messages phone msgs ≡ some []
no_change phone [] h = refl
no_change phone (msg ∷ msgs) h = absurd (omega arith)

pub no_changes :
    (changes : List MetaChange) → count_messages changes ≡ 0 → valid_changes changes ≡ some []
unfolding count_messages valid_changes
no_changes [] h = refl
no_changes (change ∷ changes) h =
    rw
      (
        no_change change.phone_number_id change.messages (omega arith),
        no_changes changes (omega arith),
      )
      refl

pub no_messages :
    (payload : MetaWebhookPayload) → msg_count payload ≡ 0 → valid_items payload ≡ some []
unfolding msg_count valid_items
no_messages [] h = refl
no_messages (entry ∷ entries) h =
    rw (no_changes entry.changes (omega arith), no_messages entries (omega arith)) refl

-- The intake answers 200 or 202.
abbrev pub Durable : ℕ → Type 0
Durable status = (status ≡ 200) ⊎ (status ≡ 202)

map_core_to_public_status-Durable :
    (status : ℕ) → (map_core_to_public_status status).0 ≡ 200 → Durable status
unfolding map_core_to_public_status
map_core_to_public_status-Durable status h = elim (Bool-cases (status == 200)) [
  | inl e ↦ inl (ground arith)
  | inr n ↦ inr (ground arith)
]

pub not_durable : {A : Type 0} (status : ℕ) → status ≢ 200 → status ≢ 202 → Durable status → A
not_durable status a b (inl e) = absurd (a e)
not_durable status a b (inr e) = absurd (b e)

module _ (lib : Library) (m : Sessions) (laws : SessionsLaws m) (internal_token : Text)
    (uuid : ℕ → Text) (generated : Text) (now : Time) where
  Processed-Accepted :
      (headers : Headers) (raw : Text) (payload : MetaWebhookPayload) (s : m.State)
      → lib.decode_payload raw ≡ some payload
      → (run : m.State × IntakeResult)
      → Processed m laws lib.sha256_hex uuid
          (intake_input lib m internal_token uuid generated now headers raw payload)
          s
          run
      → Durable (respond lib m internal_token uuid generated now run).1.0
      → Accepted lib m raw (respond lib m internal_token uuid generated now run).0
  Processed-Accepted headers raw payload s decoded (t, processed) p h =
      let (items, e, present) =
        stored_items m laws lib.sha256_hex uuid
          (intake_input lib m internal_token uuid generated now headers raw payload) s
          (t, processed) p refl in
      (payload, items, decoded, e, present)
  Processed-Accepted headers raw payload s decoded (t, invalid_payload) p h =
      not_durable 400 (λ e. omega arith) (λ e. omega arith) h
  Processed-Accepted headers raw payload s decoded (t, persist_failed) p h =
      not_durable 503 (λ e. omega arith) (λ e. omega arith) h

  counted-Accepted :
      (headers : Headers) (raw : Text) (payload : MetaWebhookPayload) (s : m.State)
      → lib.decode_payload raw ≡ some payload
      → (none_sent : Bool) → msg_count payload == 0 ≡ none_sent
      → Durable
          (if none_sent
            then (s, ignored)
            else respond lib m internal_token uuid generated now (
                process_messages m lib.sha256_hex uuid
                  (intake_input lib m internal_token uuid generated now headers raw payload)
                  s)).1.0
      → Accepted lib m raw
          (if none_sent
            then (s, ignored)
            else respond lib m internal_token uuid generated now (
                process_messages m lib.sha256_hex uuid
                  (intake_input lib m internal_token uuid generated now headers raw payload)
                  s)).0
  counted-Accepted headers raw payload s e true zero_messages h =
      (payload, [], e, no_messages payload (ground arith), tt)
  counted-Accepted headers raw payload s e false some_messages h =
      Processed-Accepted headers raw payload s e
        (process_messages m lib.sha256_hex uuid
          (intake_input lib m internal_token uuid generated now headers raw payload) s)
        (process_messages-Processed m laws lib.sha256_hex uuid
          (intake_input lib m internal_token uuid generated now headers raw payload) s)
        h

  payload-Accepted :
      (headers : Headers) (raw : Text) (s : m.State) (decoded : Option MetaWebhookPayload)
      → lib.decode_payload raw ≡ decoded
      → Durable (intake_payload lib m internal_token uuid generated now headers raw decoded s).1.0
      → Accepted lib m raw
          (intake_payload lib m internal_token uuid generated now headers raw decoded s).0
  payload-Accepted headers raw s none e h = not_durable 400 (λ e. omega arith) (λ e. omega arith) h
  payload-Accepted headers raw s (some payload) e h =
      counted-Accepted headers raw payload s e (msg_count payload == 0) refl h

  body-Accepted :
      (headers : Headers) (raw : Text) (read : BodyRead) (s : m.State)
      → Durable
          (intake_body lib m internal_token uuid generated now headers (received raw read) s).1.0
      → Accepted lib m raw
          (intake_body lib m internal_token uuid generated now headers (received raw read) s).0
  body-Accepted headers raw (body _) s h =
      payload-Accepted headers raw s (lib.decode_payload raw) refl h
  body-Accepted headers raw too_large s h = not_durable 413 (λ e. omega arith) (λ e. omega arith) h
  body-Accepted headers raw read_failed s h =
      not_durable 400 (λ e. omega arith) (λ e. omega arith) h

  token-Accepted :
      (headers : Headers) (raw : Text) (read : BodyRead) (s : m.State) (accepted : Bool)
      → Durable
          (if not accepted
            then (s, unauthorized)
            else intake_body lib m internal_token uuid generated now headers
                (received raw read)
                s).1.0
      → Accepted lib m raw
          (if not accepted
            then (s, unauthorized)
            else intake_body lib m internal_token uuid generated now headers
                (received raw read)
                s).0
  token-Accepted headers raw read s true h = body-Accepted headers raw read s h
  token-Accepted headers raw read s false h =
      not_durable 401 (λ e. omega arith) (λ e. omega arith) h

  over-Accepted :
      (transit : Transit) (headers : Headers) (raw : Text) (s : m.State)
      → (after_forward (over lib m internal_token uuid generated now transit headers raw s).1).0
        ≡ 200
      → Accepted lib m raw (over lib m internal_token uuid generated now transit headers raw s).0
  unfolding serve_intake
  over-Accepted lost headers raw s h = absurd (omega arith)
  over-Accepted (arrives read false) headers raw s h = absurd (omega arith)
  over-Accepted (arrives read true) headers raw s h =
      token-Accepted headers raw read s
        (token_accepted lib m internal_token uuid generated now headers)
        (map_core_to_public_status-Durable _ h)

  pub forward-Accepted :
      (transit : Transit) (headers : Option Headers) (raw : Text) (s : m.State)
      → (after_forward
          (forward_to_intake lib m internal_token uuid generated now transit headers raw s).1).0
        ≡ 200
      → Accepted lib m raw
          (forward_to_intake lib m internal_token uuid generated now transit headers raw s).0
  forward-Accepted transit none raw s h = absurd (omega arith)
  forward-Accepted transit (some headers) raw s h = over-Accepted transit headers raw s h
