-- ===== src/Runtime.antt =====
-- What the program takes from the language's library and does not implement: Unicode tables,
-- SHA-256, name-based UUIDs, calendar arithmetic and the JSON and BSON codecs. The laws are what
-- their documentation promises.
use edn_core.Prelude.{ℕ, ◌≡◌, Bool, false, true, Option, ◌<◌}
use edn_core.Text.{Text, is_ascii_digit, is_space}
use edn_core.Checkout.{Time}
use edn_core.Payments.{MinimalWebhookPayload, PaymentApprovedEvent}

pub record Runtime : Type 0 where
  -- unicode.IsDigit and unicode.ToLower
  pub is_digit : ℕ → Bool
  pub to_lower : ℕ → ℕ
  -- fmt.Sprintf("%x", sha256.Sum256(data)) and uuid.NewSHA1(uuid.Nil, data).String()
  pub sha256_hex : Text → Text
  pub uuid_sha1 : Text → Text
  -- time.Time's `AddDate` of years, months and days
  pub add_date : Time → ℕ → ℕ → ℕ → Time
  -- json.Unmarshal of a webhook body, json.Marshal and json.Unmarshal of an outbox payload, and
  -- bson.Marshal of the raw body
  pub decode_webhook : Text → Option MinimalWebhookPayload
  pub encode_event : PaymentApprovedEvent → Text
  pub decode_event : Text → Option PaymentApprovedEvent
  pub encode_raw : Text → Text

-- Below U+0080 the digits are '0' to '9', and no white space is a digit.
pub record UnicodeLaws (rt : Runtime) : Type 0 where
  pub ascii_digits : (c : ℕ) → c < 128 → rt.is_digit c ≡ is_ascii_digit c
  pub space_no_digit : (c : ℕ) → is_space c ≡ true → rt.is_digit c ≡ false
