-- ===== src/Leads.antt =====
-- internal/leads: the capture of leads. types.go is here, its time.Parse of RFC 3339 an argument.
pub mod Email
pub mod Valid
pub mod Service
pub mod Handler
pub mod Capture
use edn_core.Prelude.{
  ℕ, ◌+◌, ltb, leb, ◌==◌, Bool, true, false, not, ◌&&◌, ◌||◌, is_some, Option, none, some, List, [],
  ◌∷◌, length, any, if◌then◌else◌,
}
use edn_core.Text.{Text, lit, ◌=?◌, is_empty, trim_space, keep, is_ascii_digit}
use edn_core.Checkout.{Time}

pub record NestedLeadPayload : Type 0 where
  pub name : Text
  pub business_name : Text
  pub whatsapp : Text
  pub email : Text
  pub profile : Text
  pub message : Text
  pub consent : Bool

pub record SubmitRequest : Type 0 where
  pub name : Text
  pub email : Text
  pub phone : Text
  pub source : Text
  pub submitted_at : Text
  pub lead : Option NestedLeadPayload
  -- set by validation
  pub parsed_submitted_at : Option Time
  pub business_name : Text
  pub profile : Text
  pub message : Text
  pub consent : Bool

-- A ValidationError with its details, or the normalized request.
pub data Validation : Type 0 where
  valid : SubmitRequest → Validation
  invalid : Text → Validation

abbrev pub is_valid_profile : Text → Bool
is_valid_profile p = p =? lit "administrative" || (p =? lit "medical" || p =? lit "dental")

-- normalizeWhatsapp
unfoldable pub normalize_whatsapp : Text → Text
unfolding keep is_ascii_digit
normalize_whatsapp s = keep is_ascii_digit s

-- The bytes of a code point in UTF-8.
unfoldable utf8_length : ℕ → ℕ
utf8_length c = if ltb c 128 then 1 else if ltb c 2048 then 2 else if ltb c 65536 then 3 else 4

-- `len` of a string
unfoldable pub byte_length : Text → ℕ
unfolding utf8_length
byte_length [] = 0
byte_length (c ∷ s) = utf8_length c + byte_length s

-- What stands before and behind the last '@'.
abbrev pub split_here : ℕ → Text → Option (Text × Text) → Option (Text × Text)
split_here c s (some (user, domain)) = some (c ∷ user, domain)
split_here c s none = if c == 64 then some ([], s) else none

unfoldable pub split_at_last : Text → Option (Text × Text)
split_at_last [] = none
split_at_last (c ∷ s) = split_here c s (split_at_last s)

abbrev pub has_parts : Option (Text × Text) → Bool
has_parts none = false
has_parts (some (user, domain)) =
    not (is_empty user) && (any (λ c. c == 46) domain && leb 3 (byte_length domain))

-- isValidEmail
unfoldable pub is_valid_email : Text → Bool
unfolding split_at_last byte_length
is_valid_email email = has_parts (split_at_last email)

-- One check after the other: the first that fails gives the details.
unfoldable pub unless : Bool → Text → Validation → Validation
unless true details rest = invalid details
unless false details rest = rest

abbrev pub shorter : Text → ℕ → Bool
shorter s n = ltb (length s) n

abbrev pub longer : Text → ℕ → Bool
longer s n = ltb n (length s)

-- A check and a normalization that are made for a value that is not empty.
abbrev pub given : Text → Bool → Bool
given value test = not (is_empty value) && test

abbrev pub when_given : Text → Text → Text
when_given value normalized = if is_empty value then value else normalized

-- The request with the fields that are assigned.
abbrev pub flat_request : SubmitRequest → SubmitRequest
flat_request r = record r {
  name = trim_space r.name;
  email = trim_space r.email;
  phone = when_given (trim_space r.phone) (normalize_whatsapp (trim_space r.phone));
  source = trim_space r.source;
}

-- validateFlat
unfoldable pub validate_flat : SubmitRequest → Validation
unfolding normalize_whatsapp is_valid_email
validate_flat r =
    let n = flat_request r in
    let phone = trim_space r.phone in
    unless (shorter n.name 2) (lit "name must have at least 2 characters") (
      unless (is_empty n.email) (lit "email is required") (
        unless (not (is_valid_email n.email)) (lit "email is not a valid email address") (
          unless (longer n.source 80) (lit "source must not exceed 80 characters") (
            unless (given phone (shorter (normalize_whatsapp phone) 8))
              (lit "phone must have at least 8 digits") (valid n)))))

abbrev pub normalized_lead : NestedLeadPayload → NestedLeadPayload
normalized_lead lead = record lead {
  name = trim_space lead.name;
  email = trim_space lead.email;
  whatsapp = when_given lead.whatsapp (normalize_whatsapp (trim_space lead.whatsapp));
  business_name = when_given lead.business_name (trim_space lead.business_name);
  message = when_given lead.message (trim_space lead.message);
}

-- The request with the fields of the normalized lead.
abbrev pub nested_request : SubmitRequest → Text → Time → NestedLeadPayload → SubmitRequest
nested_request r source at n = record r {
  source = source;
  parsed_submitted_at = some at;
  lead = some n;
  name = n.name;
  email = n.email;
  phone = n.whatsapp;
  business_name = n.business_name;
  profile = n.profile;
  message = n.message;
  consent = n.consent;
}

-- validateNested, from the lead on
unfoldable pub validate_lead : SubmitRequest → Text → Time → NestedLeadPayload → Validation
unfolding normalize_whatsapp is_valid_email
validate_lead r source at lead =
    let n = normalized_lead lead in
    unless (shorter n.name 2) (lit "lead.name must have at least 2 characters") (
      unless (is_empty n.email) (lit "lead.email is required") (
        unless (not (is_valid_email n.email)) (lit "lead.email is not a valid email address") (
          unless (given lead.whatsapp (shorter n.whatsapp 8))
            (lit "lead.whatsapp must have at least 8 digits")
            (unless (given lead.business_name (shorter n.business_name 2))
              (lit "lead.businessName must have at least 2 characters")
              (unless (given lead.profile (not (is_valid_profile lead.profile)))
                (lit "lead.profile must be one of administrative, medical, dental")
                (unless (given lead.message (longer n.message 500))
                  (lit "lead.message must not exceed 500 characters")
                  (unless (not lead.consent) (lit "lead.consent must be true")
                    (valid (nested_request r source at n)))))))))

abbrev pub validate_optional_lead :
    SubmitRequest → Text → Option Time → Option NestedLeadPayload → Validation
validate_optional_lead r source none lead =
    invalid (lit "submittedAt must be a valid RFC3339 timestamp")
validate_optional_lead r source (some at) none = invalid (lit "lead is required")
validate_optional_lead r source (some at) (some lead) = validate_lead r source at lead

module _ (parse_time : Text → Option Time) where
  -- validateNested
  unfoldable pub validate_nested : SubmitRequest → Validation
  unfolding validate_lead
  validate_nested r =
      let source = trim_space r.source in
      unless (is_empty source) (lit "source is required") (
        unless (longer source 80) (lit "source must not exceed 80 characters") (
          unless (is_empty r.submitted_at) (lit "submittedAt is required")
            (validate_optional_lead r source (parse_time r.submitted_at) r.lead)))

  abbrev pub is_nested : SubmitRequest → Bool
  is_nested r = is_some r.lead || not (is_empty r.submitted_at)

  abbrev pub is_ambiguous : SubmitRequest → Bool
  is_ambiguous r = not (is_empty r.name) || (not (is_empty r.email) || not (is_empty r.phone))

  -- SubmitRequest.Validate
  unfoldable pub validate : SubmitRequest → Validation
  unfolding validate_nested validate_flat
  validate r =
      if is_nested r
      then unless (is_ambiguous r)
          (lit "ambiguous payload: top-level name/email/phone cannot be combined with nested lead")
          (validate_nested r)
      else validate_flat r
