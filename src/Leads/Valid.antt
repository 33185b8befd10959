-- ===== src/Leads/Valid.antt =====
-- What a request is that validation accepts.
use edn_core.Prelude.{
  ℕ, ◌≤◌, ◌≡◌, refl, sym, subst, ◌⊎◌, inl, inr, Bool, true, false, not, Option, none, some, [], ◌∷◌,
  length, all, arith, if◌then◌else◌,
}
use edn_core.Text.{Text, lit, trim_space, is_ascii_digit}
use edn_core.Text.Laws.{trim_space_idem, keep-all}
use edn_core.Checkout.{Time}
use edn_core.Leads.{
  NestedLeadPayload, SubmitRequest, Validation, valid, invalid, is_valid_profile,
  normalize_whatsapp, unless, shorter, longer, given, when_given, flat_request, nested_request,
  validate_flat, normalized_lead, validate_lead, validate_optional_lead, validate_nested, is_nested,
  is_ambiguous, validate,
}
use edn_core.Leads.Email.{IsEmail, is_valid_email-IsEmail}

-- A normalized phone number.
abbrev IsPhone : Text → Type 0
IsPhone phone = (phone ≡ []) ⊎ ((8 ≤ length phone) × (all is_ascii_digit phone ≡ true))

-- What a nested request has besides.
abbrev Consented : Option NestedLeadPayload → SubmitRequest → Type 0
Consented none r = Unit
Consented (some lead) r =
    (r.consent ≡ true)
    × ((r.profile ≡ []) ⊎ (is_valid_profile r.profile ≡ true))
    × (length r.message ≤ 500)
    × ((r.business_name ≡ []) ⊎ (2 ≤ length r.business_name))

pub record Normal (r : SubmitRequest) : Type 0 where
  pub named : 2 ≤ length r.name
  pub trimmed : trim_space r.name ≡ r.name
  pub mailed : IsEmail r.email
  pub sourced : length r.source ≤ 80
  pub phoned : IsPhone r.phone
  pub consented : Consented r.lead r

-- What a validation accepts has `P`.
data Accepts (P : SubmitRequest → Type 0) : Validation → Type 0 where
  accepts : (r : SubmitRequest) → P r → Accepts P (valid r)
  refuses : (details : Text) → Accepts P (invalid details)

unless-Accepts :
    (P : SubmitRequest → Type 0) (b : Bool) (details : Text) (rest : Validation)
    → (b ≡ false → Accepts P rest)
    → Accepts P (unless b details rest)
unfolding unless
unless-Accepts P true details rest h = refuses details
unless-Accepts P false details rest h = h refl

-- The request that is accepted.
abbrev request_of : SubmitRequest → Validation → SubmitRequest
request_of r (valid q) = q
request_of r (invalid _) = r

accepted :
    (P : SubmitRequest → Type 0) (r : SubmitRequest) (v : Validation)
    → Accepts P v
    → v ≡ valid r
    → P r
accepted P r v (accepts q p) e = subst (λ t. P (request_of r t)) e p
accepted P r v (refuses details) e = cc

not_shorter : (s : Text) (n : ℕ) → shorter s n ≡ false → n ≤ length s
not_shorter s n h = ground arith

not_longer : (s : Text) (n : ℕ) → longer s n ≡ false → length s ≤ n
not_longer s n h = ground arith

not-false : (b : Bool) → not b ≡ false → b ≡ true
not-false true h = refl
not-false false h = cc

given-IsPhone :
    (phone stripped : Text)
    → all is_ascii_digit stripped ≡ true
    → given phone (shorter stripped 8) ≡ false
    → IsPhone (when_given phone stripped)
given-IsPhone [] stripped a h = inl refl
given-IsPhone (c ∷ phone) stripped a h = inr (not_shorter stripped 8 h, a)

flat-Normal : (r : SubmitRequest) → r.lead ≡ none → Accepts Normal (validate_flat r)
unfolding validate_flat normalize_whatsapp
flat-Normal r flat = unless-Accepts Normal _ _ _ λ name_ok.
    unless-Accepts Normal _ _ _ λ email_there. unless-Accepts Normal _ _ _ λ email_ok.
      unless-Accepts Normal _ _ _ λ source_ok. unless-Accepts Normal _ _ _ λ phone_ok.
        let n : Normal (flat_request r) = record {
          named = not_shorter _ _ name_ok;
          trimmed = trim_space_idem r.name;
          mailed = is_valid_email-IsEmail _ (not-false _ email_ok);
          sourced = not_longer _ _ source_ok;
          phoned =
              given-IsPhone (trim_space r.phone) (normalize_whatsapp (trim_space r.phone))
                (keep-all is_ascii_digit (trim_space r.phone)) phone_ok;
          consented = subst (λ l. Consented l (flat_request r)) (sym flat) tt;
        } in
        accepts _ n

when_given-IsPhone :
    (whatsapp stripped : Text)
    → all is_ascii_digit stripped ≡ true
    → given whatsapp (shorter (when_given whatsapp stripped) 8) ≡ false
    → IsPhone (when_given whatsapp stripped)
when_given-IsPhone [] stripped a h = inl refl
when_given-IsPhone (c ∷ whatsapp) stripped a h = inr (not_shorter stripped 8 h, a)

profile_of :
    (profile : Text)
    → given profile (not (is_valid_profile profile)) ≡ false
    → (profile ≡ []) ⊎ (is_valid_profile profile ≡ true)
profile_of [] h = inl refl
profile_of (c ∷ profile) h = inr (not-false _ h)

message_of :
    (message trimmed : Text)
    → given message (longer (when_given message trimmed) 500) ≡ false
    → length (when_given message trimmed) ≤ 500
message_of [] trimmed h = omega arith
message_of (c ∷ message) trimmed h = not_longer trimmed 500 h

business_of :
    (business trimmed : Text)
    → given business (shorter (when_given business trimmed) 2) ≡ false
    → (when_given business trimmed ≡ []) ⊎ (2 ≤ length (when_given business trimmed))
business_of [] trimmed h = inl refl
business_of (c ∷ business) trimmed h = inr (not_shorter trimmed 2 h)

lead-Normal :
    (r : SubmitRequest) (source : Text) (at : Time) (lead : NestedLeadPayload)
    → length source ≤ 80
    → Accepts Normal (validate_lead r source at lead)
unfolding validate_lead normalize_whatsapp
lead-Normal r source at lead sourced = unless-Accepts Normal _ _ _ λ name_ok.
    unless-Accepts Normal _ _ _ λ email_there. unless-Accepts Normal _ _ _ λ email_ok.
      unless-Accepts Normal _ _ _ λ phone_ok. unless-Accepts Normal _ _ _ λ business_ok.
        unless-Accepts Normal _ _ _ λ profile_ok. unless-Accepts Normal _ _ _ λ message_ok.
          unless-Accepts Normal _ _ _ λ consent_ok.
            let n : Normal (nested_request r source at (normalized_lead lead)) = record {
              named = not_shorter _ _ name_ok;
              trimmed = trim_space_idem lead.name;
              mailed = is_valid_email-IsEmail _ (not-false _ email_ok);
              sourced = sourced;
              phoned =
                  when_given-IsPhone lead.whatsapp (normalize_whatsapp (trim_space lead.whatsapp))
                    (keep-all is_ascii_digit (trim_space lead.whatsapp)) phone_ok;
              consented = (
                not-false _ consent_ok,
                profile_of lead.profile profile_ok,
                message_of lead.message (trim_space lead.message) message_ok,
                business_of lead.business_name (trim_space lead.business_name) business_ok,
              );
            } in
            accepts _ n

module _ (parse_time : Text → Option Time) where
  optional-Normal :
      (r : SubmitRequest) (source : Text) (at : Option Time) (lead : Option NestedLeadPayload)
      → length source ≤ 80
      → Accepts Normal (validate_optional_lead r source at lead)
  optional-Normal r source none lead h = refuses _
  optional-Normal r source (some at) none h = refuses _
  optional-Normal r source (some at) (some lead) h = lead-Normal r source at lead h

  nested-Normal : (r : SubmitRequest) → Accepts Normal (validate_nested parse_time r)
  unfolding validate_nested
  nested-Normal r = unless-Accepts Normal _ _ _ λ source_there.
      unless-Accepts Normal _ _ _ λ source_ok. unless-Accepts Normal _ _ _ λ submitted_there.
        optional-Normal r (trim_space r.source) (parse_time r.submitted_at) r.lead
          (not_longer _ _ source_ok)

  flat_of : (r : SubmitRequest) → is_nested parse_time r ≡ false → r.lead ≡ none
  flat_of r h = ground arith

  validate-Accepts : (r : SubmitRequest) → Accepts Normal (validate parse_time r)
  unfolding validate
  validate-Accepts r = go (is_nested parse_time r) refl
    where
      go :
          (nested : Bool)
          → is_nested parse_time r ≡ nested
          → Accepts Normal (
              if nested
              then unless
                  (is_ambiguous parse_time r)
                  (lit
                    "ambiguous payload: top-level name/email/phone cannot be combined with nested lead")
                  (validate_nested parse_time r)
              else validate_flat r)
      go true e = unless-Accepts Normal _ _ _ (λ _. nested-Normal r)
      go false e = flat-Normal r (flat_of r e)

  -- A request that validation accepts, flat or nested, is normalized: the name is trimmed and has two
  -- characters, the email is a user and a domain with a dot around its last '@', the source has at
  -- most 80 characters, the phone is absent or eight digits or more and nothing else; and a nested lead
  -- has consented, with a known profile or none, a message of at most 500 characters, and a business
  -- name of two characters or none.
  pub validate-Normal :
      (r normalized : SubmitRequest) → validate parse_time r ≡ valid normalized → Normal normalized
  validate-Normal r normalized e =
      accepted Normal normalized (validate parse_time r) (validate-Accepts r) e
