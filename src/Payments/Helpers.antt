-- ===== src/Payments/Helpers.antt =====
-- internal/payments/helpers.go: normalising and validating what a client sends.
pub mod Cpf
pub mod Phone
pub mod IntentKey
use edn_core.Prelude.{
  ℕ, zero, suc, ◌+◌, ◌-◌, ◌*◌, ◌%◌, Bool, true, false, not, ◌&&◌, ◌||◌, List, [], ◌∷◌, ◌++◌, map,
  length, all, leb, ltb, ◌==◌, if◌then◌else◌,
}
use edn_core.Text.{Text, lit, ◌=?◌, is_empty, trim_space, keep, join, is_ascii_digit}
use edn_core.Errors.{Error, Result, ok, err, sentinel, wrapped, invalid_request}
use edn_core.Runtime.{Runtime}
use edn_core.Payments.{CreateCheckoutRequest}

abbrev pub invalid {ℓ} : {A : Type ℓ} → Result A
invalid = err (wrapped (sentinel invalid_request))

-- strings.Count(s, string(c)) for an ASCII `c`
unfoldable pub count_char : ℕ → Text → ℕ
count_char c [] = 0
count_char c (d ∷ s) = let rest = count_char c s in if c == d then suc rest else rest

-- `s[i]`, which the source reads only in range
unfoldable pub char_at : Text → ℕ → ℕ
char_at [] i = 0
char_at (c ∷ s) zero = c
char_at (c ∷ s) (suc i) = char_at s i

-- The loop `sum += int(s[i]-'0') * (w - i)` over the first `n` digits.
unfoldable pub weighted_sum : ℕ → ℕ → Text → ℕ
weighted_sum zero w s = 0
weighted_sum (suc n) w [] = 0
weighted_sum (suc n) w (c ∷ s) = (c - 48) * w + weighted_sum n (w - 1) s

unfoldable pub check_digit : ℕ → ℕ → Text → ℕ
check_digit n w s =
    let rem = (weighted_sum n w s * 10) % 11 in if rem == 10 || rem == 11 then 0 else rem

-- reCPFDigits
unfoldable pub is_cpf_digits : Text → Bool
is_cpf_digits s = length s == 11 && all is_ascii_digit s

-- What NormalizeCPF does with the digits that it kept.
unfoldable pub check_cpf : Text → Result Text
check_cpf s =
    if not (is_cpf_digits s)
    then invalid
    else if count_char (char_at s 0) s == 11
    then invalid
    else if not (check_digit 9 10 s == char_at s 9 - 48)
    then invalid
    else if not (check_digit 10 11 s == char_at s 10 - 48)
    then invalid
    else ok s

-- reE164: '+', a digit from 1 to 9, and 6 to 14 digits
unfoldable pub is_e164 : Text → Bool
is_e164 (p ∷ d ∷ s) =
    p == b'+'
    && leb 49 d
    && leb d 57
    && leb 6 (length s)
    && leb (length s) 14
    && all is_ascii_digit s
is_e164 _ = false

-- len(s): bytes of UTF-8
unfoldable pub rune_length : ℕ → ℕ
rune_length c = if ltb c 128 then 1 else if ltb c 2048 then 2 else if ltb c 65536 then 3 else 4

unfoldable pub byte_length : Text → ℕ
unfolding rune_length
byte_length [] = 0
byte_length (c ∷ s) = rune_length c + byte_length s

-- strings.HasPrefix and strings.TrimPrefix for a prefix of one character
unfoldable pub has_prefix_char : ℕ → Text → Bool
has_prefix_char p [] = false
has_prefix_char p (c ∷ s) = c == p

unfoldable pub trim_prefix_char : ℕ → Text → Text
trim_prefix_char p [] = []
trim_prefix_char p (c ∷ s) = if c == p then s else c ∷ s

unfoldable pub check_phone : Text → Result Text
check_phone s =
    if has_prefix_char b'+' s
    then (if is_e164 s then ok s else invalid)
    else let digits = trim_prefix_char b'0' s in
      let candidate = lit "+55" ++ digits in
      if (byte_length digits == 10 || byte_length digits == 11) && is_e164 candidate
      then ok candidate
      else invalid

-- rePlanSlug: 1 to 64 of a-z, 0-9, '-' and '_'
abbrev is_slug_char : ℕ → Bool
is_slug_char c = leb 97 c && leb c 122 || is_ascii_digit c || c == b'-' || c == b'_'

unfoldable pub is_plan_slug : Text → Bool
is_plan_slug s = leb 1 (length s) && leb (length s) 64 && all is_slug_char s

-- reOrderNSU: 1 to 64 of a-z, A-Z, 0-9, '-' and '_'
unfoldable pub is_order_nsu : Text → Bool
is_order_nsu s =
    leb 1 (length s) && leb (length s) 64 && all (λ c. is_slug_char c || leb 65 c && leb c 90) s

-- ValidateOrderNSU
unfoldable pub validate_order_nsu : Text → Result (Unit {0})
validate_order_nsu nsu = if is_order_nsu nsu then ok tt else invalid

abbrev is_letter : ℕ → Bool
is_letter c = leb 97 c && leb c 122 || leb 65 c && leb c 90

abbrev is_domain_char : ℕ → Bool
is_domain_char c = is_letter c || is_ascii_digit c || c == b'.' || c == b'-'

abbrev is_local_char : ℕ → Bool
is_local_char c = is_domain_char c || c == b'_' || c == b'%' || c == b'+'

-- The part of reEmail behind its first label: a dot and at least two letters stand at the end.
unfoldable ends_in_top_level : Text → Bool
ends_in_top_level [] = false
ends_in_top_level (c ∷ s) =
    let later = ends_in_top_level s in
    c == b'.' && leb 2 (length s) && all is_letter s || is_domain_char c && later

-- reEmail from the '@' on, and from the start; `some` says whether a character was read before.
unfoldable is_email_domain : Text → Bool
unfolding ends_in_top_level
is_email_domain [] = false
is_email_domain (c ∷ s) = is_domain_char c && ends_in_top_level s

unfoldable is_email_from : Bool → Text → Bool
unfolding is_email_domain
is_email_from begun [] = false
is_email_from begun (c ∷ s) =
    let later = is_email_from true s in
    if c == b'@' then begun && is_email_domain s else is_local_char c && later

unfoldable pub is_email : Text → Bool
unfolding is_email_from
is_email s = is_email_from false s

module _ (rt : Runtime) where
  -- NormalizeCPF and NormalizePhone
  unfoldable pub normalize_cpf : Text → Result Text
  normalize_cpf raw = check_cpf (keep rt.is_digit (trim_space raw))

  unfoldable pub normalize_phone : Text → Result Text
  normalize_phone raw = check_phone (keep (λ c. rt.is_digit c || c == b'+') (trim_space raw))

  abbrev pub to_lower_text : Text → Text
  to_lower_text = map rt.to_lower

  -- NormalizeSalesChannel
  unfoldable pub normalize_sales_channel : Text → Result Text
  normalize_sales_channel raw =
      let channel = to_lower_text (trim_space raw) in
      if is_empty channel
      then ok (lit "web")
      else if channel =? lit "web" || channel =? lit "mobile"
      then ok channel
      else invalid

  -- ValidateTenantScope
  unfoldable pub validate_tenant_scope : Text → Text → Result (Unit {0})
  validate_tenant_scope organization_slug tenant_slug =
      let org = trim_space (to_lower_text organization_slug) in
      let tenant = trim_space (to_lower_text tenant_slug) in
      if is_empty org || is_empty tenant
      then invalid
      else if not (is_plan_slug org)
      then invalid
      else if not (is_plan_slug tenant)
      then invalid
      else ok tt
