-- ===== src/Payments/Helpers/Phone.antt =====
-- NormalizePhone.
use edn_core.Prelude.{ℕ, ◌≤◌, ◌≡◌, Bool, true, false, ◌||◌, [], ◌∷◌, arith, length, all, ◌==◌}
use edn_core.Text.{Text, is_space, trim_space, keep, is_ascii_digit}
use edn_core.Text.Laws.{keep_of_all, trim_space_of_all, keep-trim_space, all_of_all}
use edn_core.Errors.{ok}
use edn_core.Runtime.{Runtime, UnicodeLaws}
use edn_core.Payments.Helpers.{
  is_e164, has_prefix_char, trim_prefix_char, check_phone, normalize_phone,
}

-- An E.164 number: '+', and seven to fifteen digits of which the first is not 0.
pub record IsE164 (s : Text) : Type 0 where
  pub plus : has_prefix_char b'+' s ≡ true
  pub digits : all is_ascii_digit (trim_prefix_char b'+' s) ≡ true
  pub nonzero : has_prefix_char b'0' (trim_prefix_char b'+' s) ≡ false
  pub at_least : 7 ≤ length (trim_prefix_char b'+' s)
  pub at_most : length (trim_prefix_char b'+' s) ≤ 15

is_e164-IsE164 : (s : Text) → is_e164 s ≡ true → IsE164 s
unfolding is_e164 has_prefix_char trim_prefix_char is_ascii_digit
is_e164-IsE164 [] h = cc
is_e164-IsE164 (p ∷ []) h = cc
is_e164-IsE164 (p ∷ d ∷ s) h = ground arith

check_phone-is_e164 : (s c : Text) → check_phone s ≡ ok c → is_e164 c ≡ true
unfolding check_phone
check_phone-is_e164 s c h = ground arith

check_phone_of_e164 : (s : Text) → is_e164 s ≡ true → check_phone s ≡ ok s
unfolding check_phone is_e164 has_prefix_char
check_phone_of_e164 [] h = cc
check_phone_of_e164 (p ∷ []) h = cc
check_phone_of_e164 (p ∷ d ∷ s) h = ground arith

module _ (rt : Runtime) where
  -- Whatever NormalizePhone returns is an E.164 number: '+', and seven to fifteen digits of which the
  -- first is not 0.
  normalize_phone-IsE164 : (raw c : Text) → normalize_phone rt raw ≡ ok c → IsE164 c
  unfolding normalize_phone
  normalize_phone-IsE164 raw c h = is_e164-IsE164 c (check_phone-is_e164 _ c h)

  module _ (laws : UnicodeLaws rt) where
    abbrev kept : ℕ → Bool
    kept c = rt.is_digit c || c == b'+'

    no_space : (c : ℕ) → is_space c ≡ true → kept c ≡ false
    unfolding is_space
    no_space c h = ground (arith, laws.space_no_digit c)

    ascii_kept : (c : ℕ) → is_ascii_digit c ≡ true → kept c ≡ true
    unfolding is_ascii_digit
    ascii_kept c h = ground (arith, laws.ascii_digits c)

    kept_of_e164 : (s : Text) → is_e164 s ≡ true → all kept s ≡ true
    unfolding is_e164 is_ascii_digit
    kept_of_e164 [] h = cc
    kept_of_e164 (p ∷ []) h = cc
    kept_of_e164 (p ∷ d ∷ s) h =
        ground (arith, ascii_kept d, all_of_all is_ascii_digit kept s ascii_kept)

    -- If below U+0080 the digits are '0' to '9', and no white space is a digit: what NormalizePhone
    -- returns, it returns again when it is given that.
    normalize_phone_idem :
        (raw c : Text) → normalize_phone rt raw ≡ ok c → normalize_phone rt c ≡ ok c
    unfolding normalize_phone
    normalize_phone_idem raw c h =
        let valid = check_phone-is_e164 (keep kept (trim_space raw)) c h in
        let all_kept = kept_of_e164 c valid in
        rw (trim_space_of_all kept no_space c all_kept, keep_of_all kept c all_kept)
          (check_phone_of_e164 c valid)

    -- Formatting does not matter: the result depends on the digits and plus signs only.
    normalize_phone_of_digits :
        (a b : Text) → keep kept a ≡ keep kept b → normalize_phone rt a ≡ normalize_phone rt b
    unfolding normalize_phone
    normalize_phone_of_digits a b h =
        rw (keep-trim_space kept no_space a, keep-trim_space kept no_space b, h)
