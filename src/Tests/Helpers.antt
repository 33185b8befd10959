-- ===== src/Tests/Helpers.antt =====
-- NormalizeCPF and NormalizePhone at concrete inputs.
use edn_core.Prelude.{◌≡◌, ◌↔◌, refl}
use edn_core.Text.{lit, trim_space, trim_left, trim_right, is_space, keep, is_ascii_digit}
use edn_core.Errors.{ok}
use edn_core.Payments.Helpers.{
  check_phone, is_e164, byte_length, rune_length, has_prefix_char, trim_prefix_char, check_cpf,
  is_cpf_digits, check_digit, weighted_sum, char_at, count_char, normalize_cpf, normalize_phone,
}
use edn_core.Payments.Helpers.Cpf.{IsCpf, normalize_cpf-eq-ok_iff}
use edn_core.Tests.World.{library}

accepted_cpf : normalize_cpf library (lit "529.982.247-25") ≡ ok (lit "52998224725")
unfolding normalize_cpf check_cpf is_cpf_digits check_digit weighted_sum char_at count_char keep
    trim_space trim_left trim_right is_space is_ascii_digit
accepted_cpf = refl

normalize_cpf-eq-ok_iff_example :
    (normalize_cpf library (lit "529.982.247-25") ≡ ok (lit "52998224725")) ↔ (
      (lit "52998224725" ≡ keep is_ascii_digit (trim_space (lit "529.982.247-25")))
      × IsCpf (lit "52998224725"))
normalize_cpf-eq-ok_iff_example =
    normalize_cpf-eq-ok_iff library (lit "529.982.247-25") (lit "52998224725")

accepted_phone : normalize_phone library (lit "(11) 98765-4321") ≡ ok (lit "+5511987654321")
unfolding normalize_phone check_phone is_e164 byte_length rune_length has_prefix_char
    trim_prefix_char keep trim_space trim_left trim_right is_space is_ascii_digit
accepted_phone = refl
