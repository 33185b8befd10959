-- ===== src/Payments/Helpers/Cpf.antt =====
-- NormalizeCPF against the official rule.
use edn_core.Prelude.{
  ℕ, zero, suc, ◌+◌, ◌-◌, ◌*◌, ◌%◌, ◌≤◌, ◌<◌, ◌≡◌, refl, ap, ◌∙◌, subst, sym, ◌↔◌, true, false, [],
  ◌∷◌, ◌++◌, arith, length, all, ◌==◌, take, if◌then◌else◌,
}
use edn_core.Text.{Text, is_space, trim_space, keep, is_ascii_digit}
use edn_core.Text.Laws.{keep_of_all, trim_space_of_all, keep-trim_space, all_of_all}
use edn_core.Errors.{ok}
use edn_core.Runtime.{Runtime, UnicodeLaws}
use edn_core.Payments.Helpers.{
  count_char, char_at, weighted_sum, check_digit, is_cpf_digits, check_cpf, normalize_cpf,
}

-- The official rule: digit d of n gets the weight n + 2 - d, and ten times the sum modulo 11 is the
-- check digit, where 10 is written as 0.
abbrev cpf_sum : Text → ℕ
cpf_sum [] = 0
cpf_sum (c ∷ s) = (c - 48) * (length s + 2) + cpf_sum s

abbrev cpf_check : Text → ℕ
cpf_check s = if (10 * cpf_sum s) % 11 == 10 then 0 else (10 * cpf_sum s) % 11

pub record IsCpf (s : Text) : Type 0 where
  pub eleven : length s ≡ 11
  pub digits : all is_ascii_digit s ≡ true
  pub first : char_at s 9 ≡ 48 + cpf_check (take 9 s)
  pub second : char_at s 10 ≡ 48 + cpf_check (take 10 s)
  pub varied : all (λ c. c == char_at s 0) s ≡ false

length-take_of_le : (n : ℕ) (s : Text) → n ≤ length s → length (take n s) ≡ n
length-take_of_le zero s h = refl
length-take_of_le (suc n) [] h = absurd (omega arith)
length-take_of_le (suc n) (c ∷ s) h = omega (arith, length-take_of_le n s (omega arith))

weighted_sum-eq-cpf_sum :
    (n w : ℕ) (s : Text) → n ≤ length s → w ≡ n + 1 → weighted_sum n w s ≡ cpf_sum (take n s)
unfolding weighted_sum
weighted_sum-eq-cpf_sum zero w s h e = refl
weighted_sum-eq-cpf_sum (suc n) w [] h e = absurd (omega arith)
weighted_sum-eq-cpf_sum (suc n) w (c ∷ s) h e = grind (
  arith,
  length-take_of_le n s (omega arith),
  weighted_sum-eq-cpf_sum n (w - 1) s (omega arith) (omega arith),
)

check_digit-eq-cpf_check :
    (n : ℕ) (s : Text) → n ≤ length s → check_digit n (n + 1) s ≡ cpf_check (take n s)
unfolding check_digit
check_digit-eq-cpf_check n s h = ground (arith, weighted_sum-eq-cpf_sum n (n + 1) s)

count_char_le : (c : ℕ) (s : Text) → count_char c s ≤ length s
unfolding count_char
count_char_le c [] = omega arith
count_char_le c (d ∷ s) = ground (arith, count_char_le c s)

-- A count of all characters means that they are all the same.
count_char-eq-length : (c : ℕ) (s : Text) → (count_char c s == length s) ≡ all (λ d. d == c) s
unfolding count_char
count_char-eq-length c [] = refl
count_char-eq-length c (d ∷ s) = ground (arith, count_char-eq-length c s, count_char_le c s)

char_at-digit : (s : Text) (i : ℕ) → i < length s → all is_ascii_digit s ≡ true → 48 ≤ char_at s i
unfolding char_at is_ascii_digit
char_at-digit [] i h a = absurd (omega arith)
char_at-digit (c ∷ s) zero h a = ground arith
char_at-digit (c ∷ s) (suc i) h a = ground (arith, char_at-digit s i (omega arith))

-- The tests that a result has passed.
check_cpf_passed :
    (s c : Text)
    → check_cpf s ≡ ok c
    → (c ≡ s)
      × (is_cpf_digits s ≡ true)
      × ((count_char (char_at s 0) s == 11) ≡ false)
      × (check_digit 9 10 s ≡ char_at s 9 - 48)
      × (check_digit 10 11 s ≡ char_at s 10 - 48)
unfolding check_cpf
check_cpf_passed s c h = ground arith

eleven_digits :
    (s : Text) → is_cpf_digits s ≡ true → (length s ≡ 11) × (all is_ascii_digit s ≡ true)
unfolding is_cpf_digits
eleven_digits s h = ground arith

varied-eq :
    (s : Text) → length s ≡ 11 → (count_char (char_at s 0) s == 11) ≡ all (λ d. d == char_at s 0) s
varied-eq s h =
    subst (λ n. (count_char (char_at s 0) s == n) ≡ all (λ d. d == char_at s 0) s) h
      (count_char-eq-length (char_at s 0) s)

-- What `check_cpf` accepts is a CPF by the official rule, and it accepts every CPF.
check_cpf-IsCpf : (s c : Text) → check_cpf s ≡ ok c → (c ≡ s) × IsCpf s
check_cpf-IsCpf s c h =
    let (same, digits, varied, first, second) = check_cpf_passed s c h in
    let (eleven, decimal) = eleven_digits s digits in
    (
      same,
      record {
        eleven = eleven;
        digits = decimal;
        first = omega (
          arith,
          check_digit-eq-cpf_check 9 s (omega arith),
          char_at-digit s 9 (omega arith) decimal,
        );
        second = omega (
          arith,
          check_digit-eq-cpf_check 10 s (omega arith),
          char_at-digit s 10 (omega arith) decimal,
        );
        varied = sym (varied-eq s eleven) ∙ varied;
      },
    )

check_cpf_passes :
    (s : Text)
    → is_cpf_digits s ≡ true
    → (count_char (char_at s 0) s == 11) ≡ false
    → check_digit 9 10 s ≡ char_at s 9 - 48
    → check_digit 10 11 s ≡ char_at s 10 - 48
    → check_cpf s ≡ ok s
unfolding check_cpf
check_cpf_passes s d v f g = ground arith

IsCpf-check_cpf : (s : Text) → IsCpf s → check_cpf s ≡ ok s
unfolding is_cpf_digits
IsCpf-check_cpf s h =
    check_cpf_passes s (ground arith) (varied-eq s h.eleven ∙ h.varied)
      (omega (arith, check_digit-eq-cpf_check 9 s (omega arith)))
      (omega (arith, check_digit-eq-cpf_check 10 s (omega arith)))

module _ (rt : Runtime) where
  -- NormalizeCPF returns c exactly when c is the digits of its input and they are a CPF by the
  -- official rule: eleven digits, not all the same, with both check digits right.
  pub normalize_cpf-eq-ok_iff :
      (raw c : Text)
      → (normalize_cpf rt raw ≡ ok c) ↔ ((c ≡ keep rt.is_digit (trim_space raw)) × IsCpf c)
  unfolding normalize_cpf
  normalize_cpf-eq-ok_iff raw c = (
    λ h.
        let (e, v) = check_cpf-IsCpf (keep rt.is_digit (trim_space raw)) c h in
        (e, subst IsCpf (sym e) v),
    λ h. subst (λ s. check_cpf s ≡ ok c) h.0 (IsCpf-check_cpf c h.1),
  )

  module _ (laws : UnicodeLaws rt) where
    digit-no_space : (c : ℕ) → is_space c ≡ true → rt.is_digit c ≡ false
    digit-no_space = laws.space_no_digit

    ascii_digit : (c : ℕ) → is_ascii_digit c ≡ true → rt.is_digit c ≡ true
    unfolding is_ascii_digit
    ascii_digit c h = ground (arith, laws.ascii_digits c)

    -- If below U+0080 the digits are '0' to '9', and no white space is a digit: formatting does
    -- not matter, two inputs with the same digits in the same order, whatever
    -- punctuation and white space stand between them, have the same result.
    normalize_cpf_of_digits :
        (a b : Text)
        → keep rt.is_digit a ≡ keep rt.is_digit b
        → normalize_cpf rt a ≡ normalize_cpf rt b
    unfolding normalize_cpf
    normalize_cpf_of_digits a b h = rw (
      keep-trim_space rt.is_digit digit-no_space a,
      keep-trim_space rt.is_digit digit-no_space b,
      h,
    )

    -- If below U+0080 the digits are '0' to '9', and no white space is a digit: what NormalizeCPF
    -- returns, it returns again when it is given that.
    normalize_cpf_idem : (raw c : Text) → normalize_cpf rt raw ≡ ok c → normalize_cpf rt c ≡ ok c
    normalize_cpf_idem raw c h =
        let valid = (normalize_cpf-eq-ok_iff raw c).0 h in
        let all_digits = all_of_all is_ascii_digit rt.is_digit c ascii_digit valid.1.digits in
        (normalize_cpf-eq-ok_iff c c).1 (
          rw (trim_space_of_all rt.is_digit digit-no_space c all_digits)
              (sym (keep_of_all rt.is_digit c all_digits)),
          valid.1,
        )

take-suc : (n : ℕ) (s : Text) → n < length s → take (suc n) s ≡ take n s ++ char_at s n ∷ []
unfolding char_at
take-suc n [] h = absurd (omega arith)
take-suc zero (c ∷ s) h = refl
take-suc (suc n) (c ∷ s) h = rw (take-suc n s (omega arith))

take_all : (n : ℕ) (s : Text) → length s ≡ n → take n s ≡ s
take_all zero [] h = refl
take_all zero (c ∷ s) h = absurd (omega arith)
take_all (suc n) [] h = refl
take_all (suc n) (c ∷ s) h = ground (arith, take_all n s)

take-suc_eq :
    (n : ℕ) (a b : Text)
    → n < length a
    → n < length b
    → take n a ≡ take n b
    → char_at a n ≡ char_at b n
    → take (suc n) a ≡ take (suc n) b
take-suc_eq n a b ha hb h c = cc (take-suc n a ha, take-suc n b hb)

IsCpf-determined : (a b : Text) → IsCpf a → IsCpf b → take 9 a ≡ take 9 b → a ≡ b
IsCpf-determined a b va vb h =
    let first =
      take-suc_eq 9 a b (omega arith) (omega arith) h
        (va.first ∙ ap (λ s. 48 + cpf_check s) h ∙ sym vb.first) in
    let second =
      take-suc_eq 10 a b (omega arith) (omega arith) first
        (va.second ∙ ap (λ s. 48 + cpf_check s) first ∙ sym vb.second) in
    sym (take_all 11 a va.eleven) ∙ second ∙ take_all 11 b vb.eleven

-- Two accepted documents that agree in their first nine digits are the same CPF: the check digits
-- are determined.
normalize_cpf_determined :
    (rt : Runtime) (a b c d : Text)
    → normalize_cpf rt a ≡ ok c
    → normalize_cpf rt b ≡ ok d
    → take 9 c ≡ take 9 d
    → c ≡ d
normalize_cpf_determined rt a b c d ha hb h =
    IsCpf-determined c d ((normalize_cpf-eq-ok_iff rt a c).0 ha).1
      ((normalize_cpf-eq-ok_iff rt b d).0 hb).1 h
