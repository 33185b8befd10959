-- ===== src/Text/Laws.antt =====
-- Trimming and filtering.
use edn_core.Prelude.{ℕ, ◌≡◌, refl, ap, ◌∙◌, Bool, true, false, not, [], ◌∷◌, arith, all}
use edn_core.Text.{Text, ◌=?◌, is_space, trim_left, trim_right, trim_space, keep}

-- The text begins with no space.
abbrev starts_clean : Text → Bool
starts_clean [] = true
starts_clean (c ∷ _) = not (is_space c)

starts_clean-trim_left : (s : Text) → starts_clean (trim_left s) ≡ true
unfolding trim_left
starts_clean-trim_left [] = refl
starts_clean-trim_left (c ∷ s) = ground (arith, starts_clean-trim_left s)

trim_left_of_clean : (s : Text) → starts_clean s ≡ true → trim_left s ≡ s
unfolding trim_left
trim_left_of_clean [] h = refl
trim_left_of_clean (c ∷ s) h = ground arith

starts_clean-trim_right : (s : Text) → starts_clean s ≡ true → starts_clean (trim_right s) ≡ true
unfolding trim_right
starts_clean-trim_right [] h = refl
starts_clean-trim_right (c ∷ s) h = ground arith

trim_right_idem : (s : Text) → trim_right (trim_right s) ≡ trim_right s
unfolding trim_right
trim_right_idem [] = refl
trim_right_idem (c ∷ s) = ground (arith, trim_right_idem s)

-- Trimming twice is trimming once.
pub trim_space_idem : (s : Text) → trim_space (trim_space s) ≡ trim_space s
unfolding trim_space
trim_space_idem s =
    ap trim_right (
      trim_left_of_clean (trim_right (trim_left s))
        (starts_clean-trim_right (trim_left s) (starts_clean-trim_left s)))
    ∙ trim_right_idem (trim_left s)

pub keep-all : (p : ℕ → Bool) (s : Text) → all p (keep p s) ≡ true
unfolding keep
keep-all p [] = refl
keep-all p (c ∷ s) = ground (arith, keep-all p s)

pub keep_of_all : (p : ℕ → Bool) (s : Text) → all p s ≡ true → keep p s ≡ s
unfolding keep
keep_of_all p [] h = refl
keep_of_all p (c ∷ s) h = ground (arith, keep_of_all p s)

-- A filter that drops white space does not see the trimming.
module _ (p : ℕ → Bool) (spaces : (c : ℕ) → is_space c ≡ true → p c ≡ false) where
  keep-trim_left : (s : Text) → keep p (trim_left s) ≡ keep p s
  unfolding keep trim_left
  keep-trim_left [] = refl
  keep-trim_left (c ∷ s) = ground (arith, spaces c, keep-trim_left s)

  keep_of_spaces : (s : Text) → trim_right s ≡ [] → keep p s ≡ []
  unfolding keep trim_right
  keep_of_spaces [] h = refl
  keep_of_spaces (c ∷ s) h = ground (arith, spaces c, keep_of_spaces s)

  keep-trim_right : (s : Text) → keep p (trim_right s) ≡ keep p s
  unfolding keep trim_right
  keep-trim_right [] = refl
  keep-trim_right (c ∷ s) = ground (arith, spaces c, keep_of_spaces s, keep-trim_right s)

  pub keep-trim_space : (s : Text) → keep p (trim_space s) ≡ keep p s
  unfolding trim_space
  keep-trim_space s = keep-trim_right (trim_left s) ∙ keep-trim_left s

-- A text without white space is trimmed already.
module _ (p : ℕ → Bool) (spaces : (c : ℕ) → is_space c ≡ true → p c ≡ false) where
  trim_right_of_all : (s : Text) → all p s ≡ true → trim_right s ≡ s
  unfolding trim_right
  trim_right_of_all [] h = refl
  trim_right_of_all (c ∷ s) h = ground (arith, spaces c, trim_right_of_all s)

  pub trim_space_of_all : (s : Text) → all p s ≡ true → trim_space s ≡ s
  unfolding trim_space trim_left
  trim_space_of_all [] h = trim_right_of_all [] h
  trim_space_of_all (c ∷ s) h = ground (arith, spaces c, trim_right_of_all (c ∷ s))

pub all_of_all :
    (p q : ℕ → Bool) (s : Text)
    → ((c : ℕ) → p c ≡ true → q c ≡ true)
    → all p s ≡ true
    → all q s ≡ true
all_of_all p q [] h a = refl
all_of_all p q (c ∷ s) h a = ground (arith, h c, all_of_all p q s h)

-- `==` on strings decides equality.
pub test-same : (key : Text) → (key =? key) ≡ true
test-same key = grind arith

pub test-other : (key k : Text) → (k ≡ key → ⊥) → (k =? key) ≡ false
test-other key k ne = grind arith

pub eq_of_test : (a b : Text) → (a =? b) ≡ true → a ≡ b
eq_of_test a b h = ground arith

pub test_of_eq : (a b : Text) → a ≡ b → (a =? b) ≡ true
test_of_eq a b e = grind arith
