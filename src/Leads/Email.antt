-- ===== src/Leads/Email.antt =====
-- isValidEmail against a description of what it accepts.
use edn_core.Prelude.{
  ℕ, ◌≤◌, ◌≡◌, ◌≢◌, refl, ap, inl, inr, Bool-cases, true, false, not, both, Option, none, some, [],
  ◌∷◌, ◌++◌, any, leb→le, ◌==◌, arith,
}
use edn_core.Text.{Text, is_empty}
use edn_core.Leads.{byte_length, split_here, split_at_last, has_parts, is_valid_email}

-- A user and a domain around the last '@': the user is not empty, and the domain has a dot, three bytes
-- and no '@'.
pub record IsEmail (email : Text) : Type 0 where
  pub user : Text
  pub domain : Text
  pub parts : email ≡ user ++ 64 ∷ domain
  pub has_user : user ≢ []
  pub dotted : any (λ c. c == 46) domain ≡ true
  pub long_enough : 3 ≤ byte_length domain
  pub last_at : any (λ c. c == 64) domain ≡ false

pub number_of_test : (c : ℕ) → (c == 64) ≡ true → c ≡ 64
number_of_test c h = ground arith

pub not_empty : (s : Text) → not (is_empty s) ≡ true → s ≢ []
not_empty [] h = λ e. cc
not_empty (c ∷ s) h = λ e. cc

split_at_last-none : (s : Text) → split_at_last s ≡ none → any (λ c. c == 64) s ≡ false
unfolding split_at_last
split_at_last-none [] h = refl
split_at_last-none (c ∷ s) h = go (split_at_last s) refl (split_at_last-none s) h
  where
    go :
        (o : Option (Text × Text))
        → split_at_last s ≡ o
        → (split_at_last s ≡ none → any (λ c. c == 64) s ≡ false)
        → split_here c s o ≡ none
        → any (λ c. c == 64) (c ∷ s) ≡ false
    go none e rest h = ground (arith, rest e)
    go (some (u, d)) e rest h = cc

-- The parts, put together again, and no '@' in the second.
abbrev pub Splits : Text → Option (Text × Text) → Type 0
Splits s none = Unit
Splits s (some (user, domain)) = (s ≡ user ++ 64 ∷ domain) × (any (λ c. c == 64) domain ≡ false)

split_at_last-Splits : (s : Text) → Splits s (split_at_last s)
unfolding split_at_last
split_at_last-Splits [] = tt
split_at_last-Splits (c ∷ s) = go (split_at_last s) refl (split_at_last-Splits s)
  where
    go :
        (o : Option (Text × Text))
        → split_at_last s ≡ o
        → Splits s o
        → Splits (c ∷ s) (split_here c s o)
    go (some (u, d)) e (p, q) = (ap (λ t. c ∷ t) p, q)
    go none e h = elim (Bool-cases (c == 64)) [
      | inl at ↦ rw at (ap (λ x. x ∷ s) (number_of_test c at), split_at_last-none s e)
      | inr other ↦ rw other tt
    ]

pub is_valid_email-IsEmail : (email : Text) → is_valid_email email ≡ true → IsEmail email
unfolding is_valid_email
is_valid_email-IsEmail email h = go (split_at_last email) (split_at_last-Splits email) h
  where
    go : (o : Option (Text × Text)) → Splits email o → has_parts o ≡ true → IsEmail email
    go none s h = cc
    go (some (user, domain)) (p, q) h =
        let (u, d) = both _ _ h in
        let (dot, three) = both _ _ d in
        record {
          user = user;
          domain = domain;
          parts = p;
          has_user = not_empty user u;
          dotted = dot;
          long_enough = leb→le _ _ three;
          last_at = q;
        }
