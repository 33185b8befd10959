-- ===== src/Relay/Answers.antt =====
-- Which requests the relay lets through, and what it answers.
use edn_core.Prelude.{
  ℕ, ◌≡◌, ◌⊎◌, ◌↔◌, inl, inr, refl, sym, ap, ◌∙◌, Bool, true, false, not, ◌&&◌, ◌||◌, ◌==◌, Option,
  none, some, [], ◌∷◌, ◌++◌, any, arith,
}
use edn_core.Text.{Text, is_empty}
use edn_core.Errors.{Result, ok, err}
use edn_core.Relay.{
  relay_path_prefix, after_prefix, Paths, candidate_allowed, path_allowed, map_core_status,
  is_allowed_content_type, ReadBody, read, Request, serve_http,
}

abbrev no_slash : Text → Bool
no_slash s = not (any (λ c. c == b'/') s)

-- The body to forward.
abbrev pub readable : ReadBody → Option Text
readable (read (c ∷ raw_body)) = some (c ∷ raw_body)
readable _ = none

abbrev core_accepts : Result ℕ → Bool
core_accepts (ok core_status) = core_status == 200 || core_status == 202
core_accepts (err _) = false

abbrev pub accepted_by : (Text → Result ℕ) → Option Text → Bool
accepted_by forward none = false
accepted_by forward (some raw_body) = core_accepts (forward raw_body)

-- The relay answers 200 exactly if the request is a POST to an allowed path, with an allowed content
-- type and a body that is not empty nor too large, the throttle has let it in, and the core answered
-- the forwarded body with 200 or 202.
pub serve_http-ok_iff :
    (to_lower : Text → Text) (paths : Paths) (acquired : Bool) (forward : Text → Result ℕ)
    (req : Request)
    → ((serve_http to_lower paths acquired forward req).0 == 200) ≡ (
        req.is_post
        && path_allowed paths req.path
        && is_allowed_content_type to_lower req.media_type
        && acquired
        && accepted_by forward (readable req.body))
unfolding serve_http map_core_status
serve_http-ok_iff to_lower paths acquired forward req = ground arith

after_prefix-++ : (prefix s : Text) → after_prefix prefix (prefix ++ s) ≡ some s
unfolding after_prefix
after_prefix-++ [] s = refl
after_prefix-++ (p ∷ prefix) s = ground (arith, after_prefix-++ prefix s)

abbrev Splits : Text → Text → Option Text → Type 0
Splits prefix s none = Unit
Splits prefix s (some rest) = s ≡ prefix ++ rest

after_prefix-Splits : (prefix s : Text) → Splits prefix s (after_prefix prefix s)
unfolding after_prefix
after_prefix-Splits [] s = refl
after_prefix-Splits (p ∷ prefix) [] = tt
after_prefix-Splits (p ∷ prefix) (c ∷ s) = ground (arith, after_prefix-Splits prefix s)

-- The path is the prefix followed by one of the two secrets, which is one path segment. The second
-- counts only if it is set.
abbrev pub HasSecret : Paths → Text → Type 0
HasSecret paths url_path =
    ((url_path ≡ relay_path_prefix ++ paths.secret_path) × (no_slash paths.secret_path ≡ true))
    ⊎ ((url_path ≡ relay_path_prefix ++ paths.next_secret_path)
        × (no_slash paths.next_secret_path ≡ true)
        × (is_empty paths.next_secret_path ≡ false))

candidate_allowed_iff :
    (paths : Paths) (s : Text)
    → (candidate_allowed paths s ≡ true) ↔ (
        (s ≡ paths.secret_path) × (no_slash paths.secret_path ≡ true)
        ⊎ (s ≡ paths.next_secret_path)
          × (no_slash paths.next_secret_path ≡ true)
          × (is_empty paths.next_secret_path ≡ false))
unfolding candidate_allowed
candidate_allowed_iff paths s = (λ h. ground arith, λ h. ground arith)

abbrev with_candidate : Paths → Option Text → Bool
with_candidate paths none = false
with_candidate paths (some s) = candidate_allowed paths s

allowed-HasSecret :
    (paths : Paths) (url_path : Text) (o : Option Text)
    → Splits relay_path_prefix url_path o
    → with_candidate paths o ≡ true
    → HasSecret paths url_path
allowed-HasSecret paths url_path none splits h = ground arith
allowed-HasSecret paths url_path (some s) splits h = by_secret ((candidate_allowed_iff paths s).0 h)
  where
    by_secret :
        ((s ≡ paths.secret_path) × (no_slash paths.secret_path ≡ true)
          ⊎ (s ≡ paths.next_secret_path)
            × (no_slash paths.next_secret_path ≡ true)
            × (is_empty paths.next_secret_path ≡ false))
        → HasSecret paths url_path
    by_secret (inl (e, clean)) = inl (splits ∙ ap (λ t. relay_path_prefix ++ t) e, clean)
    by_secret (inr (e, clean, set)) = inr (splits ∙ ap (λ t. relay_path_prefix ++ t) e, clean, set)

HasSecret-allowed :
    (paths : Paths) (url_path : Text)
    → HasSecret paths url_path
    → with_candidate paths (after_prefix relay_path_prefix url_path) ≡ true
HasSecret-allowed paths url_path (inl (e, clean)) =
    ap (λ p. with_candidate paths (after_prefix relay_path_prefix p)) e
    ∙ ap (with_candidate paths) (after_prefix-++ relay_path_prefix paths.secret_path)
    ∙ (candidate_allowed_iff paths paths.secret_path).1 (inl (refl, clean))
HasSecret-allowed paths url_path (inr (e, clean, set)) =
    ap (λ p. with_candidate paths (after_prefix relay_path_prefix p)) e
    ∙ ap (with_candidate paths) (after_prefix-++ relay_path_prefix paths.next_secret_path)
    ∙ (candidate_allowed_iff paths paths.next_secret_path).1 (inr (refl, clean, set))

path_allowed-candidate :
    (paths : Paths) (url_path : Text)
    → path_allowed paths url_path ≡ with_candidate paths (after_prefix relay_path_prefix url_path)
unfolding path_allowed
path_allowed-candidate paths url_path = refl

-- The relay's path test accepts exactly the prefix followed by the secret, or by the next secret if
-- one is set, and only a secret that is a single path segment.
pub path_allowed-HasSecret :
    (paths : Paths) (url_path : Text)
    → (path_allowed paths url_path ≡ true) ↔ HasSecret paths url_path
path_allowed-HasSecret paths url_path = (
  λ h.
      allowed-HasSecret paths url_path (after_prefix relay_path_prefix url_path)
        (after_prefix-Splits relay_path_prefix url_path)
        (sym (path_allowed-candidate paths url_path) ∙ h),
  λ h. path_allowed-candidate paths url_path ∙ HasSecret-allowed paths url_path h,
)
