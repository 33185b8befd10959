-- ===== src/Payments/Http/Errors.antt =====
-- What the answer to a failed creation gives away.
use edn_core.Prelude.{ℕ, ◌≡◌, ◌⊎◌, Bool, true, false, Option, none, some, [], ◌∷◌, any, arith}
use edn_core.Text.{Text, lit}
use edn_core.Errors.{
  Error, Result, ok, err, as_continuation, errors_is, invalid_request, checkout_conflict,
  checkout_already_open, checkout_in_progress, checkout_non_resumable, checkout_expired,
  checkout_recovery_required, provider_state_ambiguous, plan_not_found, plan_inactive,
  organization_not_found, tenant_not_found,
}
use edn_core.Payments.{CreateCheckoutResponse}
use edn_core.Payments.Http.{
  Body, checkout_error, session, Response, checkout_error_response, create_error, create_answer,
}

-- The order and the intent key that a body names.
abbrev pub named : Body → Option (Text × Text)
named (checkout_error _ nsu key) = some (nsu, key)
named (session resp) = some (resp.order_nsu, resp.checkout_intent_key)
named _ = none

abbrev no_name : Text × Text
no_name = (lit "", lit "")

-- The kinds of errors: the request is invalid; another checkout stands in the way; the order is there
-- and what became of its link is open; and what was asked for does not exist.
abbrev is_invalid : Error → Bool
is_invalid e = errors_is e invalid_request

abbrev is_conflict : Error → Bool
is_conflict e = any (errors_is e) (
    checkout_conflict ∷ checkout_already_open ∷ checkout_in_progress ∷ checkout_non_resumable
    ∷ checkout_expired ∷ [])

abbrev is_unsettled : Error → Bool
is_unsettled e = any (errors_is e) (checkout_recovery_required ∷ provider_state_ambiguous ∷ [])

abbrev is_missing : Error → Bool
is_missing e =
    any (errors_is e)
      (plan_not_found ∷ plan_inactive ∷ organization_not_found ∷ tenant_not_found ∷ [])

-- The code, by the first kind that the error is of.
abbrev Coded : Bool → Bool → Bool → Bool → ℕ → Type 0
Coded true _ _ _ code = code ≡ 422
Coded false true _ _ code = code ≡ 409
Coded false false true _ code = code ≡ 503
Coded false false false true code = code ≡ 404
Coded false false false false code = code ≡ 502

-- An error's answer names no order, but for a 503 with the order and the key that the error itself
-- carries.
pub record Refused (e : Error) (resp : Response) : Type 0 where
  pub code : Coded (is_invalid e) (is_conflict e) (is_unsettled e) (is_missing e) resp.code
  pub names :
      (named resp.body ≡ none)
      ⊎ (named resp.body ≡ some no_name)
      ⊎ ((resp.code ≡ 503) × (named resp.body ≡ as_continuation e))

abbrev pub Answered : Result CreateCheckoutResponse → Response → Type 0
Answered (ok resp) answer =
    (((answer.code ≡ 200) × (resp.resumed ≡ true)) ⊎ ((answer.code ≡ 201) × (resp.resumed ≡ false)))
    × (named answer.body ≡ some (resp.order_nsu, resp.checkout_intent_key))
Answered (err e) answer = Refused e answer

named-checkout_error_response :
    (e : Error) (code : Text)
    → (named (checkout_error_response e code) ≡ some no_name)
      ⊎ (named (checkout_error_response e code) ≡ as_continuation e)
named-checkout_error_response e code = ground arith

create_error-Refused : (e : Error) → Refused e (create_error e)
unfolding create_error
create_error-Refused e = record {
  code = ground arith;
  names = grind (arith, named-checkout_error_response);
}

-- The answer to a creation that succeeded names its order and intent key; its code is 200 if the
-- checkout was resumed and 201 if it was created. If the creation failed, the code is 422 for an
-- invalid request, else 409 for a checkout that stands in the way, else 503 for an order whose link is
-- not settled, else 404 for an organization, tenant or plan that is missing or inactive, and 502 for
-- any other error; and the answer names no order and no key, unless it is a 503 that names those which
-- the error carries.
pub create_answer-Answered : (r : Result CreateCheckoutResponse) → Answered r (create_answer r)
unfolding create_answer
create_answer-Answered (ok resp) = ground arith
create_answer-Answered (err e) = create_error-Refused e
