-- ===== src/Payments/Adapter/Results.antt =====
-- What the adapter's results say about the provider's answers.
use edn_core.Prelude.{◌≤◌, ◌<◌, ◌≡◌, ◌⊎◌, false, ◌||◌, none, some, arith}
use edn_core.Text.{lit, is_empty, ◌=?◌}
use edn_core.Payments.Webhook.{is_approved}
use edn_core.Errors.{Result, ok, err, is_rejection, is_deterministic_provider_create_status}
use edn_core.Payments.{InfinitePayCheckoutResponse, InfinitePayVerifyResponse}
use edn_core.Payments.Adapter.{
  LinksResponse, PaymentCheckResponse, Answer, checkout_response, create_checkout_result,
  map_infinite_pay_status, verify_response, verify_payment_result,
}

-- Where a result comes from. The rejection that the services take as final is the answer with one
-- of the six codes; any other failure leaves the provider's state open.
abbrev pub FromLinks : Answer LinksResponse → Result InfinitePayCheckoutResponse → Type 0
FromLinks (err e) (ok resp) = ⊥
FromLinks (err e) (err f) = is_rejection f ≡ is_rejection e
FromLinks (ok (code, body)) (err f) = is_rejection f ≡ is_deterministic_provider_create_status code
FromLinks (ok (code, none)) (ok resp) = ⊥
FromLinks (ok (code, some body)) (ok resp) =
    (200 ≤ code)
    × (code < 300)
    × (is_empty resp.checkout_url ≡ false)
    × ((resp.checkout_url ≡ body.checkout_url)
        ⊎ (resp.checkout_url ≡ body.link)
        ⊎ (resp.checkout_url ≡ body.url))
    × ((resp.invoice_slug ≡ body.invoice_id) ⊎ (resp.invoice_slug ≡ body.id))

-- A checkout is created only from an answer with a code from 200 to 299 and a body that decodes,
-- and its link is never empty and one of the body's three; a failure counts as the provider's final
-- rejection exactly if the answer had one of the codes for that (where there was an answer).
pub create_checkout_result-FromLinks :
    (answer : Answer LinksResponse) → FromLinks answer (create_checkout_result answer)
unfolding create_checkout_result checkout_response is_deterministic_provider_create_status
create_checkout_result-FromLinks answer = ground arith

abbrev FromCheck : Answer PaymentCheckResponse → Result InfinitePayVerifyResponse → Type 0
FromCheck answer (err e) = Unit
FromCheck (err e) (ok resp) = ⊥
FromCheck (ok (code, none)) (ok resp) = ⊥
FromCheck (ok (code, some body)) (ok resp) =
    (200 ≤ code)
    × (code < 300)
    × (is_empty resp.transaction_nsu ≡ false)
    × (resp.transaction_nsu ≡ body.transaction_id)
    × (resp.paid_amount_cents ≡ body.paid_amount_cents)
    × (is_approved resp.status ≡ (body.status =? lit "approved" || body.status =? lit "captured"))

-- A verification succeeds only from an answer with a code from 200 to 299, a body that decodes and
-- a transaction identifier that is not empty, with the body's identifier and amount; and it counts
-- as approved exactly if the provider's word was "approved" or "captured".
verify_payment_result-FromCheck :
    (answer : Answer PaymentCheckResponse) → FromCheck answer (verify_payment_result answer)
unfolding verify_payment_result verify_response map_infinite_pay_status
verify_payment_result-FromCheck answer = ground arith
