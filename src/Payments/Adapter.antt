-- ===== src/Payments/Adapter.antt =====
-- internal/payments/infinitepay_adapter.go: from the provider's HTTP answers to results. The HTTP
-- client and the JSON codec are not the program's: an answer is the status code with the body as
-- decoded, where `none` is a body that json.Unmarshal rejects, and a transport error has no answer.
pub mod Results
use edn_core.Prelude.{
  ℕ, ℤ, ◌≡◌, ◌≢◌, ◌⊎◌, inl, inr, refl, Bool, true, false, not, ◌&&◌, ◌||◌, leb, ltb, Option, none,
  some, arith, if◌then◌else◌,
}
use edn_core.Text.{Text, lit, is_empty, ◌=?◌}
use edn_core.Checkout.{
  PaymentStatus, pending, approved, rejected, refunded, chargeback, pending_review,
}
use edn_core.Errors.{
  Error, Result, ok, err, wrapped, provider_rejected, other, is_rejection,
  is_deterministic_provider_create_status,
}
use edn_core.Payments.{
  InfinitePayCheckoutRequest, InfinitePayCheckoutResponse, InfinitePayVerifyResponse,
}

-- infinitePayLinksPayload with its single item and its customer
record LinksPayload : Type 0 where
  pub handle : Text
  pub order_id : Text
  pub quantity : ℕ
  pub price : ℤ
  pub description : Text
  pub redirect_url : Text
  pub webhook_url : Text
  pub name : Text
  pub email : Text
  pub phone_number : Text

-- infinitePayLinksResponse
pub record LinksResponse : Type 0 where
  pub checkout_url : Text
  pub link : Text
  pub url : Text
  pub invoice_id : Text
  pub id : Text

-- infinitePayPaymentCheckResponse
pub record PaymentCheckResponse : Type 0 where
  pub status : Text
  pub transaction_id : Text
  pub paid_amount_cents : ℤ
  pub currency : Text
  pub receipt_url : Text

-- A status code and the decoded body, or a transport error.
abbrev pub Answer : Type 0 → Type 0
Answer A = Result (ℕ × Option A)

unfoldable links_payload : InfinitePayCheckoutRequest → LinksPayload
links_payload req = record {
  handle = req.handle;
  order_id = req.order_nsu;
  quantity = 1;
  price = req.amount_cents;
  description = req.plan_name;
  redirect_url = req.redirect_url;
  webhook_url = req.webhook_url;
  name = req.customer_name;
  email = req.customer_email;
  phone_number = req.customer_phone;
}

-- `if x == "" { x = y }`
abbrev or_if_empty : Text → Text → Text
or_if_empty x y = if is_empty x then y else x

abbrev is_success : ℕ → Bool
is_success code = not (ltb code 200 || leb 300 code)

unfoldable pub checkout_response : LinksResponse → Result InfinitePayCheckoutResponse
checkout_response resp =
    let url = or_if_empty (or_if_empty resp.checkout_url resp.link) resp.url in
    if is_empty url
    then err other
    else ok (record { checkout_url = url; invoice_slug = or_if_empty resp.invoice_id resp.id })

-- infinitePayAdapter.CreateCheckout, from the answer on
unfoldable pub create_checkout_result : Answer LinksResponse → Result InfinitePayCheckoutResponse
create_checkout_result (err e) = err (wrapped e)
create_checkout_result (ok (code, body)) =
    if not (is_success code)
    then (if is_deterministic_provider_create_status code
        then err (provider_rejected code)
        else err other)
    else elim body [ none ↦ err (wrapped other) | some resp ↦ checkout_response resp ]

-- mapInfinitePayStatus
unfoldable pub map_infinite_pay_status : Text → PaymentStatus
map_infinite_pay_status s =
    if s =? lit "approved" || s =? lit "captured"
    then approved
    else if s =? lit "rejected" || s =? lit "declined"
    then rejected
    else if s =? lit "refunded"
    then refunded
    else if s =? lit "chargeback"
    then chargeback
    else if s =? lit "pending_review" || s =? lit "under_review"
    then PaymentStatus.pending_review
    else PaymentStatus.pending

unfoldable pub verify_response : PaymentCheckResponse → Result InfinitePayVerifyResponse
verify_response resp =
    if is_empty resp.transaction_id
    then err other
    else ok (record {
      provider_status = resp.status;
      status = map_infinite_pay_status resp.status;
      paid_amount_cents = resp.paid_amount_cents;
      currency = resp.currency;
      receipt_url = resp.receipt_url;
      transaction_nsu = resp.transaction_id;
    })

-- infinitePayAdapter.VerifyPayment, from the answer on
unfoldable pub verify_payment_result :
    Answer PaymentCheckResponse → Result InfinitePayVerifyResponse
verify_payment_result (err e) = err (wrapped e)
verify_payment_result (ok (code, body)) =
    if not (is_success code)
    then err other
    else elim body [ none ↦ err (wrapped other) | some resp ↦ verify_response resp ]
