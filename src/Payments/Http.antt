-- ===== src/Payments/Http.antt =====
-- internal/payments/handler.go: from requests to answers. A request is what the handler reads of it:
-- a body is `none` where reading or decoding it fails, and a header that is not set is empty. An
-- answer is the status code with the parts of the body that depend on the outcome; the message of
-- an error stands as the error itself.
pub mod Routes
pub mod Errors
pub mod Safety
use edn_core.Prelude.{
  ℕ, Bool, true, false, not, ◌&&◌, ◌||◌, ◌==◌, Option, none, some, List, [], ◌∷◌, if◌then◌else◌,
}
use edn_core.Text.{Text, lit, is_empty, trim_space, ◌=?◌}
use edn_core.Errors.{
  Error, Result, ok, err, Sentinel, errors_is, as_continuation, invalid_request,
  organization_not_found, tenant_not_found, checkout_conflict, checkout_already_open,
  checkout_in_progress, checkout_non_resumable, checkout_expired, checkout_recovery_required,
  provider_state_ambiguous, plan_not_found, plan_inactive, order_not_found, transaction_mismatch,
  amount_mismatch, lock_conflict,
}
use edn_core.Runtime.{Runtime}
use edn_core.Payments.{
  CreateCheckoutRequest, CreateCheckoutResponse, OrderStatusResponse, TrackCheckoutResponse,
  AdminOrderSummary, PlanResponse,
}
use edn_core.Payments.Helpers.{normalize_cpf}
use edn_core.Payments.Session.{PaymentsConfig}
use edn_core.Payments.Scope.{list_active_plans}
use edn_core.Payments.Create.{create_session}
use edn_core.Payments.Resume.{resume_session}
use edn_core.Payments.Status.{get_status, track_by_intent_key, search_by_document}
use edn_core.Payments.Webhook.{handle}
use edn_core.Effects.{Prog, ret, bind}

-- What writeJSON sends.
pub data Body : Type 0 where
  no_body : Body
  -- `{"error": …}`, with a fixed text or with the error's message
  error_text : Text → Body
  error_message : Error → Body
  -- CheckoutErrorResponse: the code, the order and the intent key
  checkout_error : Text → Text → Text → Body
  ok_status : Body
  plans : List PlanResponse → Body
  session : CreateCheckoutResponse → Body
  order_status : OrderStatusResponse → Body
  tracked : TrackCheckoutResponse → Body
  orders : List AdminOrderSummary → Body

pub record Response : Type 0 where
  pub code : ℕ
  pub body : Body

abbrev pub answer : ℕ → Body → Response
answer code body = record { code = code; body = body }

abbrev continuation_body : Text → Option (Text × Text) → Body
continuation_body code none = checkout_error code (lit "") (lit "")
continuation_body code (some (nsu, key)) = checkout_error code nsu key

-- checkoutErrorResponse with a fallback that has a code only
abbrev pub checkout_error_response : Error → Text → Body
checkout_error_response e code = continuation_body code (as_continuation e)

abbrev conflict : Text → Response
conflict code = answer 409 (checkout_error code (lit "") (lit ""))

-- The error branches of CreateCheckoutSession, in their order.
unfoldable pub create_error : Error → Response
create_error e =
    if errors_is e invalid_request
    then answer 422 (error_message e)
    else if errors_is e checkout_conflict
    then conflict (lit "checkout_idempotency_conflict")
    else if errors_is e checkout_already_open
    then conflict (lit "checkout_already_open")
    else if errors_is e checkout_in_progress
    then conflict (lit "checkout_in_progress")
    else if errors_is e checkout_non_resumable
    then conflict (lit "checkout_non_resumable")
    else if errors_is e checkout_expired
    then conflict (lit "checkout_expired")
    else if errors_is e checkout_recovery_required
    then answer 503 (checkout_error_response e (lit "checkout_recovery_required"))
    else if errors_is e provider_state_ambiguous
    then answer 503 (checkout_error_response e (lit "provider_state_ambiguous"))
    else if errors_is e plan_not_found || errors_is e plan_inactive
    then answer 404 (error_text (lit "plan not found or inactive"))
    else if errors_is e organization_not_found || errors_is e tenant_not_found
    then answer 404 (error_text (lit "organization or tenant not found"))
    else answer 502 (error_text (lit "checkout unavailable"))

unfoldable pub create_answer : Result CreateCheckoutResponse → Response
unfolding create_error
create_answer (err e) = create_error e
create_answer (ok resp) = answer (if resp.resumed then 200 else 201) (session resp)

-- The checks that HandleWebhook and HandleWebhookReconcile make of a request with a good token.
pub record WebhookRequest : Type 0 where
  pub is_post : Bool
  pub internal_token : Text
  -- strings.HasPrefix(ct, "application/json")
  pub is_json : Bool
  pub raw_body : Option Text

-- The error branches of HandleWebhookReconcile.
unfoldable pub reconcile_error : Error → Response
reconcile_error e =
    if errors_is e invalid_request
      || errors_is e transaction_mismatch
      || errors_is e amount_mismatch
      || errors_is e order_not_found
    then answer 422 (error_message e)
    else if errors_is e lock_conflict
    then answer 503 (error_text (lit "temporary_failure"))
    else answer 500 (error_text (lit "internal_error"))

abbrev pub reconcile_answer : Result (Unit {0}) → Response
reconcile_answer (ok _) = answer 200 ok_status
reconcile_answer (err e) = reconcile_error e

-- Whether the track handler goes on to recover.
abbrev pub needs_recovery : TrackCheckoutResponse → Bool
needs_recovery resp = resp.resumable && is_empty resp.checkout_url

unfoldable pub track_error : Error → Response
track_error e =
    if errors_is e order_not_found
    then answer 404 (error_text (lit "checkout not found"))
    else if errors_is e provider_state_ambiguous
    then answer 503 (checkout_error_response e (lit "provider_state_ambiguous"))
    else answer 500 (error_text (lit "internal error"))

-- After a recovery, from the fresh read: its answer, or that a recovery is still required.
abbrev reread_answer : Result TrackCheckoutResponse → Response
reread_answer (ok fresh) = answer 200 (tracked fresh)
reread_answer (err _) =
    answer 503 (checkout_error (lit "checkout_recovery_required") (lit "") (lit ""))

-- After a failed recovery, from the fresh read: its answer, or the first one.
abbrev stale_answer : TrackCheckoutResponse → Result TrackCheckoutResponse → Response
stale_answer resp (ok fresh) = answer 200 (tracked fresh)
stale_answer resp (err _) = answer 200 (tracked resp)

unfoldable pub after_recovery :
    Text → TrackCheckoutResponse → Result CreateCheckoutResponse → Prog Response
after_recovery intent_key resp (ok _) =
    bind (track_by_intent_key intent_key) (λ r. ret (reread_answer r))
after_recovery intent_key resp (err e) =
    if errors_is e provider_state_ambiguous
    then ret (answer 503 (checkout_error_response e (lit "provider_state_ambiguous")))
    else bind (track_by_intent_key intent_key) (λ r. ret (stale_answer resp r))

unfoldable pub after_tracking : PaymentsConfig → Text → Result TrackCheckoutResponse → Prog Response
after_tracking cfg intent_key (err e) = ret (track_error e)
after_tracking cfg intent_key (ok resp) =
    if needs_recovery resp
    then bind (resume_session cfg intent_key) (after_recovery intent_key resp)
    else ret (answer 200 (tracked resp))

-- Handler.TrackCheckoutSession
unfoldable pub track_checkout_session : PaymentsConfig → Option Text → Prog Response
track_checkout_session cfg none = ret (answer 400 (error_text (lit "invalid request body")))
track_checkout_session cfg (some checkout_intent_key) =
    let intent_key = trim_space checkout_intent_key in
    if is_empty intent_key
    then ret (answer 422 (error_text (lit "checkout_intent_key is required")))
    else bind (track_by_intent_key intent_key) (after_tracking cfg intent_key)

module _ (rt : Runtime) where
  -- Handler.CreateCheckoutSession
  unfoldable create_checkout_session :
      PaymentsConfig → Option CreateCheckoutRequest → Text → Prog Response
  create_checkout_session cfg none header =
      ret (answer 400 (error_text (lit "invalid request body")))
  create_checkout_session cfg (some req) header =
      bind (create_session cfg rt (record req { idempotency_key = trim_space header }))
        (λ r. ret (create_answer r))

  -- Handler.HandleWebhookReconcile; the comparison in constant time is equality.
  unfoldable pub reconcile_body : Option Text → Prog Response
  reconcile_body none = ret (answer 400 (error_text (lit "invalid request body")))
  reconcile_body (some []) = ret (answer 400 (error_text (lit "empty body")))
  reconcile_body (some (c ∷ raw_body)) =
      bind (handle rt (c ∷ raw_body)) (λ r. ret (reconcile_answer r))

  unfoldable pub handle_webhook_reconcile : Text → WebhookRequest → Prog Response
  handle_webhook_reconcile internal_token req =
      if not req.is_post
      then ret (answer 405 no_body)
      else if not (is_empty internal_token) && not (req.internal_token =? internal_token)
      then ret (answer 401 (error_text (lit "unauthorized")))
      else if not req.is_json
      then ret (answer 415 (error_text (lit "content-type must be application/json")))
      else reconcile_body req.raw_body
