-- ===== src/Payments/Http/Routes.antt =====
-- internal/payments/handler.go: the public webhook, the plans, the administration and the status.
use edn_core.Prelude.{
  Bool, false, not, ◌||◌, ◌==◌, Option, none, some, List, [], ◌∷◌, if◌then◌else◌,
}
use edn_core.Text.{Text, lit, is_empty, trim_space, ◌=?◌}
use edn_core.Errors.{
  Result, ok, err, errors_is, invalid_request, organization_not_found, tenant_not_found,
  order_not_found,
}
use edn_core.Runtime.{Runtime}
use edn_core.Payments.{OrderStatusResponse, AdminOrderSummary, PlanResponse}
use edn_core.Payments.Helpers.{normalize_cpf}
use edn_core.Payments.Scope.{list_active_plans}
use edn_core.Payments.Status.{get_status, search_by_document}
use edn_core.Payments.Webhook.{handle}
use edn_core.Effects.{Prog, ret, bind}
use edn_core.Payments.Http.{
  no_body, error_text, error_message, ok_status, plans, order_status, orders, Response, answer,
  WebhookRequest,
}

module _ (rt : Runtime) where
  -- Handler.HandleWebhook
  unfoldable webhook_answer : Result (Unit {0}) → Response
  webhook_answer (ok _) = answer 200 ok_status
  webhook_answer (err e) =
      if errors_is e invalid_request
      then answer 400 (error_text (lit "invalid webhook payload"))
      else answer 500 (error_text (lit "processing error"))

  unfoldable webhook_body : Option Text → Prog Response
  webhook_body none = ret (answer 400 (error_text (lit "invalid request body")))
  webhook_body (some []) = ret (answer 400 (error_text (lit "empty body")))
  webhook_body (some (c ∷ raw_body)) = bind (handle rt (c ∷ raw_body)) (λ r. ret (webhook_answer r))

  unfoldable handle_webhook : WebhookRequest → Prog Response
  handle_webhook req =
      if not req.is_post
      then ret (answer 405 no_body)
      else if not req.is_json
      then ret (answer 415 (error_text (lit "content-type must be application/json")))
      else webhook_body req.raw_body

  unfoldable plans_answer : Result (List PlanResponse) → Response
  plans_answer (ok found) = answer 200 (plans found)
  plans_answer (err e) =
      if errors_is e invalid_request
      then answer 422 (error_message e)
      else if errors_is e organization_not_found || errors_is e tenant_not_found
      then answer 404 (error_text (lit "organization or tenant not found"))
      else answer 500 (error_text (lit "internal error"))

  -- Handler.ListPlans, with the three query parameters
  unfoldable list_plans : Text → Text → Text → Prog Response
  list_plans organization_slug tenant_slug channel =
      bind (list_active_plans rt organization_slug tenant_slug channel) (λ r. ret (plans_answer r))

  -- Handler.authenticate
  unfoldable pub authenticate : Text → Text → Bool
  authenticate auth_token got =
      if is_empty auth_token || is_empty got then false else got =? auth_token

  abbrev search_answer : Result (List AdminOrderSummary) → Response
  search_answer (ok found) = answer 200 (orders found)
  search_answer (err _) = answer 500 (error_text (lit "internal error"))

  unfoldable search_document : Text → Prog Response
  search_document document = elim (normalize_cpf rt document) [
    | err _ ↦ ret (answer 422 (error_text (lit "invalid document: must be a valid CPF")))
    | ok cpf ↦ bind (search_by_document cpf) (λ r. ret (search_answer r))
  ]

  unfoldable search_decoded : Option Text → Prog Response
  unfolding search_document
  search_decoded none = ret (answer 400 (error_text (lit "invalid request body")))
  search_decoded (some document) =
      if is_empty (trim_space document)
      then ret (answer 422 (error_text (lit "document is required")))
      else search_document document

  -- Handler.SearchOrdersByDocument, with the Authorization header and the decoded document
  unfoldable search_orders_by_document : Text → Text → Option Text → Prog Response
  unfolding authenticate search_decoded
  search_orders_by_document auth_token got document =
      if not (authenticate auth_token got)
      then ret (answer 401 (error_text (lit "unauthorized")))
      else search_decoded document

-- The text ahead of the first '/'.
unfoldable pub first_segment : Text → Text
first_segment [] = []
first_segment (c ∷ path) = let rest = first_segment path in if c == b'/' then [] else c ∷ rest

abbrev order_status_answer : Result OrderStatusResponse → Response
order_status_answer (ok resp) = answer 200 (order_status resp)
order_status_answer (err e) =
    if errors_is e invalid_request
    then answer 400 (error_message e)
    else if errors_is e order_not_found
    then answer 404 (error_text (lit "order not found"))
    else answer 500 (error_text (lit "internal error"))

-- Handler.GetOrderStatus, with the path after "/v1/orders/"
unfoldable pub get_order_status : Text → Prog Response
get_order_status path =
    let order_nsu = first_segment path in
    if is_empty order_nsu
    then ret (answer 400 (error_text (lit "missing order_nsu")))
    else bind (get_status order_nsu) (λ r. ret (order_status_answer r))
