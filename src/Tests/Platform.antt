-- ===== src/Tests/Platform.antt =====
-- The theorems on the limiter, the cleanup, the relay and the adapter at concrete inputs.
use edn_core.Prelude.{
  ℕ, ◌+◌, ◌≤◌, ◌≡◌, ◌↔◌, ◌==◌, ◌&&◌, refl, pos, true, false, some, none, List, [], ◌∷◌, arith,
}
use edn_core.Text.{Text, lit}
use edn_core.Errors.{ok}
use edn_core.Checkout.{Order, created}
use edn_core.Ratelimit.{new, allow, answers}
use edn_core.Ratelimit.Window.{window_answers, answers-window}
use edn_core.Ratelimit.Bound.{accepted, allow-window_bound}
use edn_core.Relay.{Paths, path_allowed, Request, read, is_allowed_content_type, serve_http}
use edn_core.Recreate.{Options, Stores}
use edn_core.Relay.Answers.{
  serve_http-ok_iff, HasSecret, path_allowed-HasSecret, accepted_by, readable,
}
use edn_core.Payments.Adapter.{LinksResponse, PaymentCheckResponse, create_checkout_result}
use edn_core.Payments.Adapter.Results.{FromLinks, create_checkout_result-FromLinks}
use edn_core.Tests.World.{order_of}

abbrev two_requests : List (Text × ℕ)
two_requests = (lit "a", 10) ∷ (lit "a", 20) ∷ []

answers-window_example :
    answers (new 2 60) two_requests ≡ window_answers 2 60 (λ _. none) two_requests
answers-window_example =
    answers-window (new 2 60) 0 two_requests (omega arith) (omega arith)
      (omega arith, (omega arith, tt))

allow-window_bound_example :
    ((allow (new 2 60) (lit "a") 5).1 ≡ (true, 0))
    × (accepted (lit "a") two_requests (answers (allow (new 2 60) (lit "a") 5).0 two_requests) + 1
        ≤ 2)
allow-window_bound_example =
    allow-window_bound (new 2 60) (lit "a") 5 two_requests (omega arith) (omega arith) refl
      (omega arith, (omega arith, tt)) (omega arith, (omega arith, tt))

abbrev paths : Paths
paths = record { secret_path = lit "s3cret"; next_secret_path = lit "" }

abbrev delivery : Request
delivery = record {
  is_post = true;
  path = lit "/v1/webhooks/infinitepay/s3cret";
  media_type = some (lit "application/json", []);
  body = read (lit "{}");
}

serve_http-ok_iff_example : ((serve_http (λ s. s) paths true (λ _. ok 200) delivery).0 == 200) ≡ (
    delivery.is_post
    && path_allowed paths delivery.path
    && is_allowed_content_type (λ s. s) delivery.media_type
    && true
    && accepted_by (λ _. ok 200) (readable delivery.body))
serve_http-ok_iff_example = serve_http-ok_iff (λ s. s) paths true (λ _. ok 200) delivery

path_allowed-HasSecret_example :
    (path_allowed paths (lit "/v1/webhooks/infinitepay/s3cret") ≡ true)
    ↔ HasSecret paths (lit "/v1/webhooks/infinitepay/s3cret")
path_allowed-HasSecret_example =
    path_allowed-HasSecret paths (lit "/v1/webhooks/infinitepay/s3cret")

abbrev links : LinksResponse
links = record {
  checkout_url = lit "";
  link = lit "https://pay.example/1";
  url = lit "";
  invoice_id = lit "";
  id = lit "inv1";
}

create_checkout_result-FromLinks_example :
    FromLinks (ok (201, some links)) (create_checkout_result (ok (201, some links)))
create_checkout_result-FromLinks_example = create_checkout_result-FromLinks (ok (201, some links))

abbrev check : PaymentCheckResponse
check = record {
  status = lit "captured";
  transaction_id = lit "t1";
  paid_amount_cents = pos 9900;
  currency = lit "BRL";
  receipt_url = lit "";
}

abbrev options : Options
options = record {
  order_nsu = lit "o1";
  channel = lit "";
  base_url = lit "https://edn-core.app/";
  idempotency_key = lit "";
  dry_run = false;
  allow_unsafe_url = false;
  database = lit "edn-core-db-prd";
}

abbrev new_order_of : Text → Order
new_order_of nsu = record (order_of nsu (lit "")) { status = created }

abbrev stores : Stores
stores = record {
  find_order = λ nsu. ok (new_order_of nsu);
  find_organization =
      λ id. ok (record { org_uuid = id; slug = lit "acme"; name = lit "Acme"; active = true });
  find_tenant = λ id. ok (record {
    tenant_uuid = id;
    organization_id = lit "org";
    slug = lit "main";
    name = lit "Main";
    channels = [];
    active = true;
  });
}
