-- ===== src/Effects.antt =====
-- The services of internal/payments reach databases, locks, the provider and the clock through the
-- interfaces of internal/payments/ports.go. A service is a program over these calls: a call and
-- what is done with its reply. What the other side answers is left open, so a statement about a
-- program holds for every database, every provider and every interleaving with other processes.
pub mod Run
pub mod Monitor
use edn_core.Prelude.{ℕ, ℤ, Bool, Option, List, some}
use edn_core.Text.{Text}
use edn_core.Checkout.{Time, Order, OrderStatus, Payment, Subscription, WebhookEvent, OutboxEvent}
use edn_core.Idempotency.{Key}
use edn_core.Tenancy.{Organization, Tenant, Plan}
use edn_core.Errors.{Error, Result, ok, err, wrapped}
use edn_core.Payments.{
  PaymentApprovedEvent, InfinitePayCheckoutRequest, InfinitePayCheckoutResponse,
  InfinitePayVerifyResponse,
}

-- The methods of ports.go, each with its arguments, then the clock and the sources of randomness.
pub data Call : Type 0 where
  -- OrganizationRepository, TenantRepository, VersionedPlanRepository
  find_by_slug : Text → Call
  find_by_org_and_slug : Text → Text → Call
  find_sellable_by_tenant_slug : Text → Text → Text → Text → Time → Call
  list_active_by_tenant : Text → Text → Call
  find_by_uuid : Text → Call
  -- OrderRepository
  create_order : Order → Call
  get_by_nsu : Text → Call
  find_by_intent_key : Text → Call
  find_by_customer_document : Text → Call
  find_open_by_business_fingerprint : Text → Text → Text → Text → Call
  update_status : Text → OrderStatus → Time → Call
  update_provider_url : Text → Text → Text → Time → Call
  mark_provider_create_attempted : Text → Time → Call
  -- PaymentRepository
  upsert_payment : Payment → Call
  get_payments_by_order_nsu : Text → Call
  -- SubscriptionRepository
  create_subscription : Subscription → Call
  get_by_origin_order_nsu : Text → Call
  activate_subscription : Text → Time → Time → Time → Call
  -- WebhookEventRepository
  insert_webhook : WebhookEvent → Call
  find_by_transaction_nsu : Text → Call
  mark_processed : Text → Time → Call
  -- OutboxEventRepository
  insert_outbox : OutboxEvent → Call
  fetch_unpublished : ℕ → Call
  mark_published : Text → Time → Call
  -- InfinitePayClient
  create_checkout : InfinitePayCheckoutRequest → Call
  verify_payment : Text → Text → Text → Call
  -- IdempotencyStore
  check_webhook_dedup : Text → Text → Call
  set_webhook_tx_seen : Text → Call
  set_webhook_hash_seen : Text → Call
  -- LockManager
  acquire_order_lock : Text → Text → Call
  release_order_lock : Text → Text → Call
  acquire_fingerprint_lock : Text → Text → Call
  release_fingerprint_lock : Text → Text → Call
  -- StatusCache
  set_order_status : Text → OrderStatus → Call
  invalidate_order_status : Text → Call
  -- CheckoutIdempotencyRepository
  reserve : Key → Call
  find_by_tenant_op_key : Text → Text → Text → Call
  find_by_tenant_op_resource_id : Text → Text → Text → Call
  commit_key : Text → Text → Text → Text → OrderStatus → Text → Text → Time → Call
  fail_key : Text → Text → Text → Time → Call
  -- PaymentEventPublisher
  publish_payment_approved : PaymentApprovedEvent → Call
  -- time.Now().UTC(), uuid.New().String() and rand.Read of that many bytes
  time_now : Call
  new_uuid : Call
  rand_read : ℕ → Call

-- What a call returns. A pointer result may be nil where the source tests for that.
abbrev pub Reply : Call → Type 0
Reply (find_by_slug _) = Result (Option Organization)
Reply (find_by_org_and_slug _ _) = Result (Option Tenant)
Reply (find_sellable_by_tenant_slug _ _ _ _ _) = Result Plan
Reply (list_active_by_tenant _ _) = Result (List Plan)
Reply (find_by_uuid _) = Result Plan
Reply (get_by_nsu _) = Result Order
Reply (find_by_intent_key _) = Result Order
Reply (find_by_customer_document _) = Result (List Order)
Reply (find_open_by_business_fingerprint _ _ _ _) = Result (List Order)
Reply (get_payments_by_order_nsu _) = Result (List Payment)
Reply (get_by_origin_order_nsu _) = Result (Option Subscription)
Reply (find_by_transaction_nsu _) = Result (List WebhookEvent)
Reply (fetch_unpublished _) = Result (List OutboxEvent)
Reply (create_checkout _) = Result InfinitePayCheckoutResponse
Reply (verify_payment _ _ _) = Result InfinitePayVerifyResponse
Reply (check_webhook_dedup _ _) = Result (Bool × Bool)
Reply (find_by_tenant_op_key _ _ _) = Result Key
Reply (find_by_tenant_op_resource_id _ _ _) = Result Key
Reply time_now = Time
Reply new_uuid = Text
Reply (rand_read _) = Result (List ℕ)
Reply _ = Result (Unit {0})

pub data Prog (A : Type 0) : Type 0 where
  ret : A → Prog A
  call : (c : Call) → (Reply c → Prog A) → Prog A

abbrev pub bind : {A B : Type 0} → Prog A → (A → Prog B) → Prog B
bind (ret a) f = f a
bind (call c k) f = call c (λ r. bind (k r) f)

-- `x, err := …; if err != nil { return err }`: an error ends the block.
abbrev pub if_ok : {A B : Type 0} → (A → Prog (Result B)) → Result A → Prog (Result B)
if_ok f (ok a) = f a
if_ok f (err e) = ret (err e)

infixl 5 ◌>>=◌ ◌>>◌
abbrev pub ◌>>=◌ : {A B : Type 0} → Prog (Result A) → (A → Prog (Result B)) → Prog (Result B)
m >>= f = bind m (if_ok f)

abbrev pub ◌>>◌ : {A B : Type 0} → Prog (Result A) → Prog (Result B) → Prog (Result B)
m >> n = m >>= λ _. n

-- `return x, nil` and `return err`
abbrev pub success : {A : Type 0} → A → Prog (Result A)
success a = ret (ok a)

abbrev pub fail : {A : Type 0} → Error → Prog (Result A)
fail e = ret (err e)

-- A call; `attempt` hands its error to the program, which looks at it itself or ignores it.
abbrev pub ask : (c : Call) → Prog (Reply c)
ask c = call c ret

abbrev pub attempt : {A : Type 0} → Prog A → Prog (Result A)
attempt p = bind p success

-- `fmt.Errorf("…: %w", err)` around a call's error
abbrev wrap_error : {A : Type 0} → Result A → Result A
wrap_error (ok a) = ok a
wrap_error (err e) = err (wrapped e)

abbrev pub wrap : {A : Type 0} → Prog (Result A) → Prog (Result A)
wrap p = bind p (λ r. ret (wrap_error r))

-- `defer cleanup`: the call is made on every way out of `body`, and its reply is ignored.
abbrev pub deferring : {A : Type 0} → Call → Prog A → Prog A
deferring c body = bind body (λ a. call c (λ _. ret a))
