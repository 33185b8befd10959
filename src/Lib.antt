-- ===== src/Lib.antt =====
-- edn-core is the back end of a subscription shop: it creates checkouts at the payment provider
-- InfinitePay, reconciles the provider's webhooks, activates subscriptions and tracks orders. This
-- library models the code that decides about money and orders and proves what keeps it correct.
--
-- The parts and how they interact:
--
-- The services of internal/payments (service.go, webhook.go, worker.go) reach MongoDB, Redis, the
-- provider, the clock and the sources of randomness through the interfaces of internal/payments/ports.go
-- only. A service is therefore a program over the data type `Call` of Effects.antt, whose constructors
-- are the methods of these interfaces; `Reply` is what each returns. A call may return any reply, so a
-- theorem about all runs holds for every state of the database, every failure, and every interleaving
-- with other processes. Effects/Run.antt runs a program against an environment, which chooses each reply
-- in view of the calls so far. Effects/Monitor.antt has the proof method: a monitor follows a run with a
-- state, says which calls are allowed in it and what is relied on about a reply, and `Spec` turns that into
-- an obligation on the program's text. Payments/Monitors.antt has the monitors that several services
-- share. What the monitors rely on is only that a query for an order returns the order that it filters for,
-- which Stored/Backing shows of the repository.
--
-- The drivers are not part of the repository, so a collection, a Redis database and a transaction are
-- parameters: records of a state and of the operations on it. Their laws say what an operation does to the
-- documents or entries, errors included: a call may fail, and a write that fails may have been made. The
-- tests have an instance of each in memory.
--
--   Prelude, Text                 shared notation, Go strings as lists of code points
--   Checkout, Idempotency, Tenancy  the stored documents: internal/checkout/types.go,
--                                 internal/idempotency, internal/organizations, internal/tenants,
--                                 internal/plans
--   Errors                        sentinels and wrapping: the errors.go files
--   Runtime                       what the program takes from the language's library
--   Payments                      internal/payments/types.go
--   Payments/Helpers, /Request    helpers.go: NormalizeCPF, NormalizePhone, validation, hashes, intent key
--   Payments/Scope                resolveTenantScope, resolveCheckoutPlan, ListActivePlans
--   Payments/Session              the steps that create, resume and replay share
--   Payments/Draft, /Create, /Replay  CreateSession, reuseOpenOrderForFingerprint,
--                                 reserveOrReplayCheckout, replayExistingSession
--   Payments/Resume               resumeSession, recoverCheckoutSession
--   Payments/Webhook              WebhookService.Handle
--   Payments/Worker               ActivationService.Activate, OutboxDispatcher.Dispatch
--   Payments/Status               OrderStatusService
--   Payments/Http                 handler.go, from the decoded request to the answer
--   Payments/Adapter              infinitepay_adapter.go, from the provider's answer to the result
--   Ratelimit                     internal/platform/ratelimit/limiter.go
--   Protection                    internal/payments/protection.go, internal/leads/protection.go
--   Cleanup                       cmd/fail-stuck-checkouts
--   Recreate                      cmd/recreate-checkout
--   Mongo                         what is used of the MongoDB driver: a collection as a record of operations,
--                                 with their documented behaviour as laws
--   Stored                        the repositories on such a collection:
--                                 internal/checkout/mongodb_repository.go with the adapters of
--                                 internal/payments/mongodb_repository.go (Orders, Payments,
--                                 Subscriptions, Webhooks, Outbox), internal/idempotency (Keys) and
--                                 internal/plans (Plans); the unique indexes are those of
--                                 internal/platform/mongodb
--   Stored/Backing                the services of Payments on top of the repository for orders
--   Redis, CheckoutStore          the Redis client in the same way, and internal/checkout/redis_store.go
--   Whatsapp                      internal/whatsapp: types.go; Store (mongodb_repository.go), Intake
--                                 (service.go), Handler (internal_handler.go), Edge (public_handler.go
--                                 and forward.go)
--   Leads                         internal/leads: types.go; Service (service.go, notifier.go,
--                                 mongodb_repository.go), Handler (handler.go)
--   Tenants, Stored/Tenants       internal/tenants: handler.go and mongodb_repository.go
--   Relay                         internal/webhookrelay: handler.go, with the throttle's decision as an
--                                 argument
--   Tests                         the theorems at concrete inputs
--
-- Functions keep the source's names in snake_case. A function of the source that is long is split at its
-- numbered steps, and the comment above each part names the step. `x ← ask c` is a call whose error ends the
-- function, `wrap` is fmt.Errorf with %w, `attempt` hands the error to the function, and `deferring` is
-- defer. Error messages and log lines are left out.
--
-- Numbers: an int64 amount is an integer, since amounts are only compared and copied; times are
-- nanoseconds from Go's zero time on, as natural numbers, and a time that is written to MongoDB is cut to
-- the millisecond of a BSON date (`bson_date` of Stored/Results), but for keys and plans, whose times are
-- taken as BSON dates from the start; int counters are natural numbers. No function
-- needs fuel: the loops are over lists, and each program is a finite tree of calls.
--
-- Under a lock means, for the services, between the call that took it and the call that releases it. In
-- Redis a lock expires by itself; CheckoutStore/Locks says until when it keeps others out. A run of a
-- service that takes longer than that is not related to the time of its locks.
--
-- Not modelled: the throttle of the relay (its steps interleave without a lock), its settings and its HTTP
-- client; the administration of organizations,
-- catalog and packages; the token from the metadata server in internal/whatsapp/forward.go; the Pub/Sub
-- publisher, documentation and seeds; and the wiring in cmd and internal/platform, of which only the
-- limiter, the unique indexes and the expiry of idempotency keys and dedupe records are here.
pub mod Prelude
pub mod Text
pub mod Checkout
pub mod Idempotency
pub mod Tenancy
pub mod Errors
pub mod Runtime
pub mod Payments
pub mod Effects
pub mod Ratelimit
pub mod Protection
pub mod Cleanup
pub mod Relay
pub mod Mongo
pub mod Stored
pub mod Redis
pub mod CheckoutStore
pub mod Whatsapp
pub mod Leads
pub mod Tenants
pub mod Recreate
pub mod Tests
