-- ===== src/Stored.antt =====
-- The MongoDB repositories: internal/checkout/mongodb_repository.go, the adapters of
-- internal/payments/mongodb_repository.go, internal/idempotency/mongodb_repository.go and
-- internal/plans/mongodb_repository.go. Each method is a call of the driver and what is made of its
-- outcome; the unique indexes are those that internal/platform/mongodb creates at the start.
pub mod Orders
pub mod Payments
pub mod Subscriptions
pub mod Webhooks
pub mod Outbox
pub mod Keys
pub mod Plans
pub mod Tenants
pub mod Backing
pub mod Results
