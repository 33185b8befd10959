-- ===== src/Tests.antt =====
-- The theorems at concrete inputs.
pub mod World
pub mod Memory
pub mod Payments
pub mod Helpers
pub mod Platform
pub mod Server
pub mod Stores
pub mod Capture
pub mod Middlewares
