-- ===== src/Tests.antt =====
-- Tests: the theorems at concrete inputs, and the operations on concrete data.
pub mod Data
pub mod Pricing
pub mod Lifecycle
pub mod Edits
pub mod Dedup
pub mod Validated
pub mod Errors
pub mod Webhook
pub mod Client
pub mod Session
pub mod Parser
pub mod Coordinator
