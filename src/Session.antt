-- ===== src/Session.antt =====
-- app/services/session_service.py: sessions in the store, under the identities of their customers.
pub mod Identity
pub mod Canonical
pub mod Service
pub mod Saving
pub mod Saved
