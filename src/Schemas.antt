-- ===== src/Schemas.antt =====
-- app/schemas: the data that the components exchange and store.
pub mod Product
pub mod Rules
pub mod Quotation
pub mod Session
pub mod Whatsapp
