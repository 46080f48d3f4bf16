-- ===== src/Client.antt =====
-- app/services/whatsapp_service.py: the client of the provider's Graph API.
pub mod Split
pub mod Boundary
pub mod Rounds
pub mod Parts
pub mod Sending
pub mod Loop
pub mod Delivery
pub mod Documents
pub mod Refused
