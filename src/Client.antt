-- ===== src/Client.antt =====
-- The sessions that the browser holds: mini-banking-app/frontend/src/services.
pub mod Sessions
pub mod Tgs
pub mod As
pub mod BankMessages
pub mod Bank
