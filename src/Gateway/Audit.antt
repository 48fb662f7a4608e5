-- ===== src/Gateway/Audit.antt =====
-- mini-banking-app/api-gateway/src/lib: the meaning of audit events and how they are fetched.
pub mod Semantics
pub mod Fetch
