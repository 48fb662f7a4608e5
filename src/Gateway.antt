-- ===== src/Gateway.antt =====
-- The API gateway (mini-banking-app/api-gateway/src).
pub mod Http
pub mod Redis
pub mod World
pub mod RateLimiter
pub mod ErrorHandler
pub mod Activation
pub mod Otp
pub mod Audit
pub mod Report
pub mod Mock
pub mod Relay
pub mod Register
pub mod CaAdmin
pub mod AdminActivate
pub mod Timeline
