-- ===== src/Tests.antt =====
-- Runs at concrete inputs: each theorem applied to values that meet its conditions.
mod OtpRuns
mod ActivationRuns
mod PkiRuns
mod GatewayRuns
mod RegisterRuns
mod ClientRuns
mod RelayRuns
mod AdminRuns
mod BankRuns
mod CertificateRuns
mod ReportRuns
