-- ===== src/Lib.antt =====
-- The verification of mini-banking-app: the API gateway (mini-banking-app/api-gateway) and the security
-- services of the web client (mini-banking-app/frontend).
--
-- The gateway stands between the browser and three services that it reaches by gRPC: a CA, a KDC and a
-- Bank. It vets a customer by a one-time password, has the CA certify the key and the Bank open the
-- account, activates administrators, limits requests, maps errors, and collects audit events. The
-- browser builds its certificate request in DER, verifies chains of certificates to a root, and holds
-- the keys of its Kerberos-like sessions.
--
-- Which file models which part:
--   Common        shared names, lists over native numbers, Boolean tests, decimal and ASCII texts;
--                 Common/Exec is code with a state that may throw, Common/Result code that may throw;
--                 Common/Sort is a stable sort by a key, Common/Split cuts and joins texts.
--   Pki/Asn1, Pki/Builder
--                 frontend/src/services/pki-registration/asn1.ts: encodeLength, tlv, der.
--   Pki/Der       frontend/src/services/chain-verify.ts: readTlv, children, decodeOid; proofs in
--                 Pki/Der/ReadTlv and Pki/Der/Children.
--   Pki/Chain     the same file: verifySignedBy, assertValidityWindow, verifyChainToRoot; proofs in
--                 Pki/Chain/Trust.
--   Pki/Pem, Pki/Names, Pki/Certificate
--                 the same file: pemBlocks, parseAsn1Time and parseName, parseCert and verifyChainToRoot
--                 from the PEM text; proofs in Pki/Certificate/Signed.
--   Pki/Nodes, Pki/OwnerId
--                 frontend/src/services/as-exchange/cert.parser.ts: the second DER reader with its
--                 search for an extension, and the owner's id; proofs in Pki/Nodes/Reader and
--                 Pki/Nodes/Search.
--   Gateway/Http, Gateway/Redis, Gateway/World
--                 answers and exceptions, the commands of Redis with their laws, and the state of the
--                 handlers: Redis, the audit trail and the queue of mails.
--   Gateway/RateLimiter
--                 api-gateway/src/middleware/rateLimiter.ts; proofs in Gateway/RateLimiter/Window.
--   Gateway/Otp   api-gateway/src/controller/otp.controller.ts; proofs in Gateway/Otp/Verify for one
--                 verification and Gateway/Otp/Attempts for several.
--   Gateway/Register
--                 api-gateway/src/controller/ca.controller.ts, handleRegister; proofs in
--                 Gateway/Register/Compensation and Gateway/Register/SingleUse.
--   Gateway/ErrorHandler
--                 api-gateway/src/middleware/errorHandler.ts; proofs in Gateway/ErrorHandler/Statuses.
--   Gateway/Activation
--                 api-gateway/src/services/admin-activation.service.ts and models/bank-admin.ts; proofs
--                 in Gateway/Activation/Lifecycle and Gateway/Activation/Provisions.
--   Gateway/Relay api-gateway/src/controller/kdc.controller.ts, and handleTransfer and handleProfile of
--                 bank.controller.ts; proofs in Gateway/Relay/Answers.
--   Gateway/Audit api-gateway/src/lib: Semantics is audit-semantics.ts, with proofs in
--                 Semantics/Outcomes; Fetch is audit-fetch.ts, with proofs in Fetch/Paging and the reading
--                 of a request in Fetch/Request.
--   Gateway/Report
--                 api-gateway/src/controller/admin-audit-report.controller.ts: Collected gathers the
--                 events, Summary counts them (proofs in Summary/Counters and Summary/Totals), Csv writes
--                 them (Csv/Reader reads them back), Handlers are the routes.
--   Gateway/Timeline
--                 api-gateway/src/controller/admin-timeline.controller.ts; proofs in
--                 Gateway/Timeline/Merged.
--   Gateway/CaAdmin
--                 api-gateway/src/services/admin-ca.service.ts, requireAdminRole of
--                 middleware/admin.middleware.ts, and the certificate routes of ca.controller.ts; proofs
--                 in Gateway/CaAdmin/Vouched and Gateway/CaAdmin/Roles. The certificate routes are
--                 Gateway/CaAdmin/Certificates, with proofs in Certificates/Relayed.
--   Gateway/AdminActivate
--                 handleAdminCaActivate of ca.controller.ts and handleAdminActivate of
--                 admin-bank.controller.ts; proofs in Gateway/AdminActivate/Issues.
--   Gateway/Mock  a Redis for the examples, which meets all laws of Gateway/Redis.
--   Client/Sessions
--                 frontend/src/services/as-exchange/session.ts and tgs-exchange/session.ts; proofs in
--                 Client/Sessions/Zeroing for one call and Client/Sessions/Erasure for any sequence.
--   Client/Tgs    frontend/src/services/tgs-exchange/tgs-exchange.service.ts; proofs in
--                 Client/Tgs/Replies.
--   Client/As     frontend/src/services/as-exchange/as-exchange.service.ts; proofs in Client/As/Authentic.
--   Client/BankMessages, Client/Bank
--                 frontend/src/services/bank: what is sent and received, and the calls for a transfer, the
--                 history and the profile; proofs in Client/Bank/Confirmed and Client/Bank/Canonical.
--   Tests         runs at concrete inputs.
--
-- How code is written here: an async function is a state transformer that returns or throws, and keeps
-- what was written before a throw. Bytes are numbers below 256 in a list. Redis, gRPC services, JWT,
-- WebCrypto, HMAC, JSON, base64, clocks and random values are arguments. Requests run one at a time:
-- two handlers that interleave at an await are not modelled.
--
-- Loops and fuel: `children` takes the parent's end as fuel, since each round reads a byte; the loop of
-- `encodeLength` takes the length itself, which a division by 256 lowers; a fetch of audit events takes
-- one more than the cap, since a page that is not the last one adds events; the search for an extension
-- takes one more than the bytes, since each turn leaves out two at least.
--
-- Not modelled: certificatePemToJson and the registration of a key in the browser (csr.ts), the cookie
-- and the queries of the Bank's administration, the CA's audit list, request validation (zod), mail and
-- queues, generated gRPC code, the user interface, and the services written in Go.
pub mod Common
pub mod Pki
pub mod Gateway
pub mod Client
pub mod Tests
