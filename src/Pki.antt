-- ===== src/Pki.antt =====
-- The public-key part of the client: DER, certificates and chains.
pub mod Asn1
pub mod Builder
pub mod Der
pub mod Chain
pub mod Pem
pub mod Names
pub mod Certificate
pub mod Nodes
pub mod OwnerId
