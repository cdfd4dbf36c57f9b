-- ===== src/VerifierService.antt =====
-- verifier_service/: the models, the two stores, and the verification of signed envelopes.
pub mod Models
pub mod NonceStore
pub mod Verifier
pub mod PubkeyStore
pub mod Database
pub mod Server
