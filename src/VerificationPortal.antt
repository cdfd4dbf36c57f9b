-- ===== src/VerificationPortal.antt =====
-- verification_portal/backend/: the evidence that is kept of an action, and the six links that are
-- checked. The email parser, pydantic's JSON reader, the verifier of RFC 3161 tokens, and how Python
-- prints a text or an exception are the parameter `Environment`.
pub mod Models
pub mod Links
pub mod Signatures
pub mod Pipeline
pub mod EvidenceStore
mod Tests
