-- ===== src/ActionExecutor.antt =====
-- action_executor/: the headers that carry a proof of intent, the email, and the executor's guards.
pub mod PoiEncoding
pub mod SmtpAction
pub mod Executor
mod Tests
