-- ===== src/Authorization.antt =====
-- core/src/authorization: what a principal allows an agent to spend, and the verdict on one payment.
pub mod Names
pub mod Types
pub mod Validate
pub mod Spend
pub mod Compile
mod Tests
