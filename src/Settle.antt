-- ===== src/Settle.antt =====
-- payments-x402/src/server: settling a verified payment once.
pub mod Store
pub mod Attempt
mod Tests
