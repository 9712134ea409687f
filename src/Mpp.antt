-- ===== src/Mpp.antt =====
-- packages/payments-mpp: the client that pays a metered service by vouchers of a channel.
pub mod Types
pub mod Mint
pub mod Request
pub mod Client
mod Tests
