-- ===== src/Voucher.antt =====
-- Channel voucher keys, packages/core/src/session-keys/channel-voucher-keys.ts, with the voucher
-- message of packages/core/src/solana-channel.ts and the address test of
-- packages/core/src/address-validation.ts.
pub mod Message
pub mod Types
pub mod Address
pub mod Manager
