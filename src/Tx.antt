-- ===== src/Tx.antt =====
-- The transaction monitor, packages/wallet-engine/src/tx-monitor: its types, the poller, and the
-- monitor that turns the poller's reports into events.
pub mod Types
pub mod Keys
pub mod History
pub mod Poller
pub mod Poll
pub mod Monitor
