-- ===== src/Session.antt =====
-- core/src/session-keys: keys that sign EVM transactions within a scope.
pub mod Types
pub mod Number
pub mod Token
pub mod Check
pub mod Store
pub mod Sign
pub mod Passed
pub mod Budget
pub mod TypedData
pub mod Delegation
pub mod Create
pub mod Manager
mod Tests
