-- ===== src/Transactions.antt =====
-- backend/coins/btc/transactions and backend/coins/btc/db/transactionsdb: the index of an account's
-- transactions.
pub mod Db
pub mod Index
pub mod Queries
pub mod Balance
pub mod Indexed
pub mod Stored
pub mod Process
pub mod Removal
pub mod Updates
pub mod Details
pub mod Shown
pub mod GapLimits
pub mod Verification
mod Tests
