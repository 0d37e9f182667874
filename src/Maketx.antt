-- ===== src/Maketx.antt =====
-- backend/coins/btc/maketx: building an unsigned transaction from the wallet's coins.
pub mod Types
pub mod Size
pub mod Fee
pub mod Selection
pub mod Propose
mod Tests
