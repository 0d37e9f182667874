-- ===== src/Headers.antt =====
-- backend/coins/btc/headers and backend/coins/btc/db/headersdb: downloading and checking the chain
-- of block headers.
pub mod Db
pub mod Net
pub mod Target
pub mod Connect
pub mod Sync
mod Tests
