-- ===== src/Signing.antt =====
-- backend/signing: keypaths as text and as numbers, and signing configurations.
pub mod Text
pub mod Decimal
pub mod Keypath
pub mod Configuration
mod Tests
