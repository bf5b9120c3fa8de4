-- ===== src/Repurchase.antt =====
-- pignus/repurchase.py: a sale of a restricted asset with a bond for selling it back. The covenant
-- builder, which compiles terms to an address, and the transaction codec are other programs' code:
-- the address is a parameter and transactions are read as decoded. Assets are only compared, so
-- numbers stand for them, and a node's amounts are in atoms.
pub mod Terms
pub mod Coins
pub mod Sane
pub mod Scan
pub mod Funded
pub mod LegOne
pub mod Standing
pub mod Settle
pub mod Shape
pub mod Inspect
pub mod Paid
pub mod Signing
pub mod Composed
pub mod Roundtrip
mod Tests
