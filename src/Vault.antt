-- ===== src/Vault.antt =====
-- pignus/vault.py: `VaultSpender`, the four exits of a loan, up to the unsigned transaction. The
-- wallet's signature, the witness bytes and the transaction codec are other programs' code and are
-- left out; what the exits read of a node is an argument.
pub mod Spender
pub mod Change
pub mod Exits
pub mod Steps
pub mod Balance
pub mod Outputs
pub mod Gates
mod Tests
pub mod Evidence
