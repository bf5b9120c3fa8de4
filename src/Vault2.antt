-- ===== src/Vault2.antt =====
-- pignus/vault2.py: the terms of a version 2 loan, the liquidation it proposes and the liquidation
-- rule it follows. The vault program and its mirror of the rule are the vendored contracts', so the
-- rule is a parameter with what its documentation says.
pub mod Terms
pub mod Create
pub mod Formed
pub mod Created
pub mod Signers
pub mod Lower
pub mod Again
pub mod Rule
pub mod Plan
pub mod Proposal
pub mod Accepted
pub mod Spend
mod Tests
mod TermsTests
