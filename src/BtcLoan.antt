-- ===== src/BtcLoan.antt =====
-- `BtcLoan` of pignus/btc_collateral.py, the loan against Bitcoin on its own chain.
use pignus.Prelude.{ℕ, ◌+◌, Text}
pub mod Timelocks
pub mod Safe
pub mod Spends
pub mod Opened
pub mod Signed
pub mod Started
pub mod Swept
pub mod Seize
pub mod Seized
pub mod Requested
pub mod Judged
mod Tests
mod SeizeTests

-- `BtcLoan`; amounts of bitcoin in satoshis, deadlines as block heights of their chains.
pub record BtcLoan : Type 0 where
  pub btc_amount : ℕ
  pub borrower_x : Text
  pub lender_x : Text
  pub oracle_x : Text
  pub recover_after : ℕ
  pub debt_asset : Text
  pub debt : ℕ
  pub repay_deadline : ℕ
  pub payment_hash : Text
  pub adaptor_point : Text
  pub principal : ℕ
  pub h_w : Text
  pub abort_after : ℕ
  pub upgrade_fee : ℕ
  pub d_refund : ℕ
  pub market : Text
  pub strike : ℕ
  pub price_scale : ℕ
  pub borrower_prog : Text
  pub borrower_ver : ℕ
  pub lender_prog : Text
  pub lender_ver : ℕ

-- `BtcLoan.prevault_value`
unfoldable pub prevault_value : BtcLoan → ℕ
prevault_value loan = loan.btc_amount + loan.upgrade_fee
