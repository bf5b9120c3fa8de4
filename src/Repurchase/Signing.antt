-- ===== src/Repurchase/Signing.antt =====
-- Proofs on what a lender who signs an inspected settlement gets, and on inspecting what
-- `compose_settlement` of pignus/repurchase.py composes.
use pignus.Prelude.{◌≡◌, List, [], ◌∷◌, Text, ok}
use pignus.Tx.Totals.{total_out}
use pignus.Vault.Spender.{payout_spk}
use pignus.Repurchase.Terms.{RepurchaseTerms}
use pignus.Repurchase.Inspect.{RawTx, Prevout, Summary, Places, explicit_outs, keyed, summary_of}
use pignus.Repurchase.Paid.{IsPaid, outputs_of}

-- A settlement that was judged without a problem.
pub record IsJudged (t : RepurchaseTerms) (address : Text) (tx : RawTx) (prevouts : List Prevout)
    (summary : Summary) : Type 0 where
  pub w : Places
  pub cu : Text
  pub lender : Text
  pub cu_script : payout_spk 1 t.borrower_cu ≡ ok cu
  pub lender_script : payout_spk t.lender_ver t.lender_prog ≡ ok lender
  pub explicit : explicit_outs tx.outs ≡ ok (outputs_of w)
  pub spends : keyed prevouts ≡ ok (w.verifier_in ∷ w.bond_in ∷ w.collateral_in ∷ w.debt_in ∷ [])
  pub promised : IsPaid t address cu lender w
  pub all_home : total_out t.collateral_asset (outputs_of w) ≡ t.collateral_amount
  pub told : summary ≡ summary_of cu lender w tx.locktime
