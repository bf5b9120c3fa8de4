-- ===== src/Watcher2/Owed.antt =====
-- Proofs on what a loan owes by the record that `reconcile_loan` of pignus/watcher2.py leaves.
use pignus.Prelude.{◌+◌, ◌≤◌, ◌≡◌, refl, some, List, [], ◌∷◌, Text, ok}
use pignus.Vault2.Terms.{V2Terms, State}
use pignus.Vault2.Spend.Line.{Line}
use pignus.Watcher2.{Node}
use pignus.Watcher2.Loan.{Step, VaultCoin, Loan, reconcile_loan, Reconciled, ghost}
use pignus.Watcher2.Kept.{IsLine, paid_along}
use pignus.Watcher2.Run.{HasRun, nothing_left, went_on, opened_again, reconcile_loan-HasRun}
use pignus.Watcher2.Sound.{settle-eqs}

module _ (vault_spk : V2Terms → State → Text) (leaf : Text) (node : Node) where
  HasRun-terms :
      (rec : Loan) (out : Reconciled) → HasRun vault_spk leaf node rec out → out.0.terms ≡ rec.terms
  HasRun-terms rec _ (nothing_left all_gone opening_gone) = refl
  HasRun-terms rec _ (went_on s line all more is ran) = (settle-eqs rec all).1
  HasRun-terms rec _ (opened_again s line all more is again ran) =
      (settle-eqs (record rec { line = []; state = some ghost }) all).1

  pub reconcile_loan-terms :
      (rec : Loan) {out : Reconciled}
      → reconcile_loan vault_spk leaf node rec ≡ ok out
      → out.0.terms ≡ rec.terms
  reconcile_loan-terms rec {out} e =
      HasRun-terms rec out (reconcile_loan-HasRun vault_spk leaf node rec out e)

  -- What the record of an open loan tells after a reconciliation, whose line is `s ∷ line`, with the
  -- opening coin and the one that holds the vault now. Each step of the line was read off a transaction
  -- of the step's id, by the input that spends the coin that the step before left.
  pub record IsOwed (t : V2Terms) (rec : Loan) (opening s : Step) (line : List Step)
      (o c : VaultCoin) : Type 0 where
    pub steps : IsLine vault_spk leaf t opening (s ∷ line)
    pub at_script : c.spk ≡ vault_spk t (rec.debt, rec.last_time)
    pub total : rec.debt + paid_along vault_spk leaf t opening steps ≡ o.debt
    pub still : 1 ≤ o.debt → 1 ≤ rec.debt
