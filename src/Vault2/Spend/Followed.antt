-- ===== src/Vault2/Spend/Followed.antt =====
-- Proofs on `follow` of pignus/vault2.py after `compose_repay`.
use pignus.Prelude.{
  ℕ, ◌+◌, ◌-◌, ◌≤◌, ◌≡◌, refl, sym, ap, false, Option, none, some, List, [], ◌∷◌, Text, ltb, min,
  if◌then◌else◌, ok, Bool-cases, Result-cases, inl, inr, arith, codes, ◌∙◌,
}
use mathlib.Core.Path.{subst}
use pignus.Vault2.Terms.{V2Terms}
use pignus.Vault2.Spend.{Coin, Out, SpendTx, World, fee_for, wallet_coins, vault_spend, repay_path}
use pignus.Vault2.Spend.Compose.{Summary, repay_of, next_state, repay_first, compose_repay}
use pignus.Vault2.Spend.Follow.{closing, repay, repaid, liquidated, follow, spends_beacon}
use pignus.Vault2.Spend.Reads.{
  seen, decoded, IsSpelled, out_of, out-eq-ok, fee-eq-ok, moved_repay, moved_closed,
}
use pignus.Vault2.Spend.Held.{
  IsFollowable, reading_of, IsOfVault, vault_spend-IsOfVault, successor_apart, borrower_apart,
  read_moved, IsOfVault-here,
}

module _ (w : World) (leaf : Text) (t : V2Terms) (known : IsFollowable w t) (debt last : ℕ)
    (vcoin : Coin) (change_spk : Text) (feerate : Option ℕ) (stacks : List (List Text)) where
  repay_first-IsSpelled : (amount : ℕ) → IsSpelled (repay_first w t (debt, last) amount)
  unfolding repay_first
  repay_first-IsSpelled amount = elim (Bool-cases (ltb amount debt)) [
    | inl part ↦ rw part (known.derived (debt - amount, last))
    | inr whole ↦ rw whole known.borrower
  ]

  abbrev repay_outs : ℕ → ℕ → List Out
  repay_outs amount charged =
      out_of vcoin.amount (repay_first w t (debt, last) amount) t.collateral_asset
      ∷ out_of amount t.lender_spk t.debt_asset
      ∷ out_of charged [] t.debt_asset
      ∷ []

  compose_repay-eq-ok :
      (asked : ℕ) {tx : SpendTx} {summary : Summary}
      → compose_repay w t (debt, last) vcoin asked change_spk feerate ≡ ok (tx, summary)
      → (1 ≤ asked)
        × (charged : ℕ) × (summary
            ≡ repay_of
                (debt, last)
                (next_state debt (min asked debt) last)
                (min asked debt)
                charged)
        × IsOfVault w leaf t known debt last vcoin stacks tx (repay_outs (min asked debt) charged) 0
  unfolding compose_repay
  compose_repay-eq-ok asked {tx} {summary} e =
      let amount = min asked debt in
      let first =
        out-eq-ok vcoin.amount (repay_first w t (debt, last) amount) t.collateral_asset
          (repay_first-IsSpelled amount) known.collateral in
      let paid = out-eq-ok amount t.lender_spk t.debt_asset known.lender known.debt in
      elim (Result-cases (fee_for w t.debt_asset (codes "repay") feerate)) [
        | inl (x, bad) ↦ absurd (ground arith)
        | inr (charged, f) ↦ elim (Result-cases (wallet_coins w t.debt_asset (amount + charged))) [
          | inl (x, bad) ↦ absurd (ground arith)
          | inr (coins, c) ↦
              let charge = fee-eq-ok charged t.debt_asset known.debt in
              elim (Result-cases (
                vault_spend w t (debt, last) vcoin repay_path (repay_outs amount charged) coins
                  t.debt_asset (amount + charged) change_spk 0 [])) [
                    | inl (x, bad) ↦ absurd (ground arith)
                    | inr (spent, v) ↦
                        let same : spent ≡ tx = ground arith in
                        let told : summary
                            ≡ repay_of (debt, last) (next_state debt amount last) amount charged =
                          ground arith in
                        let is =
                          vault_spend-IsOfVault w leaf t known debt last vcoin stacks change_spk
                            repay_path (repay_outs amount charged) coins t.debt_asset
                            (amount + charged) 0 [] {tx = spent} v in
                        (
                          ground arith,
                          charged,
                          told,
                          subst
                              (λ x.
                                IsOfVault w leaf t known debt last vcoin stacks x
                                  (repay_outs amount charged) 0)
                              same is,
                        )
                  ]
        ]
      ]

  read_repay :
      (amount charged : ℕ) (tx : SpendTx)
      → 1 ≤ amount
      → amount ≤ debt
      → spends_beacon leaf 0 0 stacks ≡ false
      → IsOfVault w leaf t known debt last vcoin stacks tx (repay_outs amount charged) 0
      → follow w.vault_spk leaf t (debt, last) vcoin.spk (decoded tx stacks) 0
        ≡ reading_of repay repaid (next_state debt amount last)
  unfolding repay_first
  read_repay amount charged tx one most quiet is =
      let here =
        IsOfVault-here w leaf t known debt last vcoin stacks tx (repay_outs amount charged) 0 is in
      let first = out_of vcoin.amount (repay_first w t (debt, last) amount) t.collateral_asset in
      let beacon = spends_beacon leaf 0 0 stacks in
      elim (Bool-cases (ltb amount debt)) [
        | inl part ↦
            let goes : repay_first w t (debt, last) amount ≡ w.vault_spk t (debt - amount, last) =
              rw part refl in
            let apart =
              successor_apart w leaf t known debt last vcoin stacks (debt - amount) last here
                (λ (d, l). omega (arith, d, one, most)) in
            let next : next_state debt amount last ≡ some (debt - amount, last) = ground arith in
            read_moved w leaf t known debt last vcoin stacks tx first amount _ 0 is (rw goes apart)
            ∙ moved_repay w.vault_spk leaf t debt last amount 0 (seen first) beacon one
                (ground arith) goes
            ∙ ap (reading_of repay repaid) (sym next)
        | inr whole ↦
            let goes : repay_first w t (debt, last) amount ≡ t.borrower_spk = rw whole refl in
            let next : next_state debt amount last ≡ none = ground arith in
            read_moved w leaf t known debt last vcoin stacks tx first amount _ 0 is
              (rw goes (borrower_apart w leaf t known debt last vcoin stacks here))
            ∙ moved_closed w.vault_spk leaf t debt last amount 0 (seen first) beacon one
                (ground arith)
            ∙ ap (λ b. closing (if b then liquidated else repaid)) quiet
            ∙ ap (reading_of repay repaid) (sym next)
      ]

  -- Following a repayment that is composed while a debt is owed, with no other input spending a
  -- beacon, reads the summary's next state off it: a successor that owes the rest, from the same
  -- time, when less than the debt is repaid, and a repaid vault otherwise.
  pub follow-compose_repay :
      (asked : ℕ) {tx : SpendTx} {summary : Summary}
      → 1 ≤ debt
      → spends_beacon leaf 0 0 stacks ≡ false
      → compose_repay w t (debt, last) vcoin asked change_spk feerate ≡ ok (tx, summary)
      → (charged : ℕ) × (summary
          ≡ repay_of (debt, last) (next_state debt (min asked debt) last) (min asked debt) charged)
        × (follow w.vault_spk leaf t (debt, last) vcoin.spk (decoded tx stacks) 0
            ≡ reading_of repay repaid (next_state debt (min asked debt) last))
  follow-compose_repay asked {tx} {summary} owes quiet e =
      let (one, charged, told, is) = compose_repay-eq-ok asked {tx = tx} {summary = summary} e in
      (
        charged,
        told,
        read_repay (min asked debt) charged tx (omega (arith, one, owes)) (omega arith) quiet is,
      )
