-- ===== src/Repurchase/Composed.antt =====
-- Proofs on a composed settlement of pignus/repurchase.py: what it moves, and how it is judged.
use pignus.Prelude.{ℕ, ◌+◌, ◌≤◌, ◌≡◌, inl, inr, [], ◌∷◌, ◌++◌, ltb, ok, Bool-cases, arith, ◌∙◌}
use pignus.Tx.{Tx, fee_output}
use pignus.Tx.Totals.{total_in, total_out, counted}
use pignus.Repurchase.Terms.{RepurchaseTerms}
use pignus.Repurchase.Settle.{
  RepurchaseSpender, Parts, Scripts, held, settlement_outs, settlement_tx, compose_settlement,
}
use pignus.Repurchase.Shape.{compose_settlement-IsSettlement}

-- A bond coin that holds something counts whole.
pub held-eq : (t : RepurchaseTerms) (n : ℕ) {h : ℕ} → 1 ≤ n → held t n ≡ ok h → h ≡ n
unfolding held
held-eq t n one e = ground arith

outs_total :
    (t : RepurchaseTerms) (p : Parts) (to : Scripts) (h rest fee a : ℕ)
    → total_out a (settlement_outs t p to h rest ++ fee_output t.debt_asset fee ∷ [])
      ≡ counted a p.verifier.asset p.verifier.amount
        + counted a t.collateral_asset t.collateral_amount
        + counted a t.debt_asset (t.debt + h + rest + fee)
unfolding settlement_outs total_out
outs_total t p to h rest fee a = elim (Bool-cases (ltb 0 rest)) [
  | inl more ↦ ground arith
  | inr whole ↦ ground arith
]

counted_split :
    (a b debt h rest fee d : ℕ)
    → debt + rest + fee ≡ d
    → counted a b (debt + h + rest + fee) ≡ counted a b h + counted a b d
counted_split a b debt h rest fee d e = ground arith

-- Whenever a settlement is composed from a bond coin that holds something, in the debt asset, its
-- outputs pay out exactly what its four inputs bring, in every asset.
pub compose_settlement_balances :
    (s : RepurchaseSpender) (p : Parts) {tx : Tx}
    → compose_settlement s p ≡ ok tx
    → p.bond_coin.asset ≡ s.terms.debt_asset
    → 1 ≤ p.bond_coin.amount
    → (a : ℕ) → total_out a tx.outs ≡ total_in a tx.inputs
unfolding settlement_tx total_in
compose_settlement_balances s p {tx} e asset some_bond a =
    let w = compose_settlement-IsSettlement s p e in
    let whole = held-eq s.terms p.bond_coin.amount some_bond w.holds in
    let sum = outs_total s.terms p w.to w.h w.rest w.fee a in
    let c = w.settleable.holds_collateral in
    let d = w.settleable.pays_debt in
    let exact = w.settleable.exact in
    let adds = w.adds_up in
    let split =
      counted_split a s.terms.debt_asset s.terms.debt w.h w.rest w.fee p.debt_input.amount adds in
    rw (w.composed) (sum ∙ rw (asset, c, d, exact, ← whole) (omega (arith, split)))
