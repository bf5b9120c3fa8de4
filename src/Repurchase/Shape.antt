-- ===== src/Repurchase/Shape.antt =====
-- What a composed settlement is: proofs on `compose_settlement` of pignus/repurchase.py.
use pignus.Prelude.{
  ◌∷◌, ◌&&◌, ℕ, ◌+◌, ◌-◌, ◌≤◌, ◌≡◌, ◌≢◌, ◌↔◌, inl, inr, [], Text, ltb, length, is_empty, ◌==◌, ok,
  Bool-cases, Result-cases, arith,
}
use pignus.Tx.{Tx}
use pignus.Vault.Spender.{payout_spk}
use pignus.Repurchase.Terms.{RepurchaseTerms, IsProgram, IsSane}
use pignus.Repurchase.Sane.{IsSane-bond}
use pignus.Repurchase.Settle.{
  RepurchaseSpender, Scripts, spks, held, Parts, check_parts, change_and_fee, settlement_outs,
  settlement_tx, compose_settlement, check_settlement,
}

-- What the guards ask of the parts.
pub record IsSettleable (s : RepurchaseSpender) (p : Parts) : Type 0 where
  pub fee_in_debt : s.fee_asset ≡ s.terms.debt_asset
  pub holds_collateral : p.cu_lender.asset ≡ s.terms.collateral_asset
  pub pays_debt : p.debt_input.asset ≡ s.terms.debt_asset
  pub verifier_not_collateral : p.verifier.asset ≢ s.terms.collateral_asset
  pub verifier_not_debt : p.verifier.asset ≢ s.terms.debt_asset
  pub verifier_scripted : p.verifier_spk ≢ []
  pub exact : p.cu_lender.amount ≡ s.terms.collateral_amount
  pub covered : s.terms.debt + s.fee_amount ≤ p.debt_input.amount

-- What a composed settlement is composed of.
pub record IsSettlement (s : RepurchaseSpender) (p : Parts) (tx : Tx) : Type 0 where
  pub settleable : IsSettleable s p
  pub to : Scripts
  pub rest : ℕ
  pub fee : ℕ
  pub h : ℕ
  pub scripts : spks s.terms ≡ ok to
  pub holds : held s.terms p.bond_coin.amount ≡ ok h
  pub adds_up : s.terms.debt + rest + fee ≡ p.debt_input.amount
  pub fee_least : s.fee_amount ≤ fee
  pub no_dust : 1 ≤ rest → s.dust_fold ≤ rest
  pub composed : tx ≡ settlement_tx s.terms p to h rest fee

check_parts_iff :
    (s : RepurchaseSpender) (p : Parts)
    → check_parts s p ≡ ok tt
    → s.terms.debt + s.fee_amount ≤ p.debt_input.amount
    → IsSettleable s p
unfolding check_parts
check_parts_iff s p e covered = elim (Bool-cases (is_empty p.verifier_spk)) [
  | inl missing ↦ absurd (ground arith)
  | inr there ↦ record {
    fee_in_debt = ground arith;
    holds_collateral = ground arith;
    pays_debt = ground arith;
    verifier_not_collateral = ground arith;
    verifier_not_debt = ground arith;
    verifier_scripted = ground arith;
    exact = ground arith;
    covered = covered;
  }
]

check_parts-eq-ok : (s : RepurchaseSpender) (p : Parts) → IsSettleable s p → check_parts s p ≡ ok tt
unfolding check_parts
check_parts-eq-ok s p w =
    let a = w.fee_in_debt in
    let b = w.holds_collateral in
    let c = w.pays_debt in
    let d = w.verifier_not_collateral in
    let e = w.verifier_not_debt in let f = w.verifier_scripted in let g = w.exact in ground arith

change_and_fee-eq-ok :
    (s : RepurchaseSpender) (amount : ℕ) {rest fee : ℕ}
    → change_and_fee s amount ≡ ok (rest, fee)
    → (s.terms.debt + rest + fee ≡ amount) × (s.fee_amount ≤ fee) × (1 ≤ rest → s.dust_fold ≤ rest)
unfolding change_and_fee
change_and_fee-eq-ok s amount e = (ground arith, ground arith, λ h. ground arith)

change_and_fee_total :
    (s : RepurchaseSpender) (amount : ℕ)
    → s.terms.debt + s.fee_amount ≤ amount
    → (r : ℕ × ℕ) × (change_and_fee s amount ≡ ok r)
unfolding change_and_fee
change_and_fee_total s amount h =
    let rest = amount - (s.terms.debt + s.fee_amount) in
    elim (Bool-cases (ltb 0 rest && ltb rest s.dust_fold)) [
      | inl folds ↦ ((0, s.fee_amount + rest), ground arith)
      | inr stays ↦ ((rest, s.fee_amount), ground arith)
    ]

-- A program that passed the terms' checks has a script.
payout_spk_total :
    (prog : Text) (ver : ℕ) → IsProgram prog ver → (spk : Text) × (payout_spk ver prog ≡ ok spk)
unfolding payout_spk
payout_spk_total prog ver w =
    let found = w.decodes in
    elim w.payable [
      | inl (v, n) ↦ (0x00 ∷ 0x14 ∷ w.bytes, ground arith)
      | inr (v, n) ↦ (0x51 ∷ 0x20 ∷ w.bytes, ground arith)
    ]

pub spks_total : (t : RepurchaseTerms) → IsSane t → (to : Scripts) × (spks t ≡ ok to)
unfolding spks
spks_total t sane =
    let (cu, a) = payout_spk_total t.borrower_cu 1 sane.cu in
    let (lender, b) = payout_spk_total t.lender_prog t.lender_ver sane.lender in
    let (borrower, c) = payout_spk_total t.borrower_prog t.borrower_ver sane.borrower in
    (record { cu = cu; lender = lender; borrower = borrower }, ground arith)

pub held_total : (t : RepurchaseTerms) (n : ℕ) → IsSane t → (h : ℕ) × (held t n ≡ ok h)
unfolding held
held_total t n sane =
    let bonded = IsSane-bond t sane in
    elim (Bool-cases (n == 0)) [
      | inl unsaid ↦ (t.collateral_value - t.debt, ground arith)
      | inr said ↦ (n, ground arith)
    ]

-- Six outputs at most, with the fee's.
settlement_fits :
    (t : RepurchaseTerms) (p : Parts) (to : Scripts) (h rest : ℕ)
    → check_settlement 4 (length (settlement_outs t p to h rest) + 1) ≡ ok tt
unfolding check_settlement settlement_outs
settlement_fits t p to h rest = ground arith

pub compose_settlement-IsSettlement :
    (s : RepurchaseSpender) (p : Parts) {tx : Tx}
    → compose_settlement s p ≡ ok tx
    → IsSettlement s p tx
unfolding compose_settlement
compose_settlement-IsSettlement s p {tx} e = elim (Result-cases (check_parts s p)) [
  | inl (x, bad) ↦ absurd (ground arith)
  | inr (tt, good) ↦ elim (Result-cases (change_and_fee s p.debt_input.amount)) [
    | inl (x, bad) ↦ absurd (ground arith)
    | inr ((rest, fee), left) ↦ elim (Result-cases (spks s.terms)) [
      | inl (x, bad) ↦ absurd (ground arith)
      | inr (to, scripts) ↦ elim (Result-cases (held s.terms p.bond_coin.amount)) [
        | inl (x, bad) ↦ absurd (ground arith)
        | inr (h, holds) ↦
            let (adds_up, fee_least, no_dust) =
              change_and_fee-eq-ok s p.debt_input.amount {rest = rest} {fee = fee} left in
            let fits = settlement_fits s.terms p to h rest in
            record {
              settleable = check_parts_iff s p good (omega arith);
              to = to;
              rest = rest;
              fee = fee;
              h = h;
              scripts = scripts;
              holds = holds;
              adds_up = adds_up;
              fee_least = fee_least;
              no_dust = no_dust;
              composed = ground arith;
            }
      ]
    ]
  ]
]

-- With sane terms, a settlement is composed exactly when its parts are what the guards ask: the fee
-- in the debt asset, the lender's coin of exactly the collateral, a verifier of another asset with a
-- script, and a debt input that covers the debt and the fee. The shape's bounds never refuse it.
pub compose_settlement_iff :
    (s : RepurchaseSpender) (p : Parts)
    → IsSane s.terms
    → ((tx : Tx) × (compose_settlement s p ≡ ok tx)) ↔ IsSettleable s p
unfolding compose_settlement
compose_settlement_iff s p sane = (
  λ (tx, e). (compose_settlement-IsSettlement s p e).settleable,
  λ w.
      let good = check_parts-eq-ok s p w in
      let ((rest, fee), left) = change_and_fee_total s p.debt_input.amount w.covered in
      let (to, scripts) = spks_total s.terms sane in
      let (h, holds) = held_total s.terms p.bond_coin.amount sane in
      let fits = settlement_fits s.terms p to h rest in
      (settlement_tx s.terms p to h rest fee, ground arith),
)
