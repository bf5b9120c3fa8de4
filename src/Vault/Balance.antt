-- ===== src/Vault/Balance.antt =====
-- Every exit's transaction balances, asset by asset.
use pignus.Prelude.{
  ℕ, ◌+◌, ◌<◌, ◌≡◌, ◌≢◌, refl, sym, false, Option, some, List, [], ◌∷◌, map, Text, ltb→lt, ltb, ok,
  Option-cases, Bool-cases, inl, inr, arith,
}
use mathlib.Core.Path.{subst}
use pignus.Oracle.{Signing}
use pignus.Tx.{Output, Entry, pay, Tx, marks_fee}
use pignus.Tx.Dict.{get}
use pignus.Tx.Totals.{counted, total_in, total_out, total_paid, IsMarkedOnce, total_out-raw_tx}
use pignus.Vault.Spender.{payer, Spender}
use pignus.Vault.Change.{change_balances}
use pignus.Vault.Evidence.{Evidence, Leaf}
use pignus.Vault.Exits
use pignus.Vault.Steps.{repay-eq-ok, seizure-eq-ok, recover-eq-ok}

total_paid-map : (a : ℕ) (os : List Output) → total_paid a (map pay os) ≡ total_out a os
unfolding total_paid total_out
total_paid-map a [] = refl
total_paid-map a (o ∷ os) = omega (arith, total_paid-map a os)

marks_fee-map : (os : List Output) → marks_fee (map pay os) ≡ false
unfolding marks_fee
marks_fee-map [] = refl
marks_fee-map (o ∷ os) = marks_fee-map os

map-IsMarkedOnce : (os : List Output) → IsMarkedOnce (map pay os)
map-IsMarkedOnce [] = tt
map-IsMarkedOnce (o ∷ os) = map-IsMarkedOnce os

-- Taking the filler out leaves the rest as it was.
pub take_filler_total :
    (b a : ℕ) (os : List Output) {f : Output} {others : List Output}
    → Exits.take_filler b os ≡ some (f, others)
    → (counted a f.asset f.amount + total_out a others ≡ total_out a os) × (f.asset ≢ b)
unfolding Exits.take_filler total_out
take_filler_total b a [] e = absurd (ground arith)
take_filler_total b a (o ∷ os) {f} {others} e = elim (Option-cases (Exits.take_filler b os)) [
  | inl absent ↦ ground arith
  | inr ((g, rest), found) ↦ ground (arith, take_filler_total b a os found)
]

-- The seizure's outputs pay out the coin and carry the change.
with_surplus_total :
    (s : Spender) (borrower taker : Text) (amount seize : ℕ) (rest : List Output) (a : ℕ)
    {es : List Entry}
    → seize < amount
    → Exits.with_surplus s borrower taker amount seize rest ≡ ok es
    → (total_paid a es ≡ counted a s.terms.collateral_asset amount + total_out a rest)
      × IsMarkedOnce es
unfolding Exits.with_surplus total_paid
with_surplus_total s borrower taker amount seize rest a {es} lt e =
    ground (arith, total_paid-map a rest, map-IsMarkedOnce rest)

under_water_total :
    (s : Spender) (taker : Text) (amount : ℕ) (rest : List Output) (a : ℕ) {es : List Entry}
    → Exits.under_water s taker amount rest ≡ ok es
    → (total_paid a es ≡ counted a s.terms.collateral_asset amount + total_out a rest)
      × IsMarkedOnce es
unfolding Exits.under_water total_paid marks_fee
under_water_total s taker amount rest a {es} e =
    elim (Option-cases (Exits.take_filler s.terms.collateral_asset rest)) [
      | inl absent ↦
          ground (arith, total_paid-map a rest, map-IsMarkedOnce rest, marks_fee-map rest)
      | inr ((f, others), found) ↦ ground (
        arith,
        take_filler_total s.terms.collateral_asset a rest found,
        total_paid-map a rest,
        total_paid-map a others,
        map-IsMarkedOnce rest,
        map-IsMarkedOnce others,
        marks_fee-map rest,
      )
    ]

seizure_outs_total :
    (s : Spender) (borrower taker : Text) (amount seize : ℕ) (rest : List Output) (a : ℕ)
    {es : List Entry}
    → Exits.seizure_outs s borrower taker amount seize rest ≡ ok es
    → (total_paid a es ≡ counted a s.terms.collateral_asset amount + total_out a rest)
      × IsMarkedOnce es
unfolding Exits.seizure_outs
seizure_outs_total s borrower taker amount seize rest a {es} e =
    elim (Bool-cases (ltb seize amount)) [
      | inl some_left ↦
          with_surplus_total s borrower taker amount seize rest a (ltb→lt seize amount some_left)
            (rw some_left at e)
      | inr none_left ↦ under_water_total s taker amount rest a (rw none_left at e)
    ]

-- The inputs of an exit bring exactly what its outputs pay, in every asset, the fee included.
abbrev pub IsBalanced : Spender → Exits.Request → Tx → Type 0
IsBalanced s r tx =
    (a : ℕ)
    → total_out a tx.outs ≡ counted a s.terms.collateral_asset r.vault.amount + total_in a r.funding

module _ (s : Spender) (r : Exits.Request) (es : List Entry) (fee locktime : ℕ) where
  assemble-IsBalanced :
      IsMarkedOnce es
      → ((a : ℕ)
          → total_paid a es + counted a s.fee_asset fee
            ≡ counted a s.terms.collateral_asset r.vault.amount + total_in a r.funding)
      → IsBalanced s r (Exits.assemble s r es fee locktime)
  unfolding Exits.assemble
  assemble-IsBalanced once total a =
      omega
        (arith, total_out-raw_tx a (r.vault ∷ r.funding) es s.fee_asset fee locktime once, total a)

-- Whenever a repayment is composed, for every asset the vault coin and the funding bring exactly
-- what the outputs pay, the fee included.
repay_balances :
    (s : Spender) (r : Exits.Request) {tx : Tx} → Exits.repay s r ≡ ok tx → IsBalanced s r tx
unfolding get total_paid
repay_balances s r {tx} e =
    let (spks, rest, fee, changed, eq, _) = repay-eq-ok s r e in
    let (total, _, _) = change_balances (payer s) r.funding _ r.change_spk changed in
    subst (IsBalanced s r) (sym eq) (
      assemble-IsBalanced s r _ fee 0 (map-IsMarkedOnce rest)
        (λ a. omega (arith, total a, total_paid-map a rest)))

-- Whenever a seizure is composed, through LIQUIDATE or DEFAULT and whether or not it leaves a
-- surplus, for every asset the vault coin and the funding bring exactly what the outputs pay, the
-- fee included.
pub seizure_balances :
    (c : Signing) (s : Spender) (r : Exits.Request) (evidence : Evidence) (taker : Text)
    (leaf : Leaf) (locktime : ℕ) {tx : Tx}
    → Exits.seizure c s r evidence taker leaf locktime ≡ ok tx
    → IsBalanced s r tx
unfolding get total_paid
seizure_balances c s r evidence taker leaf locktime {tx} e =
    let p = seizure-eq-ok c s r evidence taker leaf locktime e in
    let (total, _, _) = change_balances (payer s) r.funding _ _ p.changed in
    let laid =
      λ (a : ℕ). seizure_outs_total s p.spks.1 taker r.vault.amount p.seize p.rest a p.laid in
    subst (IsBalanced s r) (sym p.composed) (
      assemble-IsBalanced s r _ p.fee locktime (laid 0).1 (λ a. omega (arith, total a, (laid a).0)))

-- Whenever a recovery is composed, for every asset the vault coin and the funding bring exactly
-- what the outputs pay, the fee included.
recover_balances :
    (s : Spender) (r : Exits.Request) (locktime : Option ℕ) {tx : Tx}
    → Exits.recover s r locktime ≡ ok tx
    → IsBalanced s r tx
unfolding get total_paid
recover_balances s r locktime {tx} e =
    let (spks, rest, fee, _, _, _, changed, eq) = recover-eq-ok s r locktime e in
    let (total, _, _) = change_balances (payer s) r.funding [] r.change_spk changed in
    subst (IsBalanced s r) (sym eq) (
      assemble-IsBalanced s r _ fee _ (map-IsMarkedOnce rest)
        (λ a. omega (arith, total a, total_paid-map a rest)))
