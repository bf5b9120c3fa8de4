-- ===== src/Repurchase/LegOne.antt =====
-- Proofs on `verify_leg_one` of pignus/repurchase.py.
use pignus.Prelude.{
  ℕ, suc, ap, ◌≤◌, ◌≡◌, ◌≢◌, inl, inr, Bool, true, ◌&&◌, Option, none, some, Text, text_eq,
  text_eq_iff, ok, err, Option-cases, Result-cases, arith,
}
use mathlib.Core.Path.{subst}
use pignus.Repurchase.Terms.{wrong_amount}
use pignus.Repurchase.Coins.{
  Txout, Answers, holds, find_output, first_match, check_leg_one, verify_leg_one,
}
use pignus.Repurchase.Scan.{holds-eq, find_output_there}

-- The collateral at the lender's address, deep enough.
pub record IsDelivered (cu_spk : Text) (collateral_asset amount depth : ℕ) (o : Txout)
    : Type 0 where
  pub pays : o.spk ≡ cu_spk
  pub asset_named : o.asset ≡ some collateral_asset
  pub exact : o.value ≡ some amount
  pub deep : depth ≤ o.confirmations

check_leg_one-IsDelivered :
    (cu_spk : Text) (collateral_asset amount depth : ℕ) (o : Txout)
    → check_leg_one cu_spk collateral_asset amount depth o ≡ ok tt
    → IsDelivered cu_spk collateral_asset amount depth o
unfolding check_leg_one
check_leg_one-IsDelivered cu_spk collateral_asset amount depth o e = elim (Option-cases o.value) [
  | inl hidden ↦ absurd (ground arith)
  | inr (v, plain) ↦ record {
    pays = ground (arith, text_eq_iff o.spk cu_spk);
    asset_named = holds-eq o.asset collateral_asset (ground arith);
    exact = holds-eq o.value amount (ground arith);
    deep = ground arith;
  }
]

-- Whenever the check of leg one returns a coin, it is an unspent output at the index returned that
-- pays the lender's address exactly the amount agreed of the collateral asset and is buried at the
-- depth asked for.
verify_leg_one_sound :
    (answers : Answers) (cu_spk : Text) (collateral_asset amount depth : ℕ) (vout : Option ℕ)
    {n : ℕ} {o : Txout}
    → verify_leg_one answers cu_spk collateral_asset amount depth vout ≡ ok (n, o)
    → (answers n ≡ some o) × IsDelivered cu_spk collateral_asset amount depth o
unfolding verify_leg_one
verify_leg_one_sound answers cu_spk collateral_asset amount depth vout {n} {o} e =
    let matches : Txout → Bool = λ p. text_eq p.spk cu_spk && holds p.asset collateral_asset in
    elim (Result-cases (find_output answers vout matches)) [
      | inl (x, bad) ↦ absurd (ground arith)
      | inr (none, f) ↦ absurd (ground arith)
      | inr (some (m, p), f) ↦
          elim (Result-cases (check_leg_one cu_spk collateral_asset amount depth p)) [
            | inl (x, bad) ↦ absurd (ground arith)
            | inr (tt, c) ↦
                let it : p ≡ o = ground arith in
                let there = find_output_there answers vout matches {n = m} {o = p} f in
                (
                  subst (λ k. answers k ≡ some o) (let q : m ≡ n = ground arith in q)
                      (rw (← it) there),
                  subst (IsDelivered cu_spk collateral_asset amount depth) it
                      (check_leg_one-IsDelivered cu_spk collateral_asset amount depth p c),
                )
          ]
    ]

first_match_here :
    (answers : Answers) (matches : Txout → Bool) (left i : ℕ) (o : Txout)
    → answers i ≡ some o
    → matches o ≡ true
    → first_match answers matches (suc left) i ≡ some (i, o)
unfolding first_match
first_match_here answers matches left i o there is = ground arith

-- A buried output 0 that pays the lender's address another amount of the collateral asset makes
-- the check, with no output named, refuse the transaction whatever its later outputs pay.
pub verify_leg_one_shadowed :
    (answers : Answers) (cu_spk : Text) (collateral_asset amount depth v : ℕ) (o : Txout)
    → answers 0 ≡ some o
    → o.spk ≡ cu_spk
    → o.asset ≡ some collateral_asset
    → o.value ≡ some v
    → v ≢ amount
    → depth ≤ o.confirmations
    → verify_leg_one answers cu_spk collateral_asset amount depth none ≡ err wrong_amount
unfolding verify_leg_one find_output check_leg_one
verify_leg_one_shadowed answers cu_spk collateral_asset amount depth v o there pays asset value
      other deep =
    let matches : Txout → Bool = λ p. text_eq p.spk cu_spk && holds p.asset collateral_asset in
    let same = (text_eq_iff o.spk cu_spk).1 pays in
    let is : matches o ≡ true = ground arith in
    let first = first_match_here answers matches 15 0 o there is in
    let found : find_output answers none matches ≡ ok (some (0, o)) = ap ok first in
    rw first (rw (same, asset, value) (ground arith))
