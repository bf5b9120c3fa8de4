-- ===== src/Repurchase/Coins.antt =====
-- Reading a coin off the chain: `_find_output`, `RepurchaseTerms.verify_funding`, `verify_leg_one`.
use pignus.Prelude.{
  ℕ, zero, suc, ◌+◌, Bool, true, false, not, ◌&&◌, Option, none, some, Text, text_eq, ltb, ◌==◌,
  if◌then◌else◌, Result, ok, err, ◌>>=◌, ◌>>◌, raise_if,
}
use pignus.Repurchase.Terms.{
  RepurchaseTerms, RepurchaseError, not_unspent, not_funded, wrong_script, blinded, wrong_asset,
  wrong_amount, leg_one_missing, unburied, sanity_check, bond,
}

-- One unspent output as `gettxout` tells it: no asset and no value where they are blinded, and 0
-- confirmations where none are told.
pub record Txout : Type 0 where
  pub spk : Text
  pub asset : Option ℕ
  pub value : Option ℕ
  pub confirmations : ℕ

-- The node's answers for the outputs of one transaction.
abbrev pub Answers : Type 0
Answers = ℕ → Option Txout

-- `_SCAN_VOUTS`
abbrev pub scan_vouts : ℕ
scan_vouts = 16

-- `BURIAL_DEPTH`
abbrev pub burial_depth : ℕ
burial_depth = 2

abbrev pub holds : Option ℕ → ℕ → Bool
holds none n = false
holds (some m) n = m == n

-- The first match among so many outputs from one on.
unfoldable pub first_match : Answers → (Txout → Bool) → ℕ → ℕ → Option (ℕ × Txout)
first_match answers matches zero i = none
first_match answers matches (suc left) i =
    let rest = first_match answers matches left (i + 1) in
    elim (answers i) [ none ↦ rest | some o ↦ if matches o then some (i, o) else rest ]

-- The output named, or the first that matches.
unfoldable pub find_output :
    Answers → Option ℕ → (Txout → Bool) → Result RepurchaseError (Option (ℕ × Txout))
find_output answers (some n) matches = elim (answers n) [
  | none ↦ err not_unspent
  | some o ↦ ok (some (n, o))
]
find_output answers none matches = ok (first_match answers matches scan_vouts 0)

abbrev pub found_or : RepurchaseError → Option (ℕ × Txout) → Result RepurchaseError (ℕ × Txout)
found_or problem none = err problem
found_or problem (some found) = ok found

abbrev pub is_blinded : Txout → Bool
is_blinded o = elim o.asset [ none ↦ true | some a ↦ elim o.value [ none ↦ true | some v ↦ false ] ]

-- `is_bond`, at the address that the terms compile to.
abbrev pub is_bond : Text → RepurchaseTerms → ℕ → Txout → Bool
is_bond address t b o = text_eq o.spk address && holds o.asset t.debt_asset && holds o.value b

-- The second search of `verify_funding`, made when the first found nothing and no output is named.
unfoldable pub find_again :
    Answers → Text → Option ℕ → Option (ℕ × Txout) → Result RepurchaseError (Option (ℕ × Txout))
find_again answers address (some n) found = ok found
find_again answers address none (some found) = ok (some found)
find_again answers address none none = find_output answers none (λ o. text_eq o.spk address)

-- The checks on the output found.
unfoldable pub check_bond : Text → RepurchaseTerms → ℕ → Txout → Result RepurchaseError (Unit {0})
check_bond address t b o = do
  raise_if (not (text_eq o.spk address)) wrong_script
  raise_if (is_blinded o) blinded
  raise_if (not (holds o.asset t.debt_asset)) wrong_asset
  raise_if (not (holds o.value b)) wrong_amount

-- `verify_funding`; `compiled` is the address that the covenant builder gives the terms.
unfoldable pub verify_funding :
    (compiled : RepurchaseTerms → Text)
    → Answers
    → RepurchaseTerms
    → Option ℕ
    → Result RepurchaseError (ℕ × Txout)
unfolding check_bond
verify_funding compiled answers t vout = do
  sanity_check t
  b ← bond t
  first ← find_output answers vout (is_bond (compiled t) t b)
  either ← find_again answers (compiled t) vout first
  (n, o) ← found_or not_funded either
  check_bond (compiled t) t b o
  ok (n, o)

-- The script, asset, depth and amount of the collateral that the lender received.
unfoldable pub check_leg_one : Text → ℕ → ℕ → ℕ → Txout → Result RepurchaseError (Unit {0})
check_leg_one cu_spk collateral_asset amount depth o = do
  raise_if (not (text_eq o.spk cu_spk)) wrong_script
  raise_if (not (holds o.asset collateral_asset)) wrong_asset
  raise_if (ltb o.confirmations depth) unburied
  raise_if (elim o.value [ none ↦ true | some v ↦ false ]) blinded
  raise_if (not (holds o.value amount)) wrong_amount

-- `verify_leg_one`
unfoldable pub verify_leg_one :
    Answers → Text → ℕ → ℕ → ℕ → Option ℕ → Result RepurchaseError (ℕ × Txout)
unfolding check_leg_one
verify_leg_one answers cu_spk collateral_asset amount depth vout = do
  first ← find_output answers vout (λ o. text_eq o.spk cu_spk && holds o.asset collateral_asset)
  (n, o) ← found_or leg_one_missing first
  check_leg_one cu_spk collateral_asset amount depth o
  ok (n, o)
