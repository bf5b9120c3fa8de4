-- ===== src/Fees/Price.antt =====
-- Proofs on `fee_atoms` of pignus/fees.py.
use pignus.Prelude.{ℕ, ◌*◌, ◌≤◌, arith}
use pignus.Prelude.Ceil.{ceil_div, ceil_div_covers, ceil_div_least}
use native.Mathlib.Nat.{mul-le-mul_left, le_trans}
use pignus.Fees.{rate_scale, fee_atoms, atoms_for}

atoms_for_covers : (rate rfa : ℕ) → 1 ≤ rate → rfa * rate_scale ≤ atoms_for rate rfa * rate
unfolding atoms_for
atoms_for_covers rate rfa h = let covers = ceil_div_covers (rfa * rate_scale) rate h in grind arith

atoms_for_pos : (rate rfa : ℕ) → 1 ≤ atoms_for rate rfa
unfolding atoms_for
atoms_for_pos rate rfa = omega arith

atoms_for_least :
    (rate rfa q : ℕ) → 1 ≤ rate → 1 ≤ q → rfa * rate_scale ≤ q * rate → atoms_for rate rfa ≤ q
unfolding atoms_for
atoms_for_least rate rfa q h one covers =
    let least = ceil_div_least (rfa * rate_scale) rate q h covers in omega arith

-- At a positive rate, the fee is at least one atom, its value at the rate is at least the
-- rounded-up reference fee of the bytes, and no smaller number of atoms has that value.
pub fee_atoms_least :
    (rate vsize feerate : ℕ)
    → 1 ≤ rate
    → (1 ≤ fee_atoms rate vsize feerate)
      × (ceil_div (feerate * vsize) 1000 * rate_scale ≤ fee_atoms rate vsize feerate * rate)
      × ((q : ℕ)
          → 1 ≤ q
          → ceil_div (feerate * vsize) 1000 * rate_scale ≤ q * rate
          → fee_atoms rate vsize feerate ≤ q)
unfolding fee_atoms
fee_atoms_least rate vsize feerate h =
    let rfa = ceil_div (feerate * vsize) 1000 in
    let covers = atoms_for_covers rate rfa h in
    (atoms_for_pos rate rfa, covers, λ q one c. atoms_for_least rate rfa q h one c)

-- An asset at a higher rate pays no more atoms.
fee_atoms_antitone :
    (rate rate' vsize feerate : ℕ)
    → 1 ≤ rate
    → rate ≤ rate'
    → fee_atoms rate' vsize feerate ≤ fee_atoms rate vsize feerate
unfolding fee_atoms
fee_atoms_antitone rate rate' vsize feerate h le =
    let rfa = ceil_div (feerate * vsize) 1000 in
    let n = atoms_for rate rfa in
    atoms_for_least rate' rfa n (omega arith) (atoms_for_pos rate rfa)
      (le_trans (atoms_for_covers rate rfa h) (mul-le-mul_left n le))
