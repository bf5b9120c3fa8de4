-- ===== src/Oracle/Choice.antt =====
-- `select_threshold` presents the best set: no other choice of as many usable attestations has a
-- lower maximum, which is the price the covenant computes with.
use pignus.Prelude.{ℕ, ◌≤◌, ◌≡◌, some, List, [], ◌∷◌, Option, Text, length, Result, ok, arith}
use pignus.Terms.{LoanTerms, threshold, oracle_keys}
use pignus.Oracle.{
  Signing, Attestation, OracleError, Usable, SlotList, sort_by_price, max_price, choose,
  usable_from, select_threshold,
}
use pignus.Oracle.Order.{
  count_le, count_le-sort_by_price, sort_by_price-IsSorted, max_price-take-le,
}

-- `Choice c u`: `c` is `u` with some entries left out.
pub data Choice : Usable → Usable → Type 0 where
  done : Choice [] []
  keep : (e : ℕ × Attestation) {c u : Usable} → Choice c u → Choice (e ∷ c) (e ∷ u)
  leave : (e : ℕ × Attestation) {c u : Usable} → Choice c u → Choice c (e ∷ u)

-- Every entry of a choice is at most its maximum, so the whole has at least as many below it.
count_le-Choice : (p : ℕ) {c u : Usable} → Choice c u → max_price c ≤ p → length c ≤ count_le p u
unfolding count_le max_price
count_le-Choice p done h = omega arith
count_le-Choice p (keep e s) h = ground (arith, count_le-Choice p s)
count_le-Choice p (leave e s) h = ground (arith, count_le-Choice p s h)

-- Whenever slots are chosen, any other choice of at least `threshold` of the usable attestations
-- has a maximum price of at least the chosen price.
pub choose_optimal :
    (t : LoanTerms) (usable c : Usable) {slots : SlotList} {price : ℕ}
    → choose t usable ≡ some (slots, price)
    → Choice c usable
    → threshold t ≤ length c
    → price ≤ max_price c
unfolding choose
choose_optimal t usable c {slots} {price} e s enough =
    let best =
      max_price-take-le (threshold t) (max_price c) (sort_by_price usable)
        (sort_by_price-IsSorted usable)
        (omega (
          arith,
          count_le-sort_by_price (max_price c) usable,
          count_le-Choice (max_price c) s (omega arith),
        )) in
    ground (arith, best)

ok_injective :
    (o : Option (SlotList × ℕ)) {p : SlotList × ℕ}
    → (let r : Result OracleError (Option (SlotList × ℕ)) = ok o in r ≡ ok (some p))
    → o ≡ some p
ok_injective o e = cc

-- Whenever `select_threshold` returns slots and their price, no choice of at least `threshold` of
-- the attestations it found usable has a lower maximum price.
pub select_threshold_optimal :
    (c : Signing) (t : LoanTerms) (attestations : List (Text × Attestation)) (usable other : Usable)
    {slots : SlotList} {price : ℕ}
    → select_threshold c t attestations ≡ ok (some (slots, price))
    → usable_from c t 0 (oracle_keys t) attestations ≡ ok usable
    → Choice other usable
    → threshold t ≤ length other
    → price ≤ max_price other
unfolding select_threshold
select_threshold_optimal c t attestations usable other {slots} {price} e u s enough =
    choose_optimal t usable other (ok_injective (choose t usable) (rw u at e)) s enough
