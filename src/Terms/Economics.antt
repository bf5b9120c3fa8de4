-- ===== src/Terms/Economics.antt =====
-- The seizure of terms.py: what it covers, where it fits in 64 bits, how it moves with the price.
use pignus.Prelude.{ℕ, ◌+◌, ◌*◌, ◌^◌, ◌≤◌, ◌<◌, ◌≡◌, ◌↔◌, ok, arith}
use pignus.Prelude.Ceil.{ceil_div, ceil_div_covers, ceil_div_least}
use pignus.Terms.{
  LoanTerms, gross, post_init, seizure_at, collateral_value, IsForeseen, IsWellFormed,
}
use pignus.Terms.Validity.{gross-IsGross, post_init_iff}

-- The gross claim is at least the debt.
pub debt-le-gross : (t : LoanTerms) → IsWellFormed t → t.debt ≤ gross t
unfolding gross
debt-le-gross t w = grind (arith, ceil_div_covers (t.debt * t.bonus_num) t.bonus_den w.den_pos)

-- A seizure is defined at positive prices only.
pub seizure_at-eq-ok :
    (t : LoanTerms) (price : ℕ) {s : ℕ}
    → seizure_at t price ≡ ok s
    → (1 ≤ price) × (s ≡ ceil_div (gross t * t.price_scale) price)
unfolding seizure_at
seizure_at-eq-ok t price e = ground arith

-- At a positive price the seizure is the least collateral whose value at that price is at least
-- the gross claim, and the claim is at least the debt.
pub seizure_at_least :
    (t : LoanTerms) (price : ℕ) {s : ℕ}
    → IsWellFormed t
    → seizure_at t price ≡ ok s
    → (gross t * t.price_scale ≤ s * price)
      × ((q : ℕ) → gross t * t.price_scale ≤ q * price → s ≤ q)
      × (t.debt ≤ gross t)
unfolding seizure_at
seizure_at_least t price w e = (
  ground (arith, ceil_div_covers (gross t * t.price_scale) price),
  λ q c. ground (arith, ceil_div_least (gross t * t.price_scale) price q),
  debt-le-gross t w,
)

-- Where the constructor accepts the terms, at every price up to the strike or up to the highest price
-- that they name (2^40 where they name none), the covenant's numerator `gross * price_scale + price`
-- and the seizure itself stay under 2^63.
pub seizure_at_fits :
    (t : LoanTerms) (price : ℕ) {s : ℕ}
    → post_init t ≡ ok tt
    → IsForeseen t price
    → seizure_at t price ≡ ok s
    → (gross t * t.price_scale + price < 2 ^ 63) × (s < 2 ^ 63)
unfolding seizure_at
seizure_at_fits t price {s} accepted h e =
    let w = (post_init_iff t).0 accepted in
    let fits = w.no_overflow (gross t) price (gross-IsGross t w.den_pos) h in
    let (pos, eq) = seizure_at-eq-ok t price e in
    (
      fits,
      grind (
        arith,
        fits,
        ceil_div_least (gross t * t.price_scale) price (gross t * t.price_scale) pos,
      ),
    )

-- A higher price seizes no more.
seizure_at_antitone :
    (t : LoanTerms) (p q : ℕ) {s r : ℕ}
    → p ≤ q
    → seizure_at t p ≡ ok s
    → seizure_at t q ≡ ok r
    → r ≤ s
unfolding seizure_at
seizure_at_antitone t p q {s} {r} h e f =
    let (pos, eq) = seizure_at-eq-ok t p e in
    let (pos', eq') = seizure_at-eq-ok t q f in
    let covered = ceil_div_covers (gross t * t.price_scale) p pos in
    rw (eq', eq)
      (ceil_div_least (gross t * t.price_scale) q (ceil_div (gross t * t.price_scale) p) pos'
        (grind arith))

-- The loan is solvent at a positive price, in that the collateral's rounded value covers the gross
-- claim, exactly when the seizure is at most the collateral; and then seizure and surplus add up to
-- the collateral.
collateral_value_iff :
    (t : LoanTerms) (price : ℕ) {s : ℕ}
    → IsWellFormed t
    → seizure_at t price ≡ ok s
    → (gross t ≤ collateral_value t price) ↔ (s ≤ t.collateral_amount)
unfolding seizure_at collateral_value
collateral_value_iff t price {s} w e =
    let (pos, eq) = seizure_at-eq-ok t price e in
    let covered = ceil_div_covers (gross t * t.price_scale) price pos in
    let scale = w.scale_pos in
    (
      λ solvent.
          rw eq
            (ceil_div_least (gross t * t.price_scale) price t.collateral_amount pos (grind arith)),
      λ fits. grind arith,
    )
