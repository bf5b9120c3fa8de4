-- ===== src/Terms/Tests.antt =====
-- The theorems on terms, at the sample loan.
use pignus.Prelude.{
  ℕ, ◌+◌, ◌*◌, ◌^◌, ◌≤◌, ◌<◌, ◌≡◌, refl, ◌↔◌, [], ◌∷◌, Text, ok, err, inl, inr, arith,
}
use pignus.Prelude.Ceil.{ceil_div}
use pignus.Terms.{
  LoanTerms, gross, post_init, seizure_at, surplus_at, IsWellFormed, bonus_below_one,
}
use pignus.Terms.Validity.{post_init_iff}
use pignus.Terms.Economics.{seizure_at_least, seizure_at_fits}
use pignus.Terms.Sample.{loan, shared_loan}

accepted : post_init loan ≡ ok tt
unfolding post_init gross ceil_div
accepted = refl

shared_accepted : post_init shared_loan ≡ ok tt
unfolding post_init gross ceil_div
shared_accepted = refl

refused : post_init (record loan { bonus_num = 99 }) ≡ err bonus_below_one
unfolding post_init gross ceil_div
refused = refl

loan-IsWellFormed : IsWellFormed loan
loan-IsWellFormed = (post_init_iff loan).0 accepted

at_900 : seizure_at loan 900 ≡ ok 584
unfolding seizure_at gross ceil_div
at_900 = refl

at_800 : seizure_at loan 800 ≡ ok 657
unfolding seizure_at gross ceil_div
at_800 = refl

surplus_at_900 : surplus_at loan 900 ≡ ok 416
unfolding surplus_at gross ceil_div
surplus_at_900 = refl

post_init_iff_example : (post_init shared_loan ≡ ok tt) ↔ IsWellFormed shared_loan
post_init_iff_example = post_init_iff shared_loan

seizure_at_least_example :
    (gross loan * 1000 ≤ 584 * 900)
    × ((q : ℕ) → gross loan * 1000 ≤ q * 900 → 584 ≤ q)
    × (500 ≤ gross loan)
seizure_at_least_example = seizure_at_least loan 900 loan-IsWellFormed at_900

seizure_at_fits_example : (gross loan * 1000 + 900 < 2 ^ 63) × (584 < 2 ^ 63)
seizure_at_fits_example = seizure_at_fits loan 900 accepted (inr (inl (omega arith))) at_900

abbrev four_leaf : LoanTerms → Text
four_leaf t = t.debt ∷ []

abbrev offer_vault : LoanTerms → Text
offer_vault t = t.debt ∷ t.debt ∷ []
