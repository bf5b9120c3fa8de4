-- ===== src/Terms/Validity.antt =====
-- What `LoanTerms.__post_init__` accepts.
use pignus.Prelude.{
  ℕ, ◌+◌, ◌*◌, ◌^◌, ◌≤◌, ◌<◌, sym, ◌≡◌, ◌↔◌, ok, inl, inr, arith, ◌≢◌, ◌⊎◌, List, [], ◌∷◌, Text,
  length, has_duplicates, IsApart, has_duplicates-IsApart_iff, false, refl, ap,
}
use mathlib.Core.Path.{subst}
use pignus.Prelude.Ceil.{ceil_div_covers, ceil_div_tight, ceil_div_least, ceil_div_greatest}
use pignus.Terms.{
  LoanTerms, gross, price_bound, set_threshold, post_init, IsGross, IsForeseen, IsWellFormed,
}

-- The constructor's claim is the least that covers.
pub gross-IsGross : (t : LoanTerms) → 1 ≤ t.bonus_den → IsGross t (gross t)
unfolding gross
gross-IsGross t h = (
  ceil_div_covers (t.debt * t.bonus_num) t.bonus_den h,
  ceil_div_tight (t.debt * t.bonus_num) t.bonus_den h,
)

-- No price to survive is above the constructor's bound, which is one of them.
IsForeseen-le : (t : LoanTerms) (p : ℕ) → IsForeseen t p → p ≤ price_bound t
IsForeseen-le t p h = elim h [
  | inl low ↦ omega arith
  | inr (inl low) ↦ omega arith
  | inr (inr (inl (named, low))) ↦ ground arith
  | inr (inr (inr (absent, low))) ↦ ground arith
]

price_bound-IsForeseen : (t : LoanTerms) → IsForeseen t (price_bound t)
price_bound-IsForeseen t = ground arith

gross_least : (t : LoanTerms) (g : ℕ) → 1 ≤ t.bonus_den → IsGross t g → g ≡ gross t
unfolding gross
gross_least t g h (covers, tight) = omega (
  arith,
  ceil_div_least (t.debt * t.bonus_num) t.bonus_den g h covers,
  ceil_div_greatest (t.debt * t.bonus_num) t.bonus_den g h tight,
)

no_overflow_iff :
    (t : LoanTerms)
    → 1 ≤ t.bonus_den
    → (gross t * t.price_scale + price_bound t < 2 ^ 63)
      ↔ ((g p : ℕ) → IsGross t g → IsForeseen t p → g * t.price_scale + p < 2 ^ 63)
no_overflow_iff t h = (
  λ fits g p is foreseen.
      let same = gross_least t g h is in
      let low = IsForeseen-le t p foreseen in
      subst (λ n. n * t.price_scale + p < 2 ^ 63) (sym same) (omega arith),
  λ fits. fits (gross t) (price_bound t) (gross-IsGross t h) (price_bound-IsForeseen t),
)

length-pos : (ts : List Text) → ts ≢ [] → 1 ≤ length ts
length-pos [] h = absurd (h refl)
length-pos (t ∷ ts) h = omega arith

-- The set of oracles that the constructor accepts; a threshold of 0 is the whole set's.
IsSet_iff :
    (t : LoanTerms)
    → ((has_duplicates t.oracles ≡ false)
        × (1 ≤ set_threshold t)
        × (set_threshold t ≤ length t.oracles))
      ↔ ((t.oracles ≢ []) × IsApart t.oracles × (t.oracle_threshold ≤ length t.oracles))
IsSet_iff t =
    let (to, back) = has_duplicates-IsApart_iff t.oracles in
    (
      λ (fresh, one, most). (
        λ empty. let none_named : length t.oracles ≡ 0 = ap length empty in ground arith,
        to fresh,
        ground arith,
      ),
      λ (some_named, apart, most).
          let one = length-pos t.oracles some_named in (back apart, ground arith, ground arith),
    )

abbrev Single : LoanTerms → Type 0
Single t = (t.oracles ≡ []) × (t.oracle_x ≢ [])

form_to :
    (t : LoanTerms)
    → Single t
      ⊎ ((t.oracle_x ≡ [])
          × (has_duplicates t.oracles ≡ false)
          × (1 ≤ set_threshold t)
          × (set_threshold t ≤ length t.oracles))
    → Single t
      ⊎ ((t.oracle_x ≡ [])
          × (t.oracles ≢ [])
          × IsApart t.oracles
          × (t.oracle_threshold ≤ length t.oracles))
form_to t (inl one) = inl one
form_to t (inr (no_key, fresh, one, most)) =
    let (a, b, c) = (IsSet_iff t).0 (fresh, one, most) in inr (no_key, a, b, c)

form_back :
    (t : LoanTerms)
    → Single t
      ⊎ ((t.oracle_x ≡ [])
          × (t.oracles ≢ [])
          × IsApart t.oracles
          × (t.oracle_threshold ≤ length t.oracles))
    → Single t
      ⊎ ((t.oracle_x ≡ [])
          × (has_duplicates t.oracles ≡ false)
          × (1 ≤ set_threshold t)
          × (set_threshold t ≤ length t.oracles))
form_back t (inl one) = inl one
form_back t (inr (no_key, some_named, apart, most)) =
    let (a, b, c) = (IsSet_iff t).1 (some_named, apart, most) in inr (no_key, a, b, c)

-- The constructor accepts exactly the well-formed terms: the debt, the bonus and the scale are at
-- least 1, the strike is a price under 2^63, the recovery is after the maturity, the seizure's
-- numerator stays under 2^63 at every price up to the strike, 1, and the highest named price (2^40
-- where none is named), and one form of oracle is used, a set with no key twice and a threshold that
-- it can meet, 0 being that of the whole set.
pub post_init_iff : (t : LoanTerms) → (post_init t ≡ ok tt) ↔ IsWellFormed t
unfolding post_init
post_init_iff t = (
  λ e. record {
    debt_pos = ground arith;
    strike_pos = ground arith;
    strike_word = ground arith;
    den_pos = ground arith;
    bonus_covers = ground arith;
    scale_pos = ground arith;
    backstop_last = ground arith;
    no_overflow = (no_overflow_iff t (ground arith)).0 (ground arith);
    one_oracle_form = form_to t (ground arith);
  },
  λ w.
      let fits = (no_overflow_iff t w.den_pos).1 w.no_overflow in
      let debt = w.debt_pos in
      let strike = w.strike_pos in
      let word = w.strike_word in
      let den = w.den_pos in
      let bonus = w.bonus_covers in
      let scale = w.scale_pos in
      let last = w.backstop_last in let form = form_back t w.one_oracle_form in ground arith,
)
