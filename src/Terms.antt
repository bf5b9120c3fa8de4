-- ===== src/Terms.antt =====
-- pignus/terms.py: `LoanTerms`, its constructor's checks, its economics and its funding check.
-- Amounts, prices and locktimes are natural numbers. An asset id is only compared, so a number
-- stands for it; keys, programs and markets are texts. `ltv` and `health` are floats and left out.
pub mod Validity
pub mod Economics
pub mod Funding
pub mod Sample
mod Tests
use pignus.Prelude.{
  ℕ, ◌+◌, ◌-◌, ◌*◌, ◌/◌, ◌^◌, ◌≤◌, ◌<◌, max, ◌≡◌, ◌≢◌, ◌⊎◌, Bool, false, not, ◌&&◌, ◌||◌, List, [],
  ◌∷◌, Text, ltb, leb, ◌==◌, if◌then◌else◌, is_empty, length, has_duplicates, IsApart, Result, ok,
  err, ◌>>=◌, ◌>>◌, raise_if,
}
use pignus.Prelude.Ceil.{ceil_div}

pub data TermsError : Type 0 where
  debt_below_one strike_out_of_range bonus_below_one scale_below_one : TermsError
  recover_not_after_maturity seizure_overflows : TermsError
  both_oracle_forms no_oracle duplicate_oracle threshold_out_of_range : TermsError
  price_not_positive : TermsError
  address_mismatch : TermsError

pub record LoanTerms : Type 0 where
  pub collateral_asset : ℕ
  pub debt_asset : ℕ
  pub collateral_amount : ℕ
  pub principal : ℕ
  pub debt : ℕ
  pub borrower_x : Text
  pub lender_x : Text
  pub market : Text
  pub oracle_x : Text
  pub strike : ℕ
  pub not_before : ℕ
  pub maturity : ℕ
  pub recover_after : ℕ
  pub bonus_num : ℕ
  pub bonus_den : ℕ
  pub price_scale : ℕ
  pub max_price : ℕ
  pub memo : Text
  pub oracles : List Text
  pub oracle_threshold : ℕ
  pub lender_ver : ℕ
  pub borrower_ver : ℕ
  pub lender_prog : Text
  pub borrower_prog : Text

-- Python's `n or d` on a number, and on a text.
abbrev pub or_number : ℕ → ℕ → ℕ
or_number n d = if n == 0 then d else n

abbrev pub or_text : Text → Text → Text
or_text s d = if is_empty s then d else s

-- Debt plus the liquidation bonus.
unfoldable pub gross : LoanTerms → ℕ
gross t = ceil_div (t.debt * t.bonus_num) t.bonus_den

-- `bound` of the constructor: the prices that the seizure arithmetic must survive.
abbrev pub price_bound : LoanTerms → ℕ
price_bound t = max (max (or_number t.max_price (2 ^ 40)) t.strike) 1

-- `threshold`, for terms that name a set of oracles.
abbrev pub set_threshold : LoanTerms → ℕ
set_threshold t = or_number t.oracle_threshold (length t.oracles)

-- The last checks of the constructor, on a set of oracles.
unfoldable pub check_oracle_set : LoanTerms → Result TermsError (Unit {0})
check_oracle_set t = if is_empty t.oracles then ok tt else do
  raise_if (has_duplicates t.oracles) duplicate_oracle
  raise_if (not (leb 1 (set_threshold t) && leb (set_threshold t) (length t.oracles)))
      threshold_out_of_range

-- `__post_init__`
unfoldable pub post_init : LoanTerms → Result TermsError (Unit {0})
unfolding check_oracle_set
post_init t = do
  raise_if (ltb t.debt 1) debt_below_one
  raise_if (not (leb 1 t.strike && ltb t.strike (2 ^ 63))) strike_out_of_range
  raise_if (ltb t.bonus_den 1 || ltb t.bonus_num t.bonus_den) bonus_below_one
  raise_if (ltb t.price_scale 1) scale_below_one
  raise_if (leb t.recover_after t.maturity) recover_not_after_maturity
  raise_if (leb (2 ^ 63) (gross t * t.price_scale + price_bound t)) seizure_overflows
  raise_if (not (is_empty t.oracles) && not (is_empty t.oracle_x)) both_oracle_forms
  raise_if (is_empty t.oracles && is_empty t.oracle_x) no_oracle
  check_oracle_set t

-- (lender, borrower) witness programs.
unfoldable pub payout_programs : LoanTerms → Text × Text
payout_programs t = (or_text t.lender_prog t.lender_x, or_text t.borrower_prog t.borrower_x)

-- Every key that may sign for this loan, in slot order.
unfoldable pub oracle_keys : LoanTerms → List Text
oracle_keys t = if is_empty t.oracles then t.oracle_x ∷ [] else t.oracles

unfoldable pub threshold : LoanTerms → ℕ
threshold t = if is_empty t.oracles then 1 else set_threshold t

-- Collateral the covenant lets a liquidator keep at `price`.
unfoldable pub seizure_at : LoanTerms → ℕ → Result TermsError ℕ
seizure_at t price =
    if ltb price 1 then err price_not_positive else ok (ceil_div (gross t * t.price_scale) price)

-- What the borrower gets back if liquidated at `price`; `-` stops at 0, as `max(0, …)` does.
unfoldable pub surplus_at : LoanTerms → ℕ → Result TermsError ℕ
unfolding seizure_at
surplus_at t price = do seizure ← seizure_at t price; ok (t.collateral_amount - seizure)

-- The collateral's value in debt atoms, for terms with a positive scale.
unfoldable pub collateral_value : LoanTerms → ℕ → ℕ
collateral_value t price = t.collateral_amount * price / t.price_scale

unfoldable pub is_liquidatable : LoanTerms → ℕ → Bool
is_liquidatable t price = ltb price t.strike

-- The least gross claim that covers the debt and the bonus.
abbrev pub IsGross : LoanTerms → ℕ → Type 0
IsGross t g =
    (t.debt * t.bonus_num ≤ g * t.bonus_den)
    × (g * t.bonus_den < t.debt * t.bonus_num + t.bonus_den)

-- The prices that the seizure must survive: up to the strike, and up to the highest price that the
-- terms name, or 2^40 where they name none.
abbrev pub IsForeseen : LoanTerms → ℕ → Type 0
IsForeseen t p =
    (p ≤ 1)
    ⊎ ((p ≤ t.strike)
        ⊎ (((t.max_price ≢ 0) × (p ≤ t.max_price)) ⊎ ((t.max_price ≡ 0) × (p ≤ 2 ^ 40))))

-- What the constructor's checks amount to.
pub record IsWellFormed (t : LoanTerms) : Type 0 where
  pub debt_pos : 1 ≤ t.debt
  pub strike_pos : 1 ≤ t.strike
  pub strike_word : t.strike < 2 ^ 63
  pub den_pos : 1 ≤ t.bonus_den
  pub bonus_covers : t.bonus_den ≤ t.bonus_num
  pub scale_pos : 1 ≤ t.price_scale
  pub backstop_last : t.maturity < t.recover_after
  pub no_overflow : (g p : ℕ) → IsGross t g → IsForeseen t p → g * t.price_scale + p < 2 ^ 63
  pub one_oracle_form :
      ((t.oracles ≡ []) × (t.oracle_x ≢ []))
      ⊎ ((t.oracle_x ≡ [])
          × (t.oracles ≢ [])
          × IsApart t.oracles
          × (t.oracle_threshold ≤ length t.oracles))
