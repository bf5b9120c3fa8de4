-- ===== src/Vault2/Rule.antt =====
-- The liquidation rule that vault2.py calls in the vendored contracts, and what its documentation
-- says of it.
use pignus.Prelude.{ℕ, ◌+◌, ◌-◌, ◌*◌, ◌^◌, ◌≤◌, ◌<◌, ◌≡◌, Bool, false, leb, Result, ok}

-- Any ValueError of the rule.
pub data RuleError : Type 0 where
  refused : RuleError

pub record Ruling : Type 0 where
  pub repaid : ℕ
  pub seized : ℕ
  pub closes : Bool
  pub debt_after : ℕ
  pub last_time_after : ℕ

-- One liquidation as the rule is asked about it.
pub record Case : Type 0 where
  pub collateral : ℕ
  pub debt : ℕ
  pub last_time : ℕ
  pub time : ℕ
  pub price : ℕ
  pub precision : ℕ
  pub liq_bp : ℕ
  pub target_bp : ℕ
  pub bonus_bp : ℕ
  pub paid : ℕ
  pub kept : ℕ
  pub matured : Bool

pub record Rule : Type 0 where
  -- collateral, debt, price, precision, LIQ_BP
  pub healthy : ℕ → ℕ → ℕ → ℕ → ℕ → Result RuleError Bool
  -- repaid, price, precision, BONUS_BP
  pub max_seizure : ℕ → ℕ → ℕ → ℕ → Result RuleError ℕ
  -- collateral, debt, price, precision, TARGET_BP, BONUS_BP
  pub max_repay : ℕ → ℕ → ℕ → ℕ → ℕ → ℕ → Result RuleError ℕ
  pub liquidation : Case → Result RuleError Ruling

-- The widths that the rule holds its arguments to.
pub record InRange (c : Case) : Type 0 where
  pub collateral_word : c.collateral < 2 ^ 64
  pub debt_word : c.debt < 2 ^ 64
  pub last_time_word : c.last_time < 2 ^ 32
  pub time_word : c.time < 2 ^ 32
  pub price_word : c.price < 2 ^ 64
  pub precise : c.precision ≤ 18
  pub liq_word : c.liq_bp < 2 ^ 32
  pub target_word : c.target_bp < 2 ^ 32
  pub bonus_word : c.bonus_bp < 2 ^ 32
  pub paid_word : c.paid < 2 ^ 64
  pub kept_word : c.kept < 2 ^ 64

-- Repaying `r - 1`, at the most that may be seized for it, leaves the vault below the target.
abbrev pub IsBelowTarget : (collateral debt price precision target_bp bonus_bp r : ℕ) → Type 0
IsBelowTarget collateral debt price precision target_bp bonus_bp r =
    collateral * price * 10000 + (r - 1) * (target_bp * 10 ^ precision)
    < debt * (target_bp * 10 ^ precision) + (r - 1) * (bonus_bp * 10 ^ precision)

-- The checks of a liquidation that pays no more than the debt; one that pays more is ruled as one
-- that repays the whole debt, and nothing is relied on there but the checks that every accepted
-- liquidation passed.
pub record IsAllowed (c : Case) : Type 0 where
  pub newer : c.last_time < c.time
  pub pays : 1 ≤ c.paid
  pub pays_debt : c.paid ≤ c.debt
  pub unhealthy :
      c.matured ≡ false → c.collateral * c.price * 10000 < c.debt * (c.liq_bp * 10 ^ c.precision)
  pub below_target :
      c.matured ≡ false
      → IsBelowTarget c.collateral c.debt c.price c.precision c.target_bp c.bonus_bp c.paid
  pub keeps : c.kept ≤ c.collateral
  pub seizes : (c.collateral - c.kept) * c.price * 10000 ≤ c.paid * (c.bonus_bp * 10 ^ c.precision)
  pub leaves_healthy :
      c.paid < c.debt → (c.debt - c.paid) * (c.liq_bp * 10 ^ c.precision) ≤ c.kept * c.price * 10000

-- The answer to an allowed liquidation: the repaid debt, the seizure and the next state.
abbrev pub ruling_of : Case → Ruling
ruling_of c = record {
  repaid = c.paid;
  seized = c.collateral - c.kept;
  closes = leb c.debt c.paid;
  debt_after = c.debt - c.paid;
  last_time_after = c.time;
}

-- What the rule's documentation says of it, as far as the planner relies on it.
pub record IsDocumented (rule : Rule) : Type 0 where
  pub healthy_is :
      (collateral debt price precision liq_bp : ℕ) {b : Bool}
      → rule.healthy collateral debt price precision liq_bp ≡ ok b
      → b ≡ leb (debt * (liq_bp * 10 ^ precision)) (collateral * price * 10000)
  pub max_seizure_is :
      (repaid price precision bonus_bp : ℕ) {s : ℕ}
      → rule.max_seizure repaid price precision bonus_bp ≡ ok s
      → s * price * 10000 ≤ repaid * (bonus_bp * 10 ^ precision)
  pub max_repay_is :
      (collateral debt price precision target_bp bonus_bp : ℕ) {r : ℕ}
      → bonus_bp < target_bp
      → rule.max_repay collateral debt price precision target_bp bonus_bp ≡ ok r
      → (r ≤ debt)
        × (1 ≤ r → IsBelowTarget collateral debt price precision target_bp bonus_bp r)
        × ((q : ℕ)
            → 1 ≤ q
            → q ≤ debt
            → IsBelowTarget collateral debt price precision target_bp bonus_bp q
            → q ≤ r)
  pub liquidation_allows :
      (c : Case) → InRange c → IsAllowed c → rule.liquidation c ≡ ok (ruling_of c)
  pub liquidation_checks :
      (c : Case) {ruling : Ruling}
      → rule.liquidation c ≡ ok ruling
      → (c.last_time < c.time) × (1 ≤ c.paid) × (c.kept ≤ c.collateral)
  pub healthy_answers :
      (collateral debt price precision liq_bp : ℕ)
      → collateral < 2 ^ 64
      → debt < 2 ^ 64
      → price < 2 ^ 64
      → precision ≤ 18
      → liq_bp < 2 ^ 32
      → (b : Bool) × (rule.healthy collateral debt price precision liq_bp ≡ ok b)
  pub max_seizure_answers :
      (repaid price precision bonus_bp : ℕ)
      → repaid < 2 ^ 64
      → 1 ≤ price
      → price < 2 ^ 64
      → precision ≤ 18
      → bonus_bp < 2 ^ 32
      → (s : ℕ) × (rule.max_seizure repaid price precision bonus_bp ≡ ok s)
  pub max_repay_answers :
      (collateral debt price precision target_bp bonus_bp : ℕ)
      → collateral < 2 ^ 64
      → debt < 2 ^ 64
      → price < 2 ^ 64
      → precision ≤ 18
      → target_bp < 2 ^ 32
      → bonus_bp < 2 ^ 32
      → (r : ℕ) × (rule.max_repay collateral debt price precision target_bp bonus_bp ≡ ok r)
