-- ===== src/Vault2/Plan.antt =====
-- `liquidation_plan` and `check_liquidation` of pignus/vault2.py.
use pignus.Prelude.{
  ℕ, ◌-◌, ◌*◌, ◌^◌, min, Bool, ◌&&◌, Option, none, some, ltb, leb, ◌==◌, if◌then◌else◌, Result, ok,
  ◌>>=◌,
}
use pignus.Vault2.Terms.{V2Terms, State}
use pignus.Vault2.Rule.{Rule, RuleError, Ruling, Case}

pub record LiquidationPlan : Type 0 where
  pub repaid : ℕ
  pub seized : ℕ
  pub kept : ℕ
  pub closes : Bool

module _ (rule : Rule) (t : V2Terms) where
  unfoldable pub healthy : ℕ → ℕ → ℕ → Result RuleError Bool
  healthy collateral debt price = rule.healthy collateral debt price t.precision t.liq_bp

  -- `s = min(c, max_seizure(…))`
  unfoldable pub seizure_for : ℕ → ℕ → ℕ → Result RuleError ℕ
  seizure_for c p r = do most ← rule.max_seizure r p t.precision t.bonus_bp; ok (min c most)

  -- A partial repayment of `r` that seizes `s` leaves the vault unhealthy at `p`.
  unfoldable pub leaves_unhealthy : ℕ → ℕ → ℕ → ℕ → ℕ → Bool
  leaves_unhealthy c d p r s =
      ltb r d && ltb ((c - s) * p * 10000) ((d - r) * t.liq_bp * 10 ^ t.precision)

  abbrev pub plan_of : ℕ → ℕ → ℕ → ℕ → LiquidationPlan
  plan_of c d r s = record { repaid = r; seized = s; kept = c - s; closes = leb d r }

  -- The last test, which closes a vault that a partial repayment leaves unhealthy.
  unfoldable pub plan_closing : ℕ → ℕ → ℕ → ℕ → ℕ → Result RuleError (Option LiquidationPlan)
  unfolding seizure_for leaves_unhealthy
  plan_closing c d p r s =
      if leaves_unhealthy c d p r s
      then (do s' ← seizure_for c p d; ok (some (plan_of c d d s')))
      else ok (some (plan_of c d r s))

  -- The plan from the repayment on.
  unfoldable pub plan_repaying : ℕ → ℕ → ℕ → ℕ → Result RuleError (Option LiquidationPlan)
  unfolding seizure_for plan_closing
  plan_repaying c d p r =
      if r == 0 then ok none else do s ← seizure_for c p r; plan_closing c d p r s

  -- The plan before maturity, from the answer on the vault's health.
  unfoldable pub plan_early : ℕ → ℕ → ℕ → Bool → Result RuleError (Option LiquidationPlan)
  unfolding plan_repaying
  plan_early c d p sound =
      if sound
      then ok none
      else do r ← rule.max_repay c d p t.precision t.target_bp t.bonus_bp; plan_repaying c d p r

  unfoldable pub liquidation_plan : ℕ → ℕ → ℕ → Bool → Result RuleError (Option LiquidationPlan)
  unfolding healthy plan_repaying plan_early
  liquidation_plan c d p matured =
      if d == 0
      then ok none
      else if matured
      then plan_repaying c d p d
      else do sound ← healthy c d p; plan_early c d p sound

  abbrev pub case_of : ℕ → State → ℕ → ℕ → ℕ → ℕ → Bool → Case
  case_of collateral state time price paid kept matured = record {
    collateral = collateral;
    debt = state.0;
    last_time = state.1;
    time = time;
    price = price;
    precision = t.precision;
    liq_bp = t.liq_bp;
    target_bp = t.target_bp;
    bonus_bp = t.bonus_bp;
    paid = paid;
    kept = kept;
    matured = matured;
  }

  unfoldable pub check_liquidation : ℕ → State → ℕ → ℕ → ℕ → ℕ → Bool → Result RuleError Ruling
  check_liquidation collateral state time price paid kept matured =
      rule.liquidation (case_of collateral state time price paid kept matured)
