-- ===== src/Vault2/Accepted.antt =====
-- Proofs on `liquidation_plan` and `check_liquidation` of pignus/vault2.py together.
use pignus.Prelude.{
  ℕ, ◌-◌, ◌*◌, ◌^◌, ◌≤◌, ◌<◌, ◌≡◌, refl, Bool, true, false, none, some, min, leb, ◌==◌, ok,
  Bool-cases, inl, inr, arith, ◌∙◌,
}
use native.Mathlib.Nat.{mul-le-mul_left, mul-le-mul_right}
use pignus.Vault2.Terms.{V2Terms, IsSane}
use pignus.Vault2.Rule.{Rule, InRange, IsBelowTarget, IsAllowed, IsDocumented}
use pignus.Vault2.Plan.{
  LiquidationPlan, seizure_for, leaves_unhealthy, plan_of, plan_closing, plan_repaying, plan_early,
  liquidation_plan, case_of, check_liquidation,
}
use pignus.Vault2.Proposal.{IsProposal, liquidation_plan-IsProposal, bonus_below_target}

-- The vault is unhealthy at `p`.
abbrev pub IsUnhealthy : V2Terms → ℕ → ℕ → ℕ → Type 0
IsUnhealthy t c d p = c * p * 10000 < d * (t.liq_bp * 10 ^ t.precision)

module _ (rule : Rule) (doc : IsDocumented rule) (t : V2Terms) (sane : IsSane t) (c d p : ℕ) where
  -- The rule answers with the proposal's own figures.
  pub check_liquidation-eq-ok :
      (last time : ℕ) (matured : Bool) {plan : LiquidationPlan}
      → c < 2 ^ 64
      → d < 2 ^ 64
      → p < 2 ^ 64
      → last < time
      → time < 2 ^ 32
      → (matured ≡ false → IsUnhealthy t c d p)
      → IsProposal t c d p matured plan
      → check_liquidation rule t c (d, last) time p plan.repaid plan.kept matured
        ≡ ok record {
          repaid = plan.repaid;
          seized = plan.seized;
          closes = plan.closes;
          debt_after = d - plan.repaid;
          last_time_after = time;
        }
  unfolding check_liquidation
  check_liquidation-eq-ok last time matured {plan} cw dw pw newer tw sick prop =
      let case = case_of rule t c (d, last) time p plan.repaid plan.kept matured in
      let debt_le = prop.debt_bounds in
      let parts = prop.split in
      let one = prop.some_repaid in
      let within = prop.within_bonus in
      let below = sane.bonus_below in
      let above = sane.target_above in
      let word = sane.target_word in
      let seized : c - plan.kept ≡ plan.seized = omega arith in
      let closes : leb d plan.repaid ≡ plan.closes = elim (Bool-cases plan.closes) [
        | inl on ↦ let whole = prop.closes_debt on in ground arith
        | inr off ↦ let part = prop.open_only_below off in ground arith
      ] in
      let range : InRange case = record {
        collateral_word = cw;
        debt_word = dw;
        last_time_word = omega arith;
        time_word = tw;
        price_word = pw;
        precise = sane.precise;
        liq_word = omega arith;
        target_word = word;
        bonus_word = omega arith;
        paid_word = omega arith;
        kept_word = omega arith;
      } in
      let allowed : IsAllowed case = record {
        newer = newer;
        pays = one;
        pays_debt = debt_le;
        unhealthy = sick;
        below_target = prop.below_target;
        keeps = omega arith;
        seizes = rw seized within;
        leaves_healthy = prop.leaves_healthy;
      } in
      doc.liquidation_allows case range allowed ∙ rw (seized, closes) refl

  -- A repayment of something is planned.
  plan_repaying_answers :
      (r : ℕ)
      → 1 ≤ r
      → r ≤ d
      → d < 2 ^ 64
      → 1 ≤ p
      → p < 2 ^ 64
      → (plan : LiquidationPlan) × (plan_repaying rule t c d p r ≡ ok (some plan))
  unfolding plan_repaying plan_closing seizure_for
  plan_repaying_answers r one r_le dw priced pw =
      let below = sane.bonus_below in
      let above = sane.target_above in
      let word = sane.target_word in
      let answer = λ (q : ℕ) (h : q ≤ d).
        doc.max_seizure_answers q p t.precision t.bonus_bp (omega arith) priced pw sane.precise
          (omega arith) in
      let (s, found) = answer r r_le in
      let (s', found') = answer d (omega arith) in
      elim (Bool-cases (leaves_unhealthy rule t c d p r (min c s))) [
        | inl on ↦ (plan_of rule t c d d (min c s'), ground arith)
        | inr off ↦ (plan_of rule t c d r (min c s), ground arith)
      ]

  -- The planner proposes a liquidation of every vault that is unhealthy or due.
  pub liquidation_plan_answers :
      (matured : Bool)
      → c < 2 ^ 64
      → d < 2 ^ 64
      → p < 2 ^ 64
      → 1 ≤ p
      → 1 ≤ d
      → (matured ≡ false → IsUnhealthy t c d p)
      → (plan : LiquidationPlan) × (liquidation_plan rule t c d p matured ≡ ok (some plan))
  unfolding liquidation_plan plan_early
  liquidation_plan_answers true cw dw pw priced owed sick =
      let (plan, found) = plan_repaying_answers d owed (omega arith) dw priced pw in
      (plan, ground arith)
  liquidation_plan_answers false cw dw pw priced owed sick =
      let below = sane.bonus_below in
      let above = sane.target_above in
      let word = sane.target_word in
      let (sound, answered) =
        doc.healthy_answers c d p t.precision t.liq_bp cw dw pw sane.precise (omega arith) in
      let said = doc.healthy_is c d p t.precision t.liq_bp answered in
      let ill = sick refl in
      let (r, most) =
        doc.max_repay_answers c d p t.precision t.target_bp t.bonus_bp cw dw pw sane.precise word
          (omega arith) in
      let bound =
        doc.max_repay_is c d p t.precision t.target_bp t.bonus_bp (bonus_below_target sane) most in
      let ratios = mul-le-mul_left d (mul-le-mul_right (10 ^ t.precision) above) in
      let first : IsBelowTarget c d p t.precision t.target_bp t.bonus_bp 1 = omega arith in
      let (plan, found) =
        plan_repaying_answers r (bound.2 1 (omega arith) owed first) bound.0 dw priced pw in
      let unsound : sound ≡ false = ground arith in (plan, ground arith)

  -- With sane terms and a price, in range, at which a vault with a debt is unhealthy, or any such
  -- price once the loan is matured, the planner proposes a liquidation, the proposal keeps to
  -- `IsProposal`, and the rule accepts it under any attestation newer than the vault's last, with
  -- the proposal's own figures: the amount repaid, the seizure, whether the vault closes, and a next
  -- state that owes the rest.
  pub check_liquidation-liquidation_plan :
      (last time : ℕ) (matured : Bool)
      → c < 2 ^ 64
      → d < 2 ^ 64
      → p < 2 ^ 64
      → 1 ≤ p
      → 1 ≤ d
      → last < time
      → time < 2 ^ 32
      → (matured ≡ false → IsUnhealthy t c d p)
      → (plan : LiquidationPlan) × (liquidation_plan rule t c d p matured ≡ ok (some plan))
        × IsProposal t c d p matured plan
        × (check_liquidation rule t c (d, last) time p plan.repaid plan.kept matured
            ≡ ok record {
              repaid = plan.repaid;
              seized = plan.seized;
              closes = plan.closes;
              debt_after = d - plan.repaid;
              last_time_after = time;
            })
  check_liquidation-liquidation_plan last time matured cw dw pw priced owed newer tw sick =
      let (plan, found) = liquidation_plan_answers matured cw dw pw priced owed sick in
      let prop = liquidation_plan-IsProposal rule doc t c d p matured sane found in
      (plan, found, prop, check_liquidation-eq-ok last time matured cw dw pw newer tw sick prop)

  -- With sane terms and amounts and a price in range, the planner proposes nothing of a vault that is
  -- healthy at the price and whose loan is not matured.
  liquidation_plan-eq-none :
      c < 2 ^ 64
      → d < 2 ^ 64
      → p < 2 ^ 64
      → d * (t.liq_bp * 10 ^ t.precision) ≤ c * p * 10000
      → liquidation_plan rule t c d p false ≡ ok none
  unfolding liquidation_plan plan_early
  liquidation_plan-eq-none cw dw pw well =
      let above = sane.target_above in
      let word = sane.target_word in
      let (sound, answered) =
        doc.healthy_answers c d p t.precision t.liq_bp cw dw pw sane.precise (omega arith) in
      let said = doc.healthy_is c d p t.precision t.liq_bp answered in
      let well' : sound ≡ true = ground arith in
      elim (Bool-cases (d == 0)) [ inl settled ↦ ground arith | inr owed ↦ ground arith ]
