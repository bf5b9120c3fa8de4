-- ===== src/Vault2/Proposal.antt =====
-- Proofs on what `liquidation_plan` of pignus/vault2.py proposes.
use pignus.Prelude.{
  ℕ, ◌+◌, ◌-◌, ◌*◌, ◌^◌, ◌≤◌, ◌<◌, min, ◌≡◌, ap, Bool, true, false, some, ltb, ◌==◌, ok,
  Result-cases, Bool-cases, inl, inr, arith,
}
use mathlib.Core.Path.{subst}
use native.Mathlib.Nat.{mul-le-mul_left, mul-le-mul_right, le_trans, mul_assoc}
use pignus.Vault2.Terms.{V2Terms, IsSane}
use pignus.Vault2.Rule.{Rule, IsBelowTarget, IsDocumented}
use pignus.Vault2.Plan.{
  LiquidationPlan, seizure_for, leaves_unhealthy, plan_of, plan_closing, plan_repaying, plan_early,
  liquidation_plan, healthy,
}

-- With `value` the collateral's, `w` the seizure's and `tu`, `lu`, `bu` the ratios of the target, the
-- threshold and the bonus: a repayment of `r` that reaches the target and seizes at most its bonus
-- leaves the vault healthy.
healthy_at_target :
    (value w d r tu lu bu : ℕ)
    → r ≤ d
    → lu ≤ tu
    → d * tu + r * bu ≤ value + r * tu
    → w ≤ r * bu
    → (d - r) * lu + w ≤ value
healthy_at_target value w d r tu lu bu h l reach seize =
    let e : d ≡ r + (d - r) = omega arith in
    omega (arith, ap (λ (n : ℕ). n * tu) e, mul-le-mul_left (d - r) l)

-- What is kept and what is seized have the value of the whole.
value_split : (c s p x : ℕ) → s ≤ c → x + s * p * 10000 ≤ c * p * 10000 → x ≤ (c - s) * p * 10000
value_split c s p x h k =
    let e : c ≡ s + (c - s) = omega arith in omega (arith, ap (λ (n : ℕ). n * p) e, k)

pub bonus_below_target : {t : V2Terms} → IsSane t → t.bonus_bp < t.target_bp
bonus_below_target {t} sane =
    let low = sane.bonus_below in let high = sane.target_above in omega arith

-- What the planner proposes, in the terms of the rule.
pub record IsProposal (t : V2Terms) (c d p : ℕ) (matured : Bool) (plan : LiquidationPlan)
    : Type 0 where
  pub some_repaid : 1 ≤ plan.repaid
  pub debt_bounds : plan.repaid ≤ d
  pub split : plan.seized + plan.kept ≡ c
  pub within_bonus : plan.seized * p * 10000 ≤ plan.repaid * (t.bonus_bp * 10 ^ t.precision)
  pub open_only_below : plan.closes ≡ false → plan.repaid < d
  pub closes_debt : plan.closes ≡ true → plan.repaid ≡ d
  pub leaves_healthy :
      plan.repaid < d → (d - plan.repaid) * (t.liq_bp * 10 ^ t.precision) ≤ plan.kept * p * 10000
  pub below_target :
      matured ≡ false → IsBelowTarget c d p t.precision t.target_bp t.bonus_bp plan.repaid

module _ (rule : Rule) (doc : IsDocumented rule) (t : V2Terms) (c d p : ℕ) where
  seizure_for_bounds :
      (r : ℕ) {s : ℕ}
      → seizure_for rule t c p r ≡ ok s
      → (s ≤ c) × (s * p * 10000 ≤ r * (t.bonus_bp * 10 ^ t.precision))
  unfolding seizure_for
  seizure_for_bounds r {s} e = elim (Result-cases (rule.max_seizure r p t.precision t.bonus_bp)) [
    | inl (x, bad) ↦ absurd (ground arith)
    | inr (most, found) ↦
        let eq : min c most ≡ s = ground arith in
        let bound = doc.max_seizure_is r p t.precision t.bonus_bp found in
        let le : s ≤ most = omega arith in
        (omega arith, le_trans (mul-le-mul_right 10000 (mul-le-mul_right p le)) bound)
  ]

  -- A partial repayment that reaches the target is not turned into a closing.
  stays_healthy :
      (r s : ℕ)
      → s ≤ c
      → (r < d → (d - r) * (t.liq_bp * 10 ^ t.precision) + s * p * 10000 ≤ c * p * 10000)
      → leaves_unhealthy rule t c d p r s ≡ false
  unfolding leaves_unhealthy
  stays_healthy r s h k =
      let e : (d - r) * t.liq_bp * 10 ^ t.precision ≡ (d - r) * (t.liq_bp * 10 ^ t.precision) =
        mul_assoc (d - r) t.liq_bp (10 ^ t.precision) in
      let kept : r < d → (d - r) * t.liq_bp * 10 ^ t.precision ≤ (c - s) * p * 10000 =
        λ lt. value_split c s p ((d - r) * t.liq_bp * 10 ^ t.precision) h (rw e (k lt)) in
      elim (Bool-cases (ltb r d)) [ inl on ↦ ground arith | inr off ↦ ground arith ]

  -- What a plan is that repays `r` and seizes `s`.
  plan_of-IsProposal :
      (r s : ℕ) (matured : Bool)
      → 1 ≤ r
      → r ≤ d
      → s ≤ c
      → s * p * 10000 ≤ r * (t.bonus_bp * 10 ^ t.precision)
      → (r < d → (d - r) * (t.liq_bp * 10 ^ t.precision) + s * p * 10000 ≤ c * p * 10000)
      → (matured ≡ false → IsBelowTarget c d p t.precision t.target_bp t.bonus_bp r)
      → IsProposal t c d p matured (plan_of rule t c d r s)
  plan_of-IsProposal r s matured one r_le s_le seize healthy below = record {
    some_repaid = one;
    debt_bounds = r_le;
    split = omega arith;
    within_bonus = seize;
    open_only_below = λ e. ground arith;
    closes_debt = λ e. ground arith;
    leaves_healthy =
        λ lt. value_split c s p ((d - r) * (t.liq_bp * 10 ^ t.precision)) s_le (healthy lt);
    below_target = below;
  }

  -- A repayment before maturity reaches the target, or it is the whole debt.
  max_repay_reaches :
      {r : ℕ}
      → IsSane t
      → rule.max_repay c d p t.precision t.target_bp t.bonus_bp ≡ ok r
      → (s : ℕ) → s * p * 10000 ≤ r * (t.bonus_bp * 10 ^ t.precision)
      → r < d
      → (d - r) * (t.liq_bp * 10 ^ t.precision) + s * p * 10000 ≤ c * p * 10000
  max_repay_reaches {r} sane e s seize lt =
      let most =
        (doc.max_repay_is c d p t.precision t.target_bp t.bonus_bp (bonus_below_target sane) e).2
          (1 + r) in
      let tu = t.target_bp * 10 ^ t.precision in
      let bu = t.bonus_bp * 10 ^ t.precision in
      let reach : d * tu + r * bu ≤ c * p * 10000 + r * tu = ground arith in
      healthy_at_target (c * p * 10000) (s * p * 10000) d r tu (t.liq_bp * 10 ^ t.precision) bu
        (omega arith) (mul-le-mul_right (10 ^ t.precision) (sane.target_above)) reach seize

  -- The plan that repays `r`, where a partial repayment of `r` reaches the target.
  plan_repaying-IsProposal :
      (r : ℕ) (matured : Bool) {plan : LiquidationPlan}
      → r ≤ d
      → ((s : ℕ)
          → s * p * 10000 ≤ r * (t.bonus_bp * 10 ^ t.precision)
          → r < d
          → (d - r) * (t.liq_bp * 10 ^ t.precision) + s * p * 10000 ≤ c * p * 10000)
      → (1 ≤ r → matured ≡ false → IsBelowTarget c d p t.precision t.target_bp t.bonus_bp r)
      → plan_repaying rule t c d p r ≡ ok (some plan)
      → IsProposal t c d p matured plan
  unfolding plan_repaying plan_closing
  plan_repaying-IsProposal r matured {plan} h reach below e = elim (Bool-cases (r == 0)) [
    | inl zero ↦ absurd (ground arith)
    | inr some_repaid ↦ elim (Result-cases (seizure_for rule t c p r)) [
      | inl (x, bad) ↦ absurd (ground arith)
      | inr (s, found) ↦
          let bound = seizure_for_bounds r found in
          let stays = stays_healthy r s bound.0 (reach s bound.1) in
          let eq : plan_of rule t c d r s ≡ plan = ground arith in
          subst (IsProposal t c d p matured) eq (
            plan_of-IsProposal r s matured (ground arith) h bound.0 bound.1 (reach s bound.1)
              (below (ground arith)))
    ]
  ]

  -- What the planner proposes of sane terms.
  pub liquidation_plan-IsProposal :
      (matured : Bool) {plan : LiquidationPlan}
      → IsSane t
      → liquidation_plan rule t c d p matured ≡ ok (some plan)
      → IsProposal t c d p matured plan
  unfolding liquidation_plan plan_early
  liquidation_plan-IsProposal matured {plan} sane e = elim (Bool-cases (d == 0)) [
    | inl settled ↦ absurd (ground arith)
    | inr owed ↦ elim (Bool-cases matured) [
      | inl late ↦
          plan_repaying-IsProposal d matured (omega arith) (λ s bound lt. absurd (omega arith))
            (λ one early. absurd (ground arith)) (ground arith)
      | inr early ↦ elim (Result-cases (healthy rule t c d p)) [
        | inl (x, bad) ↦ absurd (ground arith)
        | inr (true, sound) ↦ absurd (ground arith)
        | inr (false, unsound) ↦
            elim (Result-cases (rule.max_repay c d p t.precision t.target_bp t.bonus_bp)) [
              | inl (x, bad) ↦ absurd (ground arith)
              | inr (r, most) ↦
                  let said =
                    doc.max_repay_is c d p t.precision t.target_bp t.bonus_bp
                      (bonus_below_target sane) most in
                  plan_repaying-IsProposal r matured said.0 (max_repay_reaches sane most)
                    (λ one e'. said.1 one) (ground arith)
            ]
      ]
    ]
  ]
