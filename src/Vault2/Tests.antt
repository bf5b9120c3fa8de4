-- ===== src/Vault2/Tests.antt =====
-- The theorems on liquidations, at sample terms and the contracts' rule, whose `max_repay` searches.
use pignus.Prelude.{
  ℕ, zero, suc, ◌+◌, ◌-◌, ◌*◌, ◌/◌, ◌^◌, ◌≤◌, ◌≡◌, refl, sym, ◌==◌, Bool, true, false, ◌&&◌, ◌||◌,
  ltb, leb, some, if◌then◌else◌, ok, err, arith, codes, replicate, Bool-cases, inl, inr, [],
}
use mathlib.Core.Path.{subst}
use native.Mathlib.Nat.{div-mul-le_self, mul_assoc}
use pignus.Vault2.Terms.{V2Terms, IsSane, sanity_check, sanity_check-IsSane}
use pignus.Vault2.Rule.{Rule, Case, IsAllowed, IsDocumented, ruling_of, refused}
use pignus.Vault2.Plan.{LiquidationPlan, liquidation_plan, check_liquidation}
use pignus.Vault2.Proposal.{IsProposal}
use pignus.Vault2.Accepted.{check_liquidation-liquidation_plan}

-- The largest number up to the first argument, and above zero, that passes the test.
unfoldable pub largest : ℕ → (ℕ → Bool) → ℕ
largest zero f = 0
largest (suc n) f = if f (suc n) then suc n else largest n f

abbrev pub below : ℕ → ℕ → ℕ → ℕ → ℕ → ℕ → ℕ → Bool
below c d p n target bonus r =
    ltb (c * p * 10000 + (r - 1) * (target * 10 ^ n))
      (d * (target * 10 ^ n) + (r - 1) * (bonus * 10 ^ n))

-- A payment of the debt or more repays the debt.
abbrev pub repaid_of : Case → ℕ
repaid_of c = if leb c.debt c.paid then c.debt else c.paid

abbrev pub allowed : Case → Bool
allowed c =
    ltb c.last_time c.time
    && leb 1 c.paid
    && (c.matured
        || ltb (c.collateral * c.price * 10000) (c.debt * (c.liq_bp * 10 ^ c.precision))
          && below c.collateral c.debt c.price c.precision c.target_bp c.bonus_bp (repaid_of c))
    && leb c.kept c.collateral
    && leb ((c.collateral - c.kept) * c.price * 10000)
        (repaid_of c * (c.bonus_bp * 10 ^ c.precision))
    && (leb c.debt c.paid
        || leb ((c.debt - c.paid) * (c.liq_bp * 10 ^ c.precision)) (c.kept * c.price * 10000))

abbrev pub rule : Rule
rule = record {
  healthy = λ c d p n liq. ok (leb (d * (liq * 10 ^ n)) (c * p * 10000));
  max_seizure = λ r p n bonus. ok (r * (bonus * 10 ^ n) / (p * 10000));
  max_repay = λ c d p n target bonus. ok (largest d (below c d p n target bonus));
  liquidation =
      λ c. if allowed c then ok (record (ruling_of c) { repaid = repaid_of c }) else err refused;
}

abbrev IsLargest : ℕ → (ℕ → Bool) → ℕ → Type 0
IsLargest n f r = (r ≤ n) × (1 ≤ r → f r ≡ true) × ((q : ℕ) → 1 ≤ q → q ≤ n → f q ≡ true → q ≤ r)

largest-IsLargest : (n : ℕ) (f : ℕ → Bool) → IsLargest n f (largest n f)
unfolding largest
largest-IsLargest zero f = (omega arith, λ h. absurd (omega arith), λ q h k e. k)
largest-IsLargest (suc n) f =
    let (le, passes, most) = largest-IsLargest n f in
    elim (Bool-cases (f (suc n))) [
      | inl on ↦ (ground arith, λ h. ground arith, λ q h k e. ground arith)
      | inr off ↦ (
        ground arith,
        λ h. ground arith,
        λ q h k e. elim (Bool-cases (q == suc n)) [
          | inl last ↦ absurd (ground arith)
          | inr first ↦ let earlier = most q h (ground arith) e in ground arith
        ],
      )
    ]

repaid_of-eq : (c : Case) → c.paid ≤ c.debt → repaid_of c ≡ c.paid
repaid_of-eq c h = ground arith

allowed-eq-true : (c : Case) → IsAllowed c → allowed c ≡ true
allowed-eq-true c a =
    let newer = a.newer in
    let one = a.pays in
    let debt_le = a.pays_debt in
    let keeps = a.keeps in
    let seizes = a.seizes in
    elim (Bool-cases c.matured) [
      | inl due ↦ elim (Bool-cases (leb c.debt c.paid)) [
        | inl full ↦ ground arith
        | inr part ↦ let well = a.leaves_healthy (ground arith) in ground arith
      ]
      | inr early ↦
          let ill = a.unhealthy early in
          let low = a.below_target early in
          elim (Bool-cases (leb c.debt c.paid)) [
            | inl full ↦ ground arith
            | inr part ↦ let well = a.leaves_healthy (ground arith) in ground arith
          ]
    ]

pub rule-IsDocumented : IsDocumented rule
rule-IsDocumented = record {
  healthy_is = λ c d p n liq {b} e. ground arith;
  max_seizure_is = λ r p n bonus {s} e.
      let eq : r * (bonus * 10 ^ n) / (p * 10000) ≡ s = ground arith in
      let le = div-mul-le_self (r * (bonus * 10 ^ n)) (p * 10000) in
      let same = mul_assoc s p 10000 in
      let le' : s * (p * 10000) ≤ r * (bonus * 10 ^ n) = rw (sym eq) le in omega (arith, same, le');
  max_repay_is = λ c d p n target bonus {r} lt e.
      let eq : largest d (below c d p n target bonus) ≡ r = ground arith in
      let (le, passes, most) =
        subst (IsLargest d (below c d p n target bonus)) eq
          (largest-IsLargest d (below c d p n target bonus)) in
      (
        le,
        λ one. let yes = passes one in ground arith,
        λ q one' q_le yes. most q one' q_le (ground arith),
      );
  liquidation_allows = λ c range a.
      let yes = allowed-eq-true c a in let same = repaid_of-eq c a.pays_debt in ground arith;
  liquidation_checks = λ c {ruling} e. (ground arith, ground arith, ground arith);
  healthy_answers =
      λ c d p n liq cw dw pw small lw. (leb (d * (liq * 10 ^ n)) (c * p * 10000), refl);
  max_seizure_answers =
      λ r p n bonus rw' one pw small bw. (r * (bonus * 10 ^ n) / (p * 10000), refl);
  max_repay_answers =
      λ c d p n target bonus cw dw pw small tw bw. (largest d (below c d p n target bonus), refl);
}

abbrev pub terms : V2Terms
terms = record {
  collateral_asset = replicate 64 b'a';
  debt_asset = replicate 64 b'b';
  oracle_x = replicate 64 b'1';
  beacon_asset = replicate 64 b'2';
  precision = 0;
  liq_bp = 15000;
  target_bp = 16000;
  bonus_bp = 10500;
  maturity = 1_800_000_000;
  recover_after = 1_810_000_000;
  lender_spk = codes "0014";
  borrower_spk = [];
  market = [];
  borrower_hash = [];
  oracles = [];
  beacon_assets = [];
  threshold = 0;
}

sane_terms : sanity_check terms ≡ []
unfolding sanity_check
sane_terms = refl

sane : IsSane terms
sane = (sanity_check-IsSane terms).0 sane_terms

planned_example :
    liquidation_plan rule terms 14 100 10 false
    ≡ ok (some record { repaid = 37; seized = 3; kept = 11; closes = false })
unfolding liquidation_plan largest
planned_example = refl

check_liquidation-liquidation_plan_example :
    (plan : LiquidationPlan) × (liquidation_plan rule terms 14 100 10 false ≡ ok (some plan))
    × IsProposal terms 14 100 10 false plan
    × (check_liquidation rule terms 14 (100, 5) 6 10 plan.repaid plan.kept false
        ≡ ok record {
          repaid = plan.repaid;
          seized = plan.seized;
          closes = plan.closes;
          debt_after = 100 - plan.repaid;
          last_time_after = 6;
        })
check_liquidation-liquidation_plan_example =
    check_liquidation-liquidation_plan rule rule-IsDocumented terms sane 14 100 10 5 6 false
      (omega arith) (omega arith) (omega arith) (omega arith) (omega arith) (omega arith)
      (omega arith) (λ early. omega arith)
