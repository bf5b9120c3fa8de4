-- ===== src/Repurchase/Standing.antt =====
-- `repurchase_state` of pignus/repurchase.py, and proofs on it.
use pignus.Prelude.{
  ℕ, ◌≤◌, ◌≡◌, ◌↔◌, ◌⊎◌, inl, inr, Bool, true, false, Option, none, some, min, ltb, if◌then◌else◌,
  arith,
}
use pignus.Repurchase.Terms.{RepurchaseTerms, locktime_open}
use pignus.Repurchase.Coins.{Txout}

pub data Standing : Type 0 where
  settled leg_one_only not_funded bond_only funded_unburied forfeitable live : Standing

-- The two halves as `verify_funding` and `verify_leg_one` returned them, none where a check did not
-- pass; then the depth asked for, the height and the median time.
unfoldable pub repurchase_state :
    RepurchaseTerms → Option Txout → Option Txout → Bool → ℕ → ℕ → Option ℕ → Standing
repurchase_state t bond leg_one true depth height now = settled
repurchase_state t none none false depth height now = not_funded
repurchase_state t none (some l) false depth height now = leg_one_only
repurchase_state t (some b) none false depth height now = bond_only
repurchase_state t (some b) (some l) false depth height now =
    if ltb (min b.confirmations l.confirmations) depth
    then funded_unburied
    else if locktime_open t.forfeit_after height now
    then forfeitable
    else live

-- Both halves are there, unspent and buried.
pub record IsBuried (bond leg_one : Option Txout) (spent : Bool) (depth : ℕ) : Type 0 where
  pub the_bond : Txout
  pub the_leg : Txout
  pub bonded : bond ≡ some the_bond
  pub delivered : leg_one ≡ some the_leg
  pub unspent : spent ≡ false
  pub bond_deep : depth ≤ the_bond.confirmations
  pub leg_deep : depth ≤ the_leg.confirmations

module _ (t : RepurchaseTerms) (depth height : ℕ) (now : Option ℕ) where
  state-IsBuried :
      (bond leg_one : Option Txout) (spent : Bool)
      → (repurchase_state t bond leg_one spent depth height now ≡ live)
        ⊎ (repurchase_state t bond leg_one spent depth height now ≡ forfeitable)
      → IsBuried bond leg_one spent depth
        × (repurchase_state t bond leg_one spent depth height now
            ≡ (if locktime_open t.forfeit_after height now then forfeitable else live))
  unfolding repurchase_state
  state-IsBuried bond leg_one true e = absurd (ground arith)
  state-IsBuried none none false e = absurd (ground arith)
  state-IsBuried none (some l) false e = absurd (ground arith)
  state-IsBuried (some b) none false e = absurd (ground arith)
  state-IsBuried (some b) (some l) false e = (
    record {
      the_bond = b;
      the_leg = l;
      bonded = ground arith;
      delivered = ground arith;
      unspent = ground arith;
      bond_deep = ground arith;
      leg_deep = ground arith;
    },
    ground arith,
  )

  buried_state :
      (bond leg_one : Option Txout) (spent : Bool)
      → IsBuried bond leg_one spent depth
      → repurchase_state t bond leg_one spent depth height now
        ≡ (if locktime_open t.forfeit_after height now then forfeitable else live)
  unfolding repurchase_state
  buried_state bond leg_one spent w =
      let b = w.bonded in
      let l = w.delivered in
      let u = w.unspent in
      let deep = w.bond_deep in let deep' = w.leg_deep in rw (b, l, u) (ground arith)

  -- A repurchase is called live or forfeitable exactly when the bond and the collateral leg are both
  -- there, buried at the depth, and the bond is not spent; it is forfeitable then exactly when the
  -- deadline has passed in its own units, and live otherwise.
  repurchase_state_iff :
      (bond leg_one : Option Txout) (spent : Bool)
      → ((repurchase_state t bond leg_one spent depth height now ≡ live) ↔ (
          IsBuried bond leg_one spent depth × (locktime_open t.forfeit_after height now ≡ false)))
        × ((repurchase_state t bond leg_one spent depth height now ≡ forfeitable) ↔ (
            IsBuried bond leg_one spent depth × (locktime_open t.forfeit_after height now ≡ true)))
  repurchase_state_iff bond leg_one spent = (
    (
      λ e. let (w, is) = state-IsBuried bond leg_one spent (inl e) in (w, ground arith),
      λ (w, shut). let is = buried_state bond leg_one spent w in ground arith,
    ),
    (
      λ e. let (w, is) = state-IsBuried bond leg_one spent (inr e) in (w, ground arith),
      λ (w, passed). let is = buried_state bond leg_one spent w in ground arith,
    ),
  )

  -- From any height and median time on that have both reached the deadline, a repurchase whose
  -- halves are buried and unspent is forfeitable: the borrower is told of the bond, and stays told.
  forfeitable_after :
      (time : ℕ) (bond leg_one : Option Txout) (spent : Bool)
      → IsBuried bond leg_one spent depth
      → t.forfeit_after ≤ height
      → now ≡ some time
      → t.forfeit_after ≤ time
      → repurchase_state t bond leg_one spent depth height now ≡ forfeitable
  unfolding locktime_open
  forfeitable_after time bond leg_one spent w high clock late =
      let is = buried_state bond leg_one spent w in ground arith
