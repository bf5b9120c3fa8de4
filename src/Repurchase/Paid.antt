-- ===== src/Repurchase/Paid.antt =====
-- Proofs on `inspect_settlement` of pignus/repurchase.py.
use pignus.Prelude.{
  ℕ, ◌≤◌, ◌≡◌, refl, inl, inr, Bool, true, false, not, ◌&&◌, Option, none, some, List, [], ◌∷◌,
  ◌++◌, Text, text_eq_iff, ltb, ◌==◌, if◌then◌else◌, ok, Option-cases, arith,
}
use pignus.Tx.{Output}
use pignus.Tx.Totals.{total_out, counted}
use pignus.Repurchase.Terms.{RepurchaseTerms}
use pignus.Repurchase.Settle.{paid}
use pignus.Repurchase.Inspect.{
  Problem, Spent, Places, places, report, pays_to, strays, input_problems, output_problems,
}

-- What the terms promise of the places: the lender gets the debt and the whole bond, the borrower
-- exactly the collateral.
pub record IsPaid (t : RepurchaseTerms) (address cu lender : Text) (w : Places) : Type 0 where
  pub vault_spent : w.bond_in.spk ≡ address
  pub debt_out : w.debt_out ≡ paid w.debt_out.amount lender t.debt_asset
  pub debt_paid : t.debt ≤ w.debt_out.amount
  pub asset_out : w.asset_out ≡ paid t.collateral_amount cu t.collateral_asset
  pub bond_out : w.bond_out ≡ paid w.bond_in.value lender t.debt_asset
  pub collateral_in : w.collateral_in.value ≡ t.collateral_amount
  pub no_stray : strays w t.collateral_asset ≡ false

pub append-eq-nil : {A : Type 0} (xs ys : List A) → xs ++ ys ≡ [] → (xs ≡ []) × (ys ≡ [])
append-eq-nil [] ys e = (refl, e)
append-eq-nil (x ∷ xs) ys e = absurd (ground arith)

report-eq-nil : (b : Bool) (p : Problem) → report b p ≡ [] → b ≡ false
report-eq-nil true p e = absurd (ground arith)
report-eq-nil false p e = refl

-- The checks on an output that is to pay so much, when they report nothing.
pays_to-eq-paid :
    (o : Output) (asset : ℕ) (spk : Text) → pays_to o asset spk ≡ true → o ≡ paid o.amount spk asset
pays_to-eq-paid o asset spk e = ground (arith, text_eq_iff o.spk spk)

of_not : (b : Bool) → not b ≡ false → b ≡ true
of_not true e = refl
of_not false e = absurd (ground arith)

both-true : (a b : Bool) → (a && b) ≡ true → (a ≡ true) × (b ≡ true)
both-true true b e = (refl, e)
both-true false b e = absurd (ground arith)

==→eq : (m n : ℕ) → (m == n) ≡ true → m ≡ n
==→eq m n e = ground arith

not-ltb→le : (m n : ℕ) → ltb m n ≡ false → n ≤ m
not-ltb→le m n e = ground arith

paid_whole :
    (o : Output) (n asset : ℕ) (spk : Text)
    → o ≡ paid o.amount spk asset
    → o.amount ≡ n
    → o ≡ paid n spk asset
paid_whole o n asset spk e h = rw (← h) e

checked_output :
    (pays wrong : Bool) (p q : Problem)
    → (if not pays then p ∷ [] else report wrong q) ≡ []
    → (pays ≡ true) × (wrong ≡ false)
checked_output true wrong p q e = (refl, report-eq-nil wrong q e)
checked_output false wrong p q e = absurd (ground arith)

pub problems-IsPaid :
    (t : RepurchaseTerms) (address cu lender : Text) (lender_cu : Option Text) (w : Places)
    → input_problems t address lender_cu w ++ output_problems t cu lender w ≡ []
    → IsPaid t address cu lender w
unfolding input_problems output_problems
problems-IsPaid t address cu lender lender_cu w e =
    let (ins, outs) =
      append-eq-nil (input_problems t address lender_cu w) (output_problems t cu lender w) e in
    let (five, _) = append-eq-nil _ _ outs in
    let (four, _) = append-eq-nil _ _ five in
    let (three, stray) = append-eq-nil _ _ four in
    let (two, bond) = append-eq-nil _ _ three in
    let (debt, asset) = append-eq-nil _ _ two in
    let (six_in, _) = append-eq-nil _ _ ins in
    let (five_in, _) = append-eq-nil _ _ six_in in
    let (four_in, collateral) = append-eq-nil _ _ five_in in
    let (three_in, _) = append-eq-nil _ _ four_in in
    let (_, vault) = append-eq-nil _ _ three_in in
    let (debt_to, debt_enough) =
      checked_output (pays_to w.debt_out t.debt_asset lender) (ltb w.debt_out.amount t.debt) _ _
        debt in
    let (bond_to, bond_whole) =
      checked_output (pays_to w.bond_out t.debt_asset lender)
        (not (w.bond_out.amount == w.bond_in.value)) _ _ bond in
    let vault_ok = report-eq-nil _ _ vault in
    let asset_ok = report-eq-nil _ _ asset in
    let collateral_ok = report-eq-nil _ _ collateral in
    let (home, home_whole) = both-true _ _ (of_not _ asset_ok) in
    let (_, collateral_whole) = both-true _ _ (of_not _ collateral_ok) in
    record {
      vault_spent = (text_eq_iff w.bond_in.spk address).0 (of_not _ vault_ok);
      debt_out = pays_to-eq-paid w.debt_out t.debt_asset lender debt_to;
      debt_paid = not-ltb→le w.debt_out.amount t.debt debt_enough;
      asset_out =
          paid_whole w.asset_out t.collateral_amount t.collateral_asset cu
            (pays_to-eq-paid w.asset_out t.collateral_asset cu home) (==→eq _ _ home_whole);
      bond_out =
          paid_whole w.bond_out w.bond_in.value t.debt_asset lender
            (pays_to-eq-paid w.bond_out t.debt_asset lender bond_to)
            (==→eq _ _ (of_not _ bond_whole));
      collateral_in = ==→eq _ _ collateral_whole;
      no_stray = report-eq-nil _ _ stray;
    }

-- The outputs that the places stand for.
abbrev pub outputs_of : Places → List Output
outputs_of w =
    w.verifier_out
    ∷ w.debt_out
    ∷ w.asset_out
    ∷ w.bond_out
    ∷ elim w.change_out [ none ↦ w.fee_out ∷ [] | some o ↦ o ∷ w.fee_out ∷ [] ]

pub places-eq-ok :
    (ins : List Spent) (outs : List Output) {w : Places}
    → places ins outs ≡ ok w
    → (outs ≡ outputs_of w) × (ins ≡ w.verifier_in ∷ w.bond_in ∷ w.collateral_in ∷ w.debt_in ∷ [])
unfolding places
places-eq-ok (i0 ∷ i1 ∷ i2 ∷ i3 ∷ []) (o0 ∷ o1 ∷ o2 ∷ o3 ∷ f ∷ []) e = (ground arith, ground arith)
places-eq-ok (i0 ∷ i1 ∷ i2 ∷ i3 ∷ []) (o0 ∷ o1 ∷ o2 ∷ o3 ∷ o4 ∷ f ∷ []) e =
    (ground arith, ground arith)
places-eq-ok ins outs e = absurd (ground arith)

-- Only output 2 carries an asset that does not stray.
pub strays_total :
    (w : Places) (a : ℕ)
    → strays w a ≡ false
    → total_out a (outputs_of w) ≡ counted a w.asset_out.asset w.asset_out.amount
unfolding total_out
strays_total w a e = elim (Option-cases w.change_out) [
  | inl nothing ↦ rw nothing (ground arith)
  | inr (o, there) ↦ rw there (ground arith)
]
