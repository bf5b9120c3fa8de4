-- ===== src/Repurchase/Inspect.antt =====
-- `inspect_settlement` of pignus/repurchase.py: what a settlement pays whom, judged against the
-- terms, on the decoded transaction.
use pignus.Prelude.{
  ℕ, Bool, true, false, not, ◌&&◌, ◌||◌, Option, none, some, List, [], ◌∷◌, ◌++◌, Text, text_eq,
  ltb, ◌==◌, if◌then◌else◌, length, is_empty, Result, ok, err, ◌>>=◌, ◌>>◌, raise_if,
}
use pignus.Tx.{Output}
use pignus.Repurchase.Terms.{RepurchaseTerms, RepurchaseError}
use pignus.Vault.Spender.{VaultError, payout_spk}
use pignus.Repurchase.Settle.{check_settlement}

-- An output as it stands in the transaction, with none for a commitment that is not explicit.
pub record RawOut : Type 0 where
  pub asset : Option ℕ
  pub value : Option ℕ
  pub spk : Text

-- The decoded transaction, as far as it is read.
pub record RawTx : Type 0 where
  pub n_inputs : ℕ
  pub outs : List RawOut
  pub locktime : ℕ

-- A spent output as the document carries it.
pub record Prevout : Type 0 where
  pub asset : Option ℕ
  pub value : Option ℕ
  pub spk : Option Text

-- Why nothing is judged.
pub data Refusal : Type 0 where
  unreadable wrong_shape wrong_prevouts missing_key : Refusal
  shape : RepurchaseError → Refusal
  not_explicit : Refusal
  payout : VaultError → Refusal

pub data Problem : Type 0 where
  verifier_not_returned own_asset_as_verifier : Problem
  not_the_vault bond_not_in_debt : Problem
  wrong_collateral_input wrong_cu : Problem
  payment_not_in_debt debt_not_to_lender debt_short : Problem
  asset_not_home bond_not_to_lender bond_short : Problem
  stray_asset fee_not_last fee_not_in_debt change_not_in_debt : Problem

pub record Summary : Type 0 where
  pub debt_to_lender : ℕ
  pub bond_to_lender : ℕ
  pub bond_held : ℕ
  pub asset_to_borrower : ℕ
  pub fee : ℕ
  pub change : ℕ
  pub change_spk : Option Text
  pub locktime : ℕ
  pub lender_spk : Text
  pub borrower_cu_spk : Text

-- The spent outputs with their keys, in order.
pub record Spent : Type 0 where
  pub asset : ℕ
  pub value : ℕ
  pub spk : Text

-- `_explicit` on each output.
unfoldable pub explicit_outs : List RawOut → Result Refusal (List Output)
explicit_outs [] = ok []
explicit_outs (o ∷ os) = elim o.asset [
  | none ↦ err not_explicit
  | some a ↦ elim o.value [
    | none ↦ err not_explicit
    | some v ↦
        explicit_outs os >>= λ rest. ok (record { amount = v; spk = o.spk; asset = a } ∷ rest)
  ]
]

unfoldable pub keyed : List Prevout → Result Refusal (List Spent)
keyed [] = ok []
keyed (p ∷ ps) = elim p.asset [
  | none ↦ err missing_key
  | some a ↦ elim p.value [
    | none ↦ err missing_key
    | some v ↦ elim p.spk [
      | none ↦ err missing_key
      | some spk ↦ keyed ps >>= λ rest. ok (record { asset = a; value = v; spk = spk } ∷ rest)
    ]
  ]
]

abbrev pub shaped : Result RepurchaseError (Unit {0}) → Result Refusal (Unit {0})
shaped (ok tt) = ok tt
shaped (err e) = err (shape e)

abbrev pub scripted : Result VaultError Text → Result Refusal Text
scripted (ok spk) = ok spk
scripted (err e) = err (payout e)

-- The places of a settlement: four spent outputs, and five outputs or six.
pub record Places : Type 0 where
  pub verifier_in : Spent
  pub bond_in : Spent
  pub collateral_in : Spent
  pub debt_in : Spent
  pub verifier_out : Output
  pub debt_out : Output
  pub asset_out : Output
  pub bond_out : Output
  pub change_out : Option Output
  pub fee_out : Output

unfoldable pub places : List Spent → List Output → Result Refusal Places
places (i0 ∷ i1 ∷ i2 ∷ i3 ∷ []) (o0 ∷ o1 ∷ o2 ∷ o3 ∷ f ∷ []) = ok record {
  verifier_in = i0;
  bond_in = i1;
  collateral_in = i2;
  debt_in = i3;
  verifier_out = o0;
  debt_out = o1;
  asset_out = o2;
  bond_out = o3;
  change_out = none;
  fee_out = f;
}
places (i0 ∷ i1 ∷ i2 ∷ i3 ∷ []) (o0 ∷ o1 ∷ o2 ∷ o3 ∷ o4 ∷ f ∷ []) = ok record {
  verifier_in = i0;
  bond_in = i1;
  collateral_in = i2;
  debt_in = i3;
  verifier_out = o0;
  debt_out = o1;
  asset_out = o2;
  bond_out = o3;
  change_out = some o4;
  fee_out = f;
}
places ins outs = err wrong_shape

abbrev pub report : Bool → Problem → List Problem
report true p = p ∷ []
report false p = []

abbrev pub same_out : Output → Spent → Bool
same_out o i = o.asset == i.asset && o.amount == i.value && text_eq o.spk i.spk

abbrev pub pays_to : Output → ℕ → Text → Bool
pays_to o asset spk = o.asset == asset && text_eq o.spk spk

abbrev pub change_asset_differs : Option Output → ℕ → Bool
change_asset_differs none a = false
change_asset_differs (some o) a = not (o.asset == a)

-- Whether the asset under repurchase leaves elsewhere than at output 2.
abbrev pub strays : Places → ℕ → Bool
strays w a =
    w.verifier_out.asset == a
    || w.debt_out.asset == a
    || w.bond_out.asset == a
    || elim w.change_out [ none ↦ false | some o ↦ o.asset == a ]
    || w.fee_out.asset == a

-- The problems with the inputs; `address` is what the terms compile to, and the lender's C_U, where
-- one is named, is its script.
unfoldable pub input_problems : RepurchaseTerms → Text → Option Text → Places → List Problem
input_problems t address lender_cu w =
    report (not (same_out w.verifier_out w.verifier_in)) verifier_not_returned
    ++ report (w.verifier_in.asset == t.collateral_asset || w.verifier_in.asset == t.debt_asset)
        own_asset_as_verifier
    ++ report (not (text_eq w.bond_in.spk address)) not_the_vault
    ++ report (not (w.bond_in.asset == t.debt_asset)) bond_not_in_debt
    ++ report
        (not (
          w.collateral_in.asset == t.collateral_asset
          && w.collateral_in.value == t.collateral_amount))
        wrong_collateral_input
    ++ report (elim lender_cu [ none ↦ false | some cu ↦ not (text_eq w.collateral_in.spk cu) ])
        wrong_cu
    ++ report (not (w.debt_in.asset == t.debt_asset)) payment_not_in_debt

unfoldable pub output_problems : RepurchaseTerms → Text → Text → Places → List Problem
output_problems t cu lender w =
    (if not (pays_to w.debt_out t.debt_asset lender)
      then debt_not_to_lender ∷ []
      else report (ltb w.debt_out.amount t.debt) debt_short)
    ++ report
        (not
          (pays_to w.asset_out t.collateral_asset cu && w.asset_out.amount == t.collateral_amount))
        asset_not_home
    ++ (if not (pays_to w.bond_out t.debt_asset lender)
        then bond_not_to_lender ∷ []
        else report (not (w.bond_out.amount == w.bond_in.value)) bond_short)
    ++ report (strays w t.collateral_asset) stray_asset
    ++ (if not (is_empty w.fee_out.spk)
        then fee_not_last ∷ []
        else report (not (w.fee_out.asset == t.debt_asset)) fee_not_in_debt)
    ++ report (change_asset_differs w.change_out t.debt_asset) change_not_in_debt

abbrev pub summary_of : Text → Text → Places → ℕ → Summary
summary_of cu lender w locktime = record {
  debt_to_lender = w.debt_out.amount;
  bond_to_lender = w.bond_out.amount;
  bond_held = w.bond_in.value;
  asset_to_borrower = w.asset_out.amount;
  fee = w.fee_out.amount;
  change = elim w.change_out [ none ↦ 0 | some o ↦ o.amount ];
  change_spk = elim w.change_out [ none ↦ none | some o ↦ some o.spk ];
  locktime = locktime;
  lender_spk = lender;
  borrower_cu_spk = cu;
}

-- `inspect_settlement`; no transaction is one that cannot be decoded.
unfoldable pub inspect_settlement :
    RepurchaseTerms
    → Text
    → Option Text
    → Option RawTx
    → List Prevout
    → Result Refusal (List Problem × Summary)
inspect_settlement t address lender_cu none prevouts = err unreadable
inspect_settlement t address lender_cu (some tx) prevouts = do
  shaped (check_settlement tx.n_inputs (length tx.outs))
  raise_if (not (tx.n_inputs == 4) || ltb (length tx.outs) 5) wrong_shape
  raise_if (not (length prevouts == tx.n_inputs)) wrong_prevouts
  spent ← keyed prevouts
  outs ← explicit_outs tx.outs
  cu ← scripted (payout_spk 1 t.borrower_cu)
  lender ← scripted (payout_spk t.lender_ver t.lender_prog)
  w ← places spent outs
  ok (
    input_problems t address lender_cu w ++ output_problems t cu lender w,
    summary_of cu lender w tx.locktime,
  )
