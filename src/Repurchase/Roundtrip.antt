-- ===== src/Repurchase/Roundtrip.antt =====
-- Proofs on `inspect_settlement` of pignus/repurchase.py after `compose_settlement`.
use pignus.Prelude.{
  ℕ, ◌+◌, ◌≤◌, ◌≡◌, ◌≢◌, refl, ap, inl, inr, none, some, List, [], ◌∷◌, ◌++◌, Text, map,
  text_eq_refl, ltb, if◌then◌else◌, length, ok, Bool-cases, arith, ◌∙◌,
}
use pignus.Tx.{Output, Tx, fee_output}
use pignus.Vault.Spender.{payout_spk}
use pignus.Repurchase.Terms.{RepurchaseTerms, IsSane}
use pignus.Repurchase.Settle.{
  RepurchaseSpender, Parts, Coin, Scripts, spks, paid, check_settlement, settlement_outs,
  settlement_tx, compose_settlement,
}
use pignus.Repurchase.Shape.{IsSettleable, compose_settlement-IsSettlement}
use pignus.Repurchase.Composed.{held-eq}
use pignus.Repurchase.Inspect.{
  RawOut, RawTx, Prevout, Spent, Places, explicit_outs, keyed, places, input_problems,
  output_problems, summary_of, inspect_settlement,
}

-- The composed transaction as it decodes.
abbrev pub raw_out : Output → RawOut
raw_out o = record { asset = some o.asset; value = some o.amount; spk = o.spk }

abbrev pub raw_of : Tx → RawTx
raw_of tx = record {
  n_inputs = length tx.inputs;
  outs = map raw_out tx.outs;
  locktime = tx.locktime;
}

-- The document's spent outputs, with the scripts of the vault, the lender's C_U and the debt input.
abbrev pub prevout : Coin → Text → Prevout
prevout c spk = record { asset = some c.asset; value = some c.amount; spk = some spk }

abbrev pub document : Parts → Text → Text → Text → List Prevout
document p address cu_spk debt_spk =
    prevout p.verifier p.verifier_spk
    ∷ prevout p.bond_coin address
    ∷ prevout p.cu_lender cu_spk
    ∷ prevout p.debt_input debt_spk
    ∷ []

abbrev spent_of : Coin → Text → Spent
spent_of c spk = record { asset = c.asset; value = c.amount; spk = spk }

explicit_outs-map : (os : List Output) → explicit_outs (map raw_out os) ≡ ok os
unfolding explicit_outs
explicit_outs-map [] = refl
explicit_outs-map (o ∷ os) = ground (arith, explicit_outs-map os)

length-map : (os : List Output) → length (map raw_out os) ≡ length os
length-map [] = refl
length-map (o ∷ os) = omega (arith, length-map os)

spks-eq-ok :
    (t : RepurchaseTerms) {to : Scripts}
    → spks t ≡ ok to
    → (payout_spk 1 t.borrower_cu ≡ ok to.cu)
      × (payout_spk t.lender_ver t.lender_prog ≡ ok to.lender)
unfolding spks
spks-eq-ok t {to} e = (ground arith, ground arith)

module _ (t : RepurchaseTerms) (p : Parts) (to : Scripts) (h rest fee : ℕ)
    (address cu_spk debt_spk : Text) where
  abbrev placed : Places
  placed = record {
    verifier_in = spent_of p.verifier p.verifier_spk;
    bond_in = spent_of p.bond_coin address;
    collateral_in = spent_of p.cu_lender cu_spk;
    debt_in = spent_of p.debt_input debt_spk;
    verifier_out = paid p.verifier.amount p.verifier_spk p.verifier.asset;
    debt_out = paid t.debt to.lender t.debt_asset;
    asset_out = paid t.collateral_amount to.cu t.collateral_asset;
    bond_out = paid h to.lender t.debt_asset;
    change_out = if ltb 0 rest then some (paid rest p.change_spk t.debt_asset) else none;
    fee_out = fee_output t.debt_asset fee;
  }

  abbrev spent : List Spent
  spent =
      spent_of p.verifier p.verifier_spk
      ∷ spent_of p.bond_coin address
      ∷ spent_of p.cu_lender cu_spk
      ∷ spent_of p.debt_input debt_spk
      ∷ []

  outs_places :
      places spent (settlement_outs t p to h rest ++ fee_output t.debt_asset fee ∷ []) ≡ ok placed
  unfolding places settlement_outs
  outs_places = elim (Bool-cases (ltb 0 rest)) [
    | inl more ↦ ground arith
    | inr whole ↦ ground arith
  ]

  outs_length :
      (5 ≤ length (settlement_outs t p to h rest ++ fee_output t.debt_asset fee ∷ []))
      × (length (settlement_outs t p to h rest ++ fee_output t.debt_asset fee ∷ []) ≤ 6)
  unfolding settlement_outs
  outs_length = elim (Bool-cases (ltb 0 rest)) [
    | inl more ↦ ground arith
    | inr whole ↦ ground arith
  ]

  summary_placed :
      (locktime n : ℕ)
      → h ≡ n
      → n ≡ p.bond_coin.amount
      → summary_of to.cu to.lender placed locktime ≡ record {
        debt_to_lender = t.debt;
        bond_to_lender = n;
        bond_held = n;
        asset_to_borrower = t.collateral_amount;
        fee = fee;
        change = rest;
        change_spk = if ltb 0 rest then some p.change_spk else none;
        locktime = locktime;
        lender_spk = to.lender;
        borrower_cu_spk = to.cu;
      }
  summary_placed locktime n whole holds = elim (Bool-cases (ltb 0 rest)) [
    | inl more ↦ ground arith
    | inr none_left ↦ ground arith
  ]

  module _ (s : RepurchaseSpender) (same : s.terms ≡ t) (ok_parts : IsSettleable s p)
      (bonded : p.bond_coin.asset ≡ t.debt_asset) (whole : h ≡ p.bond_coin.amount)
      (differ : t.collateral_asset ≢ t.debt_asset) where
    no_input_problems : input_problems t address none placed ≡ []
    unfolding input_problems
    no_input_problems =
        let a = ok_parts.holds_collateral in
        let b = ok_parts.pays_debt in
        let c = ok_parts.verifier_not_collateral in
        let d = ok_parts.verifier_not_debt in
        let e = ok_parts.exact in ground (arith, text_eq_refl p.verifier_spk, text_eq_refl address)

    no_output_problems : output_problems t to.cu to.lender placed ≡ []
    unfolding output_problems
    no_output_problems =
        let c = ok_parts.verifier_not_collateral in
        ground (arith, text_eq_refl to.cu, text_eq_refl to.lender)

-- A transaction in shape, read and placed, with no problem found.
judged :
    (t : RepurchaseTerms) (address cu lender : Text) (tx : RawTx) (prevouts : List Prevout)
    (ins : List Spent) (outs : List Output) (w : Places)
    → tx.n_inputs ≡ 4
    → 5 ≤ length tx.outs
    → length tx.outs ≤ 6
    → length prevouts ≡ 4
    → keyed prevouts ≡ ok ins
    → explicit_outs tx.outs ≡ ok outs
    → payout_spk 1 t.borrower_cu ≡ ok cu
    → payout_spk t.lender_ver t.lender_prog ≡ ok lender
    → places ins outs ≡ ok w
    → input_problems t address none w ≡ []
    → output_problems t cu lender w ≡ []
    → inspect_settlement t address none (some tx) prevouts
      ≡ ok ([], summary_of cu lender w tx.locktime)
unfolding inspect_settlement check_settlement
judged t address cu lender tx prevouts ins outs w four least most spent k x c l at_place a b =
    ground arith

-- Whenever a settlement of sane terms is composed from a bond coin that holds something, in the
-- debt asset, at the address the terms compile to, its inspection finds no problem, and tells that
-- the lender gets the debt and the whole bond at its script, that the borrower gets the collateral at
-- its C_U, and a change and a fee that make up the debt input with the debt.
pub inspect_settlement-compose_settlement :
    (s : RepurchaseSpender) (p : Parts) (address cu_spk debt_spk : Text) {tx : Tx}
    → IsSane s.terms
    → compose_settlement s p ≡ ok tx
    → p.bond_coin.asset ≡ s.terms.debt_asset
    → 1 ≤ p.bond_coin.amount
    → (change : ℕ) × (fee : ℕ) × (to : Scripts) × (spks s.terms ≡ ok to)
      × (s.terms.debt + change + fee ≡ p.debt_input.amount)
      × (inspect_settlement s.terms address none
            (some (raw_of tx))
            (document p address cu_spk debt_spk)
          ≡ ok (
            [],
            record {
              debt_to_lender = s.terms.debt;
              bond_to_lender = p.bond_coin.amount;
              bond_held = p.bond_coin.amount;
              asset_to_borrower = s.terms.collateral_amount;
              fee = fee;
              change = change;
              change_spk = if ltb 0 change then some p.change_spk else none;
              locktime = p.locktime;
              lender_spk = to.lender;
              borrower_cu_spk = to.cu;
            },
          ))
unfolding settlement_tx keyed
inspect_settlement-compose_settlement s p address cu_spk debt_spk {tx} sane e bonded some_bond =
    let w = compose_settlement-IsSettlement s p e in
    let t = s.terms in
    let whole = held-eq t p.bond_coin.amount some_bond w.holds in
    let (cu, lender) = spks-eq-ok t w.scripts in
    let outs = settlement_outs t p w.to w.h w.rest ++ fee_output t.debt_asset w.fee ∷ [] in
    let (least, most) = outs_length t p w.to w.h w.rest w.fee address cu_spk debt_spk in
    let counts = length-map outs in
    let reads = explicit_outs-map outs in
    let laid = outs_places t p w.to w.h w.rest w.fee address cu_spk debt_spk in
    let ins =
      no_input_problems t p w.to w.h w.rest w.fee address cu_spk debt_spk s refl w.settleable bonded
        whole sane.assets_differ in
    let out =
      no_output_problems t p w.to w.h w.rest w.fee address cu_spk debt_spk s refl w.settleable
        bonded whole sane.assets_differ in
    let read =
      judged t address w.to.cu w.to.lender (raw_of (settlement_tx t p w.to w.h w.rest w.fee))
        (document p address cu_spk debt_spk)
        (spent t p w.to w.h w.rest w.fee address cu_spk debt_spk) outs
        (placed t p w.to w.h w.rest w.fee address cu_spk debt_spk) refl
        (omega (arith, counts, least)) (omega (arith, counts, most)) refl refl reads cu lender laid
        ins out in
    let told =
      summary_placed t p w.to w.h w.rest w.fee address cu_spk debt_spk p.locktime p.bond_coin.amount
        whole refl in
    (w.rest, w.fee, w.to, w.scripts, w.adds_up, rw (w.composed) (read ∙ ap (λ r. ok ([], r)) told))
