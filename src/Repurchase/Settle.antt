-- ===== src/Repurchase/Settle.antt =====
-- `RepurchaseSpender` of pignus/repurchase.py: the two exits and the settlement, up to the unsigned
-- transaction.
use pignus.Prelude.{
  ℕ, ◌+◌, ◌-◌, not, ◌&&◌, ◌||◌, Option, some, List, [], ◌∷◌, ◌++◌, map, Text, ltb, ◌==◌,
  if◌then◌else◌, length, is_empty, Result, ok, err, ◌>>=◌, ◌>>◌, raise_if,
}
use pignus.Tx.{Outpoint, Output, pay, fee_output, Tx, raw_tx}
use pignus.Vault.Spender.{VaultError, Payer, payout_spk, dust_fold_or}
use pignus.Vault.Change.{change}
use pignus.Vault.Exits.{locktime_or, output}
use pignus.Repurchase.Terms.{
  RepurchaseTerms, RepurchaseError, vault, wrong_fee_asset, wrong_asset, not_a_verifier,
  no_verifier_script, surplus, debt_input_short, too_many_inputs, too_many_outputs, sanity_check,
  bond,
}

pub record RepurchaseSpender : Type 0 where
  pub terms : RepurchaseTerms
  pub fee_asset : ℕ
  pub fee_amount : ℕ
  pub dust_fold : ℕ

-- `__init__`
unfoldable pub new_spender :
    RepurchaseTerms → ℕ → ℕ → Option ℕ → Result RepurchaseError RepurchaseSpender
new_spender terms fee_asset fee_amount dust_fold = do
  sanity_check terms
  ok record {
    terms = terms;
    fee_asset = fee_asset;
    fee_amount = fee_amount;
    dust_fold = dust_fold_or dust_fold;
  }

-- What `_spender` hands to `_change`.
abbrev pub payer : RepurchaseSpender → Payer
payer s = record { fee_asset = s.fee_asset; fee_amount = s.fee_amount; dust_fold = s.dust_fold }

-- An error of pignus/vault.py passes through.
abbrev pub raised : {A : Type 0} → Result VaultError A → Result RepurchaseError A
raised (ok a) = ok a
raised (err e) = err (vault e)

-- Where the asset, the bond and a forfeit must land.
pub record Scripts : Type 0 where
  pub cu : Text
  pub lender : Text
  pub borrower : Text

-- `_spks`
unfoldable pub spks : RepurchaseTerms → Result RepurchaseError Scripts
spks t = do
  cu ← raised (payout_spk 1 t.borrower_cu)
  lender ← raised (payout_spk t.lender_ver t.lender_prog)
  borrower ← raised (payout_spk t.borrower_ver t.borrower_prog)
  ok record { cu = cu; lender = lender; borrower = borrower }

-- `vault.amount or t.bond()`
unfoldable pub held : RepurchaseTerms → ℕ → Result RepurchaseError ℕ
held t amount = if amount == 0 then bond t else ok amount

-- `settle`: RETURN, for an asset that moves without a verifier.
unfoldable pub settle :
    RepurchaseSpender → Outpoint → List Outpoint → Text → Result RepurchaseError Tx
unfolding spks held
settle s coin funding change_spk = do
  let t = s.terms
  to ← spks t
  h ← held t coin.amount
  (rest, fee) ←
      raised (change (payer s) funding ((t.collateral_asset, t.collateral_amount) ∷ []) change_spk)
  let outs =
      output t.collateral_amount to.cu t.collateral_asset
      ∷ output h to.lender t.debt_asset
      ∷ map pay rest
  ok (raw_tx (coin ∷ funding) outs s.fee_asset fee 0)

-- `forfeit`
unfoldable pub forfeit :
    RepurchaseSpender → Outpoint → List Outpoint → Text → Option ℕ → Result RepurchaseError Tx
unfolding spks held
forfeit s coin funding change_spk locktime = do
  let t = s.terms
  to ← spks t
  h ← held t coin.amount
  (rest, fee) ← raised (change (payer s) funding [] change_spk)
  let outs = output h to.borrower t.debt_asset ∷ map pay rest
  ok (raw_tx (coin ∷ funding) outs s.fee_asset fee (locktime_or locktime t.forfeit_after))

-- `DAMP_MAX_INPUTS`
abbrev pub damp_max_inputs : ℕ
damp_max_inputs = 4

-- `DAMP_MAX_OUTPUTS`
abbrev pub damp_max_outputs : ℕ
damp_max_outputs = 6

unfoldable pub check_settlement : ℕ → ℕ → Result RepurchaseError (Unit {0})
check_settlement n_inputs n_outputs = do
  raise_if (ltb damp_max_inputs n_inputs) too_many_inputs
  raise_if (ltb damp_max_outputs n_outputs) too_many_outputs

-- A coin of a settlement, whose asset is explicit.
pub record Coin : Type 0 where
  pub txid : ℕ
  pub vout : ℕ
  pub amount : ℕ
  pub asset : ℕ

abbrev pub outpoint : Coin → Outpoint
outpoint c = record { txid = c.txid; vout = c.vout; amount = c.amount; asset = some c.asset }

-- What a settlement is composed from.
pub record Parts : Type 0 where
  pub bond_coin : Coin
  pub verifier : Coin
  pub verifier_spk : Text
  pub cu_lender : Coin
  pub debt_input : Coin
  pub change_spk : Text
  pub locktime : ℕ

-- The guards, in order.
unfoldable pub check_parts : RepurchaseSpender → Parts → Result RepurchaseError (Unit {0})
check_parts s p = do
  let t = s.terms
  raise_if (not (s.fee_asset == t.debt_asset)) wrong_fee_asset
  raise_if (not (p.cu_lender.asset == t.collateral_asset)) wrong_asset
  raise_if (not (p.debt_input.asset == t.debt_asset)) wrong_asset
  raise_if (p.verifier.asset == t.collateral_asset || p.verifier.asset == t.debt_asset)
      not_a_verifier
  raise_if (is_empty p.verifier_spk) no_verifier_script
  raise_if (not (p.cu_lender.amount == t.collateral_amount)) surplus

-- The change of the debt input and the fee, with change below the threshold in the fee.
unfoldable pub change_and_fee : RepurchaseSpender → ℕ → Result RepurchaseError (ℕ × ℕ)
change_and_fee s amount =
    let needed = s.terms.debt + s.fee_amount in
    let rest = amount - needed in
    if ltb amount needed
    then err debt_input_short
    else if ltb 0 rest && ltb rest s.dust_fold
    then ok (0, s.fee_amount + rest)
    else ok (rest, s.fee_amount)

abbrev pub paid : ℕ → Text → ℕ → Output
paid amount spk asset = record { amount = amount; spk = spk; asset = asset }

-- The outputs before the fee's.
unfoldable pub settlement_outs : RepurchaseTerms → Parts → Scripts → ℕ → ℕ → List Output
settlement_outs t p to h rest =
    let last = if ltb 0 rest then paid rest p.change_spk t.debt_asset ∷ [] else [] in
    paid p.verifier.amount p.verifier_spk p.verifier.asset
    ∷ paid t.debt to.lender t.debt_asset
    ∷ paid t.collateral_amount to.cu t.collateral_asset
    ∷ paid h to.lender t.debt_asset
    ∷ last

abbrev pub settlement_ins : Parts → List Outpoint
settlement_ins p =
    outpoint p.verifier ∷ outpoint p.bond_coin ∷ outpoint p.cu_lender ∷ outpoint p.debt_input ∷ []

-- The unsigned settlement; the sequences are final, and admit a lock time where there is one.
unfoldable pub settlement_tx : RepurchaseTerms → Parts → Scripts → ℕ → ℕ → ℕ → Tx
settlement_tx t p to h rest fee = record {
  inputs = settlement_ins p;
  sequence = if p.locktime == 0 then 0xffffffff else 0xfffffffe;
  outs = settlement_outs t p to h rest ++ fee_output t.debt_asset fee ∷ [];
  locktime = p.locktime;
}

-- `compose_settlement`
unfoldable pub compose_settlement : RepurchaseSpender → Parts → Result RepurchaseError Tx
compose_settlement s p = do
  let t = s.terms
  check_parts s p
  (rest, fee) ← change_and_fee s p.debt_input.amount
  to ← spks t
  h ← held t p.bond_coin.amount
  check_settlement (length (settlement_ins p)) (length (settlement_outs t p to h rest) + 1)
  ok (settlement_tx t p to h rest fee)
