-- ===== src/Vault/Exits.antt =====
-- The four exits: the outputs that each lays down, and the transaction around them.
use pignus.Prelude.{
  ℕ, ◌-◌, max, not, ◌||◌, Option, none, some, List, [], ◌∷◌, map, Text, ltb, ◌==◌, if◌then◌else◌,
  Result, ok, err, ◌>>=◌, ◌>>◌, raise_if,
}
use pignus.Terms.{TermsError, or_text, seizure_at}
use pignus.Oracle.{Signing}
use pignus.Tx.{Outpoint, Output, Entry, fee_mark, pay, Tx, raw_tx}
use pignus.Vault.Spender.{
  payer, Spender, VaultError, TxoutAnswer, locktime_too_low, dust_refused, no_filler, zero_price,
  held, pinned,
}
use pignus.Vault.Change.{change}
use pignus.Vault.Evidence.{Evidence, Leaf, liquidate, default, oracle_evidence}

-- What an exit is composed from: the vault coin, what the node says of it, and the coins and
-- script for the change, empty where a seizure is given none.
pub record Request : Type 0 where
  pub vault : Outpoint
  pub answer : TxoutAnswer
  pub funding : List Outpoint
  pub change_spk : Text

abbrev pub output : ℕ → Text → ℕ → Entry
output amount spk asset = pay (record { amount = amount; spk = spk; asset = asset })

-- `_assemble`, before the wallet signs.
unfoldable pub assemble : Spender → Request → List Entry → ℕ → ℕ → Tx
assemble s r outs fee_amount locktime =
    raw_tx (r.vault ∷ r.funding) outs s.fee_asset fee_amount locktime

unfoldable pub repay : Spender → Request → Result VaultError Tx
unfolding assemble
repay s r = do
  let t = s.terms
  amount ← held s r.answer r.vault
  (lender_spk, borrower_spk) ← pinned s
  (rest, fee) ← change (payer s) r.funding ((t.debt_asset, t.debt) ∷ []) r.change_spk
  let outs =
      output t.debt lender_spk t.debt_asset
      ∷ output amount borrower_spk t.collateral_asset
      ∷ map pay rest
  ok (assemble s r outs fee 0)

-- The first output that is not in the asset `a`, and the others.
unfoldable pub take_filler : ℕ → List Output → Option (Output × List Output)
take_filler a [] = none
take_filler a (o ∷ os) =
    let rest = take_filler a os in
    if o.asset == a
    then elim rest [ none ↦ none | some (f, others) ↦ some (f, o ∷ others) ]
    else some (o, os)

-- The outputs of a seizure that leaves a surplus, after the lender's.
unfoldable pub with_surplus :
    Spender → Text → Text → ℕ → ℕ → List Output → Result VaultError (List Entry)
with_surplus s borrower_spk taker_spk amount seize rest =
    let coll = s.terms.collateral_asset in
    let surplus = amount - seize in
    let lifted = max surplus s.dust_fold in
    let outs = λ (back : ℕ) (kept : ℕ).
      output back borrower_spk coll ∷ output kept taker_spk coll ∷ map pay rest in
    let guard =
      raise_if (ltb seize s.dust_fold || ltb (amount - lifted) s.dust_fold) dust_refused in
    if s.fee_asset == coll
    then guard >> ok (outs lifted (amount - lifted))
    else ok (outs surplus seize)

-- The outputs of a seizure of the whole collateral, after the lender's.
unfoldable pub under_water : Spender → Text → ℕ → List Output → Result VaultError (List Entry)
unfolding take_filler
under_water s taker_spk amount rest =
    let coll = s.terms.collateral_asset in
    if not (s.fee_asset == coll)
    then ok (fee_mark ∷ output amount taker_spk coll ∷ map pay rest)
    else elim (take_filler coll rest) [
      | none ↦ err no_filler
      | some (filler, others) ↦ ok (pay filler ∷ output amount taker_spk coll ∷ map pay others)
    ]

unfoldable pub seizure_outs :
    Spender → Text → Text → ℕ → ℕ → List Output → Result VaultError (List Entry)
unfolding with_surplus under_water
seizure_outs s borrower_spk taker_spk amount seize rest =
    if ltb seize amount
    then with_surplus s borrower_spk taker_spk amount seize rest
    else under_water s taker_spk amount rest

abbrev pub priced : Result TermsError ℕ → Result VaultError ℕ
priced (ok n) = ok n
priced (err e) = err zero_price

-- `_seizure`
unfoldable pub seizure :
    Signing → Spender → Request → Evidence → Text → Leaf → ℕ → Result VaultError Tx
unfolding assemble
seizure c s r evidence taker_spk leaf locktime = do
  let t = s.terms
  amount ← held s r.answer r.vault
  (price, shown) ← oracle_evidence c s evidence leaf
  (lender_spk, borrower_spk) ← pinned s
  seize ← priced (seizure_at t price)
  (rest, fee) ←
      change (payer s) r.funding ((t.debt_asset, t.debt) ∷ []) (or_text r.change_spk taker_spk)
  outs ← seizure_outs s borrower_spk taker_spk amount seize rest
  ok (assemble s r (output t.debt lender_spk t.debt_asset ∷ outs) fee locktime)

-- `liquidate`
unfoldable pub liquidate_vault :
    Signing → Spender → Request → Evidence → Text → Result VaultError Tx
unfolding seizure
liquidate_vault c s r evidence taker_spk = seizure c s r evidence taker_spk liquidate 0

abbrev pub locktime_or : Option ℕ → ℕ → ℕ
locktime_or none d = d
locktime_or (some n) d = n

unfoldable pub call_default :
    Signing → Spender → Request → Evidence → Text → Option ℕ → Result VaultError Tx
unfolding seizure
call_default c s r evidence taker_spk locktime = do
  let at = locktime_or locktime s.terms.maturity
  raise_if (ltb at s.terms.maturity) locktime_too_low
  seizure c s r evidence taker_spk default at

unfoldable pub recover : Spender → Request → Option ℕ → Result VaultError Tx
unfolding assemble
recover s r locktime = do
  let t = s.terms
  let at = locktime_or locktime t.recover_after
  raise_if (ltb at t.recover_after) locktime_too_low
  (lender_spk, borrower_spk) ← pinned s
  amount ← held s r.answer r.vault
  (rest, fee) ← change (payer s) r.funding [] r.change_spk
  ok (assemble s r (output amount lender_spk t.collateral_asset ∷ map pay rest) fee at)
