-- ===== src/Vault2/Spend.antt =====
-- What the composers of pignus/vault2.py share: coins and outputs, `_change`, `_tx`, `fee_for` and
-- `_vault_spend`. The node, the wallet's choice of coins, the address derivation and the run of the
-- program are other programs' code and stand in a record World.
use pignus.Prelude.{
  ℕ, ◌+◌, ◌-◌, Bool, true, false, not, Option, none, some, List, [], ◌∷◌, ◌++◌, Text, codes,
  text_eq, ltb, leb, ◌==◌, if◌then◌else◌, Result, ok, err, ◌>>=◌, ◌>>◌, raise_if,
}
use pignus.Prelude.Hex.{from_hex, to_hex}
use pignus.Fees.{fee_atoms, vsize_of, default_feerate}
use pignus.Vault2.Terms.{V2Terms, State}
use pignus.Vault2.Create.{V2Error}
use pignus.Vault2.Rule.{Rule, RuleError}
pub mod Compose
pub mod Follow
pub mod Reads
pub mod Held
pub mod Followed
pub mod Seizure
pub mod Seized
pub mod Moved
pub mod Line
mod Sample
mod Tests

-- The V2Errors and ValueErrors of the composers by their causes.
pub data ComposeError : Type 0 where
  bad_hex no_fee_rate unfunded short not_this_vault refused_by_program : ComposeError
  too_little_collateral less_than_lot not_passed fee_over_lot : ComposeError
  nothing_to_repay nothing_to_add recover_too_early not_expired : ComposeError
  bad_terms : V2Error → ComposeError
  bad_liquidation : RuleError → ComposeError

-- `Coin`
pub record Coin : Type 0 where
  pub txid : ℕ
  pub vout : ℕ
  pub amount : ℕ
  pub asset : Text
  pub spk : Text

-- An output, its script and asset spelled as the node prints them.
pub record Out : Type 0 where
  pub amount : ℕ
  pub spk : Text
  pub asset : Text

-- The transaction with the coins that it spends, and the lock time.
pub record SpendTx : Type 0 where
  pub inputs : List Coin
  pub sequence : ℕ
  pub outs : List Out
  pub locktime : ℕ

-- `V2Offer`
pub record V2Offer : Type 0 where
  pub terms : V2Terms
  pub lot : ℕ
  pub debt : ℕ
  pub collateral : ℕ
  pub expiry : ℕ

-- A format-2 attestation.
pub record Record2 : Type 0 where
  pub price : ℕ
  pub time : ℕ
  pub beacon : Text
  pub signature : Text

-- The path through a program that a spend takes.
pub data SpendPath : Type 0 where
  repay_path top_up_path recover_path refund_path : SpendPath
  take_path : Text → SpendPath
  liquidate_path : Record2 → ℕ → Bool → SpendPath

-- What the code asks of others: the chain's median time, the node's rate for an asset, the coins that
-- the wallet gives for an amount of an asset, the script of a vault in a state and of an offer, the
-- script hash, and whether a program accepts a transaction.
pub record World : Type 0 where
  pub median_time : ℕ
  pub rate : Text → ℕ
  pub wallet : Text → ℕ → Option (List Coin)
  pub vault_spk : V2Terms → State → Text
  pub sha256 : Text → Text
  pub runs_vault : V2Terms → State → SpendPath → SpendTx → Bool
  pub runs_offer : V2Offer → SpendPath → SpendTx → Bool

-- `VSIZE`
abbrev pub vsizes : List (Text × ℕ)
vsizes =
    (codes "take", 1000)
    ∷ (codes "top_up", 650)
    ∷ (codes "repay", 820)
    ∷ (codes "liquidate", 1550)
    ∷ (codes "recover", 650)
    ∷ (codes "refund", 600)
    ∷ (codes "fund", 300)
    ∷ []

-- A hex text through its bytes and back, as it enters a transaction and is read from one.
unfoldable pub spelled : Text → Result ComposeError Text
spelled s = elim (from_hex s) [ none ↦ err bad_hex | some bytes ↦ ok (to_hex bytes) ]

-- `_out`
unfoldable pub out : ℕ → Text → Text → Result ComposeError Out
out amount spk asset = do
  s ← spelled spk
  a ← spelled asset
  ok record { amount = amount; spk = s; asset = a }

-- `_fee`
unfoldable pub fee : ℕ → Text → Result ComposeError Out
fee amount asset = do a ← spelled asset; ok record { amount = amount; spk = []; asset = a }

-- `d[k] = d.get(k, 0) + n`
unfoldable pub add_to : List (Text × ℕ) → Text → ℕ → List (Text × ℕ)
add_to [] k n = (k, n) ∷ []
add_to ((j, m) ∷ d) k n =
    let rest = add_to d k n in if text_eq j k then (j, m + n) ∷ d else (j, m) ∷ rest

unfoldable pub gathered : List Coin → List (Text × ℕ) → List (Text × ℕ)
unfolding add_to
gathered [] have = have
gathered (c ∷ cs) have = gathered cs (add_to have c.asset c.amount)

-- What is left of each asset held, when `n` atoms of the asset `a` are needed.
unfoldable pub left_over : List (Text × ℕ) → Text → ℕ → Text → Result ComposeError (List Out)
unfolding out
left_over [] a n change_spk = ok []
left_over ((b, held) ∷ have) a n change_spk =
    let rest = left_over have a n change_spk in
    let need = if text_eq b a then n else 0 in
    if ltb held need
    then err short
    else if held == need
    then rest
    else out (held - need) change_spk b >>= λ o. rest >>= λ os. ok (o ∷ os)

-- `_change`, where a spend needs one asset.
unfoldable pub change : List Coin → Text → ℕ → Text → Result ComposeError (List Out)
unfolding gathered left_over
change coins a n change_spk = left_over (gathered coins []) a n change_spk

-- `_tx`
unfoldable pub spend_tx : List Coin → List Out → ℕ → SpendTx
spend_tx ins outs locktime = record {
  inputs = ins;
  sequence = if locktime == 0 then 0xffffffff else 0xfffffffe;
  outs = outs;
  locktime = locktime;
}

-- The fee rate given, and the default where none is or where it is 0.
abbrev pub given_feerate : Option ℕ → ℕ
given_feerate none = default_feerate
given_feerate (some n) = if n == 0 then default_feerate else n

module _ (w : World) where
  -- `fee_for`
  unfoldable pub fee_for : Text → Text → Option ℕ → Result ComposeError ℕ
  fee_for asset kind feerate = do
    raise_if (w.rate asset == 0) no_fee_rate
    ok (fee_atoms (w.rate asset) (vsize_of vsizes kind) (given_feerate feerate))

  -- `_wallet_coins`
  unfoldable pub wallet_coins : Text → ℕ → Result ComposeError (List Coin)
  wallet_coins asset n = elim (w.wallet asset n) [ none ↦ err unfunded | some coins ↦ ok coins ]

  -- `_vault_spend`; what is needed of the wallet's coins is `n` atoms of the asset `a`.
  unfoldable pub vault_spend :
      V2Terms
      → State
      → Coin
      → SpendPath
      → List Out
      → List Coin
      → Text
      → ℕ
      → Text
      → ℕ
      → List Coin
      → Result ComposeError SpendTx
  vault_spend t state vcoin path outs coins a n change_spk locktime extra = do
    raise_if (not (text_eq vcoin.spk (w.vault_spk t state))) not_this_vault
    rest ← change coins a n change_spk
    let tx = spend_tx (vcoin ∷ extra ++ coins) (outs ++ rest) locktime
    raise_if (not (w.runs_vault t state path tx)) refused_by_program
    ok tx
