-- ===== src/Tx.antt =====
-- The unsigned transactions that pignus/vault.py and pignus/vault2.py compose, and the amounts that
-- they move, asset by asset. An asset id is only compared, so a number stands for it.
pub mod Dict
pub mod Totals
use pignus.Prelude.{
  ℕ, ◌+◌, Bool, true, false, ◌||◌, Option, none, some, List, [], ◌∷◌, ◌++◌, Text, ◌==◌,
  if◌then◌else◌,
}

-- `Outpoint`; no asset is the source's empty string.
pub record Outpoint : Type 0 where
  pub txid : ℕ
  pub vout : ℕ
  pub amount : ℕ
  pub asset : Option ℕ

-- An explicit output. A fee output has the empty script.
pub record Output : Type 0 where
  pub amount : ℕ
  pub spk : Text
  pub asset : ℕ

-- An entry of the lists that the composers build: an output, or the mark where the fee goes.
pub data Entry : Type 0 where
  fee_mark : Entry
  pay : Output → Entry

pub record Tx : Type 0 where
  pub inputs : List Outpoint
  pub sequence : ℕ
  pub outs : List Output
  pub locktime : ℕ

-- `any(o is FEE for o in outs)`
unfoldable pub marks_fee : List Entry → Bool
marks_fee [] = false
marks_fee (fee_mark ∷ es) = true
marks_fee (pay o ∷ es) = marks_fee es

abbrev pub fee_output : ℕ → ℕ → Output
fee_output fee_asset fee_amount = record { amount = fee_amount; spk = []; asset = fee_asset }

unfoldable pub render : ℕ → ℕ → List Entry → List Output
render fee_asset fee_amount [] = []
render fee_asset fee_amount (fee_mark ∷ es) =
    fee_output fee_asset fee_amount ∷ render fee_asset fee_amount es
render fee_asset fee_amount (pay o ∷ es) = o ∷ render fee_asset fee_amount es

-- `_raw_tx`
unfoldable pub raw_tx : List Outpoint → List Entry → ℕ → ℕ → ℕ → Tx
unfolding marks_fee render
raw_tx inputs outs fee_asset fee_amount locktime = record {
  inputs = inputs;
  sequence = if locktime == 0 then 0xffffffff else 0xfffffffe;
  outs = render fee_asset fee_amount (if marks_fee outs then outs else outs ++ fee_mark ∷ []);
  locktime = locktime;
}
