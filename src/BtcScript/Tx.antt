-- ===== src/BtcScript/Tx.antt =====
-- `TxIn`, `TxOut`, `Tx` and `taproot_sighash` of pignus/btcscript.py. A transaction's id stands as the
-- bytes of its hex, and an output's value as the 64 bits that it is packed in.
use pignus.Prelude.{
  ℕ, Bool, false, not, ◌&&◌, ◌||◌, List, [], ◌∷◌, ◌++◌, Text, codes, length, is_empty,
  if◌then◌else◌,
}
use pignus.BtcScript.Tree.{to_bytes, ser_compact_size, ser_string, Curve, tagged_hash, tapleaf_hash}

-- `TxIn`
pub record TxIn : Type 0 where
  pub txid : Text
  pub vout : ℕ
  pub sequence : ℕ
  pub witness : List Text

-- `TxOut`
pub record TxOut : Type 0 where
  pub value : ℕ
  pub spk : Text

-- `Tx`
pub record BtcTx : Type 0 where
  pub version : ℕ
  pub locktime : ℕ
  pub vin : List TxIn
  pub vout : List TxOut

-- `bs[::-1]`
unfoldable pub reversed : Text → Text → Text
reversed [] back = back
reversed (b ∷ s) back = reversed s (b ∷ back)

-- `TxIn.ser_outpoint`
unfoldable pub ser_outpoint : TxIn → Text
ser_outpoint i = reversed i.txid [] ++ to_bytes 4 i.vout

-- `TxOut.serialize`
unfoldable pub ser_out : TxOut → Text
ser_out o = to_bytes 8 o.value ++ ser_string o.spk

-- `b"".join(f(x) for x in xs)`
unfoldable pub join : {A : Type 0} → (A → Text) → List A → Text
join f [] = []
join f (x ∷ xs) = f x ++ join f xs

-- An input without its witness, and its witness.
unfoldable pub ser_in : TxIn → Text
ser_in i = ser_outpoint i ++ ser_string [] ++ to_bytes 4 i.sequence

unfoldable pub ser_witness : TxIn → Text
ser_witness i = ser_compact_size (length i.witness) ++ join ser_string i.witness

unfoldable pub any_witness : List TxIn → Bool
any_witness [] = false
any_witness (i ∷ ins) = not (is_empty i.witness) || any_witness ins

-- `Tx.serialize`
unfoldable pub serialize : Bool → BtcTx → Text
serialize witness tx =
    let has_wit = witness && any_witness tx.vin in
    to_bytes 4 tx.version
    ++ (if has_wit then 0 ∷ 1 ∷ [] else [])
    ++ ser_compact_size (length tx.vin)
    ++ join ser_in tx.vin
    ++ ser_compact_size (length tx.vout)
    ++ join ser_out tx.vout
    ++ (if has_wit then join ser_witness tx.vin else [])
    ++ to_bytes 4 tx.locktime

module _ (c : Curve) where
  -- `Tx.txid`
  unfoldable pub txid : BtcTx → Text
  txid tx = reversed (c.sha256 (c.sha256 (serialize false tx))) []

  -- `taproot_sighash` of a script path
  unfoldable pub taproot_sighash : BtcTx → List TxOut → ℕ → Text → ℕ → Text
  taproot_sighash tx spent_outputs input_index script version = tagged_hash c (codes "TapSighash") (
      0
      ∷ 0
      ∷ (to_bytes 4 tx.version
          ++ to_bytes 4 tx.locktime
          ++ c.sha256 (join ser_outpoint tx.vin)
          ++ c.sha256 (join (λ o. to_bytes 8 o.value) spent_outputs)
          ++ c.sha256 (join (λ o. ser_string o.spk) spent_outputs)
          ++ c.sha256 (join (λ i. to_bytes 4 i.sequence) tx.vin)
          ++ c.sha256 (join ser_out tx.vout)
          ++ (2 ∷ [])
          ++ to_bytes 4 input_index
          ++ tapleaf_hash c script version
          ++ (0 ∷ [])
          ++ to_bytes 4 0xffffffff))
