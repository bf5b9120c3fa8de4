-- ===== src/Watcher2/Take.antt =====
-- `borrower_bit` and `borrower_from_take` of pignus/watcher2.py. The script of a vault with given terms in
-- a state is other code's and a parameter.
use pignus.Prelude.{
  ℕ, zero, suc, ◌+◌, ◌*◌, ◌/◌, ◌%◌, max, Bool, true, false, Option, none, some, List, [], ◌∷◌, Text,
  length, take, text_eq, get_elem?, ltb, ◌==◌, if◌then◌else◌,
}
use pignus.Prelude.Hex.{from_hex, to_hex}
use pignus.Vault2.Terms.{V2Terms, State}
use pignus.Vault2.Spend.{V2Offer}
use pignus.Vault2.Spend.Follow.{Decoded}
use pignus.Watcher2.{ChainTx}

-- The digits of a number in hex, by fuel.
unfoldable pub hex_digits : ℕ → ℕ → ℕ
hex_digits zero v = 1
hex_digits (suc fuel) v = elim (v / 16 == 0) [ true ↦ 1 | false ↦ hex_digits fuel (v / 16) + 1 ]

-- `len("%0{n}x" % v) // 2`
unfoldable pub number_width : ℕ → ℕ → ℕ
number_width n v = max n (hex_digits v v) / 2

-- `len(v) // 2` of a text, and the sum over texts.
unfoldable pub text_widths : List Text → ℕ
text_widths [] = 0
text_widths (s ∷ ss) = length s / 2 + text_widths ss

-- The bytes of the terms' parameters, with the assets' 32 bytes and the lender's script hash.
unfoldable pub terms_width : V2Terms → ℕ
terms_width t =
    (if 0 == length t.oracles
      then text_widths (t.oracle_x ∷ t.beacon_asset ∷ [])
      else text_widths t.oracles + text_widths t.beacon_assets + number_width 2 t.threshold)
    + text_widths (t.collateral_asset ∷ t.debt_asset ∷ [])
    + number_width 2 t.precision
    + number_width 8 t.liq_bp
    + number_width 8 t.target_bp
    + number_width 8 t.bonus_bp
    + number_width 8 t.maturity
    + number_width 8 t.recover_after
    + 32

-- `borrower_bit`
unfoldable pub borrower_bit : V2Offer → ℕ
borrower_bit offer =
    8
      * (terms_width offer.terms
          + number_width 16 offer.lot
          + number_width 16 offer.debt
          + number_width 16 offer.collateral
          + number_width 8 offer.expiry)
    + 1

-- The lowest `n` bits of a byte, the highest first, and `_bits`.
unfoldable pub byte_bits : ℕ → ℕ → List Bool → List Bool
byte_bits zero b rest = rest
byte_bits (suc n) b rest = byte_bits n (b / 2) ((b % 2 == 1) ∷ rest)

unfoldable pub bits_of : Text → List Bool
bits_of [] = []
bits_of (b ∷ s) = byte_bits 8 b (bits_of s)

unfoldable pub drop_bits : ℕ → List Bool → List Bool
drop_bits zero bits = bits
drop_bits (suc n) [] = []
drop_bits (suc n) (b ∷ bits) = drop_bits n bits

-- The number that bits write after those before them, and the bytes of bits, of 8 each.
unfoldable pub number_of_bits : ℕ → List Bool → ℕ
number_of_bits n [] = n
number_of_bits n (b ∷ bits) = number_of_bits (2 * n + (if b then 1 else 0)) bits

unfoldable pub bytes_of_bits : ℕ → List Bool → Text
bytes_of_bits zero bits = []
bytes_of_bits (suc n) bits = number_of_bits 0 (take 8 bits) ∷ bytes_of_bits n (drop_bits 8 bits)

-- The 256 bits from a place on, in hex; none when there are fewer.
unfoldable pub hash_at : ℕ → List Bool → Option Text
hash_at start bits =
    let cand = take 256 (drop_bits start bits) in
    if length cand == 256 then some (to_hex (bytes_of_bits 32 cand)) else none

-- A take, as far as it is read: not one, not hex, or by a borrower.
pub data TakeReading : Type 0 where
  no_take bad_witness : TakeReading
  taken_by : Text → TakeReading

-- The first element of a witness of at least four.
unfoldable pub terms_witness : Option (List Text) → Option Text
terms_witness none = none
terms_witness (some []) = none
terms_witness (some (x ∷ wit)) = if ltb (length (x ∷ wit)) 4 then none else some x

module _ (vault_spk : V2Terms → State → Text) where
  -- The vault of an offer for a borrower, at a lock time.
  unfoldable pub vault_for : V2Offer → Text → ℕ → Text
  vault_for offer h lock = vault_spk (record offer.terms { borrower_hash = h }) (offer.debt, lock)

  unfoldable pub read_hash : V2Offer → Decoded → ℕ → Option Text → TakeReading
  read_hash offer main lock none = no_take
  read_hash offer main lock (some h) =
      if text_eq (vault_for offer h lock) main.spk then taken_by h else no_take

  unfoldable pub read_bytes : V2Offer → Option Decoded → ℕ → Option Text → TakeReading
  read_bytes offer main lock none = bad_witness
  read_bytes offer none lock (some wit) = no_take
  read_bytes offer (some main) lock (some wit) =
      read_hash offer main lock (hash_at (borrower_bit offer) (bits_of wit))

  -- `borrower_from_take`
  unfoldable pub borrower_from_take : V2Offer → ChainTx → ℕ → TakeReading
  borrower_from_take offer tx k = elim (terms_witness (get_elem? tx.decoded.witnesses k)) [
    | none ↦ no_take
    | some wit ↦
        read_bytes offer (get_elem? tx.decoded.outs (2 * k)) tx.decoded.locktime (from_hex wit)
  ]
