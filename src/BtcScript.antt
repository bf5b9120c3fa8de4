-- ===== src/BtcScript.antt =====
-- The scripts of pignus/btcscript.py: `ser_script`, `script_num` and the three leaves. The numbers
-- that the code puts in a script are lock times and not negative.
use pignus.Prelude.{
  ℕ, zero, suc, ◌+◌, ◌/◌, ◌%◌, Bool, true, false, Option, none, some, List, [], ◌∷◌, ◌++◌, Text,
  length, ltb, leb, ◌==◌, if◌then◌else◌,
}
pub mod Rules
pub mod Parsed
pub mod Numbers
pub mod Leaves
pub mod Opens
pub mod Tree
pub mod Committed
pub mod Pieces
pub mod Control
pub mod Tx
pub mod Bitcoin
pub mod Valid
mod Tests

-- What `ser_script` serialises: an opcode, a number or bytes.
pub data Item : Type 0 where
  op : ℕ → Item
  number : ℕ → Item
  push : Text → Item

-- The loop of `script_num`, of at most as many rounds as the fuel.
unfoldable pub digits : ℕ → ℕ → Text
digits zero n = []
digits (suc fuel) n = elim (n == 0) [ true ↦ [] | false ↦ n % 256 ∷ digits fuel (n / 256) ]

-- Whether the last byte has the top bit set.
unfoldable pub top_set : Text → Bool
top_set [] = false
top_set (b ∷ []) = leb 128 b
top_set (b ∷ c ∷ s) = top_set (c ∷ s)

-- `script_num`
unfoldable pub script_num : ℕ → Text
script_num n =
    if n == 0 then [] else if top_set (digits n n) then digits n n ++ (0 ∷ []) else digits n n

-- Bytes after their length; none for the failing assertion.
unfoldable pub ser_push : Text → Option Text
ser_push b = if ltb (length b) 0x4c then some (length b ∷ b) else none

-- One item.
unfoldable pub ser_item : Item → Option Text
ser_item (op c) = some (c ∷ [])
ser_item (number n) =
    if n == 0
    then some (0 ∷ [])
    else if leb n 16
    then some ((0x50 + n) ∷ [])
    else ser_push (script_num n)
ser_item (push b) = ser_push b

abbrev joined : Option Text → Option Text → Option Text
joined (some a) (some b) = some (a ++ b)
joined (some a) none = none
joined none b = none

-- `ser_script`
unfoldable pub ser_script : List Item → Option Text
ser_script [] = some []
ser_script (i ∷ items) = joined (ser_item i) (ser_script items)

-- The opcodes.
abbrev pub op_checksig : Item
op_checksig = op 0xac

abbrev pub op_checksigverify : Item
op_checksigverify = op 0xad

abbrev pub op_checklocktimeverify : Item
op_checklocktimeverify = op 0xb1

abbrev pub op_drop : Item
op_drop = op 0x75

abbrev pub op_sha256 : Item
op_sha256 = op 0xa8

abbrev pub op_equalverify : Item
op_equalverify = op 0x88

-- `two_of_two`
unfoldable pub two_of_two : Text → Text → Option Text
two_of_two a_x b_x = ser_script (push a_x ∷ op_checksigverify ∷ push b_x ∷ op_checksig ∷ [])

-- `timelocked_single`
unfoldable pub timelocked_single : ℕ → Text → Option Text
timelocked_single locktime key_x =
    ser_script (number locktime ∷ op_checklocktimeverify ∷ op_drop ∷ push key_x ∷ op_checksig ∷ [])

-- `hashlocked_two_of_two`
unfoldable pub hashlocked_two_of_two : Text → Text → Text → Option Text
hashlocked_two_of_two h a_x b_x = ser_script (
    op_sha256
    ∷ push h
    ∷ op_equalverify
    ∷ push a_x
    ∷ op_checksigverify
    ∷ push b_x
    ∷ op_checksig
    ∷ [])
