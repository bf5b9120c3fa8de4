-- ===== src/BtcScript/Rules.antt =====
-- Bitcoin's rules for the scripts of pignus/btcscript.py (BIP65, BIP341 and BIP342), as far as these
-- scripts go: how a script is read, and how it runs on a stack.
use pignus.Prelude.{
  ℕ, zero, suc, ◌+◌, ◌-◌, ◌*◌, Bool, false, not, ◌&&◌, ◌||◌, Option, none, some, List, [], ◌∷◌,
  Text, length, take, text_eq, is_empty, ltb, leb, ◌==◌, if◌then◌else◌,
}

-- An instruction as it is read.
pub data Instruction : Type 0 where
  pushed : Text → Instruction
  code : ℕ → Instruction

unfoldable pub drop : ℕ → Text → Text
drop zero s = s
drop (suc n) [] = []
drop (suc n) (b ∷ s) = drop n s

abbrev after : Instruction → Option (List Instruction) → Option (List Instruction)
after i none = none
after i (some rest) = some (i ∷ rest)

-- The instructions of a script of fewer bytes than the fuel; a push of up to 75 bytes is its length
-- and the bytes, and 0x51 to 0x60 push the numbers from 1 to 16.
unfoldable pub read : ℕ → Text → Option (List Instruction)
read zero s = none
read (suc fuel) [] = some []
read (suc fuel) (c ∷ s) =
    if leb c 75
    then (if leb c (length s) then after (pushed (take c s)) (read fuel (drop c s)) else none)
    else if leb 0x51 c && leb c 0x60
    then after (pushed ((c - 0x50) ∷ [])) (read fuel s)
    else after (code c) (read fuel s)

-- Whether a number is negative: its last byte's top bit is the sign.
unfoldable pub negative : Text → Bool
negative [] = false
negative (b ∷ []) = leb 0x80 b
negative (b ∷ c ∷ s) = negative (c ∷ s)

-- The number of a script's bytes, the lowest first, when it is not negative.
unfoldable pub number_of : Text → ℕ
number_of [] = 0
number_of (b ∷ s) = b + 256 * number_of s

-- What a script is run with: the hash, whether a signature of a key is good for the transaction, and
-- the transaction's lock time and the input's sequence.
pub record Spending : Type 0 where
  pub sha256 : Text → Text
  pub verifies : Text → Text → Bool
  pub locktime : ℕ
  pub sequence : ℕ

module _ (w : Spending) where
  -- CHECKLOCKTIMEVERIFY, of a number of up to five bytes that is not negative.
  unfoldable pub locks : Text → Bool
  locks n =
      leb (length n) 5
      && not (negative n)
      && leb (number_of n) w.locktime
      && (if ltb (number_of n) 500_000_000
          then ltb w.locktime 500_000_000
          else leb 500_000_000 w.locktime)
      && not (w.sequence == 0xffffffff)

  -- A signature is good when it is there and verifies.
  unfoldable pub signs : Text → Text → Bool
  signs key sig = not (is_empty sig) && w.verifies key sig

  -- An opcode on the two elements at the top.
  unfoldable pub executes_two : ℕ → Text → List Text → Option (List Text)
  executes_two c x [] = none
  executes_two c x (y ∷ stack) =
      if c == 0x88
      then (if text_eq x y then some stack else none)
      else if c == 0xad
      then (if signs x y then some stack else none)
      else if c == 0xac
      then (if is_empty y
          then some ([] ∷ stack)
          else if w.verifies x y
          then some ((1 ∷ []) ∷ stack)
          else none)
      else none

  -- An opcode on a stack, its top first; none where the script fails.
  unfoldable pub executes : ℕ → List Text → Option (List Text)
  executes c [] = none
  executes c (x ∷ stack) =
      if c == 0xa8
      then some (w.sha256 x ∷ stack)
      else if c == 0x75
      then some stack
      else if c == 0xb1
      then (if locks x then some (x ∷ stack) else none)
      else executes_two c x stack

  -- The stack that the instructions leave.
  unfoldable pub runs : List Instruction → List Text → Option (List Text)
  runs [] stack = some stack
  runs (pushed b ∷ is) stack = runs is (b ∷ stack)
  runs (code c ∷ is) stack = elim (executes c stack) [ none ↦ none | some left ↦ runs is left ]

-- Whether an element counts as true.
unfoldable pub truthy : Text → Bool
truthy [] = false
truthy (b ∷ []) = not (b == 0 || b == 0x80)
truthy (b ∷ c ∷ s) = not (b == 0) || truthy (c ∷ s)

-- Exactly one element is left, and it is true.
unfoldable pub leaves_true : Option (List Text) → Bool
leaves_true none = false
leaves_true (some []) = false
leaves_true (some (x ∷ [])) = truthy x
leaves_true (some (x ∷ y ∷ stack)) = false

-- Whether a script is read and accepts a stack.
unfoldable pub opens : Spending → Text → List Text → Bool
opens w script stack = elim (read (suc (length script)) script) [
  | none ↦ false
  | some is ↦ leaves_true (runs w is stack)
]
