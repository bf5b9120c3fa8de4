-- ===== src/BtcScript/Parsed.antt =====
-- Proofs that a script that `ser_script` of pignus/btcscript.py writes is read back as its items.
use pignus.Prelude.{
  ℕ, zero, suc, ◌+◌, ◌-◌, ◌≤◌, ◌<◌, ◌≡◌, refl, sym, ap, some, List, [], ◌∷◌, ◌++◌, Text, length,
  length-append, take, leb, ◌==◌, if◌then◌else◌, All, Option-cases, Bool-cases, inl, inr, arith,
  ◌∙◌,
}
use mathlib.Core.Path.{subst}
use pignus.BtcScript.{Item, op, number, push, script_num, ser_push, ser_item, ser_script}
use pignus.BtcScript.Rules.{Instruction, pushed, code, drop, read}

-- How an item is read back.
unfoldable pub instruction : Item → Instruction
instruction (op c) = code c
instruction (number n) =
    if n == 0 then pushed [] else if leb n 16 then pushed (n ∷ []) else pushed (script_num n)
instruction (push b) = pushed b

unfoldable pub instructions : List Item → List Instruction
instructions [] = []
instructions (i ∷ items) = instruction i ∷ instructions items

-- An opcode that does not push.
abbrev pub IsPlain : Item → Type 0
IsPlain (op c) = 0x60 < c
IsPlain (number n) = Unit
IsPlain (push b) = Unit

pub take-front : (b rest : Text) → take (length b) (b ++ rest) ≡ b
take-front [] rest = refl
take-front (c ∷ b) rest = ap (λ t. c ∷ t) (take-front b rest)

pub drop-front : (b rest : Text) → drop (length b) (b ++ rest) ≡ rest
unfolding drop
drop-front [] rest = refl
drop-front (c ∷ b) rest = drop-front b rest

read_taken :
    (fuel n : ℕ) (s : Text) (is : List Instruction)
    → n ≤ 75
    → n ≤ length s
    → read fuel (drop n s) ≡ some is
    → read (suc fuel) (n ∷ s) ≡ some (pushed (take n s) ∷ is)
unfolding read
read_taken fuel n s is short long e = ground arith

read_push :
    (fuel : ℕ) (b rest : Text) (is : List Instruction)
    → length b ≤ 75
    → read fuel rest ≡ some is
    → read (suc fuel) (length b ∷ (b ++ rest)) ≡ some (pushed b ∷ is)
read_push fuel b rest is short e =
    read_taken fuel (length b) (b ++ rest) is short (omega (arith, length-append b rest))
      (ap (read fuel) (drop-front b rest) ∙ e)
    ∙ ap (λ t. some (pushed t ∷ is)) (take-front b rest)

read_small :
    (fuel n : ℕ) (rest : Text) (is : List Instruction)
    → 1 ≤ n
    → n ≤ 16
    → read fuel rest ≡ some is
    → read (suc fuel) ((0x50 + n) ∷ rest) ≡ some (pushed (n ∷ []) ∷ is)
unfolding read
read_small fuel n rest is least most e =
    let same : 0x50 + n - 0x50 ≡ n = omega arith in ground (arith, same)

read_op :
    (fuel c : ℕ) (rest : Text) (is : List Instruction)
    → 0x60 < c
    → read fuel rest ≡ some is
    → read (suc fuel) (c ∷ rest) ≡ some (code c ∷ is)
unfolding read
read_op fuel c rest is plain e = ground arith

ser_push-eq-some : (b s : Text) → ser_push b ≡ some s → (length b ≤ 75) × (length b ∷ b ≡ s)
unfolding ser_push
ser_push-eq-some b s e = ground arith

read_pushed :
    (fuel : ℕ) (b s rest : Text) (is : List Instruction)
    → ser_push b ≡ some s
    → read fuel rest ≡ some is
    → read (suc fuel) (s ++ rest) ≡ some (pushed b ∷ is)
read_pushed fuel b s rest is e later =
    let (short, same) = ser_push-eq-some b s e in
    subst (λ x. read (suc fuel) (x ++ rest) ≡ some (pushed b ∷ is)) same
      (read_push fuel b rest is short later)

read_item :
    (fuel : ℕ) (i : Item) (s rest : Text) (is : List Instruction)
    → IsPlain i
    → ser_item i ≡ some s
    → read fuel rest ≡ some is
    → read (suc fuel) (s ++ rest) ≡ some (instruction i ∷ is)
unfolding ser_item instruction
read_item fuel (op c) s rest is plain e later =
    let same : c ∷ [] ≡ s = ground arith in
    subst (λ x. read (suc fuel) (x ++ rest) ≡ some (code c ∷ is)) same
      (read_op fuel c rest is plain later)
read_item fuel (push b) s rest is plain e later = read_pushed fuel b s rest is e later
read_item fuel (number n) s rest is plain e later = elim (Bool-cases (n == 0)) [
  | inl none_at_all ↦
      let same : 0 ∷ [] ≡ s = ground arith in
      rw none_at_all (
        subst (λ x. read (suc fuel) (x ++ rest) ≡ some (pushed [] ∷ is)) same
          (read_push fuel [] rest is (omega arith) later))
  | inr some_number ↦ elim (Bool-cases (leb n 16)) [
    | inl small ↦
        let same : (0x50 + n) ∷ [] ≡ s = ground arith in
        rw (some_number, small)
          (subst (λ x. read (suc fuel) (x ++ rest) ≡ some (pushed (n ∷ []) ∷ is)) same
            (read_small fuel n rest is (ground arith) (ground arith) later))
    | inr big ↦
        let pushes : ser_push (script_num n) ≡ some s = ground arith in
        rw (some_number, big) (read_pushed fuel (script_num n) s rest is pushes later)
  ]
]

ser_push-some_byte : (b s : Text) → ser_push b ≡ some s → 1 ≤ length s
ser_push-some_byte b s e =
    let (short, same) = ser_push-eq-some b s e in subst (λ x. 1 ≤ length x) same (omega arith)

ser_item-some_byte : (i : Item) (s : Text) → ser_item i ≡ some s → 1 ≤ length s
unfolding ser_item
ser_item-some_byte (op c) s e =
    let same : c ∷ [] ≡ s = ground arith in subst (λ x. 1 ≤ length x) same (omega arith)
ser_item-some_byte (push b) s e = ser_push-some_byte b s e
ser_item-some_byte (number n) s e = elim (Bool-cases (n == 0)) [
  | inl none_at_all ↦
      let same : 0 ∷ [] ≡ s = ground arith in subst (λ x. 1 ≤ length x) same (omega arith)
  | inr some_number ↦ elim (Bool-cases (leb n 16)) [
    | inl small ↦
        let same : (0x50 + n) ∷ [] ≡ s = ground arith in
        subst (λ x. 1 ≤ length x) same (omega arith)
    | inr big ↦ ser_push-some_byte (script_num n) s (ground arith)
  ]
]

-- A script that is written from items is read back as the items, with more fuel than its bytes.
pub read-ser_script :
    (fuel : ℕ) (items : List Item) (s : Text)
    → length s < fuel
    → All IsPlain items
    → ser_script items ≡ some s
    → read fuel s ≡ some (instructions items)
unfolding ser_script instructions
read-ser_script zero items s fits plain e = absurd (omega (arith, fits))
read-ser_script (suc fuel) [] s fits plain e =
    let same : [] ≡ s = ground arith in
    subst (λ x. read (suc fuel) x ≡ some []) same (unfold read in refl)
read-ser_script (suc fuel) (i ∷ items) s fits (plain, others) e = elim (Option-cases (ser_item i)) [
  | inl bad ↦ absurd (ground arith)
  | inr (a, written) ↦ elim (Option-cases (ser_script items)) [
    | inl bad ↦ absurd (ground arith)
    | inr (rest, later) ↦
        let same : a ++ rest ≡ s = ground arith in
        let byte = ser_item-some_byte i a written in
        let long : length s ≡ length a + length rest =
          ap length (sym same) ∙ length-append a rest in
        subst (λ x. read (suc fuel) x ≡ some (instruction i ∷ instructions items)) same
          (read_item fuel i a rest (instructions items) plain written
            (read-ser_script fuel items rest (omega (arith, fits, long, byte)) others later))
  ]
]
