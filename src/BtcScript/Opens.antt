-- ===== src/BtcScript/Opens.antt =====
-- Proofs on the leaves of pignus/btcscript.py: what opens each of them, by Bitcoin's rules.
use pignus.Prelude.{
  ℕ, ◌^◌, ◌≤◌, ◌<◌, ◌≡◌, ◌≢◌, ◌↔◌, refl, sym, ap, true, false, some, List, [], ◌∷◌, Text, length,
  leb, ◌==◌, if◌then◌else◌, Bool-cases, inl, inr, arith, ◌∙◌,
}
use pignus.BtcScript.{
  number, push, script_num, two_of_two, timelocked_single, hashlocked_two_of_two, op_checksig,
  op_checksigverify, op_checklocktimeverify, op_drop, op_sha256, op_equalverify,
}
use pignus.BtcScript.Rules.{
  Instruction, pushed, code, number_of, negative, Spending, locks, runs, leaves_true, opens,
}
use pignus.BtcScript.Parsed.{instruction, instructions}
use pignus.BtcScript.Numbers.{number_of-script_num, length-script_num, negative-script_num}
use pignus.BtcScript.Leaves.{
  Signed, opens-runs, checks_last_iff, checks_first_iff, checks_hash_iff, checks_lock_iff,
}

-- The bytes that a script pushes for a number.
lock_bytes : ℕ → Text
lock_bytes n = if n == 0 then [] else if leb n 16 then n ∷ [] else script_num n

instruction-number : (n : ℕ) → instruction (number n) ≡ pushed (lock_bytes n)
unfolding instruction lock_bytes
instruction-number n = elim (Bool-cases (n == 0)) [
  | inl zero_number ↦ rw zero_number refl
  | inr some_number ↦ elim (Bool-cases (leb n 16)) [
    | inl small ↦ rw (some_number, small) refl
    | inr big ↦ rw (some_number, big) refl
  ]
]

lock_bytes-eqs :
    (n : ℕ)
    → n < 2 ^ 32
    → (number_of (lock_bytes n) ≡ n)
      × (length (lock_bytes n) ≤ 5)
      × (negative (lock_bytes n) ≡ false)
unfolding lock_bytes number_of negative
lock_bytes-eqs n small =
    let told = number_of-script_num n in
    let short = length-script_num n small in
    let positive = negative-script_num n in
    elim (Bool-cases (n == 0)) [
      | inl zero_number ↦ rw zero_number (ground arith, omega arith, refl)
      | inr some_number ↦ elim (Bool-cases (leb n 16)) [
        | inl few ↦ rw (some_number, few) (omega arith, omega arith, ground arith)
        | inr big ↦ rw (some_number, big) (told, short, positive)
      ]
    ]

-- The transaction's lock time has reached a height or a time of the script, and is in force.
pub record IsReached (w : Spending) (n : ℕ) : Type 0 where
  pub reached : n ≤ w.locktime
  pub kind : (n < 500_000_000) ↔ (w.locktime < 500_000_000)
  pub in_force : w.sequence ≢ 0xffffffff

locks-IsReached :
    (w : Spending) (n : ℕ) → n < 2 ^ 32 → (locks w (lock_bytes n) ≡ true) ↔ IsReached w n
unfolding locks
locks-IsReached w n small =
    let (told, short, positive) = lock_bytes-eqs n small in
    rw told (
      λ e. record { reached = ground arith; kind = ground arith; in_force = λ f. ground arith },
      λ is.
          let reached = is.reached in
          let kind = is.kind in let in_force = is.in_force in ground arith,
    )

-- The instructions that check two signatures, and the stacks that they accept.
two_keys : Text → Text → List Instruction
two_keys a_x b_x = pushed a_x ∷ code 0xad ∷ pushed b_x ∷ code 0xac ∷ []

-- The two signatures on a stack, the first key's on top.
abbrev pub BothSigned : Spending → Text → Text → List Text → Type 0
BothSigned w a_x b_x stack =
    (a_sig b_sig : Text) × (stack ≡ a_sig ∷ b_sig ∷ []) × Signed w a_x a_sig × Signed w b_x b_sig

two_keys_iff :
    (w : Spending) (a_x b_x : Text) (stack : List Text)
    → (leaves_true (runs w (two_keys a_x b_x) stack) ≡ true) ↔ BothSigned w a_x b_x stack
unfolding two_keys
two_keys_iff w a_x b_x stack = (
  λ e.
      let (a_sig, rest, is, first, more) =
        (checks_first_iff w a_x (pushed b_x ∷ code 0xac ∷ []) stack).0 e in
      let (b_sig, last, second) = (checks_last_iff w b_x rest).0 more in
      (a_sig, b_sig, is ∙ ap (λ r. a_sig ∷ r) last, first, second),
  λ (a_sig, b_sig, is, first, second).
      (checks_first_iff w a_x (pushed b_x ∷ code 0xac ∷ []) stack).1 (
        a_sig,
        b_sig ∷ [],
        is,
        first,
        (checks_last_iff w b_x (b_sig ∷ [])).1 (b_sig, refl, second),
      ),
)

-- The leaf of two keys is opened by exactly the stacks of two signatures, the first key's on top.
pub two_of_two-opens_iff :
    (w : Spending) (a_x b_x script : Text) (stack : List Text)
    → two_of_two a_x b_x ≡ some script
    → (opens w script stack ≡ true) ↔ BothSigned w a_x b_x stack
unfolding two_of_two two_keys instruction instructions
two_of_two-opens_iff w a_x b_x script stack e =
    let ran =
      opens-runs w (push a_x ∷ op_checksigverify ∷ push b_x ∷ op_checksig ∷ []) script stack
        (tt, (omega arith, (tt, (omega arith, tt)))) e in
    let iff = two_keys_iff w a_x b_x stack in
    (λ o. iff.0 (sym ran ∙ o), λ signed. ran ∙ iff.1 signed)

-- The hash-locked leaf is opened by exactly the stacks of a preimage of the hash on top of the two
-- signatures, the first key's above the second's.
pub hashlocked_two_of_two-opens_iff :
    (w : Spending) (h a_x b_x script : Text) (stack : List Text)
    → hashlocked_two_of_two h a_x b_x ≡ some script
    → (opens w script stack ≡ true) ↔ (
        (secret : Text) × (rest : List Text) × (stack ≡ secret ∷ rest)
        × (w.sha256 secret ≡ h)
        × BothSigned w a_x b_x rest)
unfolding hashlocked_two_of_two two_keys instruction instructions
hashlocked_two_of_two-opens_iff w h a_x b_x script stack e =
    let ran =
      opens-runs w
        (op_sha256
          ∷ push h
          ∷ op_equalverify
          ∷ push a_x
          ∷ op_checksigverify
          ∷ push b_x
          ∷ op_checksig
          ∷ [])
        script stack
        (omega arith, (tt, (omega arith, (tt, (omega arith, (tt, (omega arith, tt))))))) e in
    let iff = checks_hash_iff w h (two_keys a_x b_x) stack in
    (
      λ o.
          let (secret, rest, is, hashes, more) = iff.0 (sym ran ∙ o) in
          (secret, rest, is, hashes, (two_keys_iff w a_x b_x rest).0 more),
      λ (secret, rest, is, hashes, signed).
          ran ∙ iff.1 (secret, rest, is, hashes, (two_keys_iff w a_x b_x rest).1 signed),
    )

-- The time-locked leaf is opened by exactly the stacks of the key's one signature, when the
-- transaction's lock time, of the same kind and in force, has reached the leaf's.
pub timelocked_single-opens_iff :
    (w : Spending) (locktime : ℕ) (key_x script : Text) (stack : List Text)
    → locktime < 2 ^ 32
    → timelocked_single locktime key_x ≡ some script
    → (opens w script stack ≡ true)
      ↔ (IsReached w locktime × (sig : Text) × (stack ≡ sig ∷ []) × Signed w key_x sig)
unfolding timelocked_single instruction instructions
timelocked_single-opens_iff w locktime key_x script stack small e =
    let ran =
      opens-runs w
        (number locktime ∷ op_checklocktimeverify ∷ op_drop ∷ push key_x ∷ op_checksig ∷ []) script
        stack (tt, (omega arith, (omega arith, (tt, (omega arith, tt))))) e in
    let is : List Instruction = code 0xb1 ∷ code 0x75 ∷ pushed key_x ∷ code 0xac ∷ [] in
    let read = ran ∙ ap (λ i. leaves_true (runs w (i ∷ is) stack)) (instruction-number locktime) in
    let lock = checks_lock_iff w (lock_bytes locktime) (pushed key_x ∷ code 0xac ∷ []) stack in
    let last = checks_last_iff w key_x stack in
    let reaches = locks-IsReached w locktime small in
    (
      λ o.
          let (locked, more) = lock.0 (sym read ∙ o) in
          let (sig, one, signed) = last.0 more in (reaches.0 locked, sig, one, signed),
      λ (reached, sig, one, signed). read ∙ lock.1 (reaches.1 reached, last.1 (sig, one, signed)),
    )
