-- ===== src/BtcScript/Leaves.antt =====
-- Proofs on which stacks open the three leaves of pignus/btcscript.py, by Bitcoin's rules.
use pignus.Prelude.{
  suc, ◌≡◌, ◌≢◌, ◌↔◌, refl, sym, ap, true, some, List, [], ◌∷◌, Text, text_eq, text_eq_iff, length,
  All, Bool-cases, inl, inr, arith, ◌∙◌,
}
use mathlib.Core.Path.{subst}
use pignus.BtcScript.{Item, ser_script}
use pignus.BtcScript.Rules.{
  Instruction, pushed, code, Spending, locks, signs, executes_two, executes, runs, truthy,
  leaves_true, opens,
}
use pignus.BtcScript.Parsed.{instructions, IsPlain, read-ser_script}

module _ (w : Spending) where
  -- A signature of a key, there and good.
  abbrev pub Signed : Text → Text → Type 0
  Signed key sig = (sig ≢ []) × (w.verifies key sig ≡ true)

  signs-Signed : (key sig : Text) → (signs w key sig ≡ true) ↔ Signed key sig
  unfolding signs
  signs-Signed key [] = (λ e. absurd (ground arith), λ (some_sig, good). absurd (some_sig refl))
  signs-Signed key (b ∷ sig) = (λ e. (λ f. cc, e), λ (some_sig, good). good)

  pub opens-runs :
      (items : List Item) (s : Text) (stack : List Text)
      → All IsPlain items
      → ser_script items ≡ some s
      → opens w s stack ≡ leaves_true (runs w (instructions items) stack)
  unfolding opens
  opens-runs items s stack plain e =
      let is = read-ser_script (suc (length s)) items s (omega arith) plain e in ground (arith, is)

  -- What is left to run when one signature is left to check.
  pub checks_last_iff :
      (key : Text) (stack : List Text)
      → (leaves_true (runs w (pushed key ∷ code 0xac ∷ []) stack) ≡ true)
        ↔ ((sig : Text) × (stack ≡ sig ∷ []) × Signed key sig)
  unfolding runs executes executes_two leaves_true truthy
  checks_last_iff key [] = (λ e. absurd (ground arith), λ (sig, is, good). absurd (ground arith))
  checks_last_iff key ([] ∷ []) =
      (λ e. absurd (ground arith), λ (sig, is, good). absurd (good.0 (ground arith)))
  checks_last_iff key ((b ∷ sig) ∷ []) = (
    λ e. (b ∷ sig, refl, (λ f. cc, ground arith)),
    λ (other, is, good).
        let same : b ∷ sig ≡ other = ground arith in
        let verified = good.1 in
        let here : w.verifies key (b ∷ sig) ≡ true = ap (w.verifies key) same ∙ verified in
        ground arith,
  )
  checks_last_iff key (x ∷ y ∷ stack) =
      (λ e. absurd (ground arith), λ (sig, is, good). absurd (ground arith))

  -- What is left to run when a signature is checked first.
  pub checks_first_iff :
      (key : Text) (is : List Instruction) (stack : List Text)
      → (leaves_true (runs w (pushed key ∷ code 0xad ∷ is) stack) ≡ true) ↔ (
          (sig : Text) × (rest : List Text) × (stack ≡ sig ∷ rest)
          × Signed key sig
          × (leaves_true (runs w is rest) ≡ true))
  unfolding runs executes executes_two leaves_true
  checks_first_iff key is [] =
      (λ e. absurd (ground arith), λ (sig, rest, eq, good, more). absurd (ground arith))
  checks_first_iff key is (sig ∷ rest) = elim (Bool-cases (signs w key sig)) [
    | inl good ↦ (
      λ e. (sig, rest, refl, (signs-Signed key sig).0 good, ground arith),
      λ (other, others, eq, fine, more).
          let same : others ≡ rest = ground arith in
          let runs_on : leaves_true (runs w is rest) ≡ true =
            subst (λ r. leaves_true (runs w is r) ≡ true) same more in
          ground arith,
    )
    | inr bad ↦ (
      λ e. absurd (ground arith),
      λ (other, others, eq, fine, more).
          let same : other ≡ sig = ground arith in
          let is_good = (signs-Signed key sig).1 (subst (Signed key) same fine) in
          absurd (ground arith),
    )
  ]

  -- What is left to run when a preimage is checked first.
  pub checks_hash_iff :
      (h : Text) (is : List Instruction) (stack : List Text)
      → (leaves_true (runs w (code 0xa8 ∷ pushed h ∷ code 0x88 ∷ is) stack) ≡ true) ↔ (
          (secret : Text) × (rest : List Text) × (stack ≡ secret ∷ rest)
          × (w.sha256 secret ≡ h)
          × (leaves_true (runs w is rest) ≡ true))
  unfolding runs executes executes_two leaves_true
  checks_hash_iff h is [] =
      (λ e. absurd (ground arith), λ (secret, rest, eq, hashes, more). absurd (ground arith))
  checks_hash_iff h is (secret ∷ rest) = elim (Bool-cases (text_eq h (w.sha256 secret))) [
    | inl good ↦ (
      λ e. (secret, rest, refl, sym ((text_eq_iff h (w.sha256 secret)).0 good), ground arith),
      λ (other, others, eq, fine, more).
          let same : others ≡ rest = ground arith in
          let runs_on : leaves_true (runs w is rest) ≡ true =
            subst (λ r. leaves_true (runs w is r) ≡ true) same more in
          ground arith,
    )
    | inr bad ↦ (
      λ e. absurd (ground arith),
      λ (other, others, eq, fine, more).
          let same : other ≡ secret = ground arith in
          let hashes : w.sha256 secret ≡ h = ap w.sha256 (sym same) ∙ fine in
          let is_good = (text_eq_iff h (w.sha256 secret)).1 (sym hashes) in absurd (ground arith),
    )
  ]

  pub checks_lock_iff :
      (n : Text) (is : List Instruction) (stack : List Text)
      → (leaves_true (runs w (pushed n ∷ code 0xb1 ∷ code 0x75 ∷ is) stack) ≡ true)
        ↔ ((locks w n ≡ true) × (leaves_true (runs w is stack) ≡ true))
  unfolding runs executes leaves_true
  checks_lock_iff n is stack = elim (Bool-cases (locks w n)) [
    | inl good ↦ (λ e. (good, ground arith), λ (fine, more). ground arith)
    | inr bad ↦ (λ e. absurd (ground arith), λ (fine, more). absurd (ground arith))
  ]
