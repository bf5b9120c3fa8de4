-- ===== src/Repurchase/Scan.antt =====
-- Proofs on the scans for an output, of pignus/repurchase.py.
use pignus.Prelude.{
  ℕ, zero, suc, ◌+◌, ◌≤◌, ◌<◌, ◌≡◌, inl, inr, Bool, true, false, Option, none, some, Text, ◌==◌, ok,
  Bool-cases, Option-cases, arith,
}
use mathlib.Core.Path.{subst}
use pignus.Repurchase.Coins.{
  Txout, Answers, scan_vouts, holds, first_match, find_output, find_again,
}

pub first_match-eq-some :
    (answers : Answers) (matches : Txout → Bool) (left i : ℕ) {n : ℕ} {o : Txout}
    → first_match answers matches left i ≡ some (n, o)
    → (answers n ≡ some o) × (matches o ≡ true) × (n < i + left)
unfolding first_match
first_match-eq-some answers matches zero i e = absurd (ground arith)
first_match-eq-some answers matches (suc left) i {n} {o} e = elim (Option-cases (answers i)) [
  | inl nothing ↦ ground (arith, first_match-eq-some answers matches left (i + 1) {n = n} {o = o})
  | inr (p, there) ↦ elim (Bool-cases (matches p)) [
    | inl good ↦
        let same : i ≡ n = ground arith in
        let it : p ≡ o = ground arith in
        (subst (λ k. answers k ≡ some o) same (rw (← it) there), rw (← it) good, omega arith)
    | inr bad ↦ ground (arith, first_match-eq-some answers matches left (i + 1) {n = n} {o = o})
  ]
]

pub first_match-eq-none :
    (answers : Answers) (matches : Txout → Bool) (left i : ℕ)
    → first_match answers matches left i ≡ none
    → (j : ℕ) (o : Txout) → i ≤ j
    → j < i + left
    → answers j ≡ some o
    → matches o ≡ false
unfolding first_match
first_match-eq-none answers matches zero i e j o low high there = absurd (omega arith)
first_match-eq-none answers matches (suc left) i e j o low high there = elim (Bool-cases (i == j)) [
  | inl here ↦
      let same : j ≡ i = ground arith in
      let at_i = subst (λ k. answers k ≡ some o) same there in ground arith
  | inr later ↦ elim (Option-cases (answers i)) [
    | inl nothing ↦
        first_match-eq-none answers matches left (i + 1) (ground arith) j o (ground arith)
          (omega arith) there
    | inr (p, found) ↦
        first_match-eq-none answers matches left (i + 1) (ground arith) j o (ground arith)
          (omega arith) there
  ]
]

pub holds-eq : (o : Option ℕ) (n : ℕ) → holds o n ≡ true → o ≡ some n
holds-eq none n e = absurd (ground arith)
holds-eq (some m) n e = ground arith

pub find_output_there :
    (answers : Answers) (vout : Option ℕ) (matches : Txout → Bool) {n : ℕ} {o : Txout}
    → find_output answers vout matches ≡ ok (some (n, o))
    → answers n ≡ some o
unfolding find_output
find_output_there answers none matches {n} {o} e =
    (first_match-eq-some answers matches scan_vouts 0 {n = n} {o = o} (ground arith)).0
find_output_there answers (some k) matches {n} {o} e = elim (Option-cases (answers k)) [
  | inl nothing ↦ absurd (ground arith)
  | inr (p, there) ↦
      let it : p ≡ o = ground arith in
      subst (λ j. answers j ≡ some o) (let q : k ≡ n = ground arith in q) (rw (← it) there)
]

pub find_again_there :
    (answers : Answers) (address : Text) (vout : Option ℕ) (matches : Txout → Bool)
    (first : Option (ℕ × Txout)) {n : ℕ} {o : Txout}
    → find_output answers vout matches ≡ ok first
    → find_again answers address vout first ≡ ok (some (n, o))
    → answers n ≡ some o
unfolding find_again
find_again_there answers address (some k) matches first {n} {o} f e =
    find_output_there answers (some k) matches {n = n} {o = o} (ground arith)
find_again_there answers address none matches (some p) {n} {o} f e =
    find_output_there answers none matches {n = n} {o = o} (ground arith)
find_again_there answers address none matches none {n} {o} f e =
    find_output_there answers none _ {n = n} {o = o} e
