-- ===== src/Tx/Totals.antt =====
-- How much of an asset a list of outputs pays and a list of inputs brings.
use pignus.Prelude.{
  ℕ, ◌+◌, ◌≡◌, refl, true, false, none, some, List, [], ◌∷◌, ◌++◌, ◌==◌, if◌then◌else◌, arith,
}
use pignus.Tx.{Outpoint, Output, Entry, fee_mark, pay, marks_fee, render, raw_tx}

-- `n` atoms of the asset `b`, counted for `a`.
abbrev pub counted : ℕ → ℕ → ℕ → ℕ
counted a b n = if b == a then n else 0

unfoldable pub total_in : ℕ → List Outpoint → ℕ
total_in a [] = 0
total_in a (o ∷ os) = elim o.asset [ none ↦ 0 | some b ↦ counted a b o.amount ] + total_in a os

unfoldable pub total_out : ℕ → List Output → ℕ
total_out a [] = 0
total_out a (o ∷ os) = counted a o.asset o.amount + total_out a os

-- What the entries pay besides the fee.
unfoldable pub total_paid : ℕ → List Entry → ℕ
total_paid a [] = 0
total_paid a (fee_mark ∷ es) = total_paid a es
total_paid a (pay o ∷ es) = counted a o.asset o.amount + total_paid a es

-- A fee mark stands once at most.
abbrev pub IsMarkedOnce : List Entry → Type 0
IsMarkedOnce [] = Unit
IsMarkedOnce (fee_mark ∷ es) = marks_fee es ≡ false
IsMarkedOnce (pay o ∷ es) = IsMarkedOnce es

pub total_paid-append :
    (a : ℕ) (es fs : List Entry) → total_paid a (es ++ fs) ≡ total_paid a es + total_paid a fs
unfolding total_paid
total_paid-append a [] fs = omega arith
total_paid-append a (fee_mark ∷ es) fs = total_paid-append a es fs
total_paid-append a (pay o ∷ es) fs = omega (arith, total_paid-append a es fs)

total_out-unmarked :
    (a b n : ℕ) (es : List Entry)
    → marks_fee es ≡ false
    → total_out a (render b n es) ≡ total_paid a es
unfolding total_out render total_paid marks_fee
total_out-unmarked a b n [] h = refl
total_out-unmarked a b n (fee_mark ∷ es) h = cc
total_out-unmarked a b n (pay o ∷ es) h = omega (arith, total_out-unmarked a b n es h)

total_out-appended :
    (a b n : ℕ) (es : List Entry)
    → marks_fee es ≡ false
    → total_out a (render b n (es ++ fee_mark ∷ [])) ≡ total_paid a es + counted a b n
unfolding total_out render total_paid marks_fee
total_out-appended a b n [] h = omega arith
total_out-appended a b n (fee_mark ∷ es) h = cc
total_out-appended a b n (pay o ∷ es) h = omega (arith, total_out-appended a b n es h)

total_out-marked :
    (a b n : ℕ) (es : List Entry)
    → IsMarkedOnce es
    → marks_fee es ≡ true
    → total_out a (render b n es) ≡ total_paid a es + counted a b n
unfolding total_out render total_paid marks_fee
total_out-marked a b n [] m h = cc
total_out-marked a b n (fee_mark ∷ es) m h = omega (arith, total_out-unmarked a b n es m)
total_out-marked a b n (pay o ∷ es) m h = omega (arith, total_out-marked a b n es m h)

-- A transaction pays its entries and the fee, whether the fee's place is marked or not.
pub total_out-raw_tx :
    (a : ℕ) (inputs : List Outpoint) (es : List Entry) (b n locktime : ℕ)
    → IsMarkedOnce es
    → total_out a (raw_tx inputs es b n locktime).outs ≡ total_paid a es + counted a b n
unfolding raw_tx
total_out-raw_tx a inputs es b n locktime m =
    ground (arith, total_out-marked a b n es m, total_out-appended a b n es)
