-- ===== src/BtcScript/Pieces.antt =====
-- The pieces of 32 bytes that Bitcoin (BIP341) reads of a control block, and proofs that those that
-- pignus/btcscript.py puts together are read back.
use pignus.Prelude.{
  ℕ, zero, suc, ◌≤◌, ◌<◌, ◌≡◌, refl, sym, ap, false, Option, none, some, List, [], ◌∷◌, ◌++◌, Text,
  length, length-append, take, All, ltb, if◌then◌else◌, arith, ◌∙◌,
}
use pignus.BtcScript.Rules.{drop}
use pignus.BtcScript.Parsed.{take-front, drop-front}
use pignus.BtcScript.Tree.{concatenated}

-- A text as its pieces of 32 bytes, if it is made of such pieces, with fuel for its bytes.
unfoldable pub pieces : ℕ → Text → Option (List Text)
pieces zero s = none
pieces (suc fuel) [] = some []
pieces (suc fuel) (b ∷ s) =
    if ltb (length (b ∷ s)) 32 then none else elim (pieces fuel (drop 32 (b ∷ s))) [
      | none ↦ none
      | some rest ↦ some (take 32 (b ∷ s) ∷ rest)
    ]

abbrev pub Is32 : Text → Type 0
Is32 h = length h ≡ 32

pieces_cons :
    (fuel b : ℕ) (s h rest : Text) (path : List Text)
    → 32 ≤ length (b ∷ s)
    → take 32 (b ∷ s) ≡ h
    → drop 32 (b ∷ s) ≡ rest
    → pieces fuel rest ≡ some path
    → pieces (suc fuel) (b ∷ s) ≡ some (h ∷ path)
unfolding pieces
pieces_cons fuel b s h rest path long front back e =
    let later : pieces fuel (drop 32 (b ∷ s)) ≡ some path = ap (pieces fuel) back ∙ e in
    let enough : ltb (length (b ∷ s)) 32 ≡ false = ground arith in rw (enough, later, front) refl

pieces_more :
    (fuel : ℕ) (h rest : Text) (path : List Text)
    → Is32 h
    → pieces fuel rest ≡ some path
    → pieces (suc fuel) (h ++ rest) ≡ some (h ∷ path)
pieces_more fuel [] rest path is e = absurd (omega (arith, is))
pieces_more fuel (b ∷ h) rest path is e =
    let long = length-append (b ∷ h) rest in
    let front : take 32 ((b ∷ h) ++ rest) ≡ b ∷ h =
      ap (λ n. take n ((b ∷ h) ++ rest)) (sym is) ∙ take-front (b ∷ h) rest in
    let back : drop 32 ((b ∷ h) ++ rest) ≡ rest =
      ap (λ n. drop n ((b ∷ h) ++ rest)) (sym is) ∙ drop-front (b ∷ h) rest in
    pieces_cons fuel b (h ++ rest) (b ∷ h) rest path (omega (arith, long, is)) front back e

pub pieces-concatenated :
    (fuel : ℕ) (path : List Text)
    → length (concatenated path) < fuel
    → All Is32 path
    → pieces fuel (concatenated path) ≡ some path
pieces-concatenated zero path fits are = absurd (omega (arith, fits))
pieces-concatenated (suc fuel) [] fits are = unfold pieces in refl
pieces-concatenated (suc fuel) (h ∷ path) fits (is, are) =
    pieces_more fuel h (concatenated path) path is (
      pieces-concatenated fuel path (omega (arith, fits, is, length-append h (concatenated path)))
        are)
