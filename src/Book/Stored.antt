-- ===== src/Book/Stored.antt =====
-- Proofs on the tables of pignus/book.py as lists of records with different keys.
use pignus.Prelude.{
  ◌≡◌, refl, sym, false, none, some, List, [], ◌∷◌, Text, text_eq, text_eq_iff, text_eq_refl, All,
  Bool-cases, inl, inr, arith, ◌∙◌,
}
use mathlib.Core.Path.{subst}
use pignus.Book.{find, store}
use pignus.Book.Fields.{find-store}

-- No key stands twice.
abbrev pub Distinct : {A : Type 0} → List (Text × A) → Type 0
Distinct [] = Unit {0}
Distinct ((k, a) ∷ d) = (find d k ≡ none) × Distinct d

pub text_eq-eq-false : (j k : Text) → text_eq j k ≡ false → text_eq k j ≡ false
text_eq-eq-false j k apart = elim (Bool-cases (text_eq k j)) [
  | inr other ↦ other
  | inl same ↦
      let is : k ≡ j = (text_eq_iff k j).0 same in
      absurd (ground (arith, (text_eq_iff j k).1 (sym is)))
]

module _ {A : Type 0} where
  pub find-store_ne :
      (d : List (Text × A)) (k j : Text) (a : A)
      → text_eq k j ≡ false
      → find (store d k a) j ≡ find d j
  find-store_ne d k j a apart = find-store d k a j ∙ rw apart refl

  pub find-store_self : (d : List (Text × A)) (k : Text) (a : A) → find (store d k a) k ≡ some a
  find-store_self d k a = find-store d k a k ∙ rw (text_eq_refl k) refl

  pub store-Distinct :
      (d : List (Text × A)) (k : Text) (a : A) → Distinct d → Distinct (store d k a)
  unfolding store find
  store-Distinct [] k a apart = (refl, tt)
  store-Distinct ((j, b) ∷ d) k a (first, rest) = elim (Bool-cases (text_eq j k)) [
    | inl same ↦ rw same (first, rest)
    | inr other ↦
        rw other
          (find-store_ne d k j a (text_eq-eq-false j k other) ∙ first, store-Distinct d k a rest)
  ]

  pub store-All :
      (P : A → Type 0) (d : List (Text × A)) (k : Text) (a : A)
      → All (λ e. P e.1) d
      → P a
      → All (λ e. P e.1) (store d k a)
  unfolding store
  store-All P [] k a each new = (new, tt)
  store-All P ((j, b) ∷ d) k a (first, rest) new = elim (Bool-cases (text_eq j k)) [
    | inl same ↦ rw same (new, rest)
    | inr other ↦ rw other (first, store-All P d k a rest new)
  ]

  pub find-All :
      (P : A → Type 0) (d : List (Text × A)) (k : Text) {a : A}
      → All (λ e. P e.1) d
      → find d k ≡ some a
      → P a
  unfolding find
  find-All P [] k each found = absurd (ground arith)
  find-All P ((j, b) ∷ d) k (first, rest) found = elim (Bool-cases (text_eq j k)) [
    | inl same ↦ subst P (ground arith) first
    | inr other ↦ find-All P d k rest (ground arith)
  ]
