-- ===== src/Book/Fields.antt =====
-- Proofs on reading a record of pignus/book.py after it is written.
use pignus.Prelude.{
  ℕ, ◌≡◌, refl, sym, ap, false, Option, none, some, List, [], ◌∷◌, Text, codes, text_eq,
  text_eq_iff, if◌then◌else◌, Bool-cases, inl, inr, arith, ◌∙◌,
}
use pignus.Book.{Value, Rec, num, find, store, updated_with, without, written}

pub find-store :
    {A : Type 0} (d : List (Text × A)) (k : Text) (a : A) (j : Text)
    → find (store d k a) j ≡ (if text_eq k j then some a else find d j)
unfolding find store
find-store [] k a j = refl
find-store ((i, b) ∷ d) k a j = elim (Bool-cases (text_eq i k)) [
  | inl same ↦
      let is : i ≡ k = (text_eq_iff i k).0 same in
      let copy : text_eq i j ≡ text_eq k j = ap (λ x. text_eq x j) is in
      rw same (
        rw copy
          (elim (Bool-cases (text_eq k j)) [ inl here ↦ ground arith | inr there ↦ ground arith ]))
  | inr other ↦ elim (Bool-cases (text_eq k j)) [
    | inl here ↦
        let is : k ≡ j = (text_eq_iff k j).0 here in
        let apart : text_eq i j ≡ false = ap (text_eq i) (sym is) ∙ other in
        rw other (rw (here, apart) (find-store d k a j ∙ rw here refl))
    | inr there ↦
        rw (other, there)
          (ap (λ x. if text_eq i j then some b else x) (find-store d k a j ∙ rw there refl))
  ]
]

-- A field's new value over its old one.
abbrev pub over : Option Value → Option Value → Option Value
over none old = old
over (some v) old = some v

pub find-updated_with :
    (rec fields : Rec) (k : Text)
    → find (updated_with rec fields) k ≡ over (find fields k) (find rec k)
unfolding updated_with find
find-updated_with rec [] k = refl
find-updated_with rec ((j, v) ∷ fields) k =
    find-store (updated_with rec fields) j v k ∙ elim (Bool-cases (text_eq j k)) [
      | inl here ↦ rw here refl
      | inr there ↦ rw there (find-updated_with rec fields k)
    ]

pub find-without : (fields : Rec) (k : Text) → find (without fields k) k ≡ none
unfolding find without
find-without [] k = refl
find-without ((j, v) ∷ fields) k = elim (Bool-cases (text_eq j k)) [
  | inl here ↦ rw here (find-without fields k)
  | inr there ↦ rw there (rw there (find-without fields k))
]

-- The status of a record written is the fields', and the old one where they have none.
pub find-written :
    (rec fields : Rec) (clock : ℕ)
    → find (written rec fields clock) (codes "status")
      ≡ over (find fields (codes "status")) (find rec (codes "status"))
unfolding written
find-written rec fields clock =
    find-store (updated_with rec fields) (codes "updated") (num clock) (codes "status")
    ∙ find-updated_with rec fields (codes "status")
