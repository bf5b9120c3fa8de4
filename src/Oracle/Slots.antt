-- ===== src/Oracle/Slots.antt =====
-- The slots that `select_threshold` fills: as many as the threshold, for distinct keys, each with
-- an attestation that its own key signed.
use pignus.Prelude.{
  get_elem?-set_cases, get_elem?-replicate, length-set, ℕ, zero, suc, ◌+◌, ◌≤◌, ◌<◌, max, ◌≡◌, ◌≢◌,
  refl, ap, sym, ◌∙◌, get_elem?-set_ne, none, some, [], ◌∷◌, leb, length, take, set, get_elem?,
  replicate, All, arith, Bool-cases, inl, inr,
}
use mathlib.Core.Path.{subst₂}
use pignus.Oracle.{
  Attestation, Usable, SlotList, insert_by_price, sort_by_price, fill_slots, max_price,
}

-- How many slots are given.
abbrev pub count_given : SlotList → ℕ
count_given [] = 0
count_given (none ∷ slots) = count_given slots
count_given (some a ∷ slots) = suc (count_given slots)

-- No two entries name one slot.
abbrev pub IsDistinct : Usable → Type 0
IsDistinct [] = Unit
IsDistinct (e ∷ es) = All (λ f. f.0 ≢ e.0) es × IsDistinct es

module _ (P : ℕ × Attestation → Type 0) where
  pub All-insert :
      (e : ℕ × Attestation) (es : Usable) → P e → All P es → All P (insert_by_price e es)
  unfolding insert_by_price
  All-insert e [] p a = (p, tt)
  All-insert e (f ∷ fs) p a = elim (Bool-cases (leb e.1.price f.1.price)) [
    | inl low ↦ rw low (p, a)
    | inr high ↦ rw high (a.0, All-insert e fs p a.1)
  ]

  pub All-sort : (es : Usable) → All P es → All P (sort_by_price es)
  unfolding sort_by_price
  All-sort [] a = tt
  All-sort (e ∷ es) a = All-insert e (sort_by_price es) a.0 (All-sort es a.1)

  pub All-take : (k : ℕ) (es : Usable) → All P es → All P (take k es)
  All-take zero es a = tt
  All-take (suc k) [] a = tt
  All-take (suc k) (e ∷ es) a = (a.0, All-take k es a.1)

insert_by_price-IsDistinct :
    (e : ℕ × Attestation) (es : Usable)
    → All (λ f. f.0 ≢ e.0) es
    → IsDistinct es
    → IsDistinct (insert_by_price e es)
unfolding insert_by_price
insert_by_price-IsDistinct e [] n d = (tt, tt)
insert_by_price-IsDistinct e (f ∷ fs) n d = elim (Bool-cases (leb e.1.price f.1.price)) [
  | inl low ↦ rw low (n, d)
  | inr high ↦ rw high (
    All-insert (λ g. g.0 ≢ f.0) e fs (λ q. n.0 (sym q)) d.0,
    insert_by_price-IsDistinct e fs n.1 d.1,
  )
]

pub sort_by_price-IsDistinct : (es : Usable) → IsDistinct es → IsDistinct (sort_by_price es)
unfolding sort_by_price
sort_by_price-IsDistinct [] d = tt
sort_by_price-IsDistinct (e ∷ es) d =
    insert_by_price-IsDistinct e (sort_by_price es) (All-sort (λ f. f.0 ≢ e.0) es d.0)
      (sort_by_price-IsDistinct es d.1)

pub take-IsDistinct : (k : ℕ) (es : Usable) → IsDistinct es → IsDistinct (take k es)
take-IsDistinct zero es d = tt
take-IsDistinct (suc k) [] d = tt
take-IsDistinct (suc k) (e ∷ es) d = (All-take (λ f. f.0 ≢ e.0) k es d.0, take-IsDistinct k es d.1)

-- An entry whose slot exists and is still empty.
abbrev pub IsOpen : SlotList → ℕ × Attestation → Type 0
IsOpen slots e = get_elem? slots e.0 ≡ some none

count_given-set :
    (slots : SlotList) (i : ℕ) (a : Attestation)
    → get_elem? slots i ≡ some none
    → count_given (set slots i (some a)) ≡ suc (count_given slots)
count_given-set [] i a h = cc
count_given-set (none ∷ slots) zero a h = refl
count_given-set (some b ∷ slots) zero a h = cc
count_given-set (none ∷ slots) (suc i) a h = count_given-set slots i a h
count_given-set (some b ∷ slots) (suc i) a h = ap suc (count_given-set slots i a h)

All-IsOpen-set :
    (slots : SlotList) (e : ℕ × Attestation) (es : Usable)
    → All (λ f. f.0 ≢ e.0) es
    → All (IsOpen slots) es
    → All (IsOpen (set slots e.0 (some e.1))) es
All-IsOpen-set slots e [] d o = tt
All-IsOpen-set slots e (f ∷ es) d o =
    (get_elem?-set_ne slots (some e.1) (λ q. d.0 (sym q)) ∙ o.0, All-IsOpen-set slots e es d.1 o.1)

pub count_given-fill_slots :
    (es : Usable) (slots : SlotList)
    → IsDistinct es
    → All (IsOpen slots) es
    → count_given (fill_slots es slots) ≡ length es + count_given slots
unfolding fill_slots
count_given-fill_slots [] slots d o = omega arith
count_given-fill_slots (e ∷ es) slots d o = omega (
  arith,
  count_given-fill_slots es (set slots e.0 (some e.1)) d.1 (All-IsOpen-set slots e es d.0 o.1),
  count_given-set slots e.0 e.1 o.0,
)

pub length-fill_slots :
    (es : Usable) (slots : SlotList) → length (fill_slots es slots) ≡ length slots
unfolding fill_slots
length-fill_slots [] slots = refl
length-fill_slots (e ∷ es) slots =
    length-fill_slots es (set slots e.0 (some e.1)) ∙ length-set slots e.0 (some e.1)

-- A given slot was given before, or by one of the entries.
pub fill_slots_given :
    (P : ℕ → Attestation → Type 0) (es : Usable) (slots : SlotList)
    → All (λ e. P e.0 e.1) es
    → ((i : ℕ) (a : Attestation) → get_elem? slots i ≡ some (some a) → P i a)
    → (i : ℕ) (a : Attestation) → get_elem? (fill_slots es slots) i ≡ some (some a)
    → P i a
unfolding fill_slots
fill_slots_given P [] slots all old i a h = old i a h
fill_slots_given P (e ∷ es) slots all old i a h =
    fill_slots_given P es (set slots e.0 (some e.1)) all.1
      (λ j b g. elim (get_elem?-set_cases slots e.0 (some e.1) j (some b) g) [
        | inl (same, given) ↦ let q : e.1 ≡ b = cc in subst₂ P (sym same) q all.0
        | inr was ↦ old j b was
      ])
      i a h

-- The highest price of the slots that are given.
abbrev pub dearest : SlotList → ℕ
dearest [] = 0
dearest (none ∷ slots) = dearest slots
dearest (some a ∷ slots) = max a.price (dearest slots)

dearest-set :
    (slots : SlotList) (i : ℕ) (a : Attestation)
    → get_elem? slots i ≡ some none
    → dearest (set slots i (some a)) ≡ max a.price (dearest slots)
dearest-set [] i a h = absurd (ground arith)
dearest-set (none ∷ slots) zero a h = refl
dearest-set (some b ∷ slots) zero a h = absurd (ground arith)
dearest-set (none ∷ slots) (suc i) a h = dearest-set slots i a h
dearest-set (some b ∷ slots) (suc i) a h = omega (arith, dearest-set slots i a h)

pub dearest-fill_slots :
    (es : Usable) (slots : SlotList)
    → IsDistinct es
    → All (IsOpen slots) es
    → dearest (fill_slots es slots) ≡ max (max_price es) (dearest slots)
unfolding fill_slots max_price
dearest-fill_slots [] slots d o = omega arith
dearest-fill_slots (e ∷ es) slots d o = omega (
  arith,
  dearest-fill_slots es (set slots e.0 (some e.1)) d.1 (All-IsOpen-set slots e es d.0 o.1),
  dearest-set slots e.0 e.1 o.0,
)

pub dearest-replicate : (n : ℕ) → dearest (replicate n none) ≡ 0
dearest-replicate zero = refl
dearest-replicate (suc n) = dearest-replicate n

pub IsOpen-replicate : (n : ℕ) (e : ℕ × Attestation) → e.0 < n → IsOpen (replicate n none) e
IsOpen-replicate n (i, a) h = get_elem?-replicate n i none h

pub count_given-replicate : (n : ℕ) → count_given (replicate n none) ≡ 0
count_given-replicate zero = refl
count_given-replicate (suc n) = count_given-replicate n

pub no_slot_given : (n i : ℕ) (a : Attestation) → get_elem? (replicate n none) i ≡ some (some a) → ⊥
no_slot_given zero i a h = cc
no_slot_given (suc n) zero a h = cc
no_slot_given (suc n) (suc i) a h = no_slot_given n i a h

max_price_above : (p : ℕ) (es : Usable) → max_price es ≤ p → All (λ e. e.1.price ≤ p) es
unfolding max_price
max_price_above p [] h = tt
max_price_above p (e ∷ es) h = (omega arith, max_price_above p es (omega arith))

pub le-max_price : (es : Usable) → All (λ e. e.1.price ≤ max_price es) es
le-max_price es = max_price_above (max_price es) es (omega arith)
