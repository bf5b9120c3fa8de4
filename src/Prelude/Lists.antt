-- ===== src/Prelude/Lists.antt =====
-- Lists measured by native numbers, their Boolean tests, and texts and byte strings as lists of
-- numbers.
use Prim.Native.Nat.{ℕ, zero, suc, ◌+◌, ◌<◌, ◌≤◌}
use Prim.Native.Char.{code}
use Prim.Native.String.{String}
use mathlib.Core.Path.{◌≡◌, refl, sym, ap}
use mathlib.Core.Logic.{◌↔◌, ◌≢◌, ◌⊎◌, inl, inr}
use mathlib.Core.List.{List, [], ◌∷◌, ◌++◌}
use mathlib.Core.Option.{Option, none, some}
use mathlib.Core.Bool.{Bool, true, false, ◌&&◌, ◌||◌}
use native.Mathlib.Omega.{arith}
use pignus.Prelude.Tests.{◌==◌, Bool-cases}

module _ {ℓ} {A : Type ℓ} where
  abbrev pub length : List A → ℕ
  length [] = 0
  length (x ∷ xs) = suc (length xs)

  abbrev pub take : ℕ → List A → List A
  take zero xs = []
  take (suc n) [] = []
  take (suc n) (x ∷ xs) = x ∷ take n xs

  abbrev pub get_elem? : List A → ℕ → Option A
  get_elem? [] i = none
  get_elem? (x ∷ xs) zero = some x
  get_elem? (x ∷ xs) (suc i) = get_elem? xs i

  -- A write out of bounds changes nothing.
  abbrev pub set : List A → ℕ → A → List A
  set [] i v = []
  set (x ∷ xs) zero v = v ∷ xs
  set (x ∷ xs) (suc i) v = x ∷ set xs i v

  abbrev pub replicate : ℕ → A → List A
  replicate zero a = []
  replicate (suc n) a = a ∷ replicate n a

  abbrev pub is_empty : List A → Bool
  is_empty [] = true
  is_empty (x ∷ xs) = false

  pub empty_of_is_empty : (xs : List A) → is_empty xs ≡ true → xs ≡ []
  empty_of_is_empty [] h = refl
  empty_of_is_empty (x ∷ xs) h = cc

  pub length-append : (xs ys : List A) → length (xs ++ ys) ≡ length xs + length ys
  length-append [] ys = omega arith
  length-append (x ∷ xs) ys = omega (arith, length-append xs ys)

module _ {ℓ} {A : Type ℓ} where
  pub get_elem?-set_ne :
      (xs : List A) {i j : ℕ} (v : A) → i ≢ j → get_elem? (set xs i v) j ≡ get_elem? xs j
  get_elem?-set_ne [] v h = refl
  get_elem?-set_ne (x ∷ xs) {i = zero} {j = zero} v h = absurd (h refl)
  get_elem?-set_ne (x ∷ xs) {i = zero} {j = suc j} v h = refl
  get_elem?-set_ne (x ∷ xs) {i = suc i} {j = zero} v h = refl
  get_elem?-set_ne (x ∷ xs) {i = suc i} {j = suc j} v h = get_elem?-set_ne xs v (λ e. h (ap suc e))

  pub length-set : (xs : List A) (i : ℕ) (v : A) → length (set xs i v) ≡ length xs
  length-set [] i v = refl
  length-set (x ∷ xs) zero v = refl
  length-set (x ∷ xs) (suc i) v = ap suc (length-set xs i v)

  -- What is read after a write is what was written there, or what was there before.
  pub get_elem?-set_cases :
      (xs : List A) (i : ℕ) (v : A) (j : ℕ) (w : A)
      → get_elem? (set xs i v) j ≡ some w
      → ((j ≡ i) × (v ≡ w)) ⊎ (get_elem? xs j ≡ some w)
  get_elem?-set_cases [] i v j w h = inr h
  get_elem?-set_cases (x ∷ xs) zero v zero w h = inl (refl, (cc))
  get_elem?-set_cases (x ∷ xs) zero v (suc j) w h = inr h
  get_elem?-set_cases (x ∷ xs) (suc i) v zero w h = inr h
  get_elem?-set_cases (x ∷ xs) (suc i) v (suc j) w h = elim (get_elem?-set_cases xs i v j w h) [
    | inl (e, q) ↦ inl (ap suc e, q)
    | inr was ↦ inr was
  ]

  pub get_elem?-replicate : (n i : ℕ) (v : A) → i < n → get_elem? (replicate n v) i ≡ some v
  get_elem?-replicate zero i v h = elim h [ ]
  get_elem?-replicate (suc n) zero v h = refl
  get_elem?-replicate (suc n) (suc i) v h = get_elem?-replicate n i v (omega arith)

  pub length-replicate : (n : ℕ) (a : A) → length (replicate n a) ≡ n
  length-replicate zero a = refl
  length-replicate (suc n) a = ap suc (length-replicate n a)

  pub length-take_le : (n : ℕ) (xs : List A) → n ≤ length xs → length (take n xs) ≡ n
  length-take_le zero xs h = refl
  length-take_le (suc n) [] h = elim h [ ]
  length-take_le (suc n) (x ∷ xs) h = ap suc (length-take_le n xs (omega arith))

-- Every element satisfies `P`.
abbrev pub All {ℓ κ} : {A : Type ℓ} → (A → Type κ) → List A → Type κ
All P [] = Unit
All P (x ∷ xs) = P x × All P xs

pub All-imp {ℓ κ μ} :
    {A : Type ℓ} {P : A → Type κ} {Q : A → Type μ} (xs : List A)
    → ((x : A) → P x → Q x)
    → All P xs
    → All Q xs
All-imp [] f a = tt
All-imp (x ∷ xs) f a = (f x a.0, All-imp xs f a.1)

pub All-zip {ℓ κ μ} :
    {A : Type ℓ} (P : A → Type κ) (Q : A → Type μ) (xs : List A)
    → All P xs
    → All Q xs
    → All (λ x. P x × Q x) xs
All-zip P Q [] p q = tt
All-zip P Q (x ∷ xs) p q = ((p.0, q.0), All-zip P Q xs p.1 q.1)

-- A text as its code points, a byte string as its bytes.
abbrev pub Text : Type 0
Text = List ℕ

abbrev pub codes : String → Text
codes String.[] = []
codes (String.◌∷◌ c s) = code c ∷ codes s

abbrev pub text_eq : Text → Text → Bool
text_eq [] [] = true
text_eq [] (y ∷ ys) = false
text_eq (x ∷ xs) [] = false
text_eq (x ∷ xs) (y ∷ ys) = (x == y) && text_eq xs ys

pub text_eq_refl : (s : Text) → text_eq s s ≡ true
text_eq_refl [] = refl
text_eq_refl (x ∷ xs) = ground (arith, text_eq_refl xs)

pub text_eq→eq : (s t : Text) → text_eq s t ≡ true → s ≡ t
text_eq→eq [] [] h = refl
text_eq→eq [] (y ∷ ys) h = absurd (ground arith)
text_eq→eq (x ∷ xs) [] h = absurd (ground arith)
text_eq→eq (x ∷ xs) (y ∷ ys) h = ground (arith, text_eq→eq xs ys)

pub text_eq_iff : (s t : Text) → (text_eq s t ≡ true) ↔ (s ≡ t)
text_eq_iff s t = (text_eq→eq s t, λ e. rw e (text_eq_refl t))

abbrev pub member : Text → List Text → Bool
member s [] = false
member s (t ∷ ts) = text_eq s t || member s ts

-- `len(set(xs)) != len(xs)`
abbrev pub has_duplicates : List Text → Bool
has_duplicates [] = false
has_duplicates (t ∷ ts) = member t ts || has_duplicates ts

-- No text stands twice.
abbrev pub IsApart : List Text → Type 0
IsApart [] = Unit {0}
IsApart (t ∷ ts) = All (λ u. u ≢ t) ts × IsApart ts

pub member-All_iff : (t : Text) (ts : List Text) → (member t ts ≡ false) ↔ All (λ u. u ≢ t) ts
member-All_iff t [] = (λ e. tt, λ a. refl)
member-All_iff t (u ∷ ts) =
    let (to, back) = member-All_iff t ts in
    let (same_to, same_back) = text_eq_iff t u in
    (
      λ e. (
        λ same. let found : text_eq t u ≡ true = same_back (sym same) in ground arith,
        to (ground arith),
      ),
      λ (other, rest). elim (Bool-cases (text_eq t u)) [
        | inl same ↦ absurd (other (sym (same_to same)))
        | inr differ ↦ let later = back rest in ground arith
      ],
    )

pub has_duplicates-IsApart_iff : (ts : List Text) → (has_duplicates ts ≡ false) ↔ IsApart ts
has_duplicates-IsApart_iff [] = (λ e. tt, λ a. refl)
has_duplicates-IsApart_iff (t ∷ ts) =
    let (to, back) = has_duplicates-IsApart_iff ts in
    let (first_to, first_back) = member-All_iff t ts in
    (
      λ e. (first_to (ground arith), to (ground arith)),
      λ (first, rest). let one = first_back first in let others = back rest in ground arith,
    )
