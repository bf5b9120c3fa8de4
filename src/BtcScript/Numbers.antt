-- ===== src/BtcScript/Numbers.antt =====
-- Proofs on `script_num` of pignus/btcscript.py.
use pignus.Prelude.{
  ◌∙◌, sym, refl, ℕ, zero, suc, ◌+◌, ◌*◌, ◌/◌, ◌%◌, ◌^◌, ◌≤◌, ◌<◌, ◌≡◌, ap, true, false, [], ◌∷◌,
  ◌++◌, Text, length, length-append, ◌==◌, Bool-cases, inl, inr, arith,
}
use pignus.BtcScript.{digits, top_set, script_num}
use pignus.BtcScript.Rules.{number_of, negative}

digits-zero : (fuel n : ℕ) → (n == 0) ≡ true → digits (suc fuel) n ≡ []
unfolding digits
digits-zero fuel n e = ground arith

digits-more :
    (fuel n : ℕ) → (n == 0) ≡ false → digits (suc fuel) n ≡ n % 256 ∷ digits fuel (n / 256)
unfolding digits
digits-more fuel n e = ground arith

number_of-digits : (fuel n : ℕ) → n ≤ fuel → number_of (digits fuel n) ≡ n
unfolding number_of
number_of-digits zero n fits = unfold digits in omega (arith, fits)
number_of-digits (suc fuel) n fits = elim (Bool-cases (n == 0)) [
  | inl none_left ↦ rw (digits-zero fuel n none_left) (ground arith)
  | inr more ↦
      let positive : 1 ≤ n = ground arith in
      rw (digits-more fuel n more)
        (omega (arith, number_of-digits fuel (n / 256) (omega (arith, fits, positive))))
]

number_of-zero_byte : (s : Text) → number_of (s ++ (0 ∷ [])) ≡ number_of s
unfolding number_of
number_of-zero_byte [] = omega arith
number_of-zero_byte (b ∷ s) = ap (λ m. b + 256 * m) (number_of-zero_byte s)

-- The bytes of a script number tell the number.
pub number_of-script_num : (n : ℕ) → number_of (script_num n) ≡ n
unfolding script_num
number_of-script_num n = elim (Bool-cases (n == 0)) [
  | inl zero_number ↦ rw zero_number (unfold number_of in ground arith)
  | inr some_number ↦ elim (Bool-cases (top_set (digits n n))) [
    | inl signed ↦
        rw (some_number, signed, number_of-zero_byte (digits n n))
          (number_of-digits n n (omega arith))
    | inr unsigned ↦ rw (some_number, unsigned) (number_of-digits n n (omega arith))
  ]
]

length-digits : (k fuel n : ℕ) → n < 256 ^ k → length (digits fuel n) ≤ k
length-digits k zero n small = unfold digits in omega arith
length-digits zero (suc fuel) n small =
    let none_left : (n == 0) ≡ true = ground arith in
    rw (digits-zero fuel n none_left) (omega arith)
length-digits (suc k) (suc fuel) n small = elim (Bool-cases (n == 0)) [
  | inl none_left ↦ rw (digits-zero fuel n none_left) (omega arith)
  | inr more ↦
      rw (digits-more fuel n more)
        (omega (arith, length-digits k fuel (n / 256) (omega (arith, small))))
]

-- A number below 2 ^ 32 takes five bytes at most.
pub length-script_num : (n : ℕ) → n < 2 ^ 32 → length (script_num n) ≤ 5
unfolding script_num
length-script_num n small =
    let four = length-digits 4 n n (omega (arith, small)) in
    let longer = length-append (digits n n) (0 ∷ []) in
    elim (Bool-cases (n == 0)) [
      | inl zero_number ↦ rw zero_number (omega arith)
      | inr some_number ↦ elim (Bool-cases (top_set (digits n n))) [
        | inl signed ↦ rw (some_number, signed) (omega (arith, four, longer))
        | inr unsigned ↦ rw (some_number, unsigned) (omega (arith, four))
      ]
    ]

digits-none : (n : ℕ) → digits zero n ≡ []
unfolding digits
digits-none n = refl

digits-fuel : (f g n : ℕ) → n ≤ f → n ≤ g → digits f n ≡ digits g n
digits-fuel zero zero n low high = refl
digits-fuel zero (suc g) n low high =
    let none_left : (n == 0) ≡ true = ground arith in
    digits-none n ∙ sym (digits-zero g n none_left)
digits-fuel (suc f) zero n low high =
    let none_left : (n == 0) ≡ true = ground arith in
    digits-zero f n none_left ∙ sym (digits-none n)
digits-fuel (suc f) (suc g) n low high = elim (Bool-cases (n == 0)) [
  | inl none_left ↦ digits-zero f n none_left ∙ sym (digits-zero g n none_left)
  | inr more ↦
      let positive : 1 ≤ n = ground arith in
      let rest =
        digits-fuel f g (n / 256) (omega (arith, low, positive)) (omega (arith, high, positive)) in
      digits-more f n more ∙ ap (λ s. n % 256 ∷ s) rest ∙ sym (digits-more g n more)
]

negative-top_set : (s : Text) → negative s ≡ top_set s
unfolding negative top_set
negative-top_set [] = refl
negative-top_set (b ∷ []) = refl
negative-top_set (b ∷ c ∷ s) = negative-top_set (c ∷ s)

negative-zero_byte : (s : Text) → negative (s ++ (0 ∷ [])) ≡ false
unfolding negative
negative-zero_byte [] = refl
negative-zero_byte (b ∷ []) = refl
negative-zero_byte (b ∷ c ∷ s) = negative-zero_byte (c ∷ s)

-- A script number is not negative.
pub negative-script_num : (n : ℕ) → negative (script_num n) ≡ false
unfolding script_num
negative-script_num n = elim (Bool-cases (n == 0)) [
  | inl zero_number ↦ rw zero_number (unfold negative in refl)
  | inr some_number ↦ elim (Bool-cases (top_set (digits n n))) [
    | inl signed ↦ rw (some_number, signed) (negative-zero_byte (digits n n))
    | inr unsigned ↦ rw (some_number, unsigned) (negative-top_set (digits n n) ∙ unsigned)
  ]
]

-- The loop of `script_num` ends within as many rounds as the number, since more rounds give the same
-- bytes; and the bytes, read as Bitcoin reads them, with a sign in the last, tell the number: the sign is
-- not set, and the lowest first they add up to it.
pub script_num_ends :
    (fuel n : ℕ)
    → n ≤ fuel
    → (digits fuel n ≡ digits n n)
      × (negative (script_num n) ≡ false)
      × (number_of (script_num n) ≡ n)
script_num_ends fuel n enough =
    (digits-fuel fuel n n enough (omega arith), negative-script_num n, number_of-script_num n)
