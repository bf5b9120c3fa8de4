-- ===== src/Watcher2/Named.antt =====
-- Proofs on the borrower's hash that `borrower_from_take` of pignus/watcher2.py reads, and on the terms
-- that `V2Terms.with_borrower` of pignus/vault2.py builds with it.
use pignus.Prelude.{
  ℕ, zero, suc, ◌+◌, ◌*◌, ◌<◌, ◌≤◌, ◌≡◌, refl, ap, Bool, true, false, some, List, [], ◌∷◌, ◌++◌,
  Text, take, length, All, ◌==◌, Bool-cases, inl, inr, ok, arith, ◌∙◌,
}
use mathlib.Core.Path.{subst}
use pignus.Prelude.Hex.{to_hex, lower, lower-to_hex, from_hex-to_hex}
use pignus.Vault2.Terms.{V2Terms}
use pignus.Vault2.Create.{lowered, check_hex, post_init}
use pignus.Vault2.Formed.{Is32Bytes, IsFormed, single, several}
use pignus.Vault2.Lower.{IsLower}
use pignus.Vault2.Created.{IsCreated, post_init-IsCreated}
use pignus.Vault2.Again.{IsCreated-post_init, post_init-IsLower}
use pignus.Watcher2.Take.{drop_bits, number_of_bits, bytes_of_bits, hash_at}

-- `m` doubled `k` times.
scale : ℕ → ℕ → ℕ
scale zero m = m
scale (suc k) m = scale k (2 * m)

scale-le : (k m : ℕ) → m ≤ scale k m
unfolding scale
scale-le zero m = omega arith
scale-le (suc k) m = omega (arith, scale-le k (2 * m))

number_of_bits-lt :
    (k n m : ℕ) (bits : List Bool) → n < m → number_of_bits n (take k bits) < scale k m
unfolding number_of_bits scale
number_of_bits-lt zero n m bits h = h
number_of_bits-lt (suc k) n m [] h = omega (arith, scale-le k (2 * m))
number_of_bits-lt (suc k) n m (true ∷ bits) h =
    number_of_bits-lt k (2 * n + 1) (2 * m) bits (omega arith)
number_of_bits-lt (suc k) n m (false ∷ bits) h =
    number_of_bits-lt k (2 * n + 0) (2 * m) bits (omega arith)

scale_byte : scale 8 1 ≡ 256
unfolding scale
scale_byte = refl

bytes_of_bits-All : (n : ℕ) (bits : List Bool) → All (λ (b : ℕ). b < 256) (bytes_of_bits n bits)
unfolding bytes_of_bits
bytes_of_bits-All zero bits = tt
bytes_of_bits-All (suc n) bits = (
  subst (λ m. number_of_bits 0 (take 8 bits) < m) scale_byte
      (number_of_bits-lt 8 0 1 bits (omega arith)),
  bytes_of_bits-All n (drop_bits 8 bits),
)

length-bytes_of_bits : (n : ℕ) (bits : List Bool) → length (bytes_of_bits n bits) ≡ n
unfolding bytes_of_bits
length-bytes_of_bits zero bits = refl
length-bytes_of_bits (suc n) bits = ap suc (length-bytes_of_bits n (drop_bits 8 bits))

-- A hash in hex, in lower case.
pub record IsHash (h : Text) : Type 0 where
  pub low : lower h ≡ h
  pub bytes_32 : Is32Bytes h

pub hash_at-IsHash :
    (start : ℕ) (bits : List Bool) {h : Text} → hash_at start bits ≡ some h → IsHash h
unfolding hash_at
hash_at-IsHash start bits {h} e =
    let cand = take 256 (drop_bits start bits) in
    let bytes = bytes_of_bits 32 cand in
    let small = bytes_of_bits-All 32 cand in
    elim (Bool-cases (length cand == 256)) [
      | inl full ↦ subst IsHash (let q : to_hex bytes ≡ h = ground arith in q) record {
        low = lower-to_hex bytes small;
        bytes_32 = record {
          bytes = bytes;
          decodes = from_hex-to_hex bytes small;
          thirty_two = length-bytes_of_bits 32 cand;
        };
      }
      | inr short ↦ absurd (ground arith)
    ]

-- The terms of an offer: as the constructor leaves them, with no borrower's script.
pub record IsOffered (sha256 : Text → Text) (t : V2Terms) : Type 0 where
  pub low : IsLower t
  pub created : IsCreated sha256 t
  pub no_borrower : t.borrower_spk ≡ []

-- Terms that the constructor left without a borrower's script are those of an offer.
pub post_init-IsOffered :
    (sha256 : Text → Text)
    → ((bytes : Text) → All (λ (b : ℕ). b < 256) (sha256 bytes))
    → (t : V2Terms) {u : V2Terms} → post_init sha256 t ≡ ok u
    → u.borrower_spk ≡ []
    → IsOffered sha256 u
post_init-IsOffered sha256 small t e missing = record {
  low = post_init-IsLower sha256 small t e;
  created = post_init-IsCreated sha256 t e;
  no_borrower = missing;
}

-- The terms of a loan that a take opened.
abbrev pub taken_terms : V2Terms → Text → V2Terms
taken_terms t h = record t { borrower_spk = []; borrower_hash = h }

IsFormed-taken : (t : V2Terms) (h : Text) → IsFormed t → IsFormed (taken_terms t h)
IsFormed-taken t h (single a b c d e) = single a b c d e
IsFormed-taken t h (several a b c d e f g i j) = several a b c d e f g i j

taken-IsLower : (t : V2Terms) (h : Text) → IsLower t → lower h ≡ h → IsLower (taken_terms t h)
unfolding IsLower lowered lower
taken-IsLower t h low e = ap (λ (u : V2Terms). taken_terms u (lower h)) low ∙ ap (taken_terms t) e

-- The constructor takes the terms of an offer with a borrower's hash as they are.
pub taken-post_init :
    (sha256 : Text → Text) (t : V2Terms) (h : Text)
    → IsOffered sha256 t
    → IsHash h
    → post_init sha256 (taken_terms t h) ≡ ok (taken_terms t h)
taken-post_init sha256 t h offered hash =
    let was = offered.created in
    IsCreated-post_init sha256 (taken_terms t h) (taken-IsLower t h offered.low hash.low) record {
      formed = IsFormed-taken t h was.formed;
      apart = was.apart;
      named = was.named;
      collateral_named = was.collateral_named;
      debt_named = was.debt_named;
      lender_paid = was.lender_paid;
      scripts_decode =
          subst (λ (spk : Text). check_hex (t.lender_spk ++ spk) ≡ ok tt) offered.no_borrower
            was.scripts_decode;
      borrower_hashed = λ given. absurd (given refl);
      borrower_hash_formed = λ missing. inr hash.bytes_32;
    }
