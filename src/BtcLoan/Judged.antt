-- ===== src/BtcLoan/Judged.antt =====
-- Proofs on `seize_is_justified` of pignus/btc_collateral.py, the judgment of a seizure by a published
-- attestation.
use pignus.Prelude.{
  ℕ, ◌≤◌, ◌<◌, ◌≡◌, ◌↔◌, ◌⊎◌, true, false, Option, none, some, List, [], ◌∷◌, Text, ok,
  Result-cases, inl, inr, arith,
}
use pignus.Oracle.{Attestation, Signing, verify}
use pignus.BtcLoan.{BtcLoan}
use pignus.BtcLoan.Seize.{any_verifies, bound_of, keys_of, seize_is_justified}

module _ (c : Signing) where
  -- The attestation verifies for some key, and for none before it.
  abbrev pub SomeVerifies : List Text → Attestation → Type 0
  SomeVerifies [] att = ⊥
  SomeVerifies (k ∷ ks) att =
      (verify c k att none ≡ ok true) ⊎ ((verify c k att none ≡ ok false) × SomeVerifies ks att)

  any_verifies_iff :
      (ks : List Text) (att : Attestation) → (any_verifies c ks att ≡ ok true) ↔ SomeVerifies ks att
  unfolding any_verifies
  any_verifies_iff [] att = (λ e. ground arith, λ bad. absurd bad)
  any_verifies_iff (k ∷ ks) att =
      let (to, back) = any_verifies_iff ks att in
      elim (Result-cases (verify c k att none)) [
        | inl (x, bad) ↦ (
          λ e. absurd (ground arith),
          λ v. elim v [ inl good ↦ absurd (ground arith) | inr (b, s) ↦ absurd (ground arith) ],
        )
        | inr (true, good) ↦ (λ e. inl good, λ v. ground arith)
        | inr (false, good) ↦ (
          λ e. inr (good, to (ground arith)),
          λ v. elim v [
            | inl other ↦ absurd (ground arith)
            | inr (b, s) ↦ let found = back s in ground arith
          ],
        )
      ]

  -- The keys that count: those that are given, or the loan's own where none is.
  abbrev pub KeyVerifies : BtcLoan → List Text → Attestation → Type 0
  KeyVerifies loan [] att = SomeVerifies (loan.oracle_x ∷ []) att
  KeyVerifies loan (k ∷ ks) att = SomeVerifies (k ∷ ks) att

  keys_of-Verifies :
      (loan : BtcLoan) (oracle_keys : List Text) (att : Attestation)
      → SomeVerifies (keys_of loan oracle_keys) att ↔ KeyVerifies loan oracle_keys att
  keys_of-Verifies loan [] att = (λ v. v, λ v. v)
  keys_of-Verifies loan (k ∷ ks) att = (λ v. v, λ v. v)

  -- A price is under the strike that counts: the one that is given, or the loan's own.
  abbrev pub IsUnder : BtcLoan → Option ℕ → ℕ → Type 0
  IsUnder loan none price = (1 ≤ loan.strike) × (price < loan.strike)
  IsUnder loan (some strike) price = (1 ≤ strike) × (price < strike)

  bound_of-IsUnder :
      (loan : BtcLoan) (strike : Option ℕ) (price : ℕ)
      → ((1 ≤ bound_of loan strike) × (price < bound_of loan strike)) ↔ IsUnder loan strike price
  bound_of-IsUnder loan none price = (λ v. v, λ v. v)
  bound_of-IsUnder loan (some strike) price = (λ v. v, λ v. v)

  -- What makes a seizure justified.
  pub record IsJustified (loan : BtcLoan) (att : Attestation) (strike : Option ℕ)
      (oracle_keys : List Text) : Type 0 where
    pub signed : KeyVerifies loan oracle_keys att
    pub scaled : att.price_scale ≡ loan.price_scale
    pub under : IsUnder loan strike att.price

  -- A seizure is judged justified exactly when the attestation verifies for one of the keys given, or
  -- for the loan's own key where none is given, the keys before it failing without an error; its scale
  -- is the loan's; and its price is under the strike given, or under the loan's own where none is
  -- given, which is not 0.
  pub seize_is_justified_iff :
      (loan : BtcLoan) (att : Attestation) (strike : Option ℕ) (oracle_keys : List Text)
      → (seize_is_justified c loan att strike oracle_keys ≡ ok true)
        ↔ IsJustified loan att strike oracle_keys
  unfolding seize_is_justified
  seize_is_justified_iff loan att strike oracle_keys =
      let ks = keys_of loan oracle_keys in
      let bound = bound_of loan strike in
      let (to, back) = any_verifies_iff ks att in
      (
        λ e. elim (Result-cases (any_verifies c ks att)) [
          | inl (x, bad) ↦ absurd (ground arith)
          | inr (false, refused) ↦ absurd (ground arith)
          | inr (true, found) ↦ record {
            signed = (keys_of-Verifies loan oracle_keys att).0 (to found);
            scaled = ground arith;
            under = (bound_of-IsUnder loan strike att.price).0 (ground arith, ground arith);
          }
        ],
        λ j.
            let found = back ((keys_of-Verifies loan oracle_keys att).1 j.signed) in
            let (bounded, under) = (bound_of-IsUnder loan strike att.price).1 j.under in
            let scaled = j.scaled in ground arith,
      )
