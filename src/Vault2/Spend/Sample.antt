-- ===== src/Vault2/Spend/Sample.antt =====
-- A sample world for spends of a vault of pignus/vault2.py, whose vault scripts write the state in
-- unary.
use pignus.Prelude.{
  ℕ, zero, suc, ◌≡◌, ◌≢◌, refl, ap, true, some, [], ◌∷◌, Text, codes, arith, Option-cases, inl, inr,
}
use pignus.Prelude.Hex.{from_hex, to_hex}
use pignus.Vault2.Terms.{V2Terms, State}
use pignus.Vault2.Tests.{terms}
use pignus.Vault2.Spend.{World, spelled}
use pignus.Vault2.Spend.Reads.{IsSpelled}
use pignus.Vault2.Spend.Held.{IsFollowable}

-- `n` bytes of one digit written twice.
unfoldable pub mark : ℕ → ℕ → Text → Text
mark c zero s = s
mark c (suc n) s = c ∷ c ∷ mark c n s

unfoldable pub script_of : State → Text
unfolding mark
script_of (debt, last) = mark b'a' debt (b'b' ∷ b'b' ∷ mark b'c' last [])

mark-IsSpelled :
    (c n : ℕ) (s : Text)
    → ((r : Text) → IsSpelled r → IsSpelled (c ∷ c ∷ r))
    → IsSpelled s
    → IsSpelled (mark c n s)
unfolding mark
mark-IsSpelled c zero s more e = e
mark-IsSpelled c (suc n) s more e = more (mark c n s) (mark-IsSpelled c n s more e)

doubled_a : (r : Text) → IsSpelled r → IsSpelled (b'a' ∷ b'a' ∷ r)
unfolding spelled from_hex to_hex
doubled_a r e = elim (Option-cases (from_hex r)) [
  | inl bad ↦ absurd (ground arith)
  | inr (bytes, found) ↦ ground arith
]

doubled_c : (r : Text) → IsSpelled r → IsSpelled (b'c' ∷ b'c' ∷ r)
unfolding spelled from_hex to_hex
doubled_c r e = elim (Option-cases (from_hex r)) [
  | inl bad ↦ absurd (ground arith)
  | inr (bytes, found) ↦ ground arith
]

doubled_b : (r : Text) → IsSpelled r → IsSpelled (b'b' ∷ b'b' ∷ r)
unfolding spelled from_hex to_hex
doubled_b r e = elim (Option-cases (from_hex r)) [
  | inl bad ↦ absurd (ground arith)
  | inr (bytes, found) ↦ ground arith
]

nil-IsSpelled : IsSpelled []
unfolding spelled from_hex to_hex
nil-IsSpelled = refl

mark-injective : (m n k l : ℕ) → script_of (m, k) ≡ script_of (n, l) → (m ≡ n) × (k ≡ l)
unfolding script_of mark
mark-injective zero zero zero zero e = (refl, refl)
mark-injective zero zero zero (suc l) e = absurd (ground arith)
mark-injective zero zero (suc k) zero e = absurd (ground arith)
mark-injective zero zero (suc k) (suc l) e =
    let (p, q) = mark-injective zero zero k l (ground arith) in (refl, ap suc q)
mark-injective zero (suc n) k l e = absurd (ground arith)
mark-injective (suc m) zero k l e = absurd (ground arith)
mark-injective (suc m) (suc n) k l e =
    let (p, q) = mark-injective m n k l (ground arith) in (ap suc p, q)

script_of-IsSpelled : (s : State) → IsSpelled (script_of s)
unfolding script_of
script_of-IsSpelled (debt, last) =
    mark-IsSpelled b'a' debt (b'b' ∷ b'b' ∷ mark b'c' last []) doubled_a
      (doubled_b (mark b'c' last []) (mark-IsSpelled b'c' last [] doubled_c nil-IsSpelled))

abbrev pub script_of_terms : V2Terms → State → Text
script_of_terms t s = script_of s

abbrev pub world : World
world = record {
  median_time = 2_000_000_000;
  rate = λ asset. 100_000_000;
  wallet =
      λ asset n. some (record { txid = 2; vout = 0; amount = n; asset = asset; spk = [] } ∷ []);
  vault_spk = script_of_terms;
  sha256 = λ s. s;
  runs_vault = λ t s path tx. true;
  runs_offer = λ offer path tx. true;
}

abbrev pub lent : V2Terms
lent = record terms { borrower_spk = codes "0015" }

not_a_script : (s : State) (r : Text) → b'0' ∷ b'0' ∷ r ≢ script_of s
unfolding script_of mark
not_a_script (zero, last) r e = absurd (ground arith)
not_a_script (suc debt, last) r e = absurd (ground arith)

pub lent-IsFollowable : IsFollowable world lent
unfolding spelled from_hex to_hex
lent-IsFollowable = record {
  lender = refl;
  borrower = refl;
  collateral = refl;
  debt = refl;
  derived = script_of-IsSpelled;
  told_apart = λ (m, k) (n, l) e. let (p, q) = mark-injective m n k l e in cc;
  borrower_apart = λ s. not_a_script s _;
  lender_apart = λ s. not_a_script s _;
  assets_differ = λ e. ground arith;
}
