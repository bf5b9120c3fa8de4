-- ===== src/Vault/Evidence.antt =====
-- `VaultSpender._oracle_evidence`: what an oracle-gated exit accepts as its price.
use pignus.Prelude.{
  ℕ, Bool, false, not, Option, none, some, List, [], ◌∷◌, Text, ltb, is_empty, Result, ok, err,
  ◌>>=◌, ◌>>◌, raise_if,
}
use pignus.Terms.{LoanTerms, is_liquidatable}
use pignus.Oracle.{
  Attestation, Signing, OracleError, SlotList, verify, select_threshold, liquidatable_slots,
}
use pignus.Vault.Spender

pub data Leaf : Type 0 where
  liquidate default : Leaf

-- One Attestation, or a mapping from oracle keys to Attestations.
pub data Evidence : Type 0 where
  one : Attestation → Evidence
  mapping : List (Text × Attestation) → Evidence

-- What the witness presents.
pub data Shown : Type 0 where
  attestation : Attestation → Shown
  slots : SlotList → Shown

-- A ValueError of pignus/oracle.py passes through.
abbrev pub raised : {A : Type 0} → Result OracleError A → Result Spender.VaultError A
raised (ok a) = ok a
raised (err e) = err Spender.bad_hex

unfoldable pub all_usable :
    Signing → Spender.Spender → List (Text × Attestation) → Result Spender.VaultError (Unit {0})
all_usable c s [] = ok tt
all_usable c s ((k, a) ∷ m) = Spender.usable_attestation c s a >> all_usable c s m

abbrev pub reached :
    Spender.VaultError → Option (SlotList × ℕ) → Result Spender.VaultError (ℕ × Shown)
reached e none = err e
reached e (some (given, price)) = ok (price, slots given)

unfoldable pub mapping_evidence :
    Signing
    → Spender.Spender
    → List (Text × Attestation)
    → Leaf
    → Result Spender.VaultError (ℕ × Shown)
mapping_evidence c s m liquidate =
    raised (liquidatable_slots c s.terms m) >>= reached Spender.not_liquidatable
mapping_evidence c s m default =
    raised (select_threshold c s.terms m) >>= reached Spender.threshold_not_met

-- `leaf == "liquidate" and not t.is_liquidatable(att.price)`
unfoldable pub blocked : LoanTerms → Leaf → ℕ → Bool
unfolding is_liquidatable
blocked t liquidate price = not (is_liquidatable t price)
blocked t default price = false

unfoldable pub oracle_evidence :
    Signing → Spender.Spender → Evidence → Leaf → Result Spender.VaultError (ℕ × Shown)
unfolding all_usable mapping_evidence blocked
oracle_evidence c s (mapping m) leaf = do
  all_usable c s m
  raise_if (is_empty s.terms.oracles) Spender.one_attestation_wanted
  mapping_evidence c s m leaf
oracle_evidence c s (one att) leaf = do
  Spender.usable_attestation c s att
  raise_if (not (is_empty s.terms.oracles)) Spender.mapping_wanted
  good ← raised (verify c s.terms.oracle_x att none)
  raise_if (not good) Spender.not_verified
  raise_if (ltb att.timestamp s.terms.not_before) Spender.before_not_before
  raise_if (blocked s.terms leaf att.price) Spender.not_liquidatable
  ok (att.price, attestation att)
