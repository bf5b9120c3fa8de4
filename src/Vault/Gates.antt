-- ===== src/Vault/Gates.antt =====
-- What an oracle-gated exit stands on: the evidence behind a composed liquidation or default.
use pignus.Prelude.{
  ℕ, ◌≤◌, ◌<◌, ◌≡◌, true, none, some, List, [], Text, is_empty, empty_of_is_empty, get_elem?, ok,
  sym, arith, Result-cases, Bool-cases, inl, inr,
}
use mathlib.Core.Path.{subst, subst₂}
use pignus.Terms.{LoanTerms, threshold, oracle_keys, is_liquidatable}
use pignus.Terms.Economics.{seizure_at-eq-ok}
use pignus.Oracle.{Attestation, Signing, verify, liquidatable_slots, select_threshold}
use pignus.Oracle.Slots.{count_given, dearest}
use pignus.Oracle.Signed.{IsSigned, IsFit, verify-IsSigned}
use pignus.Oracle.Sound.{liquidatable_slots_sound, select_threshold_sound}
use pignus.Tx.{Tx}
use pignus.Vault.Spender.{Spender, check_feed, usable_attestation}
use pignus.Vault.Evidence.{
  Evidence, one, mapping, Leaf, liquidate, default, Shown, attestation, slots, all_usable,
  mapping_evidence, oracle_evidence,
}
use pignus.Vault.Exits
use pignus.Vault.Steps.{seizure-eq-ok}

-- One attestation that the loan's oracle signed, or as many slots as the threshold, each with an
-- attestation that its own key signed; all at the loan's scale and not before `not_before`.
abbrev pub IsBacked : Signing → LoanTerms → Shown → Type 0
IsBacked c t (attestation a) =
    (t.oracles ≡ [])
    × IsSigned c t.oracle_x a
    × (t.not_before ≤ a.timestamp)
    × (a.price_scale ≡ t.price_scale)
IsBacked c t (slots given) =
    (count_given given ≡ threshold t)
    × ((i : ℕ) (a : Attestation)
        → get_elem? given i ≡ some (some a)
        → (k : Text) × (get_elem? (oracle_keys t) i ≡ some k) × IsFit c t k a)

-- The checks that one attestation passed.
one-eq-ok :
    (c : Signing) (s : Spender) (att : Attestation) (leaf : Leaf) {price : ℕ} {shown : Shown}
    → oracle_evidence c s (one att) leaf ≡ ok (price, shown)
    → (attestation att ≡ shown)
      × (is_empty s.terms.oracles ≡ true)
      × IsSigned c s.terms.oracle_x att
      × (att.price ≡ price)
      × (s.terms.not_before ≤ att.timestamp)
      × (att.price_scale ≡ s.terms.price_scale)
      × (leaf ≡ liquidate → price < s.terms.strike)
unfolding oracle_evidence usable_attestation is_liquidatable
one-eq-ok c s att leaf {price} {shown} e = elim (Result-cases (check_feed c s.terms att.feed_id)) [
  | inl (x, bad) ↦ absurd (ground arith)
  | inr (u, fed) ↦ elim (Result-cases (verify c s.terms.oracle_x att none)) [
    | inl (x, bad) ↦ absurd (ground arith)
    | inr (good, verified) ↦ elim (Bool-cases good) [
      | inr refused ↦ absurd (ground arith)
      | inl signed ↦ (
        ground arith,
        ground arith,
        verify-IsSigned c s.terms.oracle_x att none (rw signed at verified),
        ground arith,
        ground arith,
        ground arith,
        λ l. ground arith,
      )
    ]
  ]
]

-- The price of what is shown: that of the one attestation, or the highest of the given slots.
abbrev pub price_of : Shown → ℕ
price_of (attestation a) = a.price
price_of (slots given) = dearest given

-- What backs the price of an exit, and its bound where the exit is a liquidation.
abbrev pub IsGated : Signing → LoanTerms → Leaf → ℕ → Shown → Type 0
IsGated c t leaf price shown =
    IsBacked c t shown × (price ≡ price_of shown) × (leaf ≡ liquidate → price < t.strike)

one-IsGated :
    (c : Signing) (s : Spender) (att : Attestation) (leaf : Leaf) {price : ℕ} {shown : Shown}
    → oracle_evidence c s (one att) leaf ≡ ok (price, shown)
    → IsGated c s.terms leaf price shown
one-IsGated c s att leaf {price} {shown} e =
    let (same, alone, signed, its, fresh, scaled, under) = one-eq-ok c s att leaf e in
    subst (IsGated c s.terms leaf price) same
      ((empty_of_is_empty s.terms.oracles alone, signed, fresh, scaled), sym its, under)

mapping-IsGated :
    (c : Signing) (s : Spender) (m : List (Text × Attestation)) (leaf : Leaf) {price : ℕ}
    {shown : Shown}
    → mapping_evidence c s m leaf ≡ ok (price, shown)
    → IsGated c s.terms leaf price shown
unfolding mapping_evidence
mapping-IsGated c s m liquidate {price} {shown} e =
    elim (Result-cases (liquidatable_slots c s.terms m)) [
      | inl (x, bad) ↦ absurd (ground arith)
      | inr (none, found) ↦ absurd (ground arith)
      | inr (some (given, p), found) ↦
          let (under, count, its, each) = liquidatable_slots_sound c s.terms m found in
          subst₂ (IsGated c s.terms liquidate) (let q : p ≡ price = ground arith in q)
            (let q : slots given ≡ shown = ground arith in q)
            ((count, λ i a h. (each i a h).1), its, λ l. under)
    ]
mapping-IsGated c s m default {price} {shown} e =
    elim (Result-cases (select_threshold c s.terms m)) [
      | inl (x, bad) ↦ absurd (ground arith)
      | inr (none, found) ↦ absurd (ground arith)
      | inr (some (given, p), found) ↦
          let (_, count, its, each) = select_threshold_sound c s.terms m found in
          subst₂ (IsGated c s.terms default) (let q : p ≡ price = ground arith in q)
            (let q : slots given ≡ shown = ground arith in q)
            (
              (count, λ i a h. let ((k, at, _, usable), _) = each i a h in (k, at, usable)),
              its,
              λ l. absurd (cc l),
            )
    ]

pub oracle_evidence-IsGated :
    (c : Signing) (s : Spender) (evidence : Evidence) (leaf : Leaf) {price : ℕ} {shown : Shown}
    → oracle_evidence c s evidence leaf ≡ ok (price, shown)
    → IsGated c s.terms leaf price shown
unfolding oracle_evidence
oracle_evidence-IsGated c s (one att) leaf e = one-IsGated c s att leaf e
oracle_evidence-IsGated c s (mapping m) leaf e = elim (Result-cases (all_usable c s m)) [
  | inl (x, bad) ↦ absurd (ground arith)
  | inr (u, usable) ↦ elim (Bool-cases (is_empty s.terms.oracles)) [
    | inl none_named ↦ absurd (ground arith)
    | inr several ↦ mapping-IsGated c s m leaf (ground arith)
  ]
]

-- Whenever a seizure is composed, its price is at least 1 and is that of what it shows: of one
-- attestation that the loan's only oracle signed, or the highest of exactly `threshold` slots whose
-- attestations their own keys signed, all at the loan's scale and not older than `not_before`;
-- through the liquidation leaf the price is strictly under the strike.
pub seizure_gated :
    (c : Signing) (s : Spender) (r : Exits.Request) (evidence : Evidence) (taker : Text)
    (leaf : Leaf) (locktime : ℕ) {tx : Tx}
    → Exits.seizure c s r evidence taker leaf locktime ≡ ok tx
    → (price : ℕ) × (shown : Shown) × (oracle_evidence c s evidence leaf ≡ ok (price, shown))
      × (1 ≤ price)
      × (price ≡ price_of shown)
      × IsBacked c s.terms shown
      × (leaf ≡ liquidate → price < s.terms.strike)
seizure_gated c s r evidence taker leaf locktime e =
    let p = seizure-eq-ok c s r evidence taker leaf locktime e in
    let (backed, its, under) = oracle_evidence-IsGated c s evidence leaf p.attested in
    (
      p.price,
      p.shown,
      p.attested,
      (seizure_at-eq-ok s.terms p.price p.seizes).0,
      its,
      backed,
      under,
    )
