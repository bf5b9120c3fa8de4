-- ===== src/Vault2/Lower.antt =====
-- Proofs on the lower case that `V2Terms.__post_init__` of pignus/vault2.py keeps.
use pignus.Prelude.{
  ℕ, ◌<◌, ◌≡◌, refl, ap, List, [], ◌∷◌, ◌++◌, map, Text, length, is_empty, ◌==◌, All, if◌then◌else◌,
  ok, Result-cases, Bool-cases, Option-cases, inl, inr, arith, ◌∙◌,
}
use mathlib.Core.Path.{subst}
use pignus.Prelude.Hex.{lower, from_hex, to_hex, lower-lower, lower-to_hex}
use pignus.Vault2.Terms.{V2Terms}
use pignus.Vault2.Formed.{take_set-IsTaken}
use pignus.Vault2.Created.{no_script-IsKept}
use pignus.Vault2.Create.{
  lowered, padded, with_set, with_borrower, take_set, take_single, script_hash, take_borrower,
  no_oracle, no_beacon_asset,
}

-- The texts are in lower case already.
unfoldable pub IsLower : V2Terms → Type 0
IsLower t = lowered t ≡ t

map-lower_again : (ss : List Text) → map lower (map lower ss) ≡ map lower ss
map-lower_again [] = refl
map-lower_again (s ∷ ss) = ground (arith, lower-lower s, map-lower_again ss)

pub lowered-IsLower : (t : V2Terms) → IsLower (lowered t)
unfolding IsLower lowered
lowered-IsLower t =
    rw
      (
        lower-lower t.collateral_asset,
        lower-lower t.debt_asset,
        lower-lower t.oracle_x,
        lower-lower t.beacon_asset,
        lower-lower t.lender_spk,
        lower-lower t.borrower_spk,
        lower-lower t.borrower_hash,
        map-lower_again t.oracles,
        map-lower_again t.beacon_assets,
      )
      refl

with_set-IsLower :
    (t : V2Terms) (os bs : List Text)
    → IsLower t
    → map lower os ≡ os
    → map lower bs ≡ bs
    → IsLower (with_set t os bs)
unfolding IsLower lowered
with_set-IsLower t os bs low h k =
    ap (λ (u : V2Terms). with_set u (map lower os) (map lower bs)) low ∙ rw (h, k) refl

with_borrower-IsLower :
    (t : V2Terms) (h : Text) → IsLower t → lower h ≡ h → IsLower (with_borrower t h)
unfolding IsLower lowered
with_borrower-IsLower t h low e = ap (λ (u : V2Terms). with_borrower u (lower h)) low ∙ rw e refl

map-lower_append :
    (ss : List Text) (s : Text)
    → map lower ss ≡ ss
    → lower s ≡ s
    → map lower (ss ++ s ∷ []) ≡ ss ++ s ∷ []
map-lower_append [] s h e = ap (λ (r : Text). r ∷ []) e
map-lower_append (r ∷ ss) s h e = ground (arith, map-lower_append ss s, e)

lower-no_oracle : lower no_oracle ≡ no_oracle
unfolding lower
lower-no_oracle = refl

lower-no_beacon_asset : lower no_beacon_asset ≡ no_beacon_asset
unfolding lower
lower-no_beacon_asset = refl

padded-IsLower : (t : V2Terms) → IsLower t → IsLower (padded t)
unfolding IsLower lowered padded
padded-IsLower t low =
    let os : map lower t.oracles ≡ t.oracles = ap (λ (u : V2Terms). u.oracles) low in
    let bs : map lower t.beacon_assets ≡ t.beacon_assets =
      ap (λ (u : V2Terms). u.beacon_assets) low in
    let longer =
      with_set-IsLower t (t.oracles ++ no_oracle ∷ []) (t.beacon_assets ++ no_beacon_asset ∷ []) low
        (map-lower_append t.oracles no_oracle os lower-no_oracle)
        (map-lower_append t.beacon_assets no_beacon_asset bs lower-no_beacon_asset) in
    elim (Bool-cases (length t.oracles == 2)) [ inl two ↦ rw two longer | inr other ↦ rw other low ]

pub take_form-IsLower :
    (t : V2Terms) {v : V2Terms}
    → (if is_empty t.oracles then take_single t else take_set t) ≡ ok v
    → IsLower t
    → IsLower v
unfolding take_single
take_form-IsLower t {v} e low = elim (Bool-cases (is_empty t.oracles)) [
  | inl one ↦ subst IsLower (let q : t ≡ v = ground arith in q) low
  | inr set ↦ subst IsLower (take_set-IsTaken t (ground arith)).taken (padded-IsLower t low)
]

script_hash-IsLower :
    (sha256 : Text → Text)
    → ((bytes : Text) → All (λ (b : ℕ). b < 256) (sha256 bytes))
    → (spk : Text) {h : Text} → script_hash sha256 spk ≡ ok h
    → lower h ≡ h
unfolding script_hash
script_hash-IsLower sha256 small spk {h} e = elim (Option-cases (from_hex spk)) [
  | inl bad ↦ absurd (ground arith)
  | inr (bytes, found) ↦
      subst (λ (r : Text). lower r ≡ r) (let q : to_hex (sha256 bytes) ≡ h = ground arith in q)
        (lower-to_hex (sha256 bytes) (small bytes))
]

pub take_borrower-IsLower :
    (sha256 : Text → Text)
    → ((bytes : Text) → All (λ (b : ℕ). b < 256) (sha256 bytes))
    → (t : V2Terms) {u : V2Terms} → take_borrower sha256 t ≡ ok u
    → IsLower t
    → IsLower u
unfolding take_borrower
take_borrower-IsLower sha256 small t {u} e low = elim (Bool-cases (is_empty t.borrower_spk)) [
  | inr there ↦ elim (Result-cases (script_hash sha256 t.borrower_spk)) [
    | inl (x, bad) ↦ absurd (ground arith)
    | inr (h, hashed) ↦
        subst IsLower (let q : with_borrower t h ≡ u = ground arith in q)
          (with_borrower-IsLower t h low (script_hash-IsLower sha256 small t.borrower_spk hashed))
  ]
  | inl missing ↦ subst IsLower (no_script-IsKept sha256 t missing e).0 low
]
