-- ===== src/Vault2/Again.antt =====
-- Proofs on building terms again from the fields that `V2Terms.__post_init__` left, as reading them
-- back from JSON does.
use pignus.Prelude.{
  ℕ, ◌<◌, ◌≡◌, refl, List, [], ◌∷◌, ◌++◌, Text, text_eq_refl, is_empty, All, if◌then◌else◌, ok,
  Result-cases, Bool-cases, inl, inr, arith,
}
use mathlib.Core.Path.{subst}
use pignus.Vault2.Terms.{V2Terms}
use pignus.Vault2.Lower.{IsLower, lowered-IsLower, take_form-IsLower, take_borrower-IsLower}
use pignus.Vault2.Formed.{Is32Bytes, IsFormed, single, several}
use pignus.Vault2.Created.{IsCreated, post_init-IsCreated}
use pignus.Vault2.Create.{
  V2Error, lowered, padded, check_32_bytes, check_all_32_bytes, take_set, take_single, asset_fields,
  take_borrower, check_hex, post_init,
}

check_32_bytes-eq-ok :
    (problem : V2Error) (s : Text) → Is32Bytes s → check_32_bytes problem s ≡ ok tt
unfolding check_32_bytes
check_32_bytes-eq-ok problem s h = let found = h.decodes in let count = h.thirty_two in ground arith

check_all_32_bytes-eq-ok :
    (problem : V2Error) (ss : List Text) → All Is32Bytes ss → check_all_32_bytes problem ss ≡ ok tt
unfolding check_all_32_bytes
check_all_32_bytes-eq-ok problem [] h = refl
check_all_32_bytes-eq-ok problem (s ∷ ss) (h, hs) =
    ground (arith, check_32_bytes-eq-ok problem s h, check_all_32_bytes-eq-ok problem ss hs)

All-join : (ss rs : List Text) → All Is32Bytes ss → All Is32Bytes rs → All Is32Bytes (ss ++ rs)
All-join [] rs h k = k
All-join (s ∷ ss) rs (h, hs) k = (h, All-join ss rs hs k)

-- The first step takes terms in either form as they are.
take_form-eq-ok :
    (t : V2Terms) → IsFormed t → (if is_empty t.oracles then take_single t else take_set t) ≡ ok t
unfolding take_single take_set padded
take_form-eq-ok t (single none_set no_assets zero x b) = ground arith
take_form-eq-ok t (several nx nb three assets distinct one enough keys beacons) =
    let checked =
      check_all_32_bytes-eq-ok V2Error.not_32_bytes (t.oracles ++ t.beacon_assets)
        (All-join t.oracles t.beacon_assets keys beacons) in
    ground arith

asset_fields-join :
    (t : V2Terms)
    → IsFormed t
    → Is32Bytes t.collateral_asset
    → Is32Bytes t.debt_asset
    → All Is32Bytes (asset_fields t)
unfolding asset_fields
asset_fields-join t (single none_set no_assets zero x b) c d =
    let eq : t.collateral_asset ∷ t.debt_asset ∷ t.oracle_x ∷ t.beacon_asset ∷ [] ≡ asset_fields t =
      ground arith in
    subst (All Is32Bytes) eq (c, (d, (x, (b, tt))))
asset_fields-join t (several nx nb three assets distinct one enough keys beacons) c d =
    let eq : t.collateral_asset ∷ t.debt_asset ∷ [] ≡ asset_fields t = ground arith in
    subst (All Is32Bytes) eq (c, (d, tt))

-- The fields that are 32 bytes pass.
asset_fields-eq-ok :
    (t : V2Terms)
    → IsFormed t
    → Is32Bytes t.collateral_asset
    → Is32Bytes t.debt_asset
    → check_all_32_bytes V2Error.not_32_bytes (asset_fields t) ≡ ok tt
asset_fields-eq-ok t form c d =
    check_all_32_bytes-eq-ok V2Error.not_32_bytes (asset_fields t) (asset_fields-join t form c d)

-- The borrower's step leaves terms whose hash is the script's.
take_borrower-eq-ok :
    (sha256 : Text → Text) (t : V2Terms) → IsCreated sha256 t → take_borrower sha256 t ≡ ok t
unfolding take_borrower
take_borrower-eq-ok sha256 t w = elim (Bool-cases (is_empty t.borrower_spk)) [
  | inr there ↦
      let hashed = w.borrower_hashed (ground arith) in ground (arith, text_eq_refl t.borrower_hash)
  | inl missing ↦ elim (w.borrower_hash_formed (ground arith)) [
    | inl unnamed ↦ ground arith
    | inr hash ↦
        let good = check_32_bytes-eq-ok V2Error.not_32_bytes t.borrower_hash hash in ground arith
  ]
]

-- Terms as the constructor leaves them, in lower case, pass it unchanged.
pub IsCreated-post_init :
    (sha256 : Text → Text) (t : V2Terms)
    → IsLower t
    → IsCreated sha256 t
    → post_init sha256 t ≡ ok t
unfolding post_init IsLower
IsCreated-post_init sha256 t low w =
    let form = take_form-eq-ok t w.formed in
    let fields = asset_fields-eq-ok t w.formed w.collateral_named w.debt_named in
    let lender = w.lender_paid in
    let hex = w.scripts_decode in
    let borrower = take_borrower-eq-ok sha256 t w in rw low (ground arith)

-- With a hash whose bytes are bytes, the constructor leaves texts in lower case.
pub post_init-IsLower :
    (sha256 : Text → Text)
    → ((bytes : Text) → All (λ (b : ℕ). b < 256) (sha256 bytes))
    → (t : V2Terms) {u : V2Terms} → post_init sha256 t ≡ ok u
    → IsLower u
unfolding post_init
post_init-IsLower sha256 small t {u} e =
    let given = lowered t in
    elim (Result-cases (if is_empty given.oracles then take_single given else take_set given)) [
      | inl (x, bad) ↦ absurd (ground arith)
      | inr (v, formed) ↦
          elim (Result-cases (check_all_32_bytes V2Error.not_32_bytes (asset_fields v))) [
            | inl (x, bad) ↦ absurd (ground arith)
            | inr (tt, checked) ↦ elim (Result-cases (check_hex (v.lender_spk ++ v.borrower_spk))) [
              | inl (x, bad) ↦ absurd (ground arith)
              | inr (tt, hex) ↦
                  take_borrower-IsLower sha256 small v (ground arith)
                    (take_form-IsLower given formed (lowered-IsLower t))
            ]
          ]
    ]

-- With a hash whose bytes are bytes, terms built again from the fields that the constructor left
-- pass it and come out the same.
pub post_init_again :
    (sha256 : Text → Text)
    → ((bytes : Text) → All (λ (b : ℕ). b < 256) (sha256 bytes))
    → (t : V2Terms) {u : V2Terms} → post_init sha256 t ≡ ok u
    → post_init sha256 u ≡ ok u
post_init_again sha256 small t {u} e =
    IsCreated-post_init sha256 u (post_init-IsLower sha256 small t e)
      (post_init-IsCreated sha256 t e)
