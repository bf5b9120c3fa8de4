-- ===== src/Vault2/Created.antt =====
-- Proofs on what `V2Terms.__post_init__` of pignus/vault2.py accepts, as a whole.
use pignus.Prelude.{
  IsApart, ◌≤◌, ◌≡◌, ◌≢◌, ◌⊎◌, true, false, [], ◌∷◌, ◌++◌, Text, is_empty, All, if◌then◌else◌, ok,
  Result-cases, Bool-cases, inl, inr, arith,
}
use mathlib.Core.Path.{subst}
use pignus.Vault2.Terms.{V2Terms}
use pignus.Vault2.Create.{
  V2Error, lowered, with_borrower, check_32_bytes, check_all_32_bytes, take_set, take_single,
  asset_fields, script_hash, take_borrower, check_hex, post_init,
}
use pignus.Vault2.Formed.{
  Is32Bytes, IsFormed, named_keys, IsFormed-IsApart, IsFormed-named, single, several,
  take_set-IsFormed, check_all_32_bytes-All, check_32_bytes-Is32Bytes,
}

-- The terms that the constructor leaves, with SHA-256 given.
pub record IsCreated (sha256 : Text → Text) (t : V2Terms) : Type 0 where
  pub formed : IsFormed t
  pub apart : IsApart t.oracles
  pub named : t.oracles ≢ [] → t.threshold ≤ named_keys t.oracles
  pub collateral_named : Is32Bytes t.collateral_asset
  pub debt_named : Is32Bytes t.debt_asset
  pub lender_paid : t.lender_spk ≢ []
  pub scripts_decode : check_hex (t.lender_spk ++ t.borrower_spk) ≡ ok tt
  pub borrower_hashed : t.borrower_spk ≢ [] → script_hash sha256 t.borrower_spk ≡ ok t.borrower_hash
  pub borrower_hash_formed :
      t.borrower_spk ≡ [] → (t.borrower_hash ≡ []) ⊎ Is32Bytes t.borrower_hash

IsFormed-with_borrower : (t : V2Terms) (h : Text) → IsFormed t → IsFormed (with_borrower t h)
IsFormed-with_borrower t h (single a b c d e) = single a b c d e
IsFormed-with_borrower t h (several a b c d e f g i j) = several a b c d e f g i j

-- What the steps before the borrower's leave.
record IsStarted (t : V2Terms) : Type 0 where
  form : IsFormed t
  collateral_ok : Is32Bytes t.collateral_asset
  debt_ok : Is32Bytes t.debt_asset
  lender_ok : t.lender_spk ≢ []
  hex_ok : check_hex (t.lender_spk ++ t.borrower_spk) ≡ ok tt

-- Without the borrower's script, the terms stay and their hash is none or 32 bytes.
pub no_script-IsKept :
    (sha256 : Text → Text) (t : V2Terms) {u : V2Terms}
    → is_empty t.borrower_spk ≡ true
    → take_borrower sha256 t ≡ ok u
    → (t ≡ u) × ((t.borrower_hash ≡ []) ⊎ Is32Bytes t.borrower_hash)
unfolding take_borrower
no_script-IsKept sha256 t {u} missing e = elim (Bool-cases (is_empty t.borrower_hash)) [
  | inl none_given ↦ (ground arith, inl (ground arith))
  | inr given ↦ elim (Result-cases (check_32_bytes V2Error.not_32_bytes t.borrower_hash)) [
    | inl (x, bad) ↦ absurd (ground arith)
    | inr (tt, good) ↦
        (ground arith, inr (check_32_bytes-Is32Bytes V2Error.not_32_bytes t.borrower_hash good))
  ]
]

take_borrower-IsCreated :
    (sha256 : Text → Text) (t : V2Terms) {u : V2Terms}
    → IsStarted t
    → take_borrower sha256 t ≡ ok u
    → IsCreated sha256 u
unfolding take_borrower
take_borrower-IsCreated sha256 t {u} w e = elim (Bool-cases (is_empty t.borrower_spk)) [
  | inr there ↦ elim (Result-cases (script_hash sha256 t.borrower_spk)) [
    | inl (x, bad) ↦ absurd (ground arith)
    | inr (h, hashed) ↦
        let eq : with_borrower t h ≡ u = ground arith in
        subst (IsCreated sha256) eq record {
          formed = IsFormed-with_borrower t h w.form;
          apart = IsFormed-IsApart t w.form;
          named = IsFormed-named t w.form;
          collateral_named = w.collateral_ok;
          debt_named = w.debt_ok;
          lender_paid = w.lender_ok;
          scripts_decode = w.hex_ok;
          borrower_hashed = λ n. hashed;
          borrower_hash_formed = λ n. absurd (ground arith);
        }
  ]
  | inl missing ↦
      let (eq, hash) = no_script-IsKept sha256 t missing e in
      subst (IsCreated sha256) eq record {
        formed = w.form;
        apart = IsFormed-IsApart t w.form;
        named = IsFormed-named t w.form;
        collateral_named = w.collateral_ok;
        debt_named = w.debt_ok;
        lender_paid = w.lender_ok;
        scripts_decode = w.hex_ok;
        borrower_hashed = λ n. absurd (ground arith);
        borrower_hash_formed = λ n. hash;
      }
]

asset_fields-All :
    (t : V2Terms)
    → All Is32Bytes (asset_fields t)
    → Is32Bytes t.collateral_asset
      × Is32Bytes t.debt_asset
      × (is_empty t.oracles ≡ true → Is32Bytes t.oracle_x × Is32Bytes t.beacon_asset)
unfolding asset_fields
asset_fields-All t h = elim (Bool-cases (is_empty t.oracles)) [
  | inl one ↦
      let eq : asset_fields t
          ≡ t.collateral_asset ∷ t.debt_asset ∷ t.oracle_x ∷ t.beacon_asset ∷ [] =
        ground arith in
      let four = subst (All Is32Bytes) eq h in (four.0, four.1.0, λ e. (four.1.1.0, four.1.1.1.0))
  | inr set ↦
      let eq : asset_fields t ≡ t.collateral_asset ∷ t.debt_asset ∷ [] = ground arith in
      let both = subst (All Is32Bytes) eq h in (both.0, both.1.0, λ e. absurd (ground arith))
]

-- The oracles' form and the fields that are 32 bytes.
fields-IsStarted :
    (t : V2Terms) {v : V2Terms}
    → (if is_empty t.oracles then take_single t else take_set t) ≡ ok v
    → check_all_32_bytes V2Error.not_32_bytes (asset_fields v) ≡ ok tt
    → is_empty v.lender_spk ≡ false
    → check_hex (v.lender_spk ++ v.borrower_spk) ≡ ok tt
    → IsStarted v
unfolding take_single
fields-IsStarted t {v} e checked lender hex =
    let (c, d, single_ok) =
      asset_fields-All v (check_all_32_bytes-All V2Error.not_32_bytes (asset_fields v) checked) in
    let form : IsFormed v = elim (Bool-cases (is_empty t.oracles)) [
      | inl one ↦
          let eq : t ≡ v = ground arith in
          let (x, b) = single_ok (ground arith) in
          single (ground arith) (ground arith) (ground arith) x b
      | inr set ↦ take_set-IsFormed t (ground arith)
    ] in
    record { form = form; collateral_ok = c; debt_ok = d; lender_ok = ground arith; hex_ok = hex }

-- Whatever the constructor accepts, the terms it leaves name their oracles in one of the two forms:
-- one key and its beacon's asset, or three slots of 32 bytes, no two of the same text, each with an
-- asset, and a threshold from 1 to the number of keys that are not the filler; the two assets are 32 bytes of
-- hex, the scripts are hex, the lender's is there, and the borrower's hash is that of the borrower's script when
-- there is one, else nothing or 32 bytes.
pub post_init-IsCreated :
    (sha256 : Text → Text) (t : V2Terms) {u : V2Terms}
    → post_init sha256 t ≡ ok u
    → IsCreated sha256 u
unfolding post_init
post_init-IsCreated sha256 t {u} e =
    let given = lowered t in
    elim (Result-cases (if is_empty given.oracles then take_single given else take_set given)) [
      | inl (x, bad) ↦ absurd (ground arith)
      | inr (v, formed) ↦
          elim (Result-cases (check_all_32_bytes V2Error.not_32_bytes (asset_fields v))) [
            | inl (x, bad) ↦ absurd (ground arith)
            | inr (tt, checked) ↦ elim (Result-cases (check_hex (v.lender_spk ++ v.borrower_spk))) [
              | inl (x, bad) ↦ absurd (ground arith)
              | inr (tt, hex) ↦
                  let rest : take_borrower sha256 v ≡ ok u = ground arith in
                  take_borrower-IsCreated sha256 v
                    (fields-IsStarted given formed checked (ground arith) hex) rest
            ]
          ]
    ]
