-- ===== src/Vault2/Signers.antt =====
-- Proofs on the keys that can attest for a version 2 loan (`oracle_keys`, `beacon_asset_of` of
-- pignus/vault2.py).
use pignus.Prelude.{
  ◌≤◌, ◌≡◌, refl, sym, true, false, some, List, [], ◌∷◌, Text, text_eq, member, has_duplicates,
  length, is_empty, All, ok, Bool-cases, inl, inr, arith, ◌∙◌,
}
use pignus.Vault2.Terms.{V2Terms}
use pignus.Vault2.Create.{
  count_distinct, real_keys, post_init, oracle_keys, at_key, beacon_asset_of,
}
use pignus.Vault2.Formed.{Is32Bytes, IsFormed, single, several}
use pignus.Vault2.Created.{post_init-IsCreated}

count_distinct_le : (ks : List Text) → count_distinct ks ≤ length ks
unfolding count_distinct
count_distinct_le [] = omega arith
count_distinct_le (k ∷ ks) = ground (arith, count_distinct_le ks)

has_duplicates_of_count :
    (ks : List Text) → count_distinct ks ≡ length ks → has_duplicates ks ≡ false
unfolding count_distinct
has_duplicates_of_count [] e = refl
has_duplicates_of_count (k ∷ ks) e =
    let le = count_distinct_le ks in
    elim (Bool-cases (member k ks)) [
      | inl again ↦ absurd (ground arith)
      | inr fresh ↦ let rest = has_duplicates_of_count ks (ground arith) in ground arith
    ]

member-real_keys : (k : Text) (ks : List Text) → member k (real_keys ks) ≡ true → member k ks ≡ true
unfolding real_keys
member-real_keys k [] e = e
member-real_keys k (j ∷ ks) e = ground (arith, member-real_keys k ks)

has_duplicates-real_keys :
    (ks : List Text) → has_duplicates ks ≡ false → has_duplicates (real_keys ks) ≡ false
unfolding real_keys
has_duplicates-real_keys [] e = refl
has_duplicates-real_keys (k ∷ ks) e =
    let rest = has_duplicates-real_keys ks (ground arith) in ground (arith, member-real_keys k ks)

-- The asset at a key of the list.
at_key-eq-some :
    (k : Text) (ks assets : List Text)
    → member k ks ≡ true
    → length assets ≡ length ks
    → All Is32Bytes assets
    → (a : Text) × (at_key k ks assets ≡ some a) × Is32Bytes a
unfolding at_key
at_key-eq-some k [] assets m l h = absurd (ground arith)
at_key-eq-some k (j ∷ ks) [] m l h = absurd (ground arith)
at_key-eq-some k (j ∷ ks) (a ∷ rest) m l h = elim (Bool-cases (text_eq k j)) [
  | inl here ↦ (a, ground arith, h.0)
  | inr later ↦
      let (b, found, ok_b) = at_key-eq-some k ks rest (ground arith) (omega arith) h.1 in
      (b, ground arith, ok_b)
]

-- The keys that can attest, as the threshold counts them.
pub record IsQuorum (t : V2Terms) : Type 0 where
  pub no_repeats : has_duplicates (oracle_keys t) ≡ false
  pub some_signer : 1 ≤ length (oracle_keys t)
  pub reachable : t.threshold ≤ length (oracle_keys t)
  pub beacons :
      (k : Text)
      → member k (oracle_keys t) ≡ true
      → (a : Text) × (beacon_asset_of t k ≡ some a) × Is32Bytes a

IsFormed-IsQuorum : (t : V2Terms) → IsFormed t → IsQuorum t
unfolding oracle_keys beacon_asset_of
IsFormed-IsQuorum t (single none_set no_assets zero x b) = record {
  no_repeats = ground arith;
  some_signer = ground arith;
  reachable = ground arith;
  beacons = λ k m. (t.beacon_asset, ground arith, b);
}
IsFormed-IsQuorum t (several nx nb three assets distinct one enough keys beacons) =
    let set : is_empty t.oracles ≡ false = ground arith in
    let fresh = has_duplicates_of_count t.oracles (distinct ∙ sym three) in
    let fresh' = has_duplicates-real_keys t.oracles fresh in
    record {
      no_repeats = ground arith;
      some_signer = ground arith;
      reachable = ground arith;
      beacons = λ k m.
          let there : member k t.oracles ≡ true = member-real_keys k t.oracles (ground arith) in
          let (a, found, good) =
            at_key-eq-some k t.oracles t.beacon_assets there (assets ∙ sym three) beacons in
          (a, ground arith, good);
    }

-- Whatever the constructor accepts, the keys that can attest are at least one, all different and no
-- fewer than the threshold, and each has a beacon asset of 32 bytes.
oracle_keys-IsQuorum :
    (sha256 : Text → Text) (t : V2Terms) {u : V2Terms} → post_init sha256 t ≡ ok u → IsQuorum u
oracle_keys-IsQuorum sha256 t {u} e = IsFormed-IsQuorum u (post_init-IsCreated sha256 t e).formed
