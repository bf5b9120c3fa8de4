-- ===== src/Vault2/Formed.antt =====
-- Proofs on the terms that `V2Terms.__post_init__` of pignus/vault2.py leaves.
use pignus.Prelude.{
  IsApart, member-All_iff, ℕ, ◌+◌, ◌≤◌, ◌≡◌, ◌≢◌, refl, sym, text_eq, codes, if◌then◌else◌, some,
  List, [], ◌∷◌, ◌++◌, Text, length, length-append, ◌==◌, All, ok, Result-cases, Bool-cases,
  Option-cases, inl, inr, arith, ◌∙◌,
}
use mathlib.Core.Path.{subst}
use pignus.Prelude.Hex.{from_hex}
use pignus.Vault2.Terms.{V2Terms}
use pignus.Vault2.Create.{
  V2Error, padded, count_distinct, real_keys, check_32_bytes, check_all_32_bytes, take_set,
  no_oracle, no_beacon_asset,
}

-- `s` is 32 bytes of hex.
pub record Is32Bytes (s : Text) : Type 0 where
  pub bytes : Text
  pub decodes : from_hex s ≡ some bytes
  pub thirty_two : length bytes ≡ 32

-- The two forms: one oracle, or three slots and a threshold that the named keys can meet.
pub data IsFormed (t : V2Terms) : Type 0 where
  single :
      t.oracles ≡ []
      → t.beacon_assets ≡ []
      → t.threshold ≡ 0
      → Is32Bytes t.oracle_x
      → Is32Bytes t.beacon_asset
      → IsFormed t
  several :
      t.oracle_x ≡ []
      → t.beacon_asset ≡ []
      → length t.oracles ≡ 3
      → length t.beacon_assets ≡ 3
      → count_distinct t.oracles ≡ 3
      → 1 ≤ t.threshold
      → t.threshold ≤ length (real_keys t.oracles)
      → All Is32Bytes t.oracles
      → All Is32Bytes t.beacon_assets
      → IsFormed t

-- The keys that are not the point without a known secret, which fills an unused slot.
abbrev pub named_keys : List Text → ℕ
named_keys [] = 0
named_keys (k ∷ ks) =
    (if text_eq k (codes "50929b74c1a04954b78b4b6035e97a5e078a5a0f28ec96d547bfee9ace803ac0")
      then 0
      else 1)
    + named_keys ks

count_distinct_le : (ks : List Text) → count_distinct ks ≤ length ks
unfolding count_distinct
count_distinct_le [] = omega arith
count_distinct_le (k ∷ ks) = ground (arith, count_distinct_le ks)

count_distinct-IsApart : (ks : List Text) → count_distinct ks ≡ length ks → IsApart ks
unfolding count_distinct
count_distinct-IsApart [] e = tt
count_distinct-IsApart (k ∷ ks) e =
    let le = count_distinct_le ks in
    ((member-All_iff k ks).0 (ground arith), count_distinct-IsApart ks (ground arith))

length-real_keys : (ks : List Text) → length (real_keys ks) ≡ named_keys ks
unfolding real_keys
length-real_keys [] = refl
length-real_keys (k ∷ ks) = ground (arith, length-real_keys ks)

-- The keys of a set are three, apart, and enough are named.
pub IsFormed-IsApart : (t : V2Terms) → IsFormed t → IsApart t.oracles
IsFormed-IsApart t (single none_set a b c d) = subst IsApart (sym none_set) tt
IsFormed-IsApart t (several a b three c distinct d e f g) =
    count_distinct-IsApart t.oracles (distinct ∙ sym three)

pub IsFormed-named :
    (t : V2Terms) → IsFormed t → t.oracles ≢ [] → t.threshold ≤ named_keys t.oracles
IsFormed-named t (single none_set a b c d) there = absurd (there none_set)
IsFormed-named t (several a b three c distinct d enough f g) there =
    omega (arith, enough, length-real_keys t.oracles)

pub check_32_bytes-Is32Bytes :
    (problem : V2Error) (s : Text) → check_32_bytes problem s ≡ ok tt → Is32Bytes s
unfolding check_32_bytes
check_32_bytes-Is32Bytes problem s e = elim (Option-cases (from_hex s)) [
  | inl bad ↦ absurd (ground arith)
  | inr (bytes, found) ↦ record { bytes = bytes; decodes = found; thirty_two = ground arith }
]

pub check_all_32_bytes-All :
    (problem : V2Error) (ss : List Text) → check_all_32_bytes problem ss ≡ ok tt → All Is32Bytes ss
unfolding check_all_32_bytes
check_all_32_bytes-All problem [] e = tt
check_all_32_bytes-All problem (s ∷ ss) e = elim (Result-cases (check_32_bytes problem s)) [
  | inl (x, bad) ↦ absurd (ground arith)
  | inr (u, good) ↦
      (check_32_bytes-Is32Bytes problem s good, check_all_32_bytes-All problem ss (ground arith))
]

All-append : (P : Text → Type 0) (ss rs : List Text) → All P (ss ++ rs) → All P ss × All P rs
All-append P [] rs h = (tt, h)
All-append P (s ∷ ss) rs (h, hs) = let (a, b) = All-append P ss rs hs in ((h, a), b)

record IsPadded (t u : V2Terms) : Type 0 where
  keys : length u.oracles ≡ 3
  beacons : length u.beacon_assets ≡ 3
  key_kept : u.oracle_x ≡ t.oracle_x
  beacon_kept : u.beacon_asset ≡ t.beacon_asset

padded-IsPadded :
    (t : V2Terms)
    → 2 ≤ length t.oracles
    → length t.oracles ≤ 3
    → length t.beacon_assets ≡ length t.oracles
    → IsPadded t (padded t)
unfolding padded
padded-IsPadded t low high same =
    let more = length-append t.oracles (no_oracle ∷ []) in
    let more' = length-append t.beacon_assets (no_beacon_asset ∷ []) in
    elim (Bool-cases (length t.oracles == 2)) [
      | inl two ↦ record {
        keys = ground arith;
        beacons = ground arith;
        key_kept = ground arith;
        beacon_kept = ground arith;
      }
      | inr three ↦ record {
        keys = ground arith;
        beacons = ground arith;
        key_kept = ground arith;
        beacon_kept = ground arith;
      }
    ]

pub record IsTaken (t u : V2Terms) : Type 0 where
  pub taken : padded t ≡ u
  no_key : t.oracle_x ≡ []
  no_beacon : t.beacon_asset ≡ []
  least : 2 ≤ length t.oracles
  most : length t.oracles ≤ 3
  same : length t.beacon_assets ≡ length t.oracles
  distinct : count_distinct u.oracles ≡ 3
  some_needed : 1 ≤ u.threshold
  enough_named : u.threshold ≤ length (real_keys u.oracles)
  decoded : check_all_32_bytes V2Error.not_32_bytes (u.oracles ++ u.beacon_assets) ≡ ok tt

pub take_set-IsTaken : (t : V2Terms) {u : V2Terms} → take_set t ≡ ok u → IsTaken t u
unfolding take_set
take_set-IsTaken t {u} e = ground arith

-- A set of oracles passes only in the second form.
pub take_set-IsFormed : (t : V2Terms) {u : V2Terms} → take_set t ≡ ok u → IsFormed u
take_set-IsFormed t {u} e =
    let w = take_set-IsTaken t e in
    let p = subst (IsPadded t) w.taken (padded-IsPadded t w.least w.most w.same) in
    let (keys, beacons) =
      All-append Is32Bytes u.oracles u.beacon_assets
        (check_all_32_bytes-All V2Error.not_32_bytes (u.oracles ++ u.beacon_assets) w.decoded) in
    several (p.key_kept ∙ w.no_key) (p.beacon_kept ∙ w.no_beacon) p.keys p.beacons w.distinct
      w.some_needed w.enough_named keys beacons
