-- ===== src/Vault2/Create.antt =====
-- `V2Terms.__post_init__` of pignus/vault2.py, and the readings of the oracles it leaves.
use pignus.Prelude.{
  ℕ, ◌+◌, not, ◌&&◌, ◌||◌, Option, none, some, List, [], ◌∷◌, ◌++◌, map, Text, codes, text_eq,
  member, length, replicate, is_empty, leb, ◌==◌, if◌then◌else◌, Result, ok, err, ◌>>=◌, ◌>>◌,
  raise_if,
}
use pignus.Prelude.Hex.{lower, from_hex, to_hex}
use pignus.Vault2.Terms.{V2Terms}

-- A V2Error of the constructor by its cause, and the ValueError of `bytes.fromhex`.
pub data V2Error : Type 0 where
  two_oracle_forms wrong_set_size repeated_key threshold_out_of_range not_32_bytes : V2Error
  threshold_unnamed no_lender other_borrower not_hex : V2Error

-- `NO_ORACLE`
abbrev pub no_oracle : Text
no_oracle = codes "50929b74c1a04954b78b4b6035e97a5e078a5a0f28ec96d547bfee9ace803ac0"

-- `NO_BEACON_ASSET`
abbrev pub no_beacon_asset : Text
no_beacon_asset = replicate 64 b'0'

abbrev pub with_set : V2Terms → List Text → List Text → V2Terms
with_set t oracles beacon_assets = record {
  collateral_asset = t.collateral_asset;
  debt_asset = t.debt_asset;
  oracle_x = t.oracle_x;
  beacon_asset = t.beacon_asset;
  precision = t.precision;
  liq_bp = t.liq_bp;
  target_bp = t.target_bp;
  bonus_bp = t.bonus_bp;
  maturity = t.maturity;
  recover_after = t.recover_after;
  lender_spk = t.lender_spk;
  borrower_spk = t.borrower_spk;
  market = t.market;
  borrower_hash = t.borrower_hash;
  oracles = oracles;
  beacon_assets = beacon_assets;
  threshold = t.threshold;
}

abbrev pub with_borrower : V2Terms → Text → V2Terms
with_borrower t h = record {
  collateral_asset = t.collateral_asset;
  debt_asset = t.debt_asset;
  oracle_x = t.oracle_x;
  beacon_asset = t.beacon_asset;
  precision = t.precision;
  liq_bp = t.liq_bp;
  target_bp = t.target_bp;
  bonus_bp = t.bonus_bp;
  maturity = t.maturity;
  recover_after = t.recover_after;
  lender_spk = t.lender_spk;
  borrower_spk = t.borrower_spk;
  market = t.market;
  borrower_hash = h;
  oracles = t.oracles;
  beacon_assets = t.beacon_assets;
  threshold = t.threshold;
}

-- The texts in lower case, but for the market.
unfoldable pub lowered : V2Terms → V2Terms
lowered t = record {
  collateral_asset = lower t.collateral_asset;
  debt_asset = lower t.debt_asset;
  oracle_x = lower t.oracle_x;
  beacon_asset = lower t.beacon_asset;
  precision = t.precision;
  liq_bp = t.liq_bp;
  target_bp = t.target_bp;
  bonus_bp = t.bonus_bp;
  maturity = t.maturity;
  recover_after = t.recover_after;
  lender_spk = lower t.lender_spk;
  borrower_spk = lower t.borrower_spk;
  market = t.market;
  borrower_hash = lower t.borrower_hash;
  oracles = map lower t.oracles;
  beacon_assets = map lower t.beacon_assets;
  threshold = t.threshold;
}

-- A third slot for a set of two.
unfoldable pub padded : V2Terms → V2Terms
padded t =
    if length t.oracles == 2
    then with_set t (t.oracles ++ no_oracle ∷ []) (t.beacon_assets ++ no_beacon_asset ∷ [])
    else t

-- `len(set(keys))`
unfoldable pub count_distinct : List Text → ℕ
count_distinct [] = 0
count_distinct (k ∷ ks) = let rest = count_distinct ks in if member k ks then rest else rest + 1

-- The keys without the one that fills an unused slot.
unfoldable pub real_keys : List Text → List Text
real_keys [] = []
real_keys (k ∷ ks) = let rest = real_keys ks in if text_eq k no_oracle then rest else k ∷ rest

-- `len(bytes.fromhex(s)) == 32`, or `problem`.
unfoldable pub check_32_bytes : V2Error → Text → Result V2Error (Unit {0})
check_32_bytes problem s = elim (from_hex s) [
  | none ↦ err not_hex
  | some bytes ↦ raise_if (not (length bytes == 32)) problem
]

unfoldable pub check_all_32_bytes : V2Error → List Text → Result V2Error (Unit {0})
unfolding check_32_bytes
check_all_32_bytes problem [] = ok tt
check_all_32_bytes problem (s ∷ ss) = check_32_bytes problem s >> check_all_32_bytes problem ss

-- The checks of a set of oracles, and the terms with a third slot.
unfoldable pub take_set : V2Terms → Result V2Error V2Terms
unfolding padded count_distinct real_keys check_all_32_bytes
take_set t = do
  raise_if (not (is_empty t.oracle_x) || not (is_empty t.beacon_asset)) two_oracle_forms
  raise_if
      (not (leb 2 (length t.oracles) && leb (length t.oracles) 3)
        || not (length t.beacon_assets == length t.oracles))
      wrong_set_size
  let u = padded t
  raise_if (not (count_distinct u.oracles == 3)) repeated_key
  raise_if (not (leb 1 u.threshold && leb u.threshold (length (real_keys u.oracles))))
      threshold_out_of_range
  check_all_32_bytes not_32_bytes (u.oracles ++ u.beacon_assets)
  ok u

-- The checks of a single oracle.
unfoldable pub take_single : V2Terms → Result V2Error V2Terms
unfolding check_all_32_bytes
take_single t =
    if not (t.threshold == 0) || not (is_empty t.beacon_assets) then err threshold_unnamed else ok t

-- The fields that are 32 bytes of hex in either form.
unfoldable pub asset_fields : V2Terms → List Text
asset_fields t =
    if is_empty t.oracles
    then t.collateral_asset ∷ t.debt_asset ∷ t.oracle_x ∷ t.beacon_asset ∷ []
    else t.collateral_asset ∷ t.debt_asset ∷ []

-- `script_hash`, on SHA-256.
unfoldable pub script_hash : (Text → Text) → Text → Result V2Error Text
script_hash sha256 spk = elim (from_hex spk) [
  | none ↦ err not_hex
  | some bytes ↦ ok (to_hex (sha256 bytes))
]

-- What the constructor does with the borrower's script and its hash.
unfoldable pub take_borrower : (Text → Text) → V2Terms → Result V2Error V2Terms
unfolding script_hash check_32_bytes
take_borrower sha256 t =
    if not (is_empty t.borrower_spk)
    then (do
      h ← script_hash sha256 t.borrower_spk
      raise_if (not (is_empty t.borrower_hash) && not (text_eq t.borrower_hash h)) other_borrower
      ok (with_borrower t h))
    else if is_empty t.borrower_hash
    then ok t
    else check_32_bytes not_32_bytes t.borrower_hash >> ok t

abbrev pub check_hex : Text → Result V2Error (Unit {0})
check_hex s = elim (from_hex s) [ none ↦ err not_hex | some bytes ↦ ok tt ]

-- `__post_init__`
unfoldable pub post_init : (Text → Text) → V2Terms → Result V2Error V2Terms
post_init sha256 t = do
  let given = lowered t
  u ← if is_empty given.oracles then take_single given else take_set given
  check_all_32_bytes not_32_bytes (asset_fields u)
  raise_if (is_empty u.lender_spk) no_lender
  check_hex (u.lender_spk ++ u.borrower_spk)
  take_borrower sha256 u

-- `oracle_keys`
unfoldable pub oracle_keys : V2Terms → List Text
unfolding real_keys
oracle_keys t = if is_empty t.oracles then t.oracle_x ∷ [] else real_keys t.oracles

-- The element of the second list at the place of `k` in the first.
unfoldable pub at_key : Text → List Text → List Text → Option Text
at_key k [] assets = none
at_key k (j ∷ ks) [] = none
at_key k (j ∷ ks) (a ∷ rest_assets) =
    let rest = at_key k ks rest_assets in if text_eq k j then some a else rest

-- `beacon_asset_of`, where the set has an asset for each key, as the constructor leaves it.
unfoldable pub beacon_asset_of : V2Terms → Text → Option Text
unfolding at_key
beacon_asset_of t k =
    if is_empty t.oracles
    then if text_eq k t.oracle_x then some t.beacon_asset else none
    else at_key k t.oracles t.beacon_assets
