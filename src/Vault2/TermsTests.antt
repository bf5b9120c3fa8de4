-- ===== src/Vault2/TermsTests.antt =====
-- The theorems on the terms of version 2 loans, at two oracles and a toy hash.
use pignus.Prelude.{
  ◌%◌, ◌<◌, All, ℕ, zero, suc, ◌≡◌, refl, ok, arith, codes, Text, ◌∷◌, length, replicate, [],
}
use native.Mathlib.Nat.{mod-lt}
use pignus.Vault2.Terms.{V2Terms}
use pignus.Prelude.Hex.{lower, from_hex, to_hex}
use pignus.Vault2.Create.{
  lowered, take_set, padded, count_distinct, real_keys, check_all_32_bytes, check_32_bytes,
  asset_fields, take_borrower, script_hash, post_init, no_oracle, no_beacon_asset,
}
use pignus.Vault2.Created.{IsCreated, post_init-IsCreated}

-- Terms of two oracles, both of which must attest, with capitals where the constructor takes them.
abbrev two_oracles : V2Terms
two_oracles = record {
  collateral_asset = replicate 64 b'A';
  debt_asset = replicate 64 b'b';
  oracle_x = [];
  beacon_asset = [];
  precision = 0;
  liq_bp = 15000;
  target_bp = 16000;
  bonus_bp = 10500;
  maturity = 1_800_000_000;
  recover_after = 1_810_000_000;
  lender_spk = codes "0014";
  borrower_spk = codes "5120";
  market = [];
  borrower_hash = [];
  oracles = replicate 64 b'1' ∷ replicate 64 b'C' ∷ [];
  beacon_assets = replicate 64 b'3' ∷ replicate 64 b'4' ∷ [];
  threshold = 2;
}

-- A hash of 32 bytes.
abbrev toy_hash : Text → Text
toy_hash bytes = replicate 32 (length bytes % 256)

abbrev two_created : V2Terms
two_created = record {
  collateral_asset = replicate 64 b'a';
  debt_asset = replicate 64 b'b';
  oracle_x = [];
  beacon_asset = [];
  precision = 0;
  liq_bp = 15000;
  target_bp = 16000;
  bonus_bp = 10500;
  maturity = 1_800_000_000;
  recover_after = 1_810_000_000;
  lender_spk = codes "0014";
  borrower_spk = codes "5120";
  market = [];
  borrower_hash = to_hex (replicate 32 2);
  oracles = replicate 64 b'1' ∷ replicate 64 b'c' ∷ no_oracle ∷ [];
  beacon_assets = replicate 64 b'3' ∷ replicate 64 b'4' ∷ no_beacon_asset ∷ [];
  threshold = 2;
}

two_there : post_init toy_hash two_oracles ≡ ok two_created
unfolding post_init lowered take_set padded count_distinct real_keys check_all_32_bytes
    check_32_bytes asset_fields take_borrower script_hash lower from_hex to_hex
two_there = refl

All-replicate : (n b : ℕ) → b < 256 → All (λ (c : ℕ). c < 256) (replicate n b)
All-replicate zero b h = tt
All-replicate (suc n) b h = (h, All-replicate n b h)

toy_bytes : (bytes : Text) → All (λ (b : ℕ). b < 256) (toy_hash bytes)
toy_bytes bytes = All-replicate 32 (length bytes % 256) (mod-lt (length bytes) (omega arith))

-- One key written with a space is a second text of the same 32 bytes.
spaced_key : from_hex (b'1' ∷ b'1' ∷ 32 ∷ replicate 62 b'1') ≡ from_hex (replicate 64 b'1')
unfolding from_hex
spaced_key = refl

post_init-IsCreated_example : IsCreated toy_hash two_created
post_init-IsCreated_example = post_init-IsCreated toy_hash two_oracles two_there
