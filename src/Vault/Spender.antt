-- ===== src/Vault/Spender.antt =====
-- The state of a `VaultSpender`, its errors, and the checks that every exit makes.
use pignus.Prelude.{
  ℕ, ◌≤◌, ◌≡◌, ◌⊎◌, inl, inr, Bool-cases, text_eq→eq, arith, not, Option, none, some, ◌∷◌, Text,
  text_eq, ltb, ◌==◌, if◌then◌else◌, length, is_empty, Result, ok, err, ◌>>=◌, ◌>>◌, raise_if,
}
use pignus.Prelude.Hex.{from_hex}
use pignus.Terms.{LoanTerms, payout_programs}
use pignus.Oracle.{Attestation, Signing}
use pignus.Tx.{Outpoint}

pub data VaultError : Type 0 where
  no_asset_id : VaultError
  short : ℕ → ℕ → VaultError
  bad_hex v0_program_length v1_program_length unsupported_version : VaultError
  wrong_scale zero_price wrong_feed : VaultError
  one_attestation_wanted mapping_wanted threshold_not_met not_liquidatable : VaultError
  not_verified before_not_before locktime_too_low : VaultError
  not_unspent wrong_address holds_less : VaultError
  dust_refused no_filler : VaultError

pub record Spender : Type 0 where
  pub terms : LoanTerms
  pub fee_asset : ℕ
  pub fee_amount : ℕ
  pub dust_fold : ℕ
  -- `self.vault_tap.scriptPubKey`, from the covenant builder
  pub address : Text

-- What `_change` reads of a spender: a repurchase's spender borrows it with these alone.
pub record Payer : Type 0 where
  pub fee_asset : ℕ
  pub fee_amount : ℕ
  pub dust_fold : ℕ

abbrev pub payer : Spender → Payer
payer s = record { fee_asset = s.fee_asset; fee_amount = s.fee_amount; dust_fold = s.dust_fold }

-- `__init__`; the fallback is `DUST_FOLD_FALLBACK`.
abbrev pub dust_fold_or : Option ℕ → ℕ
dust_fold_or none = 200
dust_fold_or (some n) = if n == 0 then 200 else n

unfoldable pub new_spender : LoanTerms → ℕ → ℕ → Option ℕ → Text → Spender
new_spender terms fee_asset fee_amount dust_fold address = record {
  terms = terms;
  fee_asset = fee_asset;
  fee_amount = fee_amount;
  dust_fold = dust_fold_or dust_fold;
  address = address;
}

abbrev pub program : Text → Result VaultError Text
program prog_hex = elim (from_hex prog_hex) [ none ↦ err bad_hex | some prog ↦ ok prog ]

-- `payout_spk`, from a hex program.
unfoldable pub payout_spk : ℕ → Text → Result VaultError Text
payout_spk ver prog_hex = do
  prog ← program prog_hex
  if ver == 0
      then (if length prog == 20 then ok (0x00 ∷ 0x14 ∷ prog) else err v0_program_length)
      else if ver == 1
      then (if length prog == 32 then ok (0x51 ∷ 0x20 ∷ prog) else err v1_program_length)
      else err unsupported_version

-- `_pinned`: the scripts of the lender and the borrower.
unfoldable pub pinned : Spender → Result VaultError (Text × Text)
unfolding payout_programs
pinned s = do
  lender ← payout_spk s.terms.lender_ver (payout_programs s.terms).0
  borrower ← payout_spk s.terms.borrower_ver (payout_programs s.terms).1
  ok (lender, borrower)

-- What `gettxout` says of the vault coin.
pub data TxoutAnswer : Type 0 where
  unreachable : TxoutAnswer
  spent : TxoutAnswer
  pays : Text → TxoutAnswer

-- `_check_vault`
unfoldable pub check_vault : Spender → TxoutAnswer → Result VaultError (Unit {0})
check_vault s unreachable = ok tt
check_vault s spent = err not_unspent
check_vault s (pays spk) = raise_if (not (text_eq spk s.address)) wrong_address

-- `_held`
unfoldable pub held : Spender → TxoutAnswer → Outpoint → Result VaultError ℕ
unfolding check_vault
held s answer vault = do
  check_vault s answer
  raise_if (ltb vault.amount s.terms.collateral_amount) holds_less
  ok vault.amount

-- A coin that passes is the vault's, holds at least the terms' collateral, and counts whole.
pub held-eq-ok :
    (s : Spender) (answer : TxoutAnswer) (vault : Outpoint) {n : ℕ}
    → held s answer vault ≡ ok n
    → (n ≡ vault.amount)
      × (s.terms.collateral_amount ≤ n)
      × ((answer ≡ unreachable) ⊎ (answer ≡ pays s.address))
unfolding held
held-eq-ok s unreachable vault e = ground arith
held-eq-ok s spent vault e = absurd (ground arith)
held-eq-ok s (pays spk) vault e = elim (Bool-cases (text_eq spk s.address)) [
  | inl same ↦ ground (arith, text_eq→eq spk s.address same)
  | inr other ↦ absurd (ground arith)
]

-- `feed and bytes.fromhex(feed) != self.terms.feed`
unfoldable pub check_feed : Signing → LoanTerms → Text → Result VaultError (Unit {0})
check_feed c t feed =
    if is_empty feed
    then ok tt
    else do bytes ← program feed; raise_if (not (text_eq bytes (c.feed_of t.market))) wrong_feed

-- `_usable_attestation`
unfoldable pub usable_attestation : Signing → Spender → Attestation → Result VaultError (Unit {0})
unfolding check_feed
usable_attestation c s att = do
  raise_if (not (att.price_scale == s.terms.price_scale)) wrong_scale
  raise_if (ltb att.price 1) zero_price
  check_feed c s.terms att.feed_id
