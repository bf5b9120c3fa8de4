-- ===== src/Repurchase/Terms.antt =====
-- `RepurchaseTerms`, its `bond` and `sanity_check`, and `locktime_open` of pignus/__init__.py.
use pignus.Prelude.{
  ℕ, ◌-◌, ◌≤◌, ◌<◌, ◌≡◌, ◌≢◌, ◌⊎◌, Bool, false, not, ◌&&◌, ◌||◌, Option, none, some, Text, ltb, leb,
  ◌==◌, if◌then◌else◌, length, Result, ok, err, ◌>>=◌, ◌>>◌, raise_if,
}
use pignus.Prelude.Hex.{from_hex}
use pignus.Vault.Spender.{VaultError}

-- The ValueErrors of the module by their causes.
pub data RepurchaseError : Type 0 where
  no_value no_debt no_equity : RepurchaseError
  no_collateral no_principal no_interest no_deadline past_time : RepurchaseError
  bad_hex wrong_cu_length unpayable_version wrong_program_length same_asset : RepurchaseError
  not_unspent not_funded wrong_script blinded wrong_asset wrong_amount : RepurchaseError
  leg_one_missing unburied : RepurchaseError
  too_many_inputs too_many_outputs : RepurchaseError
  wrong_fee_asset not_a_verifier no_verifier_script surplus debt_input_short : RepurchaseError
  vault : VaultError → RepurchaseError

pub record RepurchaseTerms : Type 0 where
  pub collateral_asset : ℕ
  pub collateral_amount : ℕ
  pub debt_asset : ℕ
  pub principal : ℕ
  pub debt : ℕ
  pub collateral_value : ℕ
  pub borrower_cu : Text
  pub borrower_prog : Text
  pub lender_prog : Text
  pub borrower_ver : ℕ
  pub lender_ver : ℕ
  pub forfeit_after : ℕ

-- `LOCKTIME_THRESHOLD`
abbrev pub locktime_threshold : ℕ
locktime_threshold = 500_000_000

-- `_PLAUSIBLE_TIME`
abbrev pub plausible_time : ℕ
plausible_time = 1_600_000_000

-- Whether a deadline has passed at a height and, if it is known, a median time.
unfoldable pub locktime_open : ℕ → ℕ → Option ℕ → Bool
locktime_open deadline height now =
    if ltb deadline locktime_threshold
    then leb deadline height
    else elim now [ none ↦ false | some time ↦ leb deadline time ]

unfoldable pub bond_atoms : ℕ → ℕ → Result RepurchaseError ℕ
bond_atoms collateral_value debt = do
  raise_if (collateral_value == 0) no_value
  raise_if (debt == 0) no_debt
  raise_if (leb collateral_value debt) no_equity
  ok (collateral_value - debt)

unfoldable pub bond : RepurchaseTerms → Result RepurchaseError ℕ
unfolding bond_atoms
bond t = bond_atoms t.collateral_value t.debt

-- The length of a hex text's bytes.
abbrev pub decoded_length : Text → Result RepurchaseError ℕ
decoded_length s = elim (from_hex s) [ none ↦ err bad_hex | some bytes ↦ ok (length bytes) ]

unfoldable pub check_program : Text → ℕ → Result RepurchaseError (Unit {0})
check_program prog ver = do
  raise_if (not (ver == 0 || ver == 1)) unpayable_version
  n ← decoded_length prog
  raise_if (not (n == (if ver == 1 then 32 else 20))) wrong_program_length

unfoldable pub sanity_check : RepurchaseTerms → Result RepurchaseError (Unit {0})
unfolding check_program bond
sanity_check t = do
  raise_if (t.collateral_amount == 0) no_collateral
  raise_if (t.principal == 0) no_principal
  raise_if (leb t.debt t.principal) no_interest
  raise_if (t.forfeit_after == 0) no_deadline
  raise_if (leb locktime_threshold t.forfeit_after && ltb t.forfeit_after plausible_time) past_time
  n ← decoded_length t.borrower_cu
  raise_if (not (n == 32)) wrong_cu_length
  check_program t.borrower_prog t.borrower_ver
  check_program t.lender_prog t.lender_ver
  raise_if (t.collateral_asset == t.debt_asset) same_asset
  b ← bond t
  ok tt

-- A program of a payable version, of that version's length.
pub record IsProgram (prog : Text) (ver : ℕ) : Type 0 where
  pub bytes : Text
  pub decodes : from_hex prog ≡ some bytes
  pub payable : ((ver ≡ 0) × (length bytes ≡ 20)) ⊎ ((ver ≡ 1) × (length bytes ≡ 32))

-- What the checks amount to.
pub record IsSane (t : RepurchaseTerms) : Type 0 where
  pub some_collateral : 1 ≤ t.collateral_amount
  pub some_principal : 1 ≤ t.principal
  pub interest : t.principal < t.debt
  pub equity : t.debt < t.collateral_value
  pub deadline : 1 ≤ t.forfeit_after
  pub deadline_kind : (t.forfeit_after < locktime_threshold) ⊎ (plausible_time ≤ t.forfeit_after)
  pub cu : IsProgram t.borrower_cu 1
  pub borrower : IsProgram t.borrower_prog t.borrower_ver
  pub lender : IsProgram t.lender_prog t.lender_ver
  pub assets_differ : t.collateral_asset ≢ t.debt_asset
