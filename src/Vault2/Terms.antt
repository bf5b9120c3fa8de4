-- ===== src/Vault2/Terms.antt =====
-- `V2Terms` of pignus/vault2.py and its `sanity_check`.
use pignus.Prelude.{
  ℕ, ◌^◌, ◌≤◌, ◌<◌, ◌≡◌, ◌≢◌, ◌↔◌, Bool, true, false, not, ◌&&◌, ◌||◌, List, [], ◌∷◌, ◌++◌, Text,
  text_eq, text_eq_iff, ltb, leb, arith,
}

pub record V2Terms : Type 0 where
  pub collateral_asset : Text
  pub debt_asset : Text
  pub oracle_x : Text
  pub beacon_asset : Text
  pub precision : ℕ
  pub liq_bp : ℕ
  pub target_bp : ℕ
  pub bonus_bp : ℕ
  pub maturity : ℕ
  pub recover_after : ℕ
  pub lender_spk : Text
  pub borrower_spk : Text
  pub market : Text
  pub borrower_hash : Text
  pub oracles : List Text
  pub beacon_assets : List Text
  pub threshold : ℕ

-- The debt outstanding and the time of the last attestation used.
abbrev pub State : Type 0
State = ℕ × ℕ

-- `LOCKTIME_THRESHOLD`
abbrev pub locktime_threshold : ℕ
locktime_threshold = 500_000_000

pub data Complaint : Type 0 where
  ratios precision_above_18 not_times recover_before_maturity same_asset : Complaint

abbrev pub complain : Bool → Complaint → List Complaint
complain true c = c ∷ []
complain false c = []

-- `V2Terms.sanity_check`
unfoldable pub sanity_check : V2Terms → List Complaint
sanity_check t =
    complain
      (not (
        leb 10000 t.bonus_bp
        && ltb t.bonus_bp t.liq_bp
        && leb t.liq_bp t.target_bp
        && ltb t.target_bp (2 ^ 32)))
      ratios
    ++ complain (not (leb t.precision 18)) precision_above_18
    ++ complain (ltb t.maturity locktime_threshold || ltb t.recover_after locktime_threshold)
        not_times
    ++ complain (leb t.recover_after t.maturity) recover_before_maturity
    ++ complain (text_eq t.collateral_asset t.debt_asset) same_asset

-- The terms under which the vault behaves as described.
pub record IsSane (t : V2Terms) : Type 0 where
  pub bonus_least : 10000 ≤ t.bonus_bp
  pub bonus_below : t.bonus_bp < t.liq_bp
  pub target_above : t.liq_bp ≤ t.target_bp
  pub target_word : t.target_bp < 2 ^ 32
  pub precise : t.precision ≤ 18
  pub maturity_time : locktime_threshold ≤ t.maturity
  pub recover_time : locktime_threshold ≤ t.recover_after
  pub recover_last : t.maturity < t.recover_after
  pub assets_differ : t.collateral_asset ≢ t.debt_asset

-- Terms draw no complaint exactly when they are sane.
pub sanity_check-IsSane : (t : V2Terms) → (sanity_check t ≡ []) ↔ IsSane t
unfolding sanity_check
sanity_check-IsSane t = (
  λ e. ground (arith, text_eq_iff t.collateral_asset t.debt_asset),
  λ sane.
      let bonus_least = sane.bonus_least in
      let bonus_below = sane.bonus_below in
      let target_above = sane.target_above in
      let target_word = sane.target_word in
      let precise = sane.precise in
      let maturity_time = sane.maturity_time in
      let recover_time = sane.recover_time in
      let recover_last = sane.recover_last in
      let assets_differ = sane.assets_differ in
      ground (arith, text_eq_iff t.collateral_asset t.debt_asset),
)
