-- ===== src/Vault2/Spend/Compose.antt =====
-- The composers of pignus/vault2.py: a spend of an offer or of a vault, with what the summary says of
-- it.
use pignus.Prelude.{
  ℕ, ◌+◌, ◌-◌, min, Bool, not, ◌&&◌, ◌||◌, Option, none, some, List, [], ◌∷◌, ◌++◌, Text, codes,
  ltb, leb, ◌==◌, if◌then◌else◌, Result, ok, err, ◌>>=◌, ◌>>◌, raise_if,
}
use pignus.Vault2.Terms.{V2Terms, State}
use pignus.Vault2.Create.{script_hash, V2Error, post_init}
use pignus.Vault2.Rule.{Rule, RuleError}
use pignus.Vault2.Plan.{LiquidationPlan, check_liquidation}
use pignus.Vault2.Spend

-- What a summary tells, with the fee last.
pub data Summary : Type 0 where
  take_of : V2Terms → State → Text → ℕ → Summary
  repay_of : State → Option State → ℕ → ℕ → Summary
  top_up_of : State → ℕ → ℕ → Summary
  liquidate_of : Bool → State → Option State → ℕ → ℕ → ℕ → ℕ → Summary
  recover_of refund_of : ℕ → Summary

-- The state after `paid` of the debt is repaid at a time, none when it closes the vault.
abbrev pub next_state : ℕ → ℕ → ℕ → Option State
next_state debt paid time = if leb debt paid then none else some (debt - paid, time)

-- An error of the terms' constructor passes through.
abbrev pub of_terms : {A : Type 0} → Result V2Error A → Result Spend.ComposeError A
of_terms (ok a) = ok a
of_terms (err e) = err (Spend.bad_terms e)

-- An error of the liquidation rule passes through.
abbrev pub of_rule : {A : Type 0} → Result RuleError A → Result Spend.ComposeError A
of_rule (ok a) = ok a
of_rule (err e) = err (Spend.bad_liquidation e)

module _ (w : Spend.World) where
  -- `V2Terms.with_borrower`
  unfoldable pub for_borrower : V2Terms → Text → Result V2Error V2Terms
  for_borrower t spk = post_init w.sha256 (record t { borrower_spk = spk; borrower_hash = [] })

  -- Output 1, the offer's rest, when there is one.
  abbrev pub offer_rest : ℕ → Text → Text → Result Spend.ComposeError (List Spend.Out)
  offer_rest rest spk asset =
      if rest == 0 then ok [] else Spend.out rest spk asset >>= λ o. ok (o ∷ [])

  -- `compose_take`; the collateral and the lock time default where they are 0 or not given.
  unfoldable pub compose_take :
      Spend.V2Offer
      → Spend.Coin
      → Text
      → Text
      → ℕ
      → Option ℕ
      → ℕ
      → Result Spend.ComposeError (Spend.SpendTx × Summary)
  compose_take offer offer_coin borrower_spk change_spk given feerate locktime = do
    t ← of_terms (for_borrower offer.terms borrower_spk)
    let collateral = if given == 0 then offer.collateral else given
    raise_if (ltb collateral offer.collateral) Spend.too_little_collateral
    raise_if (ltb offer_coin.amount offer.lot) Spend.less_than_lot
    let last = if locktime == 0 then w.median_time - 1 else locktime
    raise_if (leb w.median_time last) Spend.not_passed
    fee ← Spend.fee_for w offer.terms.debt_asset (codes "take") feerate
    raise_if (leb offer.lot fee) Spend.fee_over_lot
    let coll = offer.terms.collateral_asset
    let debt = offer.terms.debt_asset
    coins ← Spend.wallet_coins w coll collateral
    vault ← Spend.out collateral (w.vault_spk t (offer.debt, last)) coll
    rest ← offer_rest (offer_coin.amount - offer.lot) offer_coin.spk debt
    principal ← Spend.out (offer.lot - fee) change_spk debt
    change ← Spend.change coins coll collateral change_spk
    fee_out ← Spend.fee fee debt
    let outs = vault ∷ rest ++ principal ∷ change ++ fee_out ∷ []
    let tx = Spend.spend_tx (offer_coin ∷ coins) outs last
    h ← of_terms (script_hash w.sha256 borrower_spk)
    raise_if (not (w.runs_offer offer (Spend.take_path h) tx)) Spend.refused_by_program
    ok (tx, take_of t (offer.debt, last) (w.vault_spk t (offer.debt, last)) fee)

  -- Where the first output of a repayment goes: the successor, or the borrower when nothing is owed.
  unfoldable pub repay_first : V2Terms → State → ℕ → Text
  repay_first t (debt, last) amount =
      if ltb amount debt then w.vault_spk t (debt - amount, last) else t.borrower_spk

  -- `compose_repay`
  unfoldable pub compose_repay :
      V2Terms
      → State
      → Spend.Coin
      → ℕ
      → Text
      → Option ℕ
      → Result Spend.ComposeError (Spend.SpendTx × Summary)
  compose_repay t (debt, last) vcoin asked change_spk feerate = do
    raise_if (asked == 0) Spend.nothing_to_repay
    let amount = min asked debt
    fee ← Spend.fee_for w t.debt_asset (codes "repay") feerate
    coins ← Spend.wallet_coins w t.debt_asset (amount + fee)
    first ← Spend.out vcoin.amount (repay_first t (debt, last) amount) t.collateral_asset
    paid ← Spend.out amount t.lender_spk t.debt_asset
    fee_out ← Spend.fee fee t.debt_asset
    tx ←
        Spend.vault_spend w t (debt, last) vcoin Spend.repay_path (first ∷ paid ∷ fee_out ∷ [])
          coins t.debt_asset (amount + fee) change_spk 0 []
    ok (tx, repay_of (debt, last) (next_state debt amount last) amount fee)

  -- `compose_top_up`
  unfoldable pub compose_top_up :
      V2Terms
      → State
      → Spend.Coin
      → ℕ
      → Text
      → Option ℕ
      → Result Spend.ComposeError (Spend.SpendTx × Summary)
  compose_top_up t state vcoin amount change_spk feerate = do
    raise_if (amount == 0) Spend.nothing_to_add
    fee ← Spend.fee_for w t.collateral_asset (codes "top_up") feerate
    coins ← Spend.wallet_coins w t.collateral_asset (amount + fee)
    first ← Spend.out (vcoin.amount + amount) vcoin.spk t.collateral_asset
    fee_out ← Spend.fee fee t.collateral_asset
    tx ←
        Spend.vault_spend w t state vcoin Spend.top_up_path (first ∷ fee_out ∷ []) coins
          t.collateral_asset (amount + fee) change_spk 0 []
    ok (tx, top_up_of state amount fee)

  -- Where the first output of a liquidation goes, and what it pays: the successor, the borrower's
  -- surplus, or the seizure when nothing is left.
  unfoldable pub first_of : V2Terms → ℕ → ℕ → ℕ → ℕ → ℕ → Text → Text × ℕ
  first_of t debt r kept seized time taker_spk =
      if leb debt r
      then (if kept == 0 then (taker_spk, seized) else (t.borrower_spk, kept))
      else (w.vault_spk t (debt - r, time), kept)

  -- The seizure's own output, when it is not the first.
  unfoldable pub seizure_of :
      V2Terms → ℕ → ℕ → Bool → Text → Result Spend.ComposeError (List Spend.Out)
  seizure_of t kept seized closes taker_spk =
      if not (seized == 0) && (not (kept == 0) || not closes)
      then (Spend.out seized taker_spk t.collateral_asset >>= λ o. ok (o ∷ []))
      else ok []

  -- `compose_liquidation`, by one oracle's attestation with the coin at its beacon.
  unfoldable pub compose_liquidation :
      Rule
      → V2Terms
      → State
      → Spend.Coin
      → Spend.Record2
      → Spend.Coin
      → LiquidationPlan
      → Text
      → Text
      → Bool
      → Option ℕ
      → Result Spend.ComposeError (Spend.SpendTx × Summary)
  compose_liquidation rule t (debt, last) vcoin att bcoin plan taker_spk change_spk matured
        feerate =
      do
        raise_if (leb w.median_time att.time) Spend.not_passed
        let r = plan.repaid
        let kept = plan.kept
        ruling ←
            of_rule
              (check_liquidation rule t vcoin.amount (debt, last) att.time att.price r kept matured)
        fee ← Spend.fee_for w t.debt_asset (codes "liquidate") feerate
        coins ← Spend.wallet_coins w t.debt_asset (r + fee)
        let seized = vcoin.amount - kept
        let (first_spk, first_amount) = first_of t debt r kept seized att.time taker_spk
        first ← Spend.out first_amount first_spk t.collateral_asset
        paid ← Spend.out r t.lender_spk t.debt_asset
        beacon ← Spend.out bcoin.amount bcoin.spk bcoin.asset
        seizure ← seizure_of t kept seized (leb debt r) taker_spk
        fee_out ← Spend.fee fee t.debt_asset
        tx ←
            Spend.vault_spend w t (debt, last) vcoin (Spend.liquidate_path att 1 matured)
              (first ∷ paid ∷ beacon ∷ seizure ++ fee_out ∷ []) coins t.debt_asset (r + fee)
              change_spk att.time (bcoin ∷ [])
        ok (
          tx,
          liquidate_of matured (debt, last) (next_state debt r att.time) r seized att.price fee,
        )

  -- `compose_recover`
  unfoldable pub compose_recover :
      V2Terms
      → State
      → Spend.Coin
      → Text
      → Option ℕ
      → Result Spend.ComposeError (Spend.SpendTx × Summary)
  compose_recover t state vcoin change_spk feerate = do
    raise_if (leb w.median_time t.recover_after) Spend.recover_too_early
    fee ← Spend.fee_for w t.collateral_asset (codes "recover") feerate
    coins ← Spend.wallet_coins w t.collateral_asset fee
    first ← Spend.out vcoin.amount t.lender_spk t.collateral_asset
    fee_out ← Spend.fee fee t.collateral_asset
    tx ←
        Spend.vault_spend w t state vcoin Spend.recover_path (first ∷ fee_out ∷ []) coins
          t.collateral_asset fee change_spk t.recover_after []
    ok (tx, recover_of fee)

  -- `compose_refund`
  unfoldable pub compose_refund :
      Spend.V2Offer
      → Spend.Coin
      → Text
      → Option ℕ
      → Result Spend.ComposeError (Spend.SpendTx × Summary)
  compose_refund offer ocoin change_spk feerate = do
    raise_if (leb w.median_time offer.expiry) Spend.not_expired
    let debt = offer.terms.debt_asset
    fee ← Spend.fee_for w debt (codes "refund") feerate
    coins ← Spend.wallet_coins w debt fee
    first ← Spend.out ocoin.amount offer.terms.lender_spk debt
    rest ← Spend.change coins debt fee change_spk
    fee_out ← Spend.fee fee debt
    let tx = Spend.spend_tx (ocoin ∷ coins) (first ∷ rest ++ fee_out ∷ []) offer.expiry
    raise_if (not (w.runs_offer offer Spend.refund_path tx)) Spend.refused_by_program
    ok (tx, refund_of fee)
