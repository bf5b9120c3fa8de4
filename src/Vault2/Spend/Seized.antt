-- ===== src/Vault2/Spend/Seized.antt =====
-- Proofs on `follow` of pignus/vault2.py after `compose_liquidation`.
use pignus.Prelude.{
  ℕ, ◌+◌, ◌-◌, ◌≤◌, ◌<◌, ◌≡◌, ◌≢◌, Bool, true, Option, List, [], ◌∷◌, ◌++◌, Text, leb, ok,
  Result-cases, inl, inr, arith, codes,
}
use mathlib.Core.Path.{subst}
use pignus.Vault2.Terms.{V2Terms}
use pignus.Vault2.Rule.{Rule, IsDocumented}
use pignus.Vault2.Plan.{LiquidationPlan, check_liquidation, case_of}
use pignus.Vault2.Spend.{
  Coin, Out, SpendTx, World, Record2, out, fee_for, wallet_coins, vault_spend, liquidate_path,
}
use pignus.Vault2.Spend.Compose.{Summary, liquidate_of, next_state, compose_liquidation, seizure_of}
use pignus.Vault2.Spend.Follow.{liquidate, liquidated, follow, spends_beacon}
use pignus.Vault2.Spend.Reads.{decoded, IsSpelled, out_of, out-eq-ok, fee-eq-ok}
use pignus.Vault2.Spend.Held.{IsFollowable, reading_of, IsOfVault, vault_spend-IsOfVault}
use pignus.Vault2.Spend.Seizure.{first_text, first_text-IsSpelled, read_seizure}

module _ (w : World) (leaf : Text) (t : V2Terms) (known : IsFollowable w t) (debt last : ℕ)
    (vcoin : Coin) (change_spk : Text) (feerate : Option ℕ) (stacks : List (List Text)) where
  module _ (rule : Rule) (documented : IsDocumented rule) (att : Record2) (bcoin : Coin)
      (plan : LiquidationPlan) (taker_spk : Text) (matured : Bool) where
    abbrev seized_of : ℕ
    seized_of = vcoin.amount - plan.kept

    -- What a composed liquidation is: the rule accepted it, and its transaction begins so.
    compose_liquidation-eq-ok :
        {tx : SpendTx} {summary : Summary}
        → IsSpelled taker_spk
        → compose_liquidation w rule t
            (debt, last)
            vcoin
            att
            bcoin
            plan
            taker_spk
            change_spk
            matured
            feerate
          ≡ ok (tx, summary)
        → (last < att.time)
          × (1 ≤ plan.repaid)
          × (charged : ℕ) × (more : List Out) × (summary
              ≡ liquidate_of matured
                  (debt, last)
                  (next_state debt plan.repaid att.time)
                  plan.repaid
                  seized_of
                  att.price
                  charged)
          × IsOfVault w leaf t known debt last vcoin stacks tx
              (out_of
                  (first_text w leaf t known debt last vcoin stacks plan.kept seized_of att.time
                    plan.repaid taker_spk).1
                  (first_text w leaf t known debt last vcoin stacks plan.kept seized_of att.time
                    plan.repaid taker_spk).0
                  t.collateral_asset
                ∷ out_of plan.repaid t.lender_spk t.debt_asset
                ∷ more)
              att.time
    unfolding compose_liquidation check_liquidation
    compose_liquidation-eq-ok {tx} {summary} taker e =
        let r = plan.repaid in
        let to =
          first_text w leaf t known debt last vcoin stacks plan.kept seized_of att.time r
            taker_spk in
        let first =
          out-eq-ok to.1 to.0 t.collateral_asset
            (first_text-IsSpelled w leaf t known debt last vcoin stacks plan.kept seized_of att.time
              r taker_spk taker)
            known.collateral in
        let paid = out-eq-ok r t.lender_spk t.debt_asset known.lender known.debt in
        let c = case_of rule t vcoin.amount (debt, last) att.time att.price r plan.kept matured in
        elim (Result-cases (rule.liquidation c)) [
          | inl (x, bad) ↦ absurd (ground arith)
          | inr (ruling, ruled) ↦
              elim (Result-cases (fee_for w t.debt_asset (codes "liquidate") feerate)) [
                | inl (x, bad) ↦ absurd (ground arith)
                | inr (charged, f) ↦
                    elim (Result-cases (wallet_coins w t.debt_asset (r + charged))) [
                      | inl (x, bad) ↦ absurd (ground arith)
                      | inr (coins, k) ↦
                          let charge = fee-eq-ok charged t.debt_asset known.debt in
                          elim (Result-cases (out bcoin.amount bcoin.spk bcoin.asset)) [
                            | inl (x, bad) ↦ absurd (ground arith)
                            | inr (beacon, b) ↦
                                elim (Result-cases
                                  (seizure_of w t plan.kept seized_of (leb debt r) taker_spk)) [
                                    | inl (x, bad) ↦ absurd (ground arith)
                                    | inr (seizure, z) ↦
                                        let more =
                                          beacon ∷ seizure ++ out_of charged [] t.debt_asset ∷ [] in
                                        let outs =
                                          out_of to.1 to.0 t.collateral_asset
                                          ∷ out_of r t.lender_spk t.debt_asset
                                          ∷ more in
                                        let path = liquidate_path att 1 matured in
                                        elim (Result-cases (
                                          vault_spend w t (debt, last) vcoin path outs coins
                                            t.debt_asset (r + charged) change_spk att.time
                                            (bcoin ∷ []))) [
                                              | inl (x, bad) ↦ absurd (ground arith)
                                              | inr (spent, v) ↦
                                                  let same : spent ≡ tx = ground arith in
                                                  let told : summary
                                                      ≡ liquidate_of matured (debt, last)
                                                          (next_state debt r att.time) r seized_of
                                                          att.price charged =
                                                    ground arith in
                                                  let is =
                                                    vault_spend-IsOfVault w leaf t known debt last
                                                      vcoin stacks change_spk path outs coins
                                                      t.debt_asset (r + charged) att.time
                                                      (bcoin ∷ []) {tx = spent} v in
                                                  let (newer, one, keeps) =
                                                    documented.liquidation_checks c
                                                      {ruling = ruling} ruled in
                                                  (
                                                    newer,
                                                    one,
                                                    charged,
                                                    more,
                                                    told,
                                                    subst
                                                        (λ x.
                                                          IsOfVault w leaf t known debt last vcoin
                                                            stacks x outs att.time)
                                                        same is,
                                                  )
                                            ]
                                  ]
                          ]
                    ]
              ]
        ]

    -- Following a liquidation that is composed, with an input that spends a beacon, reads the
    -- summary's next state off it: a successor that owes the rest and counts from the attestation's
    -- time, or a liquidated vault when the whole debt is repaid.
    pub follow-compose_liquidation :
        {tx : SpendTx} {summary : Summary}
        → IsSpelled taker_spk
        → taker_spk ≢ vcoin.spk
        → spends_beacon leaf 0 0 stacks ≡ true
        → compose_liquidation w rule t
            (debt, last)
            vcoin
            att
            bcoin
            plan
            taker_spk
            change_spk
            matured
            feerate
          ≡ ok (tx, summary)
        → (charged : ℕ) × (summary
            ≡ liquidate_of matured
                (debt, last)
                (next_state debt plan.repaid att.time)
                plan.repaid
                seized_of
                att.price
                charged)
          × (follow w.vault_spk leaf t (debt, last) vcoin.spk (decoded tx stacks) 0
              ≡ reading_of liquidate liquidated (next_state debt plan.repaid att.time))
    follow-compose_liquidation {tx} {summary} taker away beaconed e =
        let (newer, one, charged, more, told, is) =
          compose_liquidation-eq-ok {tx = tx} {summary = summary} taker e in
        (
          charged,
          told,
          read_seizure w leaf t known debt last vcoin stacks plan.kept seized_of att.time
              plan.repaid taker_spk more tx newer one away beaconed is,
        )
