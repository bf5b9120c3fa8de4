-- ===== src/Vault2/Spend/Moved.antt =====
-- Proofs on `follow` of pignus/vault2.py after `compose_top_up` and `compose_recover`.
use pignus.Prelude.{
  ℕ, ◌+◌, ◌<◌, ◌≡◌, refl, sym, ap, Option, some, List, [], ◌∷◌, ◌++◌, Text, text_eq_iff,
  text_eq_refl, ok, Result-cases, inl, inr, arith, codes, ◌∙◌,
}
use pignus.Vault2.Terms.{V2Terms}
use pignus.Vault2.Spend.{
  Coin, Out, SpendTx, World, spelled, out, fee_for, wallet_coins, vault_spend, top_up_path,
  recover_path,
}
use pignus.Vault2.Spend.Compose.{Summary, top_up_of, compose_top_up, compose_recover}
use pignus.Vault2.Spend.Follow.{closing, recovered, top_up, follow, spends_beacon}
use pignus.Vault2.Spend.Follow.{moved_of}
use pignus.Vault2.Spend.Reads.{
  seen, decoded, out_of, out-eq-ok, fee-eq-ok, text_eq-false, vault_spend-eq-ok, follow_moved,
  follow_in_place, paid_in_other, moved_recovered,
}
use pignus.Vault2.Spend.Held.{IsFollowable}

out-inv :
    (n : ℕ) (spk asset : Text) {o : Out}
    → out n spk asset ≡ ok o
    → (spelled spk ≡ ok o.spk) × (spelled asset ≡ ok o.asset)
unfolding out
out-inv n spk asset {o} e = elim (Result-cases (spelled spk)) [
  | inl (x, bad) ↦ absurd (ground arith)
  | inr (s, good) ↦ elim (Result-cases (spelled asset)) [
    | inl (x, bad) ↦ absurd (ground arith)
    | inr (a, fine) ↦ (ground arith, ground arith)
  ]
]

-- A text is spelled in one way.
spelled_unique : (s : Text) {a b : Text} → spelled s ≡ ok a → spelled s ≡ ok b → a ≡ b
spelled_unique s p q = cc

module _ (w : World) (leaf : Text) (t : V2Terms) (known : IsFollowable w t) (debt last : ℕ)
    (vcoin : Coin) (change_spk : Text) (feerate : Option ℕ) (stacks : List (List Text)) where
  -- Following a top-up that is composed reads the vault's own state off it, in place.
  pub follow-compose_top_up :
      (amount : ℕ) {tx : SpendTx} {summary : Summary}
      → compose_top_up w t (debt, last) vcoin amount change_spk feerate ≡ ok (tx, summary)
      → (charged : ℕ) × (summary ≡ top_up_of (debt, last) amount charged)
        × (follow w.vault_spk leaf t (debt, last) vcoin.spk (decoded tx stacks) 0
            ≡ (top_up, some (debt, last), some 0))
  unfolding compose_top_up
  follow-compose_top_up amount {tx} {summary} e =
      elim (Result-cases (fee_for w t.collateral_asset (codes "top_up") feerate)) [
        | inl (x, bad) ↦ absurd (ground arith)
        | inr (charged, f) ↦
            let charge = fee-eq-ok charged t.collateral_asset known.collateral in
            elim (Result-cases (wallet_coins w t.collateral_asset (amount + charged))) [
              | inl (x, bad) ↦ absurd (ground arith)
              | inr (coins, k) ↦
                  elim (Result-cases (out (vcoin.amount + amount) vcoin.spk t.collateral_asset)) [
                    | inl (x, bad) ↦ absurd (ground arith)
                    | inr (first, o) ↦
                        let (spk, asset) =
                          out-inv (vcoin.amount + amount) vcoin.spk t.collateral_asset {o = first}
                            o in
                        let outs = first ∷ out_of charged [] t.collateral_asset ∷ [] in
                        elim (Result-cases (
                          vault_spend w t (debt, last) vcoin top_up_path outs coins
                            t.collateral_asset (amount + charged) change_spk 0 [])) [
                              | inl (x, bad) ↦ absurd (ground arith)
                              | inr (spent, v) ↦
                                  let same : spent ≡ tx = ground arith in
                                  let told : summary ≡ top_up_of (debt, last) amount charged =
                                    ground arith in
                                  let (here, rest, is) =
                                    vault_spend-eq-ok w t (debt, last) vcoin top_up_path outs coins
                                      t.collateral_asset (amount + charged) change_spk 0 []
                                      {tx = spent} v in
                                  let spells : spelled vcoin.spk ≡ ok vcoin.spk =
                                    rw here (known.derived (debt, last)) in
                                  let to : first.spk ≡ vcoin.spk =
                                    spelled_unique vcoin.spk spk spells in
                                  let of : first.asset ≡ t.collateral_asset =
                                    spelled_unique t.collateral_asset asset known.collateral in
                                  (
                                    charged,
                                    told,
                                    ap
                                          (λ x.
                                            follow w.vault_spk leaf t (debt, last) vcoin.spk
                                              (decoded x stacks) 0)
                                          (sym same ∙ is)
                                        ∙ follow_in_place w.vault_spk leaf t debt last vcoin.spk
                                            (vcoin ∷ [] ++ coins) first
                                            (out_of charged [] t.collateral_asset ∷ rest) 0 stacks
                                            ((text_eq_iff first.spk vcoin.spk).1 to)
                                            ((text_eq_iff first.asset t.collateral_asset).1 of),
                                  )
                            ]
                  ]
            ]
      ]

  -- Following a recovery that is composed reads that the collateral was recovered.
  pub follow-compose_recover :
      {tx : SpendTx} {summary : Summary}
      → compose_recover w t (debt, last) vcoin change_spk feerate ≡ ok (tx, summary)
      → (t.recover_after < w.median_time)
        × (follow w.vault_spk leaf t (debt, last) vcoin.spk (decoded tx stacks) 0
            ≡ closing recovered)
  unfolding compose_recover
  follow-compose_recover {tx} {summary} e =
      elim (Result-cases (fee_for w t.collateral_asset (codes "recover") feerate)) [
        | inl (x, bad) ↦ absurd (ground arith)
        | inr (charged, f) ↦
            let charge = fee-eq-ok charged t.collateral_asset known.collateral in
            let paid =
              out-eq-ok vcoin.amount t.lender_spk t.collateral_asset known.lender
                known.collateral in
            let first = out_of vcoin.amount t.lender_spk t.collateral_asset in
            let second = out_of charged [] t.collateral_asset in
            elim (Result-cases (wallet_coins w t.collateral_asset charged)) [
              | inl (x, bad) ↦ absurd (ground arith)
              | inr (coins, k) ↦
                  elim (Result-cases (
                    vault_spend w t (debt, last) vcoin recover_path (first ∷ second ∷ []) coins
                      t.collateral_asset charged change_spk t.recover_after [])) [
                        | inl (x, bad) ↦ absurd (ground arith)
                        | inr (spent, v) ↦
                            let same : spent ≡ tx = ground arith in
                            let (here, rest, is) =
                              vault_spend-eq-ok w t (debt, last) vcoin recover_path
                                (first ∷ second ∷ []) coins t.collateral_asset charged change_spk
                                t.recover_after [] {tx = spent} v in
                            let apart =
                              text_eq-false t.lender_spk vcoin.spk
                                (λ it. known.lender_apart (debt, last) (it ∙ here)) in
                            let other =
                              text_eq-false t.collateral_asset t.debt_asset known.assets_differ in
                            let none_paid =
                              paid_in_other w.vault_spk leaf t debt last charged []
                                t.collateral_asset other in
                            (
                              ground arith,
                              ap
                                    (λ x.
                                      follow w.vault_spk leaf t (debt, last) vcoin.spk
                                        (decoded x stacks) 0)
                                    (sym same ∙ is)
                                  ∙ follow_moved w.vault_spk leaf t debt last vcoin.spk
                                      (vcoin ∷ [] ++ coins) first second rest t.recover_after stacks
                                      apart
                                  ∙ ap
                                      (λ n.
                                        moved_of w.vault_spk leaf t (debt, last) n t.recover_after
                                          (seen first) 0 (spends_beacon leaf 0 0 stacks))
                                      none_paid
                                  ∙ moved_recovered w.vault_spk leaf t debt last t.recover_after
                                      (seen first) (spends_beacon leaf 0 0 stacks) refl
                                      (text_eq_refl t.collateral_asset),
                            )
                      ]
            ]
      ]
