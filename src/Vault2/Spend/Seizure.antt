-- ===== src/Vault2/Spend/Seizure.antt =====
-- Proofs on `follow` of pignus/vault2.py on a vault that is seized.
use pignus.Prelude.{
  ℕ, ◌-◌, ◌≤◌, ◌<◌, ◌≡◌, ◌≢◌, refl, sym, ap, true, false, none, some, List, ◌∷◌, Text, text_eq, leb,
  ◌==◌, if◌then◌else◌, Bool-cases, inl, inr, arith, ◌∙◌,
}
use pignus.Vault2.Terms.{V2Terms}
use pignus.Vault2.Spend.{Coin, Out, SpendTx, World}
use pignus.Vault2.Spend.Compose.{next_state, first_of}
use pignus.Vault2.Spend.Follow.{closing, liquidate, repaid, liquidated, follow, spends_beacon}
use pignus.Vault2.Spend.Reads.{
  seen, decoded, IsSpelled, out_of, text_eq-false, moved_liquidate, moved_closed,
}
use pignus.Vault2.Spend.Held.{
  IsFollowable, reading_of, IsOfVault, successor_apart, borrower_apart, read_moved, IsOfVault-here,
}

module _ (w : World) (leaf : Text) (t : V2Terms) (known : IsFollowable w t) (debt last : ℕ)
    (vcoin : Coin) (stacks : List (List Text)) where
  module _ (kept seized time r : ℕ) (taker_spk : Text) where
    abbrev pub first_text : Text × ℕ
    first_text = first_of w t debt r kept seized time taker_spk

    pub first_text-IsSpelled : IsSpelled taker_spk → IsSpelled first_text.0
    unfolding first_of
    first_text-IsSpelled taker = elim (Bool-cases (leb debt r)) [
      | inr part ↦ rw part (known.derived (debt - r, time))
      | inl whole ↦ elim (Bool-cases (kept == 0)) [
        | inl nothing ↦ rw whole (rw nothing taker)
        | inr some_kept ↦ rw whole (rw some_kept known.borrower)
      ]
    ]

    -- A close pays the borrower or the taker, at a script that is not the vault's.
    first_text_apart :
        vcoin.spk ≡ w.vault_spk t (debt, last)
        → taker_spk ≢ vcoin.spk
        → debt ≤ r
        → text_eq first_text.0 vcoin.spk ≡ false
    unfolding first_of
    first_text_apart here away whole =
        let all : leb debt r ≡ true = ground arith in
        elim (Bool-cases (kept == 0)) [
          | inl nothing ↦ rw all (rw nothing (text_eq-false taker_spk vcoin.spk away))
          | inr some_kept ↦
              rw all (rw some_kept (borrower_apart w leaf t known debt last vcoin stacks here))
        ]

    first_text_part : r < debt → first_text.0 ≡ w.vault_spk t (debt - r, time)
    unfolding first_of
    first_text_part part = let some_left : leb debt r ≡ false = ground arith in rw some_left refl

    -- A seizure that is composed pays the lender at output 1, behind the first output.
    pub read_seizure :
        (more : List Out) (tx : SpendTx)
        → last < time
        → 1 ≤ r
        → taker_spk ≢ vcoin.spk
        → spends_beacon leaf 0 0 stacks ≡ true
        → IsOfVault w leaf t known debt last vcoin stacks tx
            (out_of first_text.1 first_text.0 t.collateral_asset
              ∷ out_of r t.lender_spk t.debt_asset
              ∷ more)
            time
        → follow w.vault_spk leaf t (debt, last) vcoin.spk (decoded tx stacks) 0
          ≡ reading_of liquidate liquidated (next_state debt r time)
    read_seizure more tx newer one away beaconed is =
        let first = out_of first_text.1 first_text.0 t.collateral_asset in
        let here = IsOfVault-here w leaf t known debt last vcoin stacks tx _ time is in
        let beacon = spends_beacon leaf 0 0 stacks in
        elim (Bool-cases (leb debt r)) [
          | inr part ↦
              let below : r < debt = ground arith in
              let goes = first_text_part below in
              let apart =
                successor_apart w leaf t known debt last vcoin stacks (debt - r) time here
                  (λ (d, l). omega (arith, l, newer)) in
              let other : first.spk ≢ w.vault_spk t (debt - r, last) = λ same.
                let states = known.told_apart (debt - r, time) (debt - r, last) (sym goes ∙ same) in
                let times : time ≡ last = ap (λ s. s.1) states in omega (arith, times, newer) in
              let next : next_state debt r time ≡ some (debt - r, time) = ground arith in
              read_moved w leaf t known debt last vcoin stacks tx first r more time is
                (rw goes apart)
              ∙ moved_liquidate w.vault_spk leaf t debt last r time (seen first) beacon one below
                  goes other
              ∙ ap (reading_of liquidate liquidated) (sym next)
          | inl whole ↦
              let all : debt ≤ r = ground arith in
              let next : next_state debt r time ≡ none = ground arith in
              read_moved w leaf t known debt last vcoin stacks tx first r more time is
                (first_text_apart here away all)
              ∙ moved_closed w.vault_spk leaf t debt last r time (seen first) beacon one all
              ∙ ap (λ b. closing (if b then liquidated else repaid)) beaconed
              ∙ ap (reading_of liquidate liquidated) (sym next)
        ]
