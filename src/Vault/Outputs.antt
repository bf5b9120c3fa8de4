-- ===== src/Vault/Outputs.antt =====
-- The outputs that the covenant reads: who is paid what, at which index.
use pignus.Prelude.{
  ℕ, ◌+◌, ◌-◌, ◌<◌, ◌≤◌, max, ◌≡◌, ◌≢◌, ◌⊎◌, Option, some, List, [], ◌∷◌, map, Text, ltb, ltb→lt,
  ◌==◌, ok, Option-cases, Bool-cases, inl, inr, arith, get_elem?,
}
use pignus.Terms.{seizure_at}
use pignus.Oracle.{Signing}
use pignus.Tx.{Output, Entry, pay, Tx, raw_tx, marks_fee, render}
use pignus.Vault.Spender.{Spender, pinned}
use pignus.Vault.Evidence.{Evidence, Leaf, Shown, oracle_evidence}
use pignus.Vault.Exits
use pignus.Vault.Steps.{repay-eq-ok, seizure-eq-ok, recover-eq-ok}
use pignus.Vault.Balance.{take_filler_total}

abbrev pub paid : ℕ → Text → ℕ → Output
paid amount spk asset = record { amount = amount; spk = spk; asset = asset }

-- An output laid down stands where the list has it, since the fee goes to its mark or to the end.
module _ (s : Spender) (r : Exits.Request) (fee locktime : ℕ) where
  assemble_first :
      (o : Output) (es : List Entry)
      → get_elem? (Exits.assemble s r (pay o ∷ es) fee locktime).outs 0 ≡ some o
  unfolding Exits.assemble raw_tx marks_fee render
  assemble_first o es = ground arith

  assemble_second :
      (o p : Output) (es : List Entry)
      → get_elem? (Exits.assemble s r (pay o ∷ pay p ∷ es) fee locktime).outs 1 ≡ some p
  unfolding Exits.assemble raw_tx marks_fee render
  assemble_second o p es = ground arith

-- The surplus and the seizure, where something is left for the borrower.
abbrev pub IsSurplus : Spender → Text → Text → ℕ → ℕ → Option Output → Option Output → Type 0
IsSurplus s borrower taker amount seize first second =
    (back : ℕ) × (kept : ℕ) × (first ≡ some (paid back borrower s.terms.collateral_asset))
    × (second ≡ some (paid kept taker s.terms.collateral_asset))
    × (back + kept ≡ amount)
    × (kept ≤ seize)
    × (s.fee_asset ≡ s.terms.collateral_asset → (s.dust_fold ≤ back) × (s.dust_fold ≤ kept))

-- The whole collateral seized, behind an output that is no collateral.
abbrev pub IsWhole : Spender → Text → ℕ → Option Output → Option Output → Type 0
IsWhole s taker amount first second =
    (o : Output) × (first ≡ some o)
    × (o.asset ≢ s.terms.collateral_asset)
    × (second ≡ some (paid amount taker s.terms.collateral_asset))

module _ (s : Spender) (r : Exits.Request) (fee locktime : ℕ) (credit : Output) where
  outs_of : List Entry → List Output
  outs_of es = (Exits.assemble s r (pay credit ∷ es) fee locktime).outs

  with_surplus-IsSurplus :
      (borrower taker : Text) (amount seize : ℕ) (rest : List Output) {es : List Entry}
      → seize < amount
      → Exits.with_surplus s borrower taker amount seize rest ≡ ok es
      → IsSurplus s borrower taker amount seize
          (get_elem? (outs_of es) 1)
          (get_elem? (outs_of es) 2)
  unfolding Exits.with_surplus outs_of Exits.assemble raw_tx marks_fee render
  with_surplus-IsSurplus borrower taker amount seize rest {es} lt e =
      elim (Bool-cases (s.fee_asset == s.terms.collateral_asset)) [
        | inl same ↦
            let lifted = max (amount - seize) s.dust_fold in
            (
              lifted,
              amount - lifted,
              ground arith,
              ground arith,
              ground arith,
              ground arith,
              ground arith,
            )
        | inr other ↦ (
          amount - seize,
          seize,
          ground arith,
          ground arith,
          ground arith,
          ground arith,
          ground arith,
        )
      ]

  under_water-IsWhole :
      (taker : Text) (amount : ℕ) (rest : List Output) {es : List Entry}
      → Exits.under_water s taker amount rest ≡ ok es
      → IsWhole s taker amount (get_elem? (outs_of es) 1) (get_elem? (outs_of es) 2)
  unfolding Exits.under_water outs_of Exits.assemble raw_tx marks_fee render
  under_water-IsWhole taker amount rest {es} e =
      elim (Bool-cases (s.fee_asset == s.terms.collateral_asset)) [
        | inl same ↦ elim (Option-cases (Exits.take_filler s.terms.collateral_asset rest)) [
          | inl absent ↦ absurd (ground arith)
          | inr ((f, others), found) ↦ (
            f,
            ground arith,
            (take_filler_total s.terms.collateral_asset 0 rest found).1,
            ground arith,
          )
        ]
        | inr other ↦ (paid fee [] s.fee_asset, ground arith, ground arith, ground arith)
      ]

-- Whenever a repayment is composed, output 0 pays the lender's pinned script the whole debt in the
-- debt asset, and output 1 pays the borrower's pinned script everything the vault coin holds in the
-- collateral asset.
repay_outputs :
    (s : Spender) (r : Exits.Request) {tx : Tx}
    → Exits.repay s r ≡ ok tx
    → (spks : Text × Text) × (pinned s ≡ ok spks)
      × (get_elem? tx.outs 0 ≡ some (paid s.terms.debt spks.0 s.terms.debt_asset))
      × (get_elem? tx.outs 1 ≡ some (paid r.vault.amount spks.1 s.terms.collateral_asset))
repay_outputs s r {tx} e =
    let (spks, rest, fee, changed, eq, pins) = repay-eq-ok s r e in
    (
      spks,
      pins,
      rw eq (assemble_first s r fee 0 _ _),
      rw eq (assemble_second s r fee 0 _ _ (map pay rest)),
    )

-- Whenever a seizure is composed, it is at a price that the evidence supports, output 0 pays the
-- lender's pinned script the whole debt, and then: where the seizure at that price is less than the
-- coin, output 1 returns to the borrower's pinned script at least the coin less the seizure, output
-- 2 pays the taker the rest of the coin, and neither is below the dust threshold when the fee is in
-- the collateral asset; otherwise output 2 pays the taker the whole coin, and output 1 is in
-- another asset than the collateral.
pub seizure_outputs :
    (c : Signing) (s : Spender) (r : Exits.Request) (evidence : Evidence) (taker : Text)
    (leaf : Leaf) (locktime : ℕ) {tx : Tx}
    → Exits.seizure c s r evidence taker leaf locktime ≡ ok tx
    → (price : ℕ) × (shown : Shown) × (seize : ℕ) × (spks : Text × Text) × (oracle_evidence c s
          evidence leaf
        ≡ ok (price, shown))
      × (seizure_at s.terms price ≡ ok seize)
      × (pinned s ≡ ok spks)
      × (get_elem? tx.outs 0 ≡ some (paid s.terms.debt spks.0 s.terms.debt_asset))
      × (((seize < r.vault.amount)
            × IsSurplus s spks.1 taker r.vault.amount seize
                (get_elem? tx.outs 1)
                (get_elem? tx.outs 2))
          ⊎ ((r.vault.amount ≤ seize)
              × IsWhole s taker r.vault.amount (get_elem? tx.outs 1) (get_elem? tx.outs 2)))
unfolding Exits.seizure_outs outs_of
seizure_outputs c s r evidence taker leaf locktime {tx} e =
    let p = seizure-eq-ok c s r evidence taker leaf locktime e in
    let credit = paid s.terms.debt p.spks.0 s.terms.debt_asset in
    (
      p.price,
      p.shown,
      p.seize,
      p.spks,
      p.attested,
      p.seizes,
      p.pins,
      rw p.composed (assemble_first s r p.fee locktime credit p.outs),
      elim (Bool-cases (ltb p.seize r.vault.amount)) [
        | inl some_left ↦
            let lt = ltb→lt p.seize r.vault.amount some_left in
            inl (
              lt,
              rw p.composed (
                  with_surplus-IsSurplus s r p.fee locktime credit p.spks.1 taker r.vault.amount
                    p.seize p.rest lt (rw some_left at p.laid)),
            )
        | inr none_left ↦ inr (
          ground arith,
          rw p.composed (
              under_water-IsWhole s r p.fee locktime credit taker r.vault.amount p.rest
                (rw none_left at p.laid)),
        )
      ],
    )

-- Whenever a recovery is composed, output 0 pays the lender's pinned script everything the vault
-- coin holds, and the transaction's lock time is at least `recover_after`.
recover_outputs :
    (s : Spender) (r : Exits.Request) (locktime : Option ℕ) {tx : Tx}
    → Exits.recover s r locktime ≡ ok tx
    → (spks : Text × Text) × (pinned s ≡ ok spks)
      × (get_elem? tx.outs 0 ≡ some (paid r.vault.amount spks.0 s.terms.collateral_asset))
      × (s.terms.recover_after ≤ tx.locktime)
unfolding Exits.assemble raw_tx
recover_outputs s r locktime {tx} e =
    let (spks, rest, fee, late, pins, _, _, eq) = recover-eq-ok s r locktime e in
    (
      spks,
      pins,
      rw eq (
          assemble_first s r fee (Exits.locktime_or locktime s.terms.recover_after) _
            (map pay rest)),
      rw eq late,
    )
