-- ===== src/Vault2/Spend/Reads.antt =====
-- Proofs on what `follow` of pignus/vault2.py reads off a transaction with two outputs or more.
use pignus.Prelude.{
  ℕ, ◌-◌, ◌≤◌, ◌<◌, ◌≡◌, ◌≢◌, refl, Bool, true, false, some, List, [], ◌∷◌, ◌++◌, map, Text,
  text_eq, text_eq_iff, text_eq_refl, if◌then◌else◌, ok, Result-cases, inl, inr, arith,
}
use pignus.Vault2.Terms.{V2Terms, State}
use pignus.Vault2.Spend.{
  Coin, Out, SpendTx, World, SpendPath, spelled, out, fee, spend_tx, change, vault_spend,
}
use pignus.Vault2.Spend.Follow.{
  Decoded, DecodedTx, closing, Seen, repay, liquidate, repaid, liquidated, recovered, top_up,
  out_at, carries, paid_at, spends_beacon, successor_of, moved_of, follow,
}

-- A composed transaction as it decodes, with the inputs' witnesses.
abbrev pub decoded_out : Out → Decoded
decoded_out o = record { value = some o.amount; asset = some o.asset; spk = o.spk }

abbrev pub decoded : SpendTx → List (List Text) → DecodedTx
decoded tx stacks = record {
  outs = map decoded_out tx.outs;
  witnesses = stacks;
  locktime = tx.locktime;
}

abbrev pub seen : Out → Seen
seen o = record { amount = o.amount; asset = some o.asset; spk = o.spk }

-- A text spelled as the node prints it.
abbrev pub IsSpelled : Text → Type 0
IsSpelled s = spelled s ≡ ok s

abbrev pub out_of : ℕ → Text → Text → Out
out_of amount spk asset = record { amount = amount; spk = spk; asset = asset }

pub out-eq-ok :
    (n : ℕ) (spk asset : Text)
    → IsSpelled spk
    → IsSpelled asset
    → out n spk asset ≡ ok (out_of n spk asset)
unfolding out
out-eq-ok n spk asset s a = rw s (rw a refl)

pub fee-eq-ok : (n : ℕ) (asset : Text) → IsSpelled asset → fee n asset ≡ ok (out_of n [] asset)
unfolding fee
fee-eq-ok n asset a = rw a refl

pub text_eq-false : (s t : Text) → s ≢ t → text_eq s t ≡ false
text_eq-false s t ne = ground (arith, text_eq_iff s t)

-- A spend that is composed is of this vault, with the outputs given and the change behind them.
pub vault_spend-eq-ok :
    (w : World) (t : V2Terms) (state : State) (vcoin : Coin) (path : SpendPath) (outs : List Out)
    (coins : List Coin) (a : Text) (n : ℕ) (change_spk : Text) (locktime : ℕ) (extra : List Coin)
    {tx : SpendTx}
    → vault_spend w t state vcoin path outs coins a n change_spk locktime extra ≡ ok tx
    → (vcoin.spk ≡ w.vault_spk t state)
      × (rest : List Out) × (tx ≡ spend_tx (vcoin ∷ extra ++ coins) (outs ++ rest) locktime)
unfolding vault_spend
vault_spend-eq-ok w t state vcoin path outs coins a n change_spk locktime extra e =
    elim (Result-cases (change coins a n change_spk)) [
      | inl (x, bad) ↦ absurd (ground arith)
      | inr (rest, left) ↦
          (ground (arith, text_eq_iff vcoin.spk (w.vault_spk t state)), rest, ground arith)
    ]

module _ (vault_spk : V2Terms → State → Text) (leaf : Text) (t : V2Terms) (debt last : ℕ) where
  pub follow_moved :
      (coin_spk : Text) (ins : List Coin) (first second : Out) (more : List Out) (lock : ℕ)
      (stacks : List (List Text))
      → text_eq first.spk coin_spk ≡ false
      → follow vault_spk leaf t
          (debt, last)
          coin_spk
          (decoded (spend_tx ins (first ∷ second ∷ more) lock) stacks)
          0
        ≡ moved_of vault_spk leaf t
            (debt, last)
            (paid_at t (some (seen second)))
            lock
            (seen first)
            0
            (spends_beacon leaf 0 0 stacks)
  unfolding follow out_at spend_tx
  follow_moved coin_spk ins first second more lock stacks ne = rw ne refl

  pub follow_in_place :
      (coin_spk : Text) (ins : List Coin) (first : Out) (more : List Out) (lock : ℕ)
      (stacks : List (List Text))
      → text_eq first.spk coin_spk ≡ true
      → text_eq first.asset t.collateral_asset ≡ true
      → follow vault_spk leaf t
          (debt, last)
          coin_spk
          (decoded (spend_tx ins (first ∷ more) lock) stacks)
          0
        ≡ (top_up, some (debt, last), some 0)
  unfolding follow out_at spend_tx
  follow_in_place coin_spk ins first more lock stacks s a = rw s (rw a refl)

  pub paid_to_lender : (n : ℕ) → paid_at t (some (seen (out_of n t.lender_spk t.debt_asset))) ≡ n
  unfolding paid_at
  paid_to_lender n = rw (text_eq_refl t.lender_spk) (rw (text_eq_refl t.debt_asset) refl)

  pub paid_in_other :
      (n : ℕ) (spk asset : Text)
      → text_eq asset t.debt_asset ≡ false
      → paid_at t (some (seen (out_of n spk asset))) ≡ 0
  unfolding paid_at
  paid_in_other n spk asset ne = ground arith

  -- A payment of less than the debt that keeps the last time.
  pub moved_repay :
      (paid lock : ℕ) (main : Seen) (beacon : Bool)
      → 1 ≤ paid
      → paid < debt
      → main.spk ≡ vault_spk t (debt - paid, last)
      → moved_of vault_spk leaf t (debt, last) paid lock main 0 beacon
        ≡ (repay, some (debt - paid, last), some 0)
  unfolding moved_of successor_of
  moved_repay paid lock main beacon one part there =
      let same = (text_eq_iff main.spk (vault_spk t (debt - paid, last))).1 there in ground arith

  -- A payment of less than the debt that sets the last time.
  pub moved_liquidate :
      (paid lock : ℕ) (main : Seen) (beacon : Bool)
      → 1 ≤ paid
      → paid < debt
      → main.spk ≡ vault_spk t (debt - paid, lock)
      → main.spk ≢ vault_spk t (debt - paid, last)
      → moved_of vault_spk leaf t (debt, last) paid lock main 0 beacon
        ≡ (liquidate, some (debt - paid, lock), some 0)
  unfolding moved_of successor_of
  moved_liquidate paid lock main beacon one part there other =
      let same = (text_eq_iff main.spk (vault_spk t (debt - paid, lock))).1 there in
      let differs = text_eq-false main.spk (vault_spk t (debt - paid, last)) other in ground arith

  -- A payment of the whole debt.
  pub moved_closed :
      (paid lock : ℕ) (main : Seen) (beacon : Bool)
      → 1 ≤ paid
      → debt ≤ paid
      → moved_of vault_spk leaf t (debt, last) paid lock main 0 beacon
        ≡ closing (if beacon then liquidated else repaid)
  unfolding moved_of
  moved_closed paid lock main beacon one whole = ground arith

  -- The collateral to the lender, with no payment.
  pub moved_recovered :
      (lock : ℕ) (main : Seen) (beacon : Bool)
      → main.spk ≡ t.lender_spk
      → carries main t.collateral_asset ≡ true
      → moved_of vault_spk leaf t (debt, last) 0 lock main 0 beacon ≡ closing recovered
  unfolding moved_of
  moved_recovered lock main beacon there it =
      let same = (text_eq_iff main.spk t.lender_spk).1 there in ground arith
