-- ===== src/Vault2/Spend/Held.antt =====
-- Proofs on a composed spend of a vault, of pignus/vault2.py, and how `follow` reads it.
use pignus.Prelude.{
  ℕ, ◌≡◌, ◌≢◌, ap, false, Option, none, some, List, ◌∷◌, ◌++◌, Text, text_eq, ok, ◌∙◌,
}
use pignus.Vault2.Terms.{V2Terms, State}
use pignus.Vault2.Spend.{Coin, Out, SpendTx, World, SpendPath, spend_tx, vault_spend}
use pignus.Vault2.Spend.Follow.{Event, Reading, closing, follow, spends_beacon}
use pignus.Vault2.Spend.Follow.{moved_of}
use pignus.Vault2.Spend.Reads.{
  seen, decoded, IsSpelled, out_of, text_eq-false, vault_spend-eq-ok, follow_moved, paid_to_lender,
}

-- Terms whose texts are spelled as the node prints them and whose vault's scripts are too: one script
-- for each state, and none of them the lender's or the borrower's.
pub record IsFollowable (w : World) (t : V2Terms) : Type 0 where
  pub lender : IsSpelled t.lender_spk
  pub borrower : IsSpelled t.borrower_spk
  pub collateral : IsSpelled t.collateral_asset
  pub debt : IsSpelled t.debt_asset
  pub derived : (s : State) → IsSpelled (w.vault_spk t s)
  pub told_apart : (s s' : State) → w.vault_spk t s ≡ w.vault_spk t s' → s ≡ s'
  pub borrower_apart : (s : State) → t.borrower_spk ≢ w.vault_spk t s
  pub lender_apart : (s : State) → t.lender_spk ≢ w.vault_spk t s
  pub assets_differ : t.collateral_asset ≢ t.debt_asset

-- A successor with its state, or a close.
abbrev pub reading_of : Event → Event → Option State → Reading
reading_of opens closes none = closing closes
reading_of opens closes (some s) = (opens, some s, some 0)

module _ (w : World) (leaf : Text) (t : V2Terms) (known : IsFollowable w t) (debt last : ℕ)
    (vcoin : Coin) (stacks : List (List Text)) where
  -- A composed spend: the coin is the vault in its state, and the transaction's outputs begin so.
  pub IsOfVault : SpendTx → List Out → ℕ → Type 0
  IsOfVault tx outs lock =
      (vcoin.spk ≡ w.vault_spk t (debt, last))
      × (ins : List Coin) × (rest : List Out) × (tx ≡ spend_tx ins (outs ++ rest) lock)

  pub vault_spend-IsOfVault :
      (change_spk : Text) (path : SpendPath) (outs : List Out) (coins : List Coin) (a : Text)
      (n lock : ℕ) (extra : List Coin) {tx : SpendTx}
      → vault_spend w t (debt, last) vcoin path outs coins a n change_spk lock extra ≡ ok tx
      → IsOfVault tx outs lock
  unfolding IsOfVault
  vault_spend-IsOfVault change_spk path outs coins a n lock extra {tx} e =
      let (here, rest, is) =
        vault_spend-eq-ok w t (debt, last) vcoin path outs coins a n change_spk lock extra {tx = tx}
          e in
      (here, _, rest, is)

  -- A successor that owes less or counts from another time has another script.
  pub successor_apart :
      (d l : ℕ)
      → vcoin.spk ≡ w.vault_spk t (debt, last)
      → ((d ≡ debt) × (l ≡ last) → ⊥)
      → text_eq (w.vault_spk t (d, l)) vcoin.spk ≡ false
  successor_apart d l here other = text_eq-false (w.vault_spk t (d, l)) vcoin.spk (λ same.
      let states = known.told_apart (d, l) (debt, last) (same ∙ here) in
      other (ap (λ s. s.0) states, ap (λ s. s.1) states))

  pub borrower_apart :
      vcoin.spk ≡ w.vault_spk t (debt, last) → text_eq t.borrower_spk vcoin.spk ≡ false
  borrower_apart here =
      text_eq-false t.borrower_spk vcoin.spk
        (λ same. known.borrower_apart (debt, last) (same ∙ here))

  -- A spend that pays the lender at output 1 and moves the vault is read by what it pays.
  pub read_moved :
      (tx : SpendTx) (first : Out) (n : ℕ) (more : List Out) (lock : ℕ)
      → IsOfVault tx (first ∷ out_of n t.lender_spk t.debt_asset ∷ more) lock
      → text_eq first.spk vcoin.spk ≡ false
      → follow w.vault_spk leaf t (debt, last) vcoin.spk (decoded tx stacks) 0
        ≡ moved_of w.vault_spk leaf t
            (debt, last)
            n
            lock
            (seen first)
            0
            (spends_beacon leaf 0 0 stacks)
  unfolding IsOfVault
  read_moved tx first n more lock (here, ins, rest, is) moved =
      let second = out_of n t.lender_spk t.debt_asset in
      let paid = paid_to_lender w.vault_spk leaf t debt last n in
      let step =
        follow_moved w.vault_spk leaf t debt last vcoin.spk ins first second (more ++ rest) lock
          stacks moved in
      ap (λ x. follow w.vault_spk leaf t (debt, last) vcoin.spk (decoded x stacks) 0) is
      ∙ step
      ∙ ap
          (λ m.
            moved_of w.vault_spk leaf t (debt, last) m lock (seen first) 0
              (spends_beacon leaf 0 0 stacks))
          paid

  pub IsOfVault-here :
      (tx : SpendTx) (outs : List Out) (lock : ℕ)
      → IsOfVault tx outs lock
      → vcoin.spk ≡ w.vault_spk t (debt, last)
  unfolding IsOfVault
  IsOfVault-here tx outs lock is = is.0
