-- ===== src/Watcher2/Ends.antt =====
-- Proofs on where the two loops of `reconcile_loan` of pignus/watcher2.py end.
use pignus.Prelude.{
  ℕ, zero, suc, ◌+◌, ◌≤◌, ◌≡◌, ◌⊎◌, ◌↔◌, inl, inr, refl, sym, ap, Option, none, some, List, [], ◌∷◌,
  Text, length, All, Option-cases, Result-cases, ok, arith, ◌∙◌,
}
use mathlib.Core.Path.{subst}
use pignus.Vault2.Terms.{V2Terms, State}
use pignus.Vault2.Spend.Follow.{follow}
use pignus.Watcher2.{ChainTx, Node, Where, gone, in_block, in_mempool, or_height, where_is, spender}
use pignus.Watcher2.Found.{IsShown, Spends, spender-eq-none_iff}
use pignus.Watcher2.Loan.{
  Step, VaultCoin, Holds, coin, closed, Loan, LoanState, Undone, Logged, undo_newest, undo,
  reopened, reopen, step_of, read_spend, next_step, advance, most_steps, reconcile_loan, Reconciled,
  ghost,
}
use pignus.Watcher2.Sight.{IsGone, IsOutOfSight, IsGone-IsOutOfSight_iff, All-IsGone_iff}
use pignus.Watcher2.Run.{HasRun, nothing_left, went_on, opened_again, reconcile_loan-HasRun}
use pignus.Watcher2.Sound.{advance-keeps, append_some, settle-eqs}

undo_newest-nil :
    (s : Step) (line : List Step) (rest : Undone) (w : Where)
    → (undo_newest s line rest w).0 ≡ []
    → (w ≡ gone) × (rest.0 ≡ [])
unfolding undo_newest
undo_newest-nil s line rest gone e = (refl, e)
undo_newest-nil s line rest (in_block h bh) e = absurd (ground arith)
undo_newest-nil s line rest in_mempool e = absurd (ground arith)

undo-nil : (node : Node) (line : List Step) → (undo node line).0 ≡ [] ↔ All (IsGone node) line
unfolding undo undo_newest
undo-nil node [] = (λ e. tt, λ a. refl)
undo-nil node (s ∷ line) = (
  λ e.
      let (left, none_kept) =
        undo_newest-nil s line (undo node line) (where_is node s.txid s.place) e in
      (left, (undo-nil node line).0 none_kept),
  λ (left, others).
      ap (λ w. (undo_newest s line (undo node line) w).0) left ∙ (undo-nil node line).1 others,
)

reopened-nil : (s : Step) (w : Where) → (reopened s w ≡ []) ↔ (w ≡ gone)
unfolding reopened
reopened-nil s gone = (λ e. refl, λ e. refl)
reopened-nil s (in_block h bh) = (λ e. absurd (ground arith), λ e. absurd (ground arith))
reopened-nil s in_mempool = (λ e. absurd (ground arith), λ e. absurd (ground arith))

reopen-nil : (node : Node) (s : Step) → (reopen node (some s) ≡ []) ↔ IsGone node s
unfolding reopen
reopen-nil node s = reopened-nil s (where_is node s.txid s.place)

-- The newest step is the last one: it closed the vault, or the node has its coin unspent, or nothing
-- that the node shows from the coin's own block on spends it.
pub data IsLast (node : Node) (s : Step) : Type 0 where
  was_closed : (state : LoanState) → s.holds ≡ closed state → IsLast node s
  unspent :
      (c : VaultCoin) (conf : ℕ)
      → s.holds ≡ coin c
      → node.gettxout s.txid c.vout ≡ some conf
      → IsLast node s
  unseen :
      (c : VaultCoin)
      → s.holds ≡ coin c
      → ((tx : ChainTx) (k : ℕ) (w : Where)
          → IsShown node (or_height s.place.height node.tip) tx w
          → Spends tx k s.txid c.vout
          → ⊥)
      → IsLast node s

module _ (vault_spk : V2Terms → State → Text) (leaf : Text) (node : Node) where
  read_spend-none :
      (t : V2Terms) (c : VaultCoin) (found : Option (ChainTx × ℕ × Where))
      → read_spend vault_spk leaf node t c found ≡ ok none
      → found ≡ none
  unfolding read_spend
  read_spend-none t c none e = refl
  read_spend-none t c (some (tx, k, w)) e =
      elim (Result-cases
        (step_of tx w (follow vault_spk leaf t (c.debt, c.last_time) c.spk tx.decoded k))) [
          | inl (x, bad) ↦ absurd (ground arith)
          | inr (made, m) ↦ absurd (ground arith)
        ]

  next_step-none :
      (t : V2Terms) (s : Step) (h : Holds)
      → s.holds ≡ h
      → next_step vault_spk leaf node t s h ≡ ok none
      → IsLast node s
  unfolding next_step
  next_step-none t s (closed state) holds e = was_closed state holds
  next_step-none t s (coin c) holds e =
      let from_height = or_height s.place.height node.tip in
      elim (Option-cases (node.gettxout s.txid c.vout)) [
        | inr (conf, there) ↦ unspent c conf holds there
        | inl spent ↦
            let none_found : spender node s.txid c.vout from_height ≡ none =
              read_spend-none t c _ (ground arith) in
            unseen c holds ((spender-eq-none_iff node s.txid c.vout from_height).0 none_found)
      ]

  -- Where going forward stops: at the last step, or after its rounds.
  abbrev Stops : ℕ → ℕ → List Step → Type 0
  Stops n before all =
      ((s : Step) × (rest : List Step) × (all ≡ s ∷ rest) × IsLast node s)
      ⊎ (length all ≡ n + before)

  advance-Stops :
      (t : V2Terms) (n : ℕ) (cur : Step) (line all : List Step) (log : List Logged)
      → advance vault_spk leaf node t n (cur ∷ line) ≡ ok (all, log)
      → Stops n (length (cur ∷ line)) all
  unfolding advance
  advance-Stops t zero cur line all log e =
      let same : cur ∷ line ≡ all = ground arith in inr (ap length (sym same) ∙ (omega arith))
  advance-Stops t (suc n) cur line all log e =
      elim (Result-cases (next_step vault_spk leaf node t cur cur.holds)) [
        | inl (x, bad) ↦ absurd (ground arith)
        | inr (none, last) ↦
            let same : cur ∷ line ≡ all = ground arith in
            inl (cur, line, sym same, next_step-none t cur cur.holds refl last)
        | inr (some s, next) ↦
            elim (Result-cases (advance vault_spk leaf node t n (s ∷ cur ∷ line))) [
              | inl (x, bad) ↦ absurd (ground arith)
              | inr ((whole, more), rest) ↦
                  let same : whole ≡ all = ground arith in
                  elim (advance-Stops t n s (cur ∷ line) whole more rest) [
                    | inl (newest, others, is, last) ↦ inl (newest, others, sym same ∙ is, last)
                    | inr count ↦ inr (ap length (sym same) ∙ count ∙ (omega arith))
                  ]
            ]
      ]

  HasRun-nil :
      (rec : Loan) (opening : Step) (out : Reconciled)
      → rec.opening ≡ some opening
      → HasRun vault_spk leaf node rec out
      → (out.0.line ≡ []) ↔ (All (IsGone node) rec.line × IsGone node opening)
  HasRun-nil rec opening _ kept (nothing_left all_gone opening_gone) = (
    λ e. (
      (undo-nil node rec.line).0 all_gone,
      (reopen-nil node opening).0 (ap (reopen node) (sym kept) ∙ opening_gone),
    ),
    λ both. refl,
  )
  HasRun-nil rec opening _ kept (went_on s line all more is ran) =
      let (new, whole) =
        advance-keeps vault_spk leaf node rec.terms most_steps (s ∷ line) all more ran in
      let (same, terms, opens) = settle-eqs rec all in
      (
        λ e. absurd (append_some new s line (sym whole ∙ sym same ∙ e)),
        λ (steps_gone, first_gone).
            absurd (append_some [] s line (sym is ∙ (undo-nil node rec.line).1 steps_gone)),
      )
  HasRun-nil rec opening _ kept (opened_again s line all more is again ran) =
      let (new, whole) =
        advance-keeps vault_spk leaf node rec.terms most_steps (s ∷ line) all more ran in
      let (same, terms, opens) = settle-eqs (record rec { line = []; state = some ghost }) all in
      (
        λ e. absurd (append_some new s line (sym whole ∙ sym same ∙ e)),
        λ (steps_gone, first_gone). absurd (
            append_some [] s line
              (sym again ∙ ap (reopen node) kept ∙ (reopen-nil node opening).1 first_gone)),
      )

  HasRun-ghost :
      (rec : Loan) (out : Reconciled)
      → HasRun vault_spk leaf node rec out
      → out.0.line ≡ []
      → out.0.state ≡ some ghost
  HasRun-ghost rec _ (nothing_left all_gone opening_gone) e = refl
  HasRun-ghost rec _ (went_on s line all more is ran) e =
      let (new, whole) =
        advance-keeps vault_spk leaf node rec.terms most_steps (s ∷ line) all more ran in
      let (same, terms, opens) = settle-eqs rec all in
      absurd (append_some new s line (sym whole ∙ sym same ∙ e))
  HasRun-ghost rec _ (opened_again s line all more is again ran) e =
      let (new, whole) =
        advance-keeps vault_spk leaf node rec.terms most_steps (s ∷ line) all more ran in
      let (same, terms, opens) = settle-eqs (record rec { line = []; state = some ghost }) all in
      absurd (append_some new s line (sym whole ∙ sym same ∙ e))

  -- A reconciliation leaves no step exactly when the transactions behind every step and behind the
  -- opening are out of sight: the mempool has them not, the blocks that they were last seen in are not in
  -- the chain, and no block from ten below the heights that they were last seen at up to the tip has
  -- them. Such a loan is left a ghost.
  pub reconcile_loan-eq-nil_iff :
      (rec : Loan) (opening : Step) {out : Reconciled}
      → rec.opening ≡ some opening
      → reconcile_loan vault_spk leaf node rec ≡ ok out
      → ((out.0.line ≡ []) ↔ (All (IsOutOfSight node) rec.line × IsOutOfSight node opening))
        × (out.0.line ≡ [] → out.0.state ≡ some ghost)
  reconcile_loan-eq-nil_iff rec opening {out} kept e =
      let ran = reconcile_loan-HasRun vault_spk leaf node rec out e in
      let (to, back) = HasRun-nil rec opening out kept ran in
      let (all_to, all_back) = All-IsGone_iff node rec.line in
      let (one_to, one_back) = IsGone-IsOutOfSight_iff node opening in
      (
        (
          λ empty. let (a, b) = to empty in (all_to a, one_to b),
          λ (a, b). back (all_back a, one_back b),
        ),
        HasRun-ghost rec out ran,
      )

  HasRun-Stops :
      (rec : Loan) (out : Reconciled)
      → HasRun vault_spk leaf node rec out
      → (out.0.line ≡ []) ⊎ ((before : ℕ) × Stops most_steps (suc before) out.0.line)
  HasRun-Stops rec _ (nothing_left all_gone opening_gone) = inl refl
  HasRun-Stops rec _ (went_on s line all more is ran) =
      let (same, terms, opens) = settle-eqs rec all in
      inr (
        length line,
        subst (Stops most_steps (suc (length line))) (sym same)
            (advance-Stops rec.terms most_steps s line all more ran),
      )
  HasRun-Stops rec _ (opened_again s line all more is again ran) =
      let (same, terms, opens) = settle-eqs (record rec { line = []; state = some ghost }) all in
      inr (
        length line,
        subst (Stops most_steps (suc (length line))) (sym same)
            (advance-Stops rec.terms most_steps s line all more ran),
      )

  -- A reconciliation that leaves at most 64 steps ends at the last one: the newest step closed the
  -- vault, or the node has its coin unspent, or nothing that the node shows from the coin's block on,
  -- mined or in the mempool, spends the coin.
  pub reconcile_loan-IsLast :
      (rec : Loan) {out : Reconciled} (s : Step) (line : List Step)
      → reconcile_loan vault_spk leaf node rec ≡ ok out
      → out.0.line ≡ s ∷ line
      → length out.0.line ≤ most_steps
      → IsLast node s
  reconcile_loan-IsLast rec {out} s line e newest few =
      elim (HasRun-Stops rec out (reconcile_loan-HasRun vault_spk leaf node rec out e)) [
        | inl nothing ↦ absurd (append_some [] s line (sym newest ∙ nothing))
        | inr (before, inr count) ↦ absurd (omega (arith, count, few))
        | inr (before, inl (last, rest, is, ends)) ↦
            let same : last ≡ s = ground (arith, sym is ∙ newest) in subst (IsLast node) same ends
      ]
