-- ===== src/Watcher2/Current.antt =====
-- Proofs on the loans that `V2Watcher.poll` of pignus/watcher2.py leaves in the book when it ends.
use pignus.Prelude.{
  ℕ, Bool, ◌≤◌, ◌≡◌, refl, ap, none, some, List, ◌∷◌, Text, length, ok, true, false, if◌then◌else◌,
  arith, ◌∙◌,
}
use pignus.Vault2.Terms.{V2Terms, State}
use pignus.Watcher2.{Node}
use pignus.Watcher2.Loan.{Step, VaultCoin, coin, Loan, Logged, most_steps, reconcile_loan}
use pignus.Watcher2.Sound.{Shows}
use pignus.Watcher2.Owed.{IsOwed}
use pignus.Watcher2.Ends.{IsLast}
use pignus.Watcher2.Unchanged.{reconcile_loan_unchanged}
use pignus.Watcher2.Poll.{Polled, and_then, poll_offers, poll_loans, poll}
use pignus.Watcher2.Followed.{IsFollowed, IsSound}
use pignus.Watcher2.Polled.{poll_offers-IsKept}
use pignus.Watcher2.Passed.{poll_loans-Passed}
use pignus.Watcher2.Carried.{poll_offers-Carries}
use pignus.Book.{find}
use pignus.Book.Stored.{find-All}
use pignus.Book.Lines.{BookV2}

and_then-eq-none :
    (p : Polled) (next : BookV2 → Polled) {end : BookV2}
    → and_then p next ≡ (end, none)
    → next p.0 ≡ (end, none)
and_then-eq-none (book, none) next e = e
and_then-eq-none (book, some x) next e = absurd (ground arith)

module _ (vault_spk : V2Terms → State → Text) (leaf : Text) (node : Node) where
  -- The record is what reconciling another left.
  pub record IsReconciled (before after : Loan) : Type 0 where
    pub changed : Bool
    pub log : List Logged
    pub ran : reconcile_loan vault_spk leaf node before ≡ ok (after, changed, log)

  done-IsReconciled :
      (before after r : Loan) (changed : Bool) (log : List Logged)
      → IsFollowed vault_spk leaf before
      → reconcile_loan vault_spk leaf node before ≡ ok (after, changed, log)
      → (if changed then after else before) ≡ r
      → IsReconciled before r
  done-IsReconciled before after r true log was e is = record {
    changed = true;
    log = log;
    ran = e ∙ ap (λ x. ok (x, true, log)) is;
  }
  done-IsReconciled before after r false log was e is =
      let same =
        reconcile_loan_unchanged vault_spk leaf node before {after = after} {log = log} was.fields
          e in
      record { changed = false; log = log; ran = e ∙ ap (λ x. ok (x, false, log)) (same.0 ∙ is) }

  -- What the record owes while its newest coin holds the vault, counted from its opening coin.
  pub record Owes (r : Loan) (s : Step) (line : List Step) (c : VaultCoin) : Type 0 where
    pub opening : Step
    pub start : VaultCoin
    pub kept : r.opening ≡ some opening
    pub opens : opening.holds ≡ coin start
    pub owed : IsOwed vault_spk leaf node r.terms r opening s line start c

  -- The record shows its line, which goes on to the last spend that the node shows, and says what the
  -- newest coin's script owes.
  pub record IsCurrent (r : Loan) : Type 0 where
    pub shows : Shows r r.line
    pub ends :
        (s : Step) (line : List Step)
        → r.line ≡ s ∷ line
        → length r.line ≤ most_steps
        → IsLast node s
    pub owes :
        (s : Step) (line : List Step) (c : VaultCoin)
        → r.line ≡ s ∷ line
        → s.holds ≡ coin c
        → Owes r s line c

  module _ (sha256 : Text → Text) (loan_key : V2Terms → Text → ℕ → Text) where
    -- What a poll's second loop leaves at a key, by what the first loop left there.
    poll-left :
        (book : BookV2) {end : BookV2}
        → IsSound vault_spk leaf sha256 loan_key book
        → poll sha256 loan_key vault_spk leaf node book ≡ (end, none)
        → (k : Text)
        → let mid = (poll_offers sha256 loan_key vault_spk node book.offers book).0 in
          (find mid.loans k ≡ none → find end.loans k ≡ none)
          × ((before : Loan)
              → find mid.loans k ≡ some before
              → IsFollowed vault_spk leaf before
                × (r : Loan) × (find end.loans k ≡ some r)
                × IsReconciled before r)
    unfolding poll
    poll-left book {end} was e k =
        let first = poll_offers sha256 loan_key vault_spk node book.offers book in
        let mid = first.0 in
        let sound =
          (poll_offers-IsKept sha256 loan_key vault_spk leaf node book.offers book was.offered
            was).0 in
        let ran =
          and_then-eq-none first (λ after. poll_loans vault_spk leaf node after.loans after)
            {end = end} e in
        let (others, passed) =
          poll_loans-Passed vault_spk leaf node mid.loans mid {end = end} sound.distinct
            (λ j r h. h) ran k in
        (
          λ nothing. others nothing ∙ nothing,
          λ before there.
              let done = passed before there in
              let followed =
                find-All (IsFollowed vault_spk leaf) mid.loans k sound.followed there in
              (
                followed,
                if done.changed then done.after else before,
                done.there,
                done-IsReconciled before done.after (if done.changed then done.after else before)
                    done.changed done.log followed done.ran refl,
              ),
        )

    -- A poll of a sound book that ends without a failure leaves every loan that stood in the book there
    -- under its key, as the reconciliation of the loan's record left it.
    pub poll_reconciles :
        (book : BookV2) {end : BookV2}
        → IsSound vault_spk leaf sha256 loan_key book
        → poll sha256 loan_key vault_spk leaf node book ≡ (end, none)
        → (k : Text) (before : Loan) → find book.loans k ≡ some before
        → (r : Loan) × (find end.loans k ≡ some r) × IsReconciled before r
    poll_reconciles book {end} was e k before there =
        let carried =
          poll_offers-Carries sha256 loan_key vault_spk node book.offers book k before there in
        let (followed, r, stands, did) = (poll-left book {end = end} was e k).1 before carried in
        (r, stands, did)
