-- ===== src/Watcher2/Passed.antt =====
-- Proofs on the loans that `V2Watcher.poll` of pignus/watcher2.py leaves in the book when it ends.
use pignus.Prelude.{
  ◌≡◌, refl, sym, ap, Option, none, some, List, [], ◌∷◌, Text, text_eq, text_eq_iff, text_eq_refl,
  Bool-cases, Result-cases, inl, inr, ok, Bool, true, false, if◌then◌else◌, arith, ◌∙◌,
}
use mathlib.Core.Path.{subst}
use pignus.Vault2.Terms.{V2Terms, State}
use pignus.Watcher2.{Node}
use pignus.Watcher2.Loan.{Loan, Logged, reconcile_loan}
use pignus.Watcher2.Poll.{Polled, poll_loans}
use pignus.Book.{find}
use pignus.Book.Stored.{Distinct, find-store_ne, find-store_self}
use pignus.Book.Lines.{BookV2, Loans, put_loan}

put_if : Bool → BookV2 → Text → Loan → BookV2
put_if changed book key after = if changed then put_loan book key after else book

find-put_if_ne :
    (changed : Bool) (book : BookV2) (key k : Text) (after : Loan)
    → text_eq key k ≡ false
    → find (put_if changed book key after).loans k ≡ find book.loans k
unfolding put_if put_loan
find-put_if_ne true book key k after apart = find-store_ne book.loans key k after apart
find-put_if_ne false book key k after apart = refl

find-put_if_self :
    (changed : Bool) (book : BookV2) (key : Text) (rec after : Loan)
    → find book.loans key ≡ some rec
    → find (put_if changed book key after).loans key ≡ some (if changed then after else rec)
unfolding put_if put_loan
find-put_if_self true book key rec after there = find-store_self book.loans key after
find-put_if_self false book key rec after there = there

module _ (vault_spk : V2Terms → State → Text) (leaf : Text) (node : Node) where
  -- What the second loop leaves of a loan: its reconciliation, unless that reports no change.
  pub record IsDone (rec : Loan) (o : Option Loan) : Type 0 where
    pub after : Loan
    pub changed : Bool
    pub log : List Logged
    pub ran : reconcile_loan vault_spk leaf node rec ≡ ok (after, changed, log)
    pub there : o ≡ some (if changed then after else rec)

  -- A key that the loop does not pass is left alone; the loan at one that it passes is reconciled.
  abbrev pub Passed : Loans → BookV2 → BookV2 → Text → Type 0
  Passed items book end k =
      (find items k ≡ none → find end.loans k ≡ find book.loans k)
      × ((r : Loan) → find items k ≡ some r → IsDone r (find end.loans k))

  poll_loans-cons :
      (items : Loans) (book : BookV2) (key : Text) (rec after : Loan) (changed : Bool)
      (log : List Logged)
      → reconcile_loan vault_spk leaf node rec ≡ ok (after, changed, log)
      → poll_loans vault_spk leaf node ((key, rec) ∷ items) book
        ≡ poll_loans vault_spk leaf node items (put_if changed book key after)
  unfolding poll_loans put_if
  poll_loans-cons items book key rec after changed log read = rw (read, poll_loans) refl

  Passed-cons :
      (items : Loans) (book end : BookV2) (key : Text) (rec after : Loan) (changed : Bool)
      (log : List Logged) (k : Text)
      → find items key ≡ none
      → find book.loans key ≡ some rec
      → reconcile_loan vault_spk leaf node rec ≡ ok (after, changed, log)
      → Passed items (put_if changed book key after) end k
      → Passed ((key, rec) ∷ items) book end k
  unfolding find
  Passed-cons items book end key rec after changed log k first there read (others, found) =
      elim (Bool-cases (text_eq key k)) [
        | inl same ↦
            let is : key ≡ k = (text_eq_iff key k).0 same in
            let left : find end.loans k ≡ some (if changed then after else rec) =
              others (ap (find items) (sym is) ∙ first)
              ∙ ap (find (put_if changed book key after).loans) (sym is)
              ∙ find-put_if_self changed book key rec after there in
            (
              λ nothing. absurd (ground arith),
              λ r h.
                  let q : rec ≡ r = ground arith in
                  subst (λ x. IsDone x (find end.loans k)) q
                    record {
                      after = after;
                      changed = changed;
                      log = log;
                      ran = read;
                      there = left;
                    },
            )
        | inr other ↦ (
          λ nothing. others (ground arith) ∙ find-put_if_ne changed book key k after other,
          λ r h. found r (ground arith),
        )
      ]

  abbrev pub Agree : Loans → BookV2 → Type 0
  Agree items book = (k : Text) (r : Loan) → find items k ≡ some r → find book.loans k ≡ some r

  Agree-head :
      (items : Loans) (book : BookV2) (key : Text) (rec : Loan)
      → Agree ((key, rec) ∷ items) book
      → find book.loans key ≡ some rec
  unfolding find
  Agree-head items book key rec agree = agree key rec (rw (text_eq_refl key) refl)

  Agree-tail :
      (items : Loans) (book : BookV2) (key : Text) (rec after : Loan) (changed : Bool)
      → find items key ≡ none
      → Agree ((key, rec) ∷ items) book
      → Agree items (put_if changed book key after)
  unfolding find
  Agree-tail items book key rec after changed first agree k r h =
      elim (Bool-cases (text_eq key k)) [
        | inl same ↦
            let is : key ≡ k = (text_eq_iff key k).0 same in
            let nothing : find items k ≡ none = ap (find items) (sym is) ∙ first in
            absurd (ground arith)
        | inr other ↦ find-put_if_ne changed book key k after other ∙ agree k r (rw other h)
      ]

  pub poll_loans-Passed :
      (items : Loans) (book : BookV2) {end : BookV2}
      → Distinct items
      → Agree items book
      → poll_loans vault_spk leaf node items book ≡ (end, none)
      → (k : Text) → Passed items book end k
  poll_loans-Passed [] book {end} apart agree e k =
      let same : book ≡ end = unfold poll_loans in ap (λ (p : Polled). p.0) e in
      (
        λ nothing. ap (λ (b : BookV2). find b.loans k) (sym same),
        λ r found. unfold find in absurd (ground arith),
      )
  poll_loans-Passed ((key, rec) ∷ items) book {end} (first, apart) agree e k =
      elim (Result-cases (reconcile_loan vault_spk leaf node rec)) [
        | inl (x, bad) ↦ absurd (unfold poll_loans in ground arith)
        | inr ((after, changed, log), read) ↦
            Passed-cons items book end key rec after changed log k first
              (Agree-head items book key rec agree) read
              (poll_loans-Passed items (put_if changed book key after) {end = end} apart
                (Agree-tail items book key rec after changed first agree)
                (sym (poll_loans-cons items book key rec after changed log read) ∙ e) k)
      ]
