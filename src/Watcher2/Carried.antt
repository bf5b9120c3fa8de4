-- ===== src/Watcher2/Carried.antt =====
-- Proofs that recording takes in the book of pignus/book.py, as a poll of pignus/watcher2.py does,
-- leaves the loans that stand there alone, and that recording one again changes nothing.
use pignus.Prelude.{
  ℕ, ◌≡◌, refl, sym, ap, Option, none, some, List, [], ◌∷◌, Text, text_eq, text_eq_iff, Bool-cases,
  Option-cases, Result-cases, inl, inr, ok, arith, ◌∙◌,
}
use mathlib.Core.Path.{subst}
use mathlib.Core.Logic.{ite}
use pignus.Vault2.Terms.{V2Terms, State}
use pignus.Vault2.Create.{post_init}
use pignus.Watcher2.{Node}
use pignus.Watcher2.Loan.{Loan}
use pignus.Watcher2.Offer.{OfferRec, OpenedLoan, reconcile_offer}
use pignus.Watcher2.Poll.{
  Polled, and_then, is_polled, OfferRec-discrete, open_all, poll_offer, poll_offers,
}
use pignus.Book.{find}
use pignus.Book.Fields.{find-store}
use pignus.Book.Stored.{find-store_self}
use pignus.Book.Lines.{
  BookV2, Loans, Offers, put_offer, put_loan, known, opened_loan, register, open_v2_loan,
}

-- Each loan of the book stands in the next one as it was.
abbrev pub Carries : BookV2 → BookV2 → Type 0
Carries book next = (k : Text) (r : Loan) → find book.loans k ≡ some r → find next.loans k ≡ some r

known-eq-none :
    (loans : Loans) (key : Text) (o : OpenedLoan) (hash : Text)
    → known loans key o hash ≡ none
    → find loans key ≡ none
unfolding known
known-eq-none loans key o hash e = elim (Option-cases (find loans key)) [
  | inl nothing ↦ nothing
  | inr (r, there) ↦ absurd (ground arith)
]

put_new-Carries :
    (book : BookV2) (key : Text) (rec : Loan)
    → find book.loans key ≡ none
    → Carries book (put_loan book key rec)
unfolding put_loan
put_new-Carries book key rec nothing k r there =
    find-store book.loans key rec k ∙ elim (Bool-cases (text_eq key k)) [
      | inl same ↦
          let is : key ≡ k = (text_eq_iff key k).0 same in
          let missing : find book.loans k ≡ none = ap (find book.loans) (sym is) ∙ nothing in
          absurd (ground arith)
      | inr other ↦ rw other there
    ]

register-Carries :
    (book : BookV2) (t : V2Terms) (key : Text) (o : OpenedLoan) (hash : Text)
    (there : Option (Text × Loan))
    → known book.loans key o hash ≡ there
    → Carries book (register book t key o [] there).0
unfolding register
register-Carries book t key o hash none e =
    put_new-Carries book key (opened_loan t o) (known-eq-none book.loans key o hash e)
register-Carries book t key o hash (some (k, r)) e = λ j s found. found

known-eq-some :
    (loans : Loans) (key : Text) (o : OpenedLoan) (hash : Text) (rec : Loan)
    → find loans key ≡ some rec
    → known loans key o hash ≡ some (key, rec)
unfolding known
known-eq-some loans key o hash rec there = rw (there, known) refl

register_again :
    (book : BookV2) (t : V2Terms) (key : Text) (o : OpenedLoan) (hash : Text)
    (there : Option (Text × Loan)) {next : BookV2} {rec : Loan}
    → known book.loans key o hash ≡ there
    → register book t key o [] there ≡ (next, rec)
    → register next t key o [] (known next.loans key o hash) ≡ (next, rec)
unfolding register put_loan
register_again book t key o hash none {next} {rec} e made =
    let put : put_loan book key (opened_loan t o) ≡ next = ap (λ (p : BookV2 × Loan). p.0) made in
    let is : opened_loan t o ≡ rec = ap (λ (p : BookV2 × Loan). p.1) made in
    let here : find next.loans key ≡ some (opened_loan t o) =
      ap (λ (b : BookV2). find b.loans key) (sym put)
      ∙ find-store_self book.loans key (opened_loan t o) in
    ap (register next t key o []) (known-eq-some next.loans key o hash (opened_loan t o) here)
    ∙ ap (λ r. (next, r)) is
register_again book t key o hash (some (k, r)) {next} {rec} e made =
    let same : book ≡ next = ap (λ (p : BookV2 × Loan). p.0) made in
    ap (λ (b : BookV2). register b t key o [] (known b.loans key o hash)) (sym same)
    ∙ ap (register book t key o []) e
    ∙ made

module _ (sha256 : Text → Text) (loan_key : V2Terms → Text → ℕ → Text) where
  open_v2_loan-Carries :
      (book : BookV2) (o : OpenedLoan) {next : BookV2} {rec : Loan}
      → open_v2_loan sha256 loan_key book o [] ≡ ok (next, rec)
      → Carries book next
  unfolding open_v2_loan
  open_v2_loan-Carries book o {next} {rec} e =
      let given = record o.terms { borrower_spk = []; borrower_hash = o.borrower_hash } in
      elim (Result-cases (post_init sha256 given)) [
        | inl (x, bad) ↦ absurd (ground arith)
        | inr (t, built) ↦ elim (Result-cases (post_init sha256 (record t { borrower_spk = [] }))) [
          | inl (x, bad) ↦ absurd (ground arith)
          | inr (bare, made) ↦
              let key = loan_key bare o.txid o.vout in
              let there = known book.loans key o t.borrower_hash in
              let is : (register book t key o [] there).0 ≡ next =
                ap (λ (p : BookV2 × Loan). p.0)
                  (let q : register book t key o [] there ≡ (next, rec) = ground arith in q) in
              subst (Carries book) is (register-Carries book t key o t.borrower_hash there refl)
        ]
      ]

  open_again :
      (book : BookV2) (o : OpenedLoan) {next : BookV2} {rec : Loan}
      → open_v2_loan sha256 loan_key book o [] ≡ ok (next, rec)
      → open_v2_loan sha256 loan_key next o [] ≡ ok (next, rec)
  unfolding open_v2_loan
  open_again book o {next} {rec} e =
      let given = record o.terms { borrower_spk = []; borrower_hash = o.borrower_hash } in
      elim (Result-cases (post_init sha256 given)) [
        | inl (x, bad) ↦ absurd (ground arith)
        | inr (t, built) ↦ elim (Result-cases (post_init sha256 (record t { borrower_spk = [] }))) [
          | inl (x, bad) ↦ absurd (ground arith)
          | inr (bare, made) ↦
              let key = loan_key bare o.txid o.vout in
              let there = known book.loans key o t.borrower_hash in
              let is : register book t key o [] there ≡ (next, rec) = ground arith in
              let again : register next t key o [] (known next.loans key o t.borrower_hash)
                  ≡ (next, rec) =
                register_again book t key o t.borrower_hash there refl is in
              rw (built, made) (ap ok again)
        ]
      ]

  -- Recording a take leaves every loan that is in the book under its key as it is there; and recording it
  -- again, as a later poll that reads it again does, leaves the book as the first time left it and returns
  -- the same record.
  pub open_v2_loan_again :
      (book : BookV2) (o : OpenedLoan) {next : BookV2} {rec : Loan}
      → open_v2_loan sha256 loan_key book o [] ≡ ok (next, rec)
      → ((k : Text) (r : Loan) → find book.loans k ≡ some r → find next.loans k ≡ some r)
        × (open_v2_loan sha256 loan_key next o [] ≡ ok (next, rec))
  open_v2_loan_again book o {next} {rec} e =
      (open_v2_loan-Carries book o {next = next} {rec = rec} e, open_again book o e)

  open_all-Carries :
      (book : BookV2) (os : List OpenedLoan) → Carries book (open_all sha256 loan_key book os).0
  unfolding open_all
  open_all-Carries book [] k r there = there
  open_all-Carries book (o ∷ os) k r there =
      elim (Result-cases (open_v2_loan sha256 loan_key book o [])) [
        | inl (x, bad) ↦ rw (bad, open_all) there
        | inr ((next, rec), opens) ↦
            rw (opens, open_all)
              (open_all-Carries next os k r
                (open_v2_loan-Carries book o {next = next} {rec = rec} opens k r there))
      ]

  module _ (vault_spk : V2Terms → State → Text) (node : Node) where
    put_changed-Carries :
        (key : Text) (rec after : OfferRec) (book : BookV2)
        → Carries book (ite (OfferRec-discrete after rec) book (put_offer book key after))
    unfolding put_offer
    put_changed-Carries key rec after book k r there =
        elim (OfferRec-discrete after rec)
          as (λ d. find (ite d book (put_offer book key after)).loans k ≡ some r) [
            | yes same ↦ there
            | no other ↦ there
          ]

    poll_offer-Carries :
        (key : Text) (rec : OfferRec) (book : BookV2)
        → Carries book (poll_offer sha256 loan_key vault_spk node key rec book).0
    unfolding poll_offer
    poll_offer-Carries key rec book k r there =
        elim (Result-cases (reconcile_offer vault_spk node rec)) [
          | inl (x, bad) ↦ rw (bad, poll_offer) there
          | inr ((after, os), read) ↦
              rw (read, poll_offer)
                (open_all-Carries
                  (ite (OfferRec-discrete after rec) book (put_offer book key after)) os k r
                  (put_changed-Carries key rec after book k r there))
        ]

    and_then-Carries :
        (book : BookV2) (p : Polled) (next : BookV2 → Polled)
        → Carries book p.0
        → ((b : BookV2) → Carries b (next b).0)
        → Carries book (and_then p next).0
    and_then-Carries book (b, none) next first step k r there = step b k r (first k r there)
    and_then-Carries book (b, some e) next first step k r there = first k r there

    pub poll_offers-Carries :
        (items : Offers) (book : BookV2)
        → Carries book (poll_offers sha256 loan_key vault_spk node items book).0
    unfolding poll_offers
    poll_offers-Carries [] book k r there = there
    poll_offers-Carries ((key, rec) ∷ items) book k r there =
        elim (Bool-cases (is_polled rec.status)) [
          | inl polled ↦ rw polled (
              and_then-Carries book (poll_offer sha256 loan_key vault_spk node key rec book)
                (poll_offers sha256 loan_key vault_spk node items) (poll_offer-Carries key rec book)
                (λ b. poll_offers-Carries items b) k r there)
          | inr skipped ↦ rw skipped (poll_offers-Carries items book k r there)
        ]
