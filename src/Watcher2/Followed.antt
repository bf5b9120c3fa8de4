-- ===== src/Watcher2/Followed.antt =====
-- Proofs on the loans and offers that the book of pignus/book.py keeps, through the operations that a
-- poll of pignus/watcher2.py makes on them.
use pignus.Prelude.{ℕ, ◌≡◌, refl, sym, ap, Option, none, some, [], Text, All, ok, arith, ◌∙◌}
use mathlib.Core.Path.{subst}
use pignus.Vault2.Terms.{V2Terms, State}
use pignus.Vault2.Spend.{V2Offer}
use pignus.Watcher2.{ChainTx, Node}
use pignus.Watcher2.Loan.{Step, VaultCoin, coin, Loan, reconcile_loan, Reconciled}
use pignus.Watcher2.Kept.{opened_at}
use pignus.Watcher2.Sound.{
  HasFields, IsWatched, Shows-HasFields, reconcile_loan-Shows, reconcile_loan-IsWatched,
}
use pignus.Watcher2.Owed.{reconcile_loan-terms}
use pignus.Watcher2.Named.{IsOffered, taken_terms, taken-post_init}
use pignus.Watcher2.Claimed.{IsTaken}
use pignus.Watcher2.Offer.{OpenedLoan, OfferRec}
use pignus.Book.Stored.{Distinct, store-Distinct, store-All}
use pignus.Book.Lines.{
  BookV2, put_offer, put_loan, known, opening_coin, opening_step, opened_loan, register,
  open_v2_loan,
}

module _ (vault_spk : V2Terms → State → Text) (leaf : Text) where
  -- The record of a loan that is followed from its opening at the script of its state.
  pub record IsFollowed (rec : Loan) : Type 0 where
    pub opening : Step
    pub start : VaultCoin
    pub watched : IsWatched vault_spk leaf opening rec
    pub opens : opening.holds ≡ coin start
    pub derived : start.spk ≡ vault_spk rec.terms (start.debt, start.last_time)
    pub fields : HasFields rec rec.line

  pub reconcile_loan-IsFollowed :
      (node : Node) (rec : Loan) {out : Reconciled}
      → IsFollowed rec
      → reconcile_loan vault_spk leaf node rec ≡ ok out
      → IsFollowed out.0
  reconcile_loan-IsFollowed node rec {out} was e = record {
    opening = was.opening;
    start = was.start;
    watched =
        reconcile_loan-IsWatched vault_spk leaf node was.opening rec {out = out} was.watched e;
    opens = was.opens;
    derived =
        subst (λ t. was.start.spk ≡ vault_spk t (was.start.debt, was.start.last_time))
          (sym (reconcile_loan-terms vault_spk leaf node rec {out = out} e)) was.derived;
    fields =
        Shows-HasFields out.0 out.0.line
          (reconcile_loan-Shows vault_spk leaf node rec {out = out} e);
  }

  opened_loan-IsFollowed :
      (t : V2Terms) (o : OpenedLoan)
      → o.spk ≡ vault_spk t (o.debt, o.last_time)
      → IsFollowed (opened_loan t o)
  unfolding opened_loan
  opened_loan-IsFollowed t o script = record {
    opening = opening_step o;
    start = opening_coin o;
    watched = record { kept = refl; is_line = opened_at o.place };
    opens = refl;
    derived = script;
    fields = λ c e.
        let same : opening_coin o ≡ c = ground arith in
        record {
          debt = ap (λ x. x.debt) same;
          last_time = ap (λ x. x.last_time) same;
          collateral = ap (λ x. x.amount) same;
          txid = refl;
          vout = ap (λ x. x.vout) same;
        };
  }

  module _ (sha256 : Text → Text) (loan_key : V2Terms → Text → ℕ → Text) where
    -- The book keeps each loan once and followed, and its offers under terms of an offer.
    pub record IsSound (book : BookV2) : Type 0 where
      pub offered : All (λ e. IsOffered sha256 e.1.offer.terms) book.offers
      pub followed : All (λ e. IsFollowed e.1) book.loans
      pub distinct : Distinct book.loans

    pub put_loan-IsSound :
        (book : BookV2) (key : Text) (rec : Loan)
        → IsFollowed rec
        → IsSound book
        → IsSound (put_loan book key rec)
    unfolding put_loan
    put_loan-IsSound book key rec new was = record {
      offered = was.offered;
      followed = store-All IsFollowed book.loans key rec was.followed new;
      distinct = store-Distinct book.loans key rec was.distinct;
    }

    pub put_offer-IsSound :
        (book : BookV2) (key : Text) (rec : OfferRec)
        → IsOffered sha256 rec.offer.terms
        → IsSound book
        → IsSound (put_offer book key rec)
    unfolding put_offer
    put_offer-IsSound book key rec new was = record {
      offered = store-All (λ r. IsOffered sha256 r.offer.terms) book.offers key rec was.offered new;
      followed = was.followed;
      distinct = was.distinct;
    }

    register-IsSound :
        (book : BookV2) (t : V2Terms) (key : Text) (o : OpenedLoan) (there : Option (Text × Loan))
        → o.spk ≡ vault_spk t (o.debt, o.last_time)
        → IsSound book
        → IsSound (register book t key o [] there).0
    unfolding register
    register-IsSound book t key o none script was =
        put_loan-IsSound book key (opened_loan t o) (opened_loan-IsFollowed t o script) was
    register-IsSound book t key o (some (k, r)) script was = was

    -- A take is recorded under the terms of its offer with the borrower's hash.
    pub open_v2_loan-take :
        (book : BookV2) (o : OpenedLoan) (offer : V2Offer) (tx : ChainTx) (k : ℕ)
        → IsOffered sha256 offer.terms
        → IsTaken vault_spk offer tx k o
        → let t = taken_terms o.terms o.borrower_hash in
          let key = loan_key t o.txid o.vout in
          open_v2_loan sha256 loan_key book o []
          ≡ ok (register book t key o [] (known book.loans key o t.borrower_hash))
    unfolding open_v2_loan
    open_v2_loan-take book o offer tx k offered is =
        let built =
          taken-post_init sha256 o.terms o.borrower_hash
            (subst (IsOffered sha256) (sym is.terms) offered) is.borrower in
        rw (built, built) refl

    pub open_v2_loan-IsSound :
        (book : BookV2) (o : OpenedLoan) (offer : V2Offer) (tx : ChainTx) (k : ℕ)
        → IsOffered sha256 offer.terms
        → IsTaken vault_spk offer tx k o
        → IsSound book
        → (next : BookV2) × (rec : Loan) × (open_v2_loan sha256 loan_key book o [] ≡ ok (next, rec))
          × IsSound next
    open_v2_loan-IsSound book o offer tx k offered is was =
        let t = taken_terms o.terms o.borrower_hash in
        let key = loan_key t o.txid o.vout in
        let there = known book.loans key o t.borrower_hash in
        let none_yet : o.terms.borrower_spk ≡ [] =
          ap (λ (u : V2Terms). u.borrower_spk) is.terms ∙ offered.no_borrower in
        let script : o.spk ≡ vault_spk t (o.debt, o.last_time) =
          subst
            (λ spk.
              o.spk
              ≡ vault_spk (record o.terms { borrower_spk = spk; borrower_hash = o.borrower_hash })
                  (o.debt, o.last_time))
            none_yet is.script in
        (
          (register book t key o [] there).0,
          (register book t key o [] there).1,
          open_v2_loan-take book o offer tx k offered is,
          register-IsSound book t key o there script was,
        )
