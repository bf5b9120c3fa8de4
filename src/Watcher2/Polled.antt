-- ===== src/Watcher2/Polled.antt =====
-- Proofs on what `V2Watcher.poll` of pignus/watcher2.py keeps of the book, however it ends.
use pignus.Prelude.{
  ℕ, ◌≡◌, ◌≢◌, refl, sym, ap, none, some, List, [], ◌∷◌, Text, All, Bool-cases, Result-cases, inl,
  inr, ok, Bool, true, false, if◌then◌else◌, arith, ◌∙◌,
}
use mathlib.Core.Path.{subst}
use mathlib.Core.Logic.{ite, if_pos, if_neg}
use pignus.Vault2.Terms.{V2Terms, State}
use pignus.Vault2.Create.{V2Error}
use pignus.Vault2.Spend.{V2Offer}
use pignus.Watcher2.{Node}
use pignus.Watcher2.Loan.{Loan, reconcile_loan}
use pignus.Watcher2.Named.{IsOffered}
use pignus.Watcher2.Offer.{
  OfferStep, OfferHolds, coin, closed, OfferRec, OpenedLoan, step_on, kept_steps, shown,
  settle_offer, count_of, reconcile_offer,
}
use pignus.Watcher2.Claims.{IsClaimed}
use pignus.Watcher2.Opened.{reconcile_offer-AllTaken}
use pignus.Watcher2.Poll.{
  open_failed, Polled, and_then, is_polled, OfferRec-discrete, open_all, poll_offer, poll_offers,
  poll_loans, poll,
}
use pignus.Watcher2.Followed.{
  IsFollowed, IsSound, reconcile_loan-IsFollowed, put_loan-IsSound, put_offer-IsSound,
  open_v2_loan-IsSound,
}
use pignus.Book.Lines.{BookV2, Offers, Loans, put_offer, put_loan}

shown-offer : (rec : OfferRec) (s : OfferStep) (h : OfferHolds) → (shown rec s h).offer ≡ rec.offer
unfolding shown
shown-offer rec s closed = refl
shown-offer rec s (coin c) = refl

settle_offer-offer :
    (rec : OfferRec) (all : List OfferStep) (os : List OpenedLoan)
    → (settle_offer rec all (count_of os)).offer ≡ rec.offer
unfolding settle_offer
settle_offer-offer rec [] os = refl
settle_offer-offer rec (s ∷ line) os = shown-offer _ s s.holds

reconcile_offer-offer :
    (vault_spk : V2Terms → State → Text) (node : Node) (rec : OfferRec) {out : OfferRec}
    {os : List OpenedLoan}
    → reconcile_offer vault_spk node rec ≡ ok (out, os)
    → out.offer ≡ rec.offer
unfolding reconcile_offer
reconcile_offer-offer vault_spk node rec {out} {os} e =
    elim (Result-cases (step_on vault_spk node rec.offer 64 (kept_steps node rec.line))) [
      | inl (x, bad) ↦ absurd (ground arith)
      | inr ((all, found), ran) ↦
          let settled : settle_offer rec all (count_of found) ≡ out = ground arith in
          ap (λ r. r.offer) (sym settled) ∙ settle_offer-offer rec all found
    ]

module _ (sha256 : Text → Text) (loan_key : V2Terms → Text → ℕ → Text)
    (vault_spk : V2Terms → State → Text) (leaf : Text) where
  abbrev pub Sound : BookV2 → Type 0
  Sound = IsSound vault_spk leaf sha256 loan_key

  -- The book is sound, and no loan's terms were refused.
  abbrev pub IsKept : Polled → Type 0
  IsKept p = Sound p.0 × ((e : V2Error) → p.1 ≢ some (open_failed e))

  and_then-IsKept :
      (p : Polled) (next : BookV2 → Polled)
      → IsKept p
      → ((book : BookV2) → Sound book → IsKept (next book))
      → IsKept (and_then p next)
  and_then-IsKept (book, none) next (sound, quiet) step = step book sound
  and_then-IsKept (book, some e) next kept step = kept

  open_all-IsKept :
      (node : Node) (offer : V2Offer) (line : List OfferStep) (book : BookV2) (os : List OpenedLoan)
      → IsOffered sha256 offer.terms
      → All (IsClaimed vault_spk offer node line) os
      → Sound book
      → IsKept (open_all sha256 loan_key book os)
  unfolding open_all
  open_all-IsKept node offer line book [] offered taken was = (was, λ e failed. cc)
  open_all-IsKept node offer line book (o ∷ os) offered (first, rest) was =
      let (next, rec, opens, sound) =
        open_v2_loan-IsSound vault_spk leaf sha256 loan_key book o offer first.tx first.k offered
          first.taken was in
      rw (opens, open_all) (open_all-IsKept node offer line next os offered rest sound)

  module _ (node : Node) where
    put_changed-IsSound :
        (key : Text) (rec after : OfferRec) (book : BookV2)
        → IsOffered sha256 after.offer.terms
        → Sound book
        → Sound (ite (OfferRec-discrete after rec) book (put_offer book key after))
    put_changed-IsSound key rec after book offered was = elim (OfferRec-discrete after rec) [
      | yes same ↦ rw (if_pos _ same) was
      | no other ↦
          rw (if_neg _ other)
            (put_offer-IsSound vault_spk leaf sha256 loan_key book key after offered was)
    ]

    poll_offer-IsKept :
        (key : Text) (rec : OfferRec) (book : BookV2)
        → IsOffered sha256 rec.offer.terms
        → Sound book
        → IsKept (poll_offer sha256 loan_key vault_spk node key rec book)
    unfolding poll_offer
    poll_offer-IsKept key rec book offered was =
        elim (Result-cases (reconcile_offer vault_spk node rec)) [
          | inl (x, bad) ↦ rw (bad, poll_offer) (was, λ e failed. cc)
          | inr ((after, os), read) ↦
              let same = reconcile_offer-offer vault_spk node rec {out = after} {os = os} read in
              let (taken, count) =
                reconcile_offer-AllTaken vault_spk node rec {out = after} {os = os} read in
              let still = subst (λ (x : V2Offer). IsOffered sha256 x.terms) (sym same) offered in
              rw (read, poll_offer)
                (open_all-IsKept node rec.offer after.line
                  (ite (OfferRec-discrete after rec) book (put_offer book key after)) os offered
                  taken (put_changed-IsSound key rec after book still was))
        ]

    pub poll_offers-IsKept :
        (items : Offers) (book : BookV2)
        → All (λ e. IsOffered sha256 e.1.offer.terms) items
        → Sound book
        → IsKept (poll_offers sha256 loan_key vault_spk node items book)
    unfolding poll_offers
    poll_offers-IsKept [] book offered was = (was, λ e failed. cc)
    poll_offers-IsKept ((key, rec) ∷ items) book (first, rest) was =
        elim (Bool-cases (is_polled rec.status)) [
          | inl polled ↦ rw polled (
              and_then-IsKept (poll_offer sha256 loan_key vault_spk node key rec book)
                (poll_offers sha256 loan_key vault_spk node items)
                (poll_offer-IsKept key rec book first was)
                (λ next sound. poll_offers-IsKept items next rest sound))
          | inr skipped ↦ rw skipped (poll_offers-IsKept items book rest was)
        ]

    if_changed-IsSound :
        (changed : Bool) (key : Text) (after : Loan) (book : BookV2)
        → IsFollowed vault_spk leaf after
        → Sound book
        → Sound (if changed then put_loan book key after else book)
    if_changed-IsSound true key after book new was =
        put_loan-IsSound vault_spk leaf sha256 loan_key book key after new was
    if_changed-IsSound false key after book new was = was

    poll_loans-IsKept :
        (items : Loans) (book : BookV2)
        → All (λ e. IsFollowed vault_spk leaf e.1) items
        → Sound book
        → IsKept (poll_loans vault_spk leaf node items book)
    unfolding poll_loans
    poll_loans-IsKept [] book followed was = (was, λ e failed. cc)
    poll_loans-IsKept ((key, rec) ∷ items) book (first, rest) was =
        elim (Result-cases (reconcile_loan vault_spk leaf node rec)) [
          | inl (x, bad) ↦ rw (bad, poll_loans) (was, λ e failed. cc)
          | inr ((after, changed, log), read) ↦
              let new =
                reconcile_loan-IsFollowed vault_spk leaf node rec {out = (after, changed, log)}
                  first read in
              rw (read, poll_loans)
                (poll_loans-IsKept items (if changed then put_loan book key after else book) rest
                  (if_changed-IsSound changed key after book new was))
        ]

    pub poll-IsSound :
        (book : BookV2) → Sound book → IsKept (poll sha256 loan_key vault_spk leaf node book)
    unfolding poll
    poll-IsSound book was =
        and_then-IsKept (poll_offers sha256 loan_key vault_spk node book.offers book)
          (λ after. poll_loans vault_spk leaf node after.loans after)
          (poll_offers-IsKept book.offers book was.offered was)
          (λ after sound. poll_loans-IsKept after.loans after sound.followed sound)
