-- ===== src/Watcher2/Poll.antt =====
-- `V2Watcher.poll` of pignus/watcher2.py on the version 2 tables of pignus/book.py. What a poll wrote
-- before a record failed stays written, so the book comes back with the failure; the events and the
-- times in the records are left out.
use pignus.Prelude.{
  ℕ, Bool, true, false, Option, none, some, List, [], ◌∷◌, Text, if◌then◌else◌, ok, err,
}
use mathlib.Core.Logic.{ite}
use native.Mathlib.Decide.{ℕ_discrete}
use pignus.Vault2.Terms.{V2Terms, State}
use pignus.Vault2.Create.{V2Error}
use pignus.Watcher2.{Node}
use pignus.Watcher2.Loan.{WatchError, reconcile_loan}
use pignus.Watcher2.Offer.{
  OfferRec, OfferStatus, OpenedLoan, OfferError, open_offer, ghost, taken, refunded, gone_offer,
  reconcile_offer,
}
use pignus.Book.Lines.{BookV2, Offers, Loans, put_offer, put_loan, open_v2_loan}

-- What a poll raises.
pub data PollError : Type 0 where
  offer_failed : OfferError → PollError
  open_failed : V2Error → PollError
  loan_failed : WatchError → PollError

-- The book, and what ended the poll early.
abbrev pub Polled : Type 0
Polled = BookV2 × Option PollError

-- The statements after some, which do not run after a raise.
abbrev pub and_then : Polled → (BookV2 → Polled) → Polled
and_then (book, none) next = next book
and_then (book, some e) next = (book, some e)

-- `status in ("open", "ghost", "taken", "refunded")`
unfoldable pub is_polled : OfferStatus → Bool
is_polled open_offer = true
is_polled ghost = true
is_polled taken = true
is_polled refunded = true
is_polled gone_offer = false

-- `==` on two records of an offer
unfoldable pub OfferRec-discrete : Discrete OfferRec
OfferRec-discrete = hlevel (ℕ_discrete)

module _ (sha256 : Text → Text) (loan_key : V2Terms → Text → ℕ → Text) where
  -- The loans that takes opened, written to the book.
  unfoldable pub open_all : BookV2 → List OpenedLoan → Polled
  open_all book [] = (book, none)
  open_all book (o ∷ os) = elim (open_v2_loan sha256 loan_key book o []) [
    | err e ↦ (book, some (open_failed e))
    | ok (next, rec) ↦ open_all next os
  ]

  module _ (vault_spk : V2Terms → State → Text) (node : Node) where
    -- One round of the first loop.
    unfoldable pub poll_offer : Text → OfferRec → BookV2 → Polled
    poll_offer key rec book = elim (reconcile_offer vault_spk node rec) [
      | err e ↦ (book, some (offer_failed e))
      | ok (after, opened) ↦
          open_all (ite (OfferRec-discrete after rec) book (put_offer book key after)) opened
    ]

    -- The first loop, over the offers as they were.
    unfoldable pub poll_offers : Offers → BookV2 → Polled
    poll_offers [] book = (book, none)
    poll_offers ((key, rec) ∷ items) book =
        if is_polled rec.status
        then and_then (poll_offer key rec book) (poll_offers items)
        else poll_offers items book

module _ (vault_spk : V2Terms → State → Text) (leaf : Text) (node : Node) where
  -- The second loop, over the loans as the first one left them.
  unfoldable pub poll_loans : Loans → BookV2 → Polled
  poll_loans [] book = (book, none)
  poll_loans ((key, rec) ∷ items) book = elim (reconcile_loan vault_spk leaf node rec) [
    | err e ↦ (book, some (loan_failed e))
    | ok (after, changed, log) ↦
        poll_loans items (if changed then put_loan book key after else book)
  ]

-- `V2Watcher.poll`
unfoldable pub poll :
    (Text → Text)
    → (V2Terms → Text → ℕ → Text)
    → (V2Terms → State → Text)
    → Text
    → Node
    → BookV2
    → Polled
poll sha256 loan_key vault_spk leaf node book =
    and_then (poll_offers sha256 loan_key vault_spk node book.offers book)
      λ after. poll_loans vault_spk leaf node after.loans after
