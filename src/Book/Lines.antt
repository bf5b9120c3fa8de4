-- ===== src/Book/Lines.antt =====
-- The version 2 records of pignus/book.py: the tables of offers and loans, `put_v2`, `put_offer_v2`
-- and `open_v2_loan`. SHA-256, an offer's id and a loan's key are parameters.
use pignus.Prelude.{
  ℕ, Bool, false, not, ◌&&◌, Option, none, some, List, [], ◌∷◌, Text, text_eq, is_empty, ◌==◌,
  if◌then◌else◌, Result, ok, err, ◌>>=◌, codes,
}
use pignus.Vault2.Terms.{V2Terms}
use pignus.Vault2.Create.{V2Error, post_init}
use pignus.Vault2.Spend.{V2Offer}
use pignus.Watcher2.{Place}
use pignus.Watcher2.Loan
use pignus.Watcher2.Loan.{Step, VaultCoin, Holds, Loan, unconfirmed}
use pignus.Watcher2.Offer
use pignus.Watcher2.Offer.{
  OfferCoin, OfferStep, OfferHolds, OfferStatus, OfferRec, OpenedLoan, open_offer,
}
use pignus.Book.{find, store}

abbrev pub Loans : Type 0
Loans = List (Text × Loan)

abbrev pub Offers : Type 0
Offers = List (Text × OfferRec)

-- `offers_v2` and `loans_v2`, whose items are those of `v2_items`.
pub record BookV2 : Type 0 where
  pub offers : Offers
  pub loans : Loans

-- `put_v2`, of an offer and of a loan
unfoldable pub put_offer : BookV2 → Text → OfferRec → BookV2
put_offer book key rec = record { offers = store book.offers key rec; loans = book.loans }

unfoldable pub put_loan : BookV2 → Text → Loan → BookV2
put_loan book key rec = record { offers = book.offers; loans = store book.loans key rec }

-- `OfferExists`
pub data OfferExists : Type 0 where
  listed_elsewhere : OfferExists

-- Whether an offer's step left the output `vout`.
unfoldable pub leaves_out : OfferHolds → ℕ → Bool
leaves_out Offer.closed vout = false
leaves_out (Offer.coin c) vout = c.vout == vout

unfoldable pub has_offer_coin : Text → ℕ → List OfferStep → Bool
has_offer_coin txid vout [] = false
has_offer_coin txid vout (s ∷ line) =
    let rest = has_offer_coin txid vout line in
    if text_eq s.txid txid && leaves_out s.holds vout then Bool.true else rest

unfoldable pub is_open : OfferStatus → Bool
is_open open_offer = Bool.true
is_open OfferStatus.ghost = false
is_open OfferStatus.taken = false
is_open OfferStatus.refunded = false
is_open OfferStatus.gone_offer = false

-- The record of an offer that a coin funds.
unfoldable pub funded_offer : V2Offer → Text → OfferCoin → Place → OfferRec
funded_offer offer txid c place = record {
  offer = offer;
  line = record { txid = txid; event = none; place = place; holds = Offer.coin c } ∷ [];
  status = open_offer;
  taken = 0;
  held = some (txid, c, text_eq place.kind (codes "block"));
}

-- What `put_offer_v2` does by the record that has the id already.
unfoldable pub list_offer :
    BookV2
    → Text
    → OfferRec
    → Text
    → OfferCoin
    → Option OfferRec
    → Result OfferExists (BookV2 × OfferRec)
list_offer book key rec txid c none = ok (put_offer book key rec, rec)
list_offer book key rec txid c (some old) =
    if has_offer_coin txid c.vout old.line
    then ok (book, old)
    else if is_open old.status
    then err listed_elsewhere
    else ok (put_offer book key rec, rec)

-- `put_offer_v2`
unfoldable pub put_offer_v2 :
    (V2Offer → Text)
    → BookV2
    → V2Offer
    → Text
    → OfferCoin
    → Place
    → Result OfferExists (BookV2 × OfferRec)
put_offer_v2 offer_id book offer txid c place =
    let key = offer_id offer in
    list_offer book key (funded_offer offer txid c place) txid c (find book.offers key)

-- Whether a loan's step left the output `vout`.
unfoldable pub leaves_vault : Holds → ℕ → Bool
leaves_vault (Loan.closed state) vout = false
leaves_vault (Loan.coin c) vout = c.vout == vout

-- Whether a line has an outpoint.
unfoldable pub has_coin : Text → ℕ → List Step → Bool
has_coin txid vout [] = false
has_coin txid vout (s ∷ line) =
    let rest = has_coin txid vout line in
    if text_eq s.txid txid && leaves_vault s.holds vout then Bool.true else rest

-- The first loan of a borrower's hash whose line has an outpoint, with its key.
unfoldable pub following : Text → ℕ → Text → Loans → Option (Text × Loan)
following txid vout hash [] = none
following txid vout hash ((k, r) ∷ loans) =
    let rest = following txid vout hash loans in
    if has_coin txid vout r.line && text_eq r.terms.borrower_hash hash then some (k, r) else rest

-- The loan that an opening is already in the book as.
unfoldable pub known : Loans → Text → OpenedLoan → Text → Option (Text × Loan)
known loans key o hash = elim (find loans key) [
  | some r ↦ some (key, r)
  | none ↦ following o.txid o.vout hash loans
]

abbrev pub opening_coin : OpenedLoan → VaultCoin
opening_coin o = record {
  vout = o.vout;
  amount = o.amount;
  asset = o.asset;
  spk = o.spk;
  debt = o.debt;
  last_time = o.last_time;
}

-- The step that opens a loan, whose event `open` is no reading of a spend.
abbrev pub opening_step : OpenedLoan → Step
opening_step o = record {
  txid = o.txid;
  event = none;
  place = o.place;
  holds = Loan.coin (opening_coin o);
}

unfoldable pub opened_loan : V2Terms → OpenedLoan → Loan
opened_loan terms o = record {
  terms = terms;
  line = opening_step o ∷ [];
  opening = some (opening_step o);
  state = some unconfirmed;
  debt = o.debt;
  last_time = o.last_time;
  collateral = o.amount;
  txid = o.txid;
  vout = o.vout;
}

-- The book and the record returned, by the loan that the opening is known as.
unfoldable pub register :
    BookV2 → V2Terms → Text → OpenedLoan → Text → Option (Text × Loan) → BookV2 × Loan
register book terms key o spk none = let rec = opened_loan terms o in (put_loan book key rec, rec)
register book terms key o spk (some (k, r)) =
    let named = record r { terms = terms } in
    if not (is_empty spk) && is_empty r.terms.borrower_spk
    then (put_loan book k named, named)
    else (book, r)

-- `open_v2_loan`, whose terms and those of the key are built by the terms' constructor.
unfoldable pub open_v2_loan :
    (Text → Text)
    → (V2Terms → Text → ℕ → Text)
    → BookV2
    → OpenedLoan
    → Text
    → Result V2Error (BookV2 × Loan)
open_v2_loan sha256 loan_key book o spk = do
  terms ← post_init sha256 (record o.terms { borrower_spk = spk; borrower_hash = o.borrower_hash })
  bare ← post_init sha256 (record terms { borrower_spk = [] })
  let key = loan_key bare o.txid o.vout
  ok (register book terms key o spk (known book.loans key o terms.borrower_hash))
