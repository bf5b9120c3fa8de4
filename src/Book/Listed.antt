-- ===== src/Book/Listed.antt =====
-- Proofs on `put_offer_v2` of pignus/book.py.
use pignus.Prelude.{◌≡◌, ◌⊎◌, [], ◌∷◌, codes, true, false, none, some, Text, text_eq}
use pignus.Vault2.Spend.{V2Offer}
use pignus.Watcher2.{Place}
use pignus.Watcher2.Offer.{OfferCoin, OfferHolds, OfferRec, open_offer}
use pignus.Book.{find}
use pignus.Book.Lines.{BookV2, has_offer_coin}

-- An open offer of which nothing is taken, held by the coin that funds it, its line being that coin's.
pub record IsFunded (offer : V2Offer) (txid : Text) (c : OfferCoin) (place : Place) (rec : OfferRec)
    : Type 0 where
  pub the_offer : rec.offer ≡ offer
  pub is_open_offer : rec.status ≡ open_offer
  pub untaken : rec.taken ≡ 0
  pub held : rec.held ≡ some (txid, c, text_eq place.kind (codes "block"))
  pub line :
      rec.line ≡ record { txid = txid; event = none; place = place; holds = OfferHolds.coin c } ∷ []

-- The offer stands under its key with a coin in its line, as the record that stood there or as a new
-- one that the coin funds, and nothing else has changed.
pub record IsListed (book next : BookV2) (key txid : Text) (offer : V2Offer) (c : OfferCoin)
    (place : Place) (rec : OfferRec) : Type 0 where
  pub stands : find next.offers key ≡ some rec
  pub at_coin : has_offer_coin txid c.vout rec.line ≡ true
  pub known_or_new : (find book.offers key ≡ some rec) ⊎ IsFunded offer txid c place rec
  pub others : (k : Text) → text_eq key k ≡ false → find next.offers k ≡ find book.offers k
  pub loans : next.loans ≡ book.loans
