-- ===== src/Book/Tests.antt =====
-- The theorems on the ratchet of a take's status, at a sample book.
use pignus.Prelude.{ℕ, ◌+◌, ◌≤◌, ◌≡◌, refl, some, [], ◌∷◌, codes, ok, inr, List, Text}
use pignus.Book.{
  as_text, Rec, Takes, txt, num, find, store, updated_with, wanted, is_terminal, rank, index_from,
  check_step, written, update_found, update_btc_take,
}
use pignus.Book.Lots.{
  Book, text_or, holds_lot, held_lots, lots_left, lots_of, lots_taken, completed, take_by_funding,
  put_btc_take,
}
use pignus.Book.Sold.{Holding, put_btc_take_fits}
use pignus.Book.Reached.{IsAhead, begun, reported, Reached-IsAhead}

abbrev take : Rec
take = (codes "status", txt (codes "signed")) ∷ (codes "created", num 5) ∷ []

abbrev takes : Takes
takes = (codes "t1", take) ∷ []

-- A replayed report of an earlier step.
abbrev replayed : Rec
replayed = (codes "status", txt (codes "reserved")) ∷ (codes "h_p", txt (codes "ab")) ∷ []

-- The next step, to live.
abbrev gone_live : Rec
gone_live = (codes "status", txt (codes "live")) ∷ []

abbrev live_take : Rec
live_take =
    (codes "status", txt (codes "live")) ∷ (codes "created", num 5) ∷ (codes "updated", num 9) ∷ []

goes_live :
    update_btc_take takes (codes "t1") gone_live 9
    ≡ ok ((codes "t1", live_take) ∷ [], some live_take)
unfolding update_btc_take update_found find store updated_with wanted check_step is_terminal rank
    index_from written
goes_live = refl

live_found : find gone_live (codes "status") ≡ some (txt (codes "live"))
unfolding find
live_found = refl

live_rank : rank (codes "live") ≡ some 5
unfolding rank index_from
live_rank = refl

take_found : find takes (codes "t1") ≡ some take
unfolding find
take_found = refl

Reached-IsAhead_example : IsAhead ((codes "t1", live_take) ∷ []) (codes "t1") take
Reached-IsAhead_example =
    Reached-IsAhead takes (codes "t1") take
      (reported begun (codes "t1") gone_live 9 (inr (codes "live", live_found, inr (5, live_rank)))
        goes_live)
      take_found

abbrev take_of : Rec
take_of = (codes "btc_offer_id", txt (codes "o1")) ∷ take

-- An offer of two lots, of which the take holds one.
abbrev offers : List (Text × Rec)
offers = (codes "o1", (codes "lots", num 2) ∷ []) ∷ []

abbrev book : Book
book = record { offers = offers; takes = (codes "t1", take_of) ∷ []; commitments = [] }

abbrev asked : Rec
asked = (codes "btc_offer_id", txt (codes "o1")) ∷ []

abbrev kept : Rec
kept =
    (codes "btc_offer_id", txt (codes "o1"))
    ∷ (codes "take_id", txt (codes "t2"))
    ∷ (codes "created", num 9)
    ∷ (codes "status", txt (codes "pending"))
    ∷ []

abbrev book_after : Book
book_after = record {
  offers = offers;
  takes = (codes "t1", take_of) ∷ (codes "t2", kept) ∷ [];
  commitments = (codes "ab", codes "t2") ∷ [];
}

puts :
    put_btc_take book asked (codes "ab") (some (codes "o1")) (codes "t2") 9 1800 21600
    ≡ ok (book_after, kept)
unfolding put_btc_take lots_left held_lots holds_lot completed take_by_funding find store wanted
puts = refl

put_btc_take_fits_example :
    (offer : Rec) × (find offers (codes "o1") ≡ some offer)
    × (find book_after.takes (text_or (as_text (find kept (codes "take_id"))) []) ≡ some kept)
    × ((n : ℕ)
        → Holding (codes "o1") 9 1800 21600 book_after.takes n
        → lots_taken offer + n ≤ lots_of offer)
put_btc_take_fits_example =
    put_btc_take_fits book asked (codes "ab") (codes "o1") (codes "t2") 9 1800 21600 puts
