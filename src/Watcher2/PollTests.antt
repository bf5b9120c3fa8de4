-- ===== src/Watcher2/PollTests.antt =====
-- A poll of pignus/watcher2.py on a small chain, in which a take opens a loan, and instances of the
-- theorems.
use pignus.Prelude.{ℕ, ◌<◌, ◌≡◌, refl, none, some, [], ◌∷◌, Text, codes, replicate, All, ok, arith}
use mathlib.Core.Path.{subst}
use native.Mathlib.Decide.{ℕ_discrete}
use pignus.Prelude.Hex.{lower, from_hex, to_hex}
use pignus.Vault2.Terms.{V2Terms}
use pignus.Vault2.Create.{
  post_init, lowered, take_single, check_32_bytes, check_all_32_bytes, asset_fields, take_borrower,
}
use pignus.Vault2.Spend.{V2Offer}
use pignus.Watcher2.{
  or_height, has_txid, mined_again, still_mined, where_is, input_of, spender_in, spender_from,
  spender, place_of, place_eq,
}
use pignus.Watcher2.Tests.{terms, script_of}
use pignus.Watcher2.TakeTests.{offer, offer_node, offer_coin, block_2, rec, taken_rec, opened}
use pignus.Watcher2.Take.{
  hex_digits, number_width, text_widths, terms_width, borrower_bit, byte_bits, bits_of, drop_bits,
  number_of_bits, bytes_of_bits, hash_at, terms_witness, vault_for, read_hash, read_bytes,
  borrower_from_take,
}
use pignus.Watcher2.Offer.{
  OfferRec, OpenedLoan, kept_from, kept_steps, opened_by, rest_of, spent_as, read_found, next_spend,
  step_on, shown, settle_offer, count_of, reconcile_offer,
}
use pignus.Watcher2.Loan.{
  live, unconfirmed, Loan, undo_newest, undo, reopened, reopen, next_step, advance, state_by,
  state_differs, state_eq, filled, settle, go_forward, after_undo, reconcile_loan,
}
use pignus.Watcher2.Named.{IsOffered, post_init-IsOffered}
use pignus.Watcher2.Followed.{IsSound}
use pignus.Watcher2.Poll.{
  Polled, is_polled, OfferRec-discrete, open_all, poll_offer, poll_offers, poll_loans, poll,
}
use pignus.Watcher2.Polled.{poll-IsSound}
use pignus.Watcher2.Current.{IsReconciled, poll_reconciles}
use pignus.Watcher2.Carried.{open_v2_loan_again}
use pignus.Book.{find, store}
use pignus.Book.Lines.{
  BookV2, put_offer, put_loan, funded_offer, has_coin, following, known, opened_loan, register,
  open_v2_loan,
}

-- A hash of 32 bytes.
abbrev toy_hash : Text → Text
toy_hash bytes = replicate 32 7

toy_hash-small : (bytes : Text) → All (λ (b : ℕ). b < 256) (toy_hash bytes)
toy_hash-small bytes = omega arith

abbrev toy_key : V2Terms → Text → ℕ → Text
toy_key t txid vout = txid

abbrev offered : V2Terms
offered = record terms { borrower_spk = [] }

abbrev listed : V2Offer
listed = record offer { terms = offered }

built : post_init toy_hash offered ≡ ok offered
unfolding post_init lowered take_single check_32_bytes check_all_32_bytes asset_fields take_borrower
    lower from_hex
built = refl

offered-IsOffered : IsOffered toy_hash offered
offered-IsOffered = post_init-IsOffered toy_hash toy_hash-small offered built refl

abbrev taking : OpenedLoan
taking = record opened { terms = offered }

abbrev new_loan : Loan
unfolding opened_loan
new_loan = record (opened_loan (record offered { borrower_hash = replicate 64 b'0' }) taking) {
  state = some live;
}

abbrev book : BookV2
book = record { offers = (codes "0f", record rec { offer = listed }) ∷ []; loans = [] }

abbrev after_take : BookV2
after_take = record {
  offers = (codes "0f", record taken_rec { offer = listed }) ∷ [];
  loans = (codes "0b", new_loan) ∷ [];
}

-- The first poll records the take's loan and follows it at once; the next one changes nothing.
polls :
    (poll toy_hash toy_key script_of (codes "1eaf") offer_node book ≡ (after_take, none))
    × (poll toy_hash toy_key script_of (codes "1eaf") offer_node after_take ≡ (after_take, none))
unfolding poll poll_offers poll_offer is_polled open_all poll_loans OfferRec-discrete ℕ_discrete
    reconcile_offer kept_steps kept_from where_is still_mined mined_again has_txid or_height
    place_of place_eq step_on next_spend read_found spent_as opened_by rest_of borrower_from_take
    read_bytes read_hash vault_for terms_witness hash_at bytes_of_bits number_of_bits drop_bits
    bits_of byte_bits borrower_bit terms_width text_widths number_width hex_digits spender
    spender_from spender_in input_of shown settle_offer count_of from_hex to_hex open_v2_loan
    post_init lowered take_single check_32_bytes check_all_32_bytes asset_fields take_borrower lower
    register known following has_coin find store put_offer put_loan opened_loan reconcile_loan undo
    undo_newest reopen reopened after_undo go_forward advance next_step settle filled state_by
    state_differs state_eq
polls = (refl, refl)

book-IsSound : IsSound script_of (codes "1eaf") toy_hash toy_key book
book-IsSound = record { offered = (offered-IsOffered, tt); followed = tt; distinct = tt }

after_take-IsSound : IsSound script_of (codes "1eaf") toy_hash toy_key after_take
after_take-IsSound =
    subst (λ (p : Polled). IsSound script_of (codes "1eaf") toy_hash toy_key p.0) polls.0
      (poll-IsSound toy_hash toy_key script_of (codes "1eaf") offer_node book book-IsSound).0

poll_reconciles_example :
    (r : Loan) × (find after_take.loans (codes "0b") ≡ some r)
    × IsReconciled script_of (codes "1eaf") offer_node new_loan r
unfolding find
poll_reconciles_example =
    poll_reconciles script_of (codes "1eaf") offer_node toy_hash toy_key after_take
      {end = after_take} after_take-IsSound polls.1 (codes "0b") new_loan refl

abbrev opened_there : Loan
opened_there = record new_loan { state = some unconfirmed }

abbrev one_loan : BookV2
one_loan = record { offers = book.offers; loans = (codes "0b", opened_there) ∷ [] }

opens : open_v2_loan toy_hash toy_key book taking [] ≡ ok (one_loan, opened_there)
unfolding open_v2_loan post_init lowered take_single check_32_bytes check_all_32_bytes asset_fields
    take_borrower lower from_hex register known following has_coin find store put_loan opened_loan
opens = refl

open_v2_loan_again_example :
    ((k : Text) (r : Loan) → find book.loans k ≡ some r → find one_loan.loans k ≡ some r)
    × (open_v2_loan toy_hash toy_key one_loan taking [] ≡ ok (one_loan, opened_there))
open_v2_loan_again_example =
    open_v2_loan_again toy_hash toy_key book taking {next = one_loan} {rec = opened_there} opens

-- The offer listed at its coin, in an empty book.
abbrev no_offers : BookV2
no_offers = record { offers = []; loans = [] }

abbrev listing : OfferRec
listing = funded_offer listed (codes "0a") offer_coin block_2
