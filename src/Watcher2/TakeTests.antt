-- ===== src/Watcher2/TakeTests.antt =====
-- A run of `reconcile_offer` of pignus/watcher2.py on a small chain, and an instance of the theorem.
use pignus.Prelude.{
  ◌+◌, ◌≡◌, refl, true, none, some, [], ◌∷◌, codes, text_eq, replicate, All, ok, if◌then◌else◌,
  ◌==◌,
}
use pignus.Prelude.Hex.{from_hex, to_hex}
use pignus.Vault2.Spend.{V2Offer}
use pignus.Watcher2.{
  ChainTx, Node, Place, or_height, has_txid, mined_again, still_mined, where_is, input_of,
  spender_in, spender_from, spender, place_of,
}
use pignus.Watcher2.Tests.{terms, script_of, node}
use pignus.Watcher2.Take.{
  hex_digits, number_width, text_widths, terms_width, borrower_bit, byte_bits, bits_of, drop_bits,
  number_of_bits, bytes_of_bits, hash_at, terms_witness, vault_for, read_hash, read_bytes,
  borrower_from_take,
}
use pignus.Watcher2.Offer.{
  OfferCoin, coin, take, open_offer, OfferRec, OpenedLoan, kept_from, kept_steps, opened_by,
  rest_of, spent_as, read_found, next_spend, step_on, shown, settle_offer, count_of,
  reconcile_offer,
}
use pignus.Watcher2.Claims.{IsClaimed}
use pignus.Watcher2.Opened.{reconcile_offer-AllTaken}

abbrev pub offer : V2Offer
offer = record { terms = terms; lot = 7; debt = 9; collateral = 100; expiry = 1_790_000_000 }

-- `BORROWER_BIT`, of an offer of one oracle.
single_oracle_bit : borrower_bit offer ≡ 1673
unfolding borrower_bit terms_width text_widths number_width hex_digits
single_oracle_bit = refl

-- A take whose witness names the borrower's hash of 64 zeros, and leaves a coin to the offer.
abbrev take_tx : ChainTx
take_tx = record {
  txid = codes "0b";
  prevouts = some (codes "0a", 1) ∷ [];
  decoded = record {
    outs =
        record {
          value = some 100;
          asset = some terms.collateral_asset;
          spk = script_of terms (9, 5);
        }
        ∷ record { value = some 14; asset = some terms.debt_asset; spk = codes "0ff3" }
        ∷ [];
    witnesses = (replicate 484 b'0' ∷ [] ∷ [] ∷ [] ∷ []) ∷ [];
    locktime = 5;
  };
}

abbrev pub offer_node : Node
offer_node = record node {
  block = λ h.
      if h == 2
      then record { hash = codes "b2"; txs = take_tx ∷ [] }
      else record { hash = codes "b1"; txs = [] };
  gettxout = λ txid vout. if text_eq txid (codes "0b") then some 1 else none;
}

abbrev pub offer_coin : OfferCoin
offer_coin = record { vout = 1; amount = 21; spk = codes "0ff3" }

abbrev pub rec : OfferRec
rec = record {
  offer = offer;
  line =
      record {
        txid = codes "0a";
        event = none;
        place = record { height = some 1; blockhash = some (codes "b1"); kind = codes "block" };
        holds = coin offer_coin;
      }
      ∷ [];
  status = open_offer;
  taken = 0;
  held = none;
}

abbrev pub block_2 : Place
block_2 = record { height = some 2; blockhash = some (codes "b2"); kind = codes "block" }

abbrev rest_coin : OfferCoin
rest_coin = record { vout = 1; amount = 14; spk = codes "0ff3" }

abbrev pub taken_rec : OfferRec
taken_rec = record rec {
  line =
      record { txid = codes "0b"; event = some take; place = block_2; holds = coin rest_coin }
      ∷ rec.line;
  taken = 1;
  held = some (codes "0b", rest_coin, true);
}

abbrev pub opened : OpenedLoan
opened = record {
  terms = terms;
  borrower_hash = replicate 64 b'0';
  txid = codes "0b";
  vout = 0;
  amount = 100;
  asset = terms.collateral_asset;
  spk = script_of terms (9, 5);
  debt = 9;
  last_time = 5;
  place = block_2;
}

takes : reconcile_offer script_of offer_node rec ≡ ok (taken_rec, opened ∷ [])
unfolding reconcile_offer kept_steps kept_from where_is still_mined mined_again has_txid or_height
    place_of step_on next_spend read_found spent_as opened_by rest_of borrower_from_take read_bytes
    read_hash vault_for terms_witness hash_at bytes_of_bits number_of_bits drop_bits bits_of
    byte_bits borrower_bit terms_width text_widths number_width hex_digits spender spender_from
    spender_in input_of shown settle_offer count_of from_hex to_hex
takes = refl

reconcile_offer-AllTaken_example :
    All (IsClaimed script_of offer offer_node taken_rec.line) (opened ∷ [])
    × (taken_rec.taken ≡ 0 + count_of (opened ∷ []))
reconcile_offer-AllTaken_example = reconcile_offer-AllTaken script_of offer_node rec takes
