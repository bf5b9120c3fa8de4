-- ===== src/BtcLoan/SeizeTests.antt =====
-- A seizure of pignus/btc_collateral.py asked for and judged at concrete values, and instances of the
-- theorems.
use pignus.Prelude.{◌%◌, ◌≡◌, ◌↔◌, refl, true, none, some, [], ◌∷◌, ◌++◌, codes, text_eq, ok}
use pignus.Prelude.Hex.{from_hex, to_hex}
use pignus.Oracle.{Attestation, Signing, verify}
use pignus.BtcLoan.Tests.{sevens, loan}
use pignus.BtcLoan.Spends.{message}
use pignus.BtcLoan.Seize.{Digests, SeizeRequest, readable, any_verifies, seize_is_justified}
use pignus.BtcLoan.Judged.{IsJustified, seize_is_justified_iff}

abbrev digests : Digests
digests = record {
  offer_digest = λ p. (p.strike % 256) ∷ sevens;
  take_digest = λ p. p.btc_offer_id;
}

abbrev request : SeizeRequest
request = record {
  loan = some (readable loan);
  dest_spk = codes "5120";
  funding_txid = codes "ab";
  funding_vout = some 0;
  fee = some 1000;
  sighash = to_hex sevens;
  offer_sig = codes "01c1";
  offer_lots = 1;
  take_auth = codes "01B1";
  prevault_txid = codes "ac";
  prevault_vout = some 1;
}

-- Signatures repeat the key.
abbrev signing : Signing
signing = record {
  feed_of = λ market. market;
  attestation_message = λ feed time price. feed ++ time ∷ price ∷ [];
  verify_schnorr_varlen = λ key sig message. text_eq key sig;
}

-- A price of another market, G, for the loan of BTC/USDX.
abbrev other_price : Attestation
other_price = record {
  market = codes "G";
  feed_id = codes "47";
  timestamp = 200;
  price = 69_999;
  price_scale = 100_000;
  signature = codes "d1";
}

judged : seize_is_justified signing loan other_price none [] ≡ ok true
unfolding seize_is_justified any_verifies verify from_hex to_hex
judged = refl

seize_is_justified_iff_example :
    (seize_is_justified signing loan other_price none [] ≡ ok true)
    ↔ IsJustified signing loan other_price none []
seize_is_justified_iff_example = seize_is_justified_iff signing loan other_price none []
