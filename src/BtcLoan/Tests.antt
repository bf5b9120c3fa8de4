-- ===== src/BtcLoan/Tests.antt =====
-- A loan of pignus/btc_collateral.py at concrete values, and instances of the theorems.
use pignus.Prelude.{
  ◌+◌, ℕ, ◌≤◌, ◌<◌, ◌≡◌, ◌↔◌, refl, Bool, true, false, none, some, [], ◌∷◌, Text, codes, text_eq,
  text_eq_refl, replicate, All, Result, ok, err, arith,
}
use pignus.Prelude.Hex.{from_hex, to_hex}
use pignus.BtcLoan.{BtcLoan}
use pignus.BtcLoan.Timelocks.{
  Tips, times_named, origination_problems, margin_problems, timelocks_sane,
}
use pignus.BtcLoan.Safe.{IsSafe, timelocks_sane-IsSafe_iff}
use pignus.BtcScript.{
  digits, top_set, script_num, ser_push, ser_item, ser_script, two_of_two, timelocked_single,
  hashlocked_two_of_two,
}
use pignus.BtcScript.Tree.{TapTree, tap_tree, build, lengthen, leaf_named, script_pub_key}
use pignus.BtcScript.Tx.{BtcTx}
use pignus.BtcScript.Valid.{valid}
use pignus.BtcLoan.Spends.{
  LoanError, Signer, bytes, script, asked_or, funding_tree, prevault_tree, leaf_witness, reclaim_tx,
  complete_reclaim, upgrade_tx, complete_upgrade, timeout_tx, abort_tx,
}
use pignus.BtcLoan.Opened.{IsSigner}
use pignus.BtcLoan.Signed.{complete_reclaim-valid}
use pignus.BtcLoan.Started.{complete_upgrade-valid}
use pignus.BtcLoan.Swept.{timeout_tx-valid_iff}

abbrev pub sevens : Text
sevens = replicate 32 7

-- A signature is the key after a byte.
abbrev pub checks : Text → Text → Bool
checks key [] = false
checks key (b ∷ sig) = text_eq key sig

abbrev pub signer : Signer
signer = record {
  curve = record { sha256 = λ s. sevens; tweak_add_pubkey = λ key tweak. (key, false) };
  verify = λ key m sig. checks key sig;
  sign = λ secret m. 1 ∷ secret;
}

pub signer-IsSigner : IsSigner signer (λ secret. secret)
signer-IsSigner = record {
  hash_32 = λ s. refl;
  hash_bytes = λ s. sevens_bytes;
  signed = λ secret m. text_eq_refl secret;
  refused = λ key m. refl;
}
  where
    sevens_bytes : All (λ (b : ℕ). b < 256) sevens
    sevens_bytes = ground arith

abbrev pub loan : BtcLoan
loan = record {
  btc_amount = 100_000_000;
  borrower_x = codes "b1";
  lender_x = codes "c1";
  oracle_x = codes "d1";
  recover_after = 801_000;
  debt_asset = codes "aa";
  debt = 60_000;
  repay_deadline = 105_000;
  payment_hash = to_hex sevens;
  adaptor_point = [];
  principal = 50_000;
  h_w = to_hex (9 ∷ []);
  abort_after = 800_200;
  upgrade_fee = 10_000;
  d_refund = 100_200;
  market = codes "BTC/USDX";
  strike = 70_000;
  price_scale = 100_000;
  borrower_prog = codes "01";
  borrower_ver = 0;
  lender_prog = codes "02";
  lender_ver = 0;
}

abbrev tips : Tips
tips = record { btc_height = 800_000; seq_height = 100_000; btc_seconds = 600; seq_seconds = 60 }

accepted : timelocks_sane tips loan ≡ []
unfolding timelocks_sane times_named origination_problems margin_problems to_hex
accepted = refl

timelocks_sane-IsSafe_iff_example : (timelocks_sane tips loan ≡ []) ↔ IsSafe tips loan
timelocks_sane-IsSafe_iff_example = timelocks_sane-IsSafe_iff tips loan

abbrev empty_tx : BtcTx
empty_tx = record { version = 2; locktime = 0; vin = []; vout = [] }

-- The transaction of a result.
abbrev taken : Result LoanError BtcTx → BtcTx
taken (ok tx) = tx
taken (err e) = empty_tx

abbrev returned : Result LoanError BtcTx → Bool
returned (ok tx) = true
returned (err e) = false

taken-eq : (r : Result LoanError BtcTx) → returned r ≡ true → r ≡ ok (taken r)
taken-eq (ok tx) e = refl
taken-eq (err x) e = absurd (ground arith)

-- The borrower's secret is the byte of the key.
borrower_key : from_hex loan.borrower_x ≡ some (0xb1 ∷ [])
unfolding from_hex
borrower_key = refl

pub lender_key : from_hex loan.lender_x ≡ some (0xc1 ∷ [])
unfolding from_hex
lender_key = refl

abbrev reclaimed : Result LoanError BtcTx
reclaimed =
    complete_reclaim signer loan (reclaim_tx loan sevens 0 (codes "dest") 500) (1 ∷ 0xc1 ∷ [])
      (codes "t") (0xb1 ∷ [])

reclaims : returned reclaimed ≡ true
unfolding complete_reclaim funding_tree bytes script hashlocked_two_of_two two_of_two
    timelocked_single ser_script ser_item ser_push script_num digits top_set leaf_witness leaf_named
    tap_tree build lengthen from_hex to_hex
reclaims = refl

complete_reclaim-valid_example :
    (tree : TapTree) × (funding_tree signer loan ≡ ok tree)
    × (valid signer.curve signer.verify
          (taken reclaimed)
          record { value = loan.btc_amount; spk = script_pub_key tree }
        ≡ true)
complete_reclaim-valid_example =
    complete_reclaim-valid signer (λ secret. secret) signer-IsSigner loan sevens 0 (codes "dest")
      500 (1 ∷ 0xc1 ∷ []) (codes "t") (0xb1 ∷ []) borrower_key (omega arith) (omega arith)
      (taken-eq reclaimed reclaims)

-- The same loan whose origination secret has the hash of the sample.
abbrev begun : BtcLoan
begun = record loan { h_w = to_hex sevens }

abbrev upgraded : Result LoanError BtcTx
upgraded = complete_upgrade signer begun sevens 0 (1 ∷ 0xb1 ∷ []) (codes "w") (0xc1 ∷ [])

upgrades : returned upgraded ≡ true
unfolding complete_upgrade upgrade_tx funding_tree prevault_tree bytes script hashlocked_two_of_two
    two_of_two timelocked_single ser_script ser_item ser_push script_num digits top_set leaf_witness
    leaf_named tap_tree build lengthen from_hex to_hex
upgrades = refl

complete_upgrade-valid_example :
    (vault : TapTree) × (tree : TapTree) × (funding_tree signer begun ≡ ok vault)
    × (prevault_tree signer begun ≡ ok tree)
    × ((taken upgraded).vout ≡ record { value = begun.btc_amount; spk = script_pub_key vault } ∷ [])
    × (valid signer.curve signer.verify
          (taken upgraded)
          record { value = begun.btc_amount + begun.upgrade_fee; spk = script_pub_key tree }
        ≡ true)
complete_upgrade-valid_example =
    complete_upgrade-valid signer (λ secret. secret) signer-IsSigner begun sevens 0 (1 ∷ 0xb1 ∷ [])
      (codes "w") (0xc1 ∷ []) lender_key (taken-eq upgraded upgrades)

abbrev swept : Result LoanError BtcTx
swept = timeout_tx signer loan sevens 0 (codes "dest") 500 (0xc1 ∷ []) (some 800_999)

sweeps : returned swept ≡ true
unfolding timeout_tx funding_tree bytes script hashlocked_two_of_two two_of_two timelocked_single
    ser_script ser_item ser_push script_num digits top_set leaf_witness leaf_named tap_tree build
    lengthen from_hex to_hex
sweeps = refl

timeout_tx-valid_iff_example :
    (tree : TapTree) × (funding_tree signer loan ≡ ok tree)
    × ((valid signer.curve signer.verify
            (taken swept)
            record { value = loan.btc_amount; spk = script_pub_key tree }
          ≡ true)
        ↔ (801_000 ≤ 800_999))
unfolding asked_or
timeout_tx-valid_iff_example =
    timeout_tx-valid_iff signer (λ secret. secret) signer-IsSigner loan sevens 0 (codes "dest") 500
      (0xc1 ∷ []) (some 800_999) lender_key (omega arith) (omega arith) (omega arith) (omega arith)
      (omega arith) (taken-eq swept sweeps)

abbrev aborted : Result LoanError BtcTx
aborted = abort_tx signer loan sevens 0 (codes "dest") 500 (0xb1 ∷ []) none

aborts : returned aborted ≡ true
unfolding abort_tx prevault_tree bytes script hashlocked_two_of_two timelocked_single ser_script
    ser_item ser_push script_num digits top_set leaf_witness leaf_named tap_tree build lengthen
    from_hex to_hex
aborts = refl
