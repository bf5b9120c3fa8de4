-- ===== src/Vault/Tests.antt =====
-- The theorems on the four exits, at the sample loan.
use pignus.Prelude.{
  ℕ, ◌≤◌, ◌<◌, ◌≡◌, ◌⊎◌, refl, none, some, List, [], ◌∷◌, Text, codes, replicate, ok, get_elem?,
}
use pignus.Prelude.Ceil.{ceil_div}
use pignus.Prelude.Hex.{lower, from_hex, to_hex}
use pignus.Terms.{gross, seizure_at, is_liquidatable, threshold, oracle_keys}
use pignus.Terms.Sample.{loan, shared_loan}
use pignus.Oracle.{verify, by_key, is_usable, liquidatable_slots}
use pignus.Oracle.Tests.{toy, attest, sent}
use pignus.Tx.{Outpoint, Output, Tx, raw_tx}
use pignus.Tx.Dict.{get, add}
use pignus.Vault.Spender.{payer, Spender, pays, payout_spk, pinned, held, usable_attestation}
use pignus.Vault.Change.{change}
use pignus.Vault.Evidence.{Evidence, one, mapping, liquidate, Shown, oracle_evidence}
use pignus.Vault.Exits
use pignus.Vault.Balance.{IsBalanced, seizure_balances}
use pignus.Vault.Outputs.{IsSurplus, IsWhole, paid, seizure_outputs}
use pignus.Vault.Gates.{IsBacked, price_of, seizure_gated}

abbrev spender : Spender
spender = record { terms = loan; fee_asset = 3; fee_amount = 10; dust_fold = 200; address = 7 ∷ [] }

abbrev lender_spk : Text
lender_spk = 0 ∷ 20 ∷ replicate 20 0

abbrev borrower_spk : Text
borrower_spk = 0 ∷ 20 ∷ replicate 20 17

abbrev taker_spk : Text
taker_spk = 5 ∷ []

abbrev coin : ℕ → ℕ → ℕ → Outpoint
coin txid amount asset = record { txid = txid; vout = 0; amount = amount; asset = some asset }

abbrev funding : List Outpoint
funding = coin 2 560 2 ∷ coin 3 15 3 ∷ []

abbrev request : Exits.Request
request = record {
  vault = coin 1 1000 1;
  answer = pays (7 ∷ []);
  funding = funding;
  change_spk = 6 ∷ [];
}

abbrev rest : List Output
rest = paid 60 (6 ∷ []) 2 ∷ []

changed : change (payer spender) funding ((2, 500) ∷ []) (6 ∷ []) ≡ ok (rest, 15)
unfolding change get add
changed = refl

pinned_at : pinned spender ≡ ok (lender_spk, borrower_spk)
unfolding pinned payout_spk from_hex
pinned_at = refl

abbrev tx_of : List Outpoint → List Output → ℕ → ℕ → Tx
tx_of inputs outs locktime sequence = record {
  inputs = inputs;
  sequence = sequence;
  outs = outs;
  locktime = locktime;
}

abbrev repaid : Tx
repaid =
    tx_of (coin 1 1000 1 ∷ funding)
      (paid 500 lender_spk 2 ∷ paid 1000 borrower_spk 1 ∷ paid 60 (6 ∷ []) 2 ∷ paid 15 [] 3 ∷ []) 0
      0xffffffff

repays : Exits.repay spender request ≡ ok repaid
unfolding Exits.repay held pinned payout_spk from_hex change get add raw_tx
repays = refl

abbrev seized : Tx
seized =
    tx_of (coin 1 1000 1 ∷ funding)
      (paid 500 lender_spk 2
        ∷ paid 416 borrower_spk 1
        ∷ paid 584 taker_spk 1
        ∷ paid 60 (6 ∷ []) 2
        ∷ paid 15 [] 3
        ∷ [])
      0 0xffffffff

abbrev under : Evidence
under = one (attest 900 (codes "0a"))

seizes : Exits.liquidate_vault toy spender request under taker_spk ≡ ok seized
unfolding Exits.liquidate_vault Exits.seizure_outs held oracle_evidence usable_attestation verify
    is_liquidatable pinned payout_spk from_hex to_hex change get add raw_tx seizure_at gross
    ceil_div
seizes = refl

-- The threshold loan's price is the higher of the two lowest, and gives the same transaction.
seizes_shared :
    Exits.liquidate_vault toy
      (record spender { terms = shared_loan })
      request
      (mapping sent)
      taker_spk
    ≡ ok seized
unfolding Exits.liquidate_vault Exits.seizure_outs held oracle_evidence usable_attestation
    liquidatable_slots is_usable verify by_key oracle_keys threshold lower is_liquidatable pinned
    payout_spk from_hex to_hex change get add raw_tx seizure_at gross ceil_div
seizes_shared = refl

-- At a price of 100 the seizure is more than the coin, and the fee output stands at index 1.
abbrev drowned : Tx
drowned =
    tx_of (coin 1 1000 1 ∷ funding)
      (paid 500 lender_spk 2 ∷ paid 15 [] 3 ∷ paid 1000 taker_spk 1 ∷ paid 60 (6 ∷ []) 2 ∷ []) 1000
      0xfffffffe

drowns :
    Exits.call_default toy spender request (one (attest 100 (codes "0a"))) taker_spk none
    ≡ ok drowned
unfolding Exits.call_default Exits.seizure_outs held oracle_evidence usable_attestation verify
    is_liquidatable pinned payout_spk from_hex to_hex change get add raw_tx seizure_at gross
    ceil_div
drowns = refl

abbrev recovered : Tx
recovered =
    tx_of (coin 1 1000 1 ∷ funding)
      (paid 1000 lender_spk 1 ∷ paid 560 (6 ∷ []) 2 ∷ paid 15 [] 3 ∷ []) 2000 0xfffffffe

recovers : Exits.recover spender request none ≡ ok recovered
unfolding Exits.recover held pinned payout_spk from_hex change get add raw_tx
recovers = refl

seizure_of : Exits.seizure toy spender request under taker_spk liquidate 0 ≡ ok seized
unfolding Exits.liquidate_vault
seizure_of = seizes

seizure_balances_example : IsBalanced spender request seized
seizure_balances_example =
    seizure_balances toy spender request under taker_spk liquidate 0 seizure_of

seizure_outputs_example :
    (price : ℕ) × (shown : Shown) × (seize : ℕ) × (spks : Text × Text) × (oracle_evidence toy
        spender under liquidate
      ≡ ok (price, shown))
    × (seizure_at loan price ≡ ok seize)
    × (pinned spender ≡ ok spks)
    × (get_elem? seized.outs 0 ≡ some (paid 500 spks.0 2))
    × (((seize < 1000)
          × IsSurplus spender spks.1 taker_spk 1000 seize
              (get_elem? seized.outs 1)
              (get_elem? seized.outs 2))
        ⊎ ((1000 ≤ seize)
            × IsWhole spender taker_spk 1000 (get_elem? seized.outs 1) (get_elem? seized.outs 2)))
seizure_outputs_example = seizure_outputs toy spender request under taker_spk liquidate 0 seizure_of

seizure_gated_example :
    (price : ℕ) × (shown : Shown) × (oracle_evidence toy spender under liquidate
      ≡ ok (price, shown))
    × (1 ≤ price)
    × (price ≡ price_of shown)
    × IsBacked toy loan shown
    × (◌≡◌ liquidate liquidate → price < 950)
seizure_gated_example = seizure_gated toy spender request under taker_spk liquidate 0 seizure_of
