-- ===== src/Repurchase/Tests.antt =====
-- The theorems on a repurchase, at a sample.
use pignus.Prelude.{
  ltb, if◌then◌else◌, ℕ, ◌+◌, ◌≡◌, ◌↔◌, refl, none, some, [], ◌∷◌, Text, replicate, ok, err,
  get_elem?, arith,
}
use pignus.Prelude.Hex.{from_hex}
use pignus.Tx.{Tx}
use pignus.Tx.Totals.{total_in, total_out}
use pignus.Vault.Spender.{payout_spk}
use pignus.Repurchase.Terms
use pignus.Repurchase.Terms.{RepurchaseTerms, RepurchaseError, locktime_open, IsSane}
use pignus.Repurchase.Coins.{
  Txout, Answers, first_match, find_output, find_again, check_bond, verify_funding, check_leg_one,
  verify_leg_one,
}
use pignus.Repurchase.Sane
use pignus.Repurchase.Funded.{IsBond, verify_funding_sound, verify_funding_finds}
use pignus.Repurchase.LegOne.{verify_leg_one_shadowed}
use pignus.Repurchase.Settle
use pignus.Repurchase.Settle.{RepurchaseSpender, Coin, Parts, paid, compose_settlement}
use pignus.Repurchase.Shape.{IsSettleable, compose_settlement_iff}
use pignus.Repurchase.Composed.{compose_settlement_balances}
use pignus.Repurchase.Inspect
use pignus.Repurchase.Inspect.{inspect_settlement, Summary}
use pignus.Repurchase.Roundtrip.{raw_of, document, inspect_settlement-compose_settlement}

abbrev key : Text
key = replicate 64 48

abbrev terms : RepurchaseTerms
terms = record {
  collateral_asset = 1;
  collateral_amount = 70;
  debt_asset = 2;
  principal = 800;
  debt = 900;
  collateral_value = 1000;
  borrower_cu = key;
  borrower_prog = key;
  lender_prog = key;
  borrower_ver = 1;
  lender_ver = 1;
  forfeit_after = 5000;
}

-- An address, in place of what the covenant builder compiles.
abbrev compiled : RepurchaseTerms → Text
compiled t = 9 ∷ []

passes : Terms.sanity_check terms ≡ ok tt
unfolding Terms.sanity_check from_hex
passes = refl

terms-IsSane : IsSane terms
terms-IsSane = (Sane.sanity_check_iff terms).0 passes

abbrev coin : ℕ → ℕ → Txout
coin amount asset = record {
  spk = 9 ∷ [];
  asset = some asset;
  value = some amount;
  confirmations = 3;
}

-- Output 0 pays the address another asset, and output 1 is the bond.
abbrev answers : Answers
answers = get_elem? (coin 100 1 ∷ coin 100 2 ∷ [])

abbrev nothing : Answers
nothing n = none

finds : verify_funding compiled answers terms none ≡ ok (1, coin 100 2)
unfolding verify_funding Terms.sanity_check from_hex Terms.bond find_output first_match find_again
    check_bond
finds = refl

verify_funding_sound_example :
    IsSane terms × (answers 1 ≡ some (coin 100 2)) × IsBond (9 ∷ []) terms (coin 100 2)
verify_funding_sound_example = verify_funding_sound compiled answers terms none finds

coin-IsBond : IsBond (9 ∷ []) terms (coin 100 2)
coin-IsBond = record { pays = refl; asset_named = refl; exact = refl }

verify_funding_finds_example :
    (n : ℕ) × (p : Txout) × (verify_funding compiled answers terms none ≡ ok (n, p))
verify_funding_finds_example =
    verify_funding_finds compiled answers terms 1 (coin 100 2) terms-IsSane (omega arith) refl
      coin-IsBond

abbrev delivered : Txout
delivered = coin 70 1

abbrev received : Answers
received = get_elem? (coin 70 3 ∷ coin 70 1 ∷ [])

arrives : verify_leg_one received (9 ∷ []) 1 70 2 none ≡ ok (1, delivered)
unfolding verify_leg_one find_output first_match check_leg_one
arrives = refl

-- An output of 40 stands before the one of 70.
abbrev overshadowed : Answers
overshadowed = get_elem? (coin 40 1 ∷ coin 70 1 ∷ [])

verify_leg_one_shadowed_example :
    verify_leg_one overshadowed (9 ∷ []) 1 70 2 none ≡ err RepurchaseError.wrong_amount
verify_leg_one_shadowed_example =
    verify_leg_one_shadowed overshadowed (9 ∷ []) 1 70 2 40 (coin 40 1) refl refl refl refl
      (λ e. omega (arith, e)) (omega arith)

abbrev spender : RepurchaseSpender
spender = record { terms = terms; fee_asset = 2; fee_amount = 10; dust_fold = 200 }

abbrev of_asset : ℕ → ℕ → ℕ → Coin
of_asset txid amount asset = record { txid = txid; vout = 0; amount = amount; asset = asset }

abbrev parts : Parts
parts = record {
  bond_coin = of_asset 1 100 2;
  verifier = of_asset 2 5 4;
  verifier_spk = 7 ∷ [];
  cu_lender = of_asset 3 70 1;
  debt_input = of_asset 4 1200 2;
  change_spk = 6 ∷ [];
  locktime = 0;
}

abbrev program_spk : Text
program_spk = 81 ∷ 32 ∷ replicate 32 0

abbrev settlement : Tx
settlement = record {
  inputs =
      Settle.outpoint (of_asset 2 5 4)
      ∷ Settle.outpoint (of_asset 1 100 2)
      ∷ Settle.outpoint (of_asset 3 70 1)
      ∷ Settle.outpoint (of_asset 4 1200 2)
      ∷ [];
  sequence = 0xffffffff;
  outs =
      paid 5 (7 ∷ []) 4
      ∷ paid 900 program_spk 2
      ∷ paid 70 program_spk 1
      ∷ paid 100 program_spk 2
      ∷ paid 290 (6 ∷ []) 2
      ∷ paid 10 [] 2
      ∷ [];
  locktime = 0;
}

composes : compose_settlement spender parts ≡ ok settlement
unfolding compose_settlement Settle.check_parts Settle.change_and_fee Settle.spks payout_spk
    from_hex Settle.held Settle.check_settlement Settle.settlement_outs Settle.settlement_tx
composes = refl

compose_settlement_iff_example :
    ((tx : Tx) × (compose_settlement spender parts ≡ ok tx)) ↔ IsSettleable spender parts
compose_settlement_iff_example = compose_settlement_iff spender parts terms-IsSane

compose_settlement_balances_example : total_out 2 settlement.outs ≡ total_in 2 settlement.inputs
compose_settlement_balances_example =
    compose_settlement_balances spender parts composes refl (omega arith) 2

abbrev summary : Summary
summary = record {
  debt_to_lender = 900;
  bond_to_lender = 100;
  bond_held = 100;
  asset_to_borrower = 70;
  fee = 10;
  change = 290;
  change_spk = some (6 ∷ []);
  locktime = 0;
  lender_spk = program_spk;
  borrower_cu_spk = program_spk;
}

inspect_settlement-compose_settlement_example :
    (change : ℕ) × (fee : ℕ) × (to : Settle.Scripts) × (Settle.spks terms ≡ ok to)
    × (900 + change + fee ≡ 1200)
    × (inspect_settlement terms
          (9 ∷ [])
          none
          (some (raw_of settlement))
          (document parts (9 ∷ []) (8 ∷ []) (6 ∷ []))
        ≡ ok (
          [],
          record {
            debt_to_lender = 900;
            bond_to_lender = 100;
            bond_held = 100;
            asset_to_borrower = 70;
            fee = fee;
            change = change;
            change_spk = if ltb 0 change then some (6 ∷ []) else none;
            locktime = 0;
            lender_spk = to.lender;
            borrower_cu_spk = to.cu;
          },
        ))
inspect_settlement-compose_settlement_example =
    inspect_settlement-compose_settlement spender parts (9 ∷ []) (8 ∷ []) (6 ∷ []) terms-IsSane
      composes refl (omega arith)
