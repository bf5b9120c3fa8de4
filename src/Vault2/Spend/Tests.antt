-- ===== src/Vault2/Spend/Tests.antt =====
-- The theorems on spends of a vault of pignus/vault2.py and on following them, at a sample.
use pignus.Prelude.{
  ℕ, ◌+◌, ◌≤◌, ◌≡◌, ◌≢◌, refl, true, false, none, some, List, [], ◌∷◌, Text, codes, ok, arith,
}
use pignus.Prelude.Ceil.{ceil_div}
use pignus.Prelude.Hex.{from_hex, to_hex}
use pignus.Fees.{fee_atoms, atoms_for, vsize_of}
use pignus.Vault2.Plan.{LiquidationPlan, check_liquidation}
use pignus.Vault2.Tests.{rule, rule-IsDocumented}
use pignus.Vault2.Spend.{
  Coin, Out, SpendTx, Record2, spelled, out, fee, fee_for, wallet_coins, spend_tx, change, gathered,
  add_to, left_over, vault_spend,
}
use pignus.Vault2.Spend.Compose.{
  repay_of, liquidate_of, repay_first, compose_repay, compose_liquidation, first_of, seizure_of,
}
use pignus.Vault2.Spend.Follow.{
  Seen, repay, liquidate, follow, spends_beacon, spends_leaf, out_at, paid_at,
}
use pignus.Vault2.Spend.Reads.{decoded, IsSpelled}
use pignus.Vault2.Spend.Followed.{follow-compose_repay}
use pignus.Vault2.Spend.Seized.{follow-compose_liquidation}
use pignus.Vault2.Spend.Line.{Line, opened, stepped, Line-owes}
use pignus.Vault2.Spend.Sample.{mark, script_of, script_of_terms, world, lent, lent-IsFollowable}

abbrev given : ℕ → Text → Coin
given n asset = record { txid = 2; vout = 0; amount = n; asset = asset; spk = [] }

abbrev vault_coin : Coin
vault_coin = record {
  txid = 1;
  vout = 0;
  amount = 100;
  asset = lent.collateral_asset;
  spk = script_of (9, 5);
}

abbrev spend_of : List Coin → ℕ → List Out → ℕ → SpendTx
spend_of inputs sequence outs locktime = record {
  inputs = inputs;
  sequence = sequence;
  outs = outs;
  locktime = locktime;
}

abbrev paying : ℕ → Text → Text → Out
paying amount spk asset = record { amount = amount; spk = spk; asset = asset }

-- Four of a debt of nine are repaid.
abbrev part_repaid : SpendTx
part_repaid =
    spend_of (vault_coin ∷ given 1644 lent.debt_asset ∷ []) 0xffffffff
      (paying 100 (script_of (5, 5)) lent.collateral_asset
        ∷ paying 4 lent.lender_spk lent.debt_asset
        ∷ paying 1640 [] lent.debt_asset
        ∷ [])
      0

repays :
    compose_repay world lent (9, 5) vault_coin 4 [] none
    ≡ ok (part_repaid, repay_of (9, 5) (some (5, 5)) 4 1640)
unfolding compose_repay repay_first fee_for fee_atoms atoms_for ceil_div vsize_of wallet_coins out
    fee spelled from_hex to_hex vault_spend change gathered add_to left_over spend_tx script_of mark
repays = refl

unspent_beacon : spends_beacon (codes "1eaf") 0 0 ([] ∷ [] ∷ []) ≡ false
unfolding spends_beacon spends_leaf
unspent_beacon = refl

follow-compose_repay_example :
    (charged : ℕ) × (repay_of (9, 5) (some (5, 5)) 4 1640 ≡ repay_of (9, 5) (some (5, 5)) 4 charged)
    × (follow script_of_terms
          (codes "1eaf")
          lent
          (9, 5)
          (script_of (9, 5))
          (decoded part_repaid ([] ∷ [] ∷ []))
          0
        ≡ (repay, some (5, 5), some 0))
follow-compose_repay_example =
    follow-compose_repay world (codes "1eaf") lent lent-IsFollowable 9 5 vault_coin [] none
      ([] ∷ [] ∷ []) 4 (omega arith) unspent_beacon repays

abbrev att : Record2
att = record { price = 1; time = 7; beacon = []; signature = [] }

abbrev beacon_coin : Coin
beacon_coin = record { txid = 3; vout = 0; amount = 1; asset = codes "cc"; spk = codes "51" }

-- A called loan: four repaid and four of the collateral seized.
abbrev plan : LiquidationPlan
plan = record { repaid = 4; seized = 4; kept = 96; closes = false }

abbrev part_seized : SpendTx
part_seized =
    spend_of (vault_coin ∷ beacon_coin ∷ given 3104 lent.debt_asset ∷ []) 0xfffffffe
      (paying 96 (script_of (5, 7)) lent.collateral_asset
        ∷ paying 4 lent.lender_spk lent.debt_asset
        ∷ paying 1 (codes "51") (codes "cc")
        ∷ paying 4 (codes "52") lent.collateral_asset
        ∷ paying 3100 [] lent.debt_asset
        ∷ [])
      7

liquidates :
    compose_liquidation world rule lent
      (9, 5)
      vault_coin
      att
      beacon_coin
      plan
      (codes "52")
      []
      true
      none
    ≡ ok (part_seized, liquidate_of true (9, 5) (some (5, 7)) 4 4 1 3100)
unfolding compose_liquidation check_liquidation first_of seizure_of fee_for fee_atoms atoms_for
    ceil_div vsize_of wallet_coins out fee spelled from_hex to_hex vault_spend change gathered
    add_to left_over spend_tx script_of mark
liquidates = refl

abbrev beacon_stacks : List (List Text)
beacon_stacks = [] ∷ (codes "1eaf" ∷ [] ∷ []) ∷ [] ∷ []

spent_beacon : spends_beacon (codes "1eaf") 0 0 beacon_stacks ≡ true
unfolding spends_beacon spends_leaf
spent_beacon = refl

taker-IsSpelled : IsSpelled (codes "52")
unfolding spelled from_hex to_hex
taker-IsSpelled = refl

taker_apart : codes "52" ≢ script_of (9, 5)
unfolding script_of mark
taker_apart e = absurd (ground arith)

follow-compose_liquidation_example :
    (charged : ℕ) × (liquidate_of true (9, 5) (some (5, 7)) 4 4 1 3100
      ≡ liquidate_of true (9, 5) (some (5, 7)) 4 4 1 charged)
    × (follow script_of_terms
          (codes "1eaf")
          lent
          (9, 5)
          (script_of (9, 5))
          (decoded part_seized beacon_stacks)
          0
        ≡ (liquidate, some (5, 7), some 0))
follow-compose_liquidation_example =
    follow-compose_liquidation world (codes "1eaf") lent lent-IsFollowable 9 5 vault_coin [] none
      beacon_stacks rule rule-IsDocumented att beacon_coin plan (codes "52") true taker-IsSpelled
      taker_apart spent_beacon liquidates

-- One step of a line, by the repayment.
abbrev first_seen : Seen
first_seen = record { amount = 100; asset = some lent.collateral_asset; spk = script_of (5, 5) }

followed :
    follow script_of_terms
      (codes "1eaf")
      lent
      (9, 5)
      (script_of (9, 5))
      (decoded part_repaid ([] ∷ [] ∷ []))
      0
    ≡ (repay, some (5, 5), some 0)
followed =
    (follow-compose_repay world (codes "1eaf") lent lent-IsFollowable 9 5 vault_coin [] none
      ([] ∷ [] ∷ []) 4 (omega arith) unspent_beacon repays).2

seen_at : out_at (decoded part_repaid ([] ∷ [] ∷ [])).outs 0 ≡ some first_seen
unfolding out_at
seen_at = refl

sample-Line :
    Line script_of_terms (codes "1eaf") lent (9, 5) (script_of (9, 5)) (5, 5) (script_of (5, 5)) 4
unfolding out_at paid_at
sample-Line = stepped opened (decoded part_repaid ([] ∷ [] ∷ [])) 0 followed seen_at

Line-owes_example : (script_of (5, 5) ≡ script_of (5, 5)) × (5 + 4 ≡ 9) × (1 ≤ 9 → 1 ≤ 5)
Line-owes_example = Line-owes script_of_terms (codes "1eaf") lent (9, 5) sample-Line
