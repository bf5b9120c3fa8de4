-- ===== src/Watcher2/Tests.antt =====
-- Runs of `reconcile_loan` of pignus/watcher2.py on a small chain, and instances of the theorems.
use pignus.Prelude.{
  ℕ, ◌≡◌, ◌↔◌, refl, true, false, ◌&&◌, none, some, List, [], ◌∷◌, Text, codes, text_eq, ◌==◌,
  if◌then◌else◌, All, replicate, ok, arith,
}
use pignus.Vault2.Terms.{V2Terms, State}
use pignus.Vault2.Spend.Follow.{
  Decoded, repay, out_at, paid_at, spends_leaf, spends_beacon, successor_of, moved_of, follow,
}
use pignus.Watcher2.{
  ChainTx, Node, in_block, or_height, has_txid, mined_again, still_mined, where_is, place_of_coin,
  input_of, spender_in, spender_from, spender, place_of, place_eq,
}
use mathlib.Core.Path.{subst}
use pignus.Watcher2.Sound.{Shows, IsOfCoin, reconcile_loan-Shows}
use pignus.Watcher2.Sight.{IsOutOfSight}
use pignus.Watcher2.Ends.{reconcile_loan-eq-nil_iff}
use pignus.Watcher2.Loan.{
  live, ghost, event_state, state_eq, VaultCoin, coin, Step, Loan, Logged, undone, stepped,
  undo_newest, undo, reopened, reopen, step_of, logged, read_spend, next_step, advance, state_by,
  state_differs, filled, settle, go_forward, after_undo, reconcile_loan,
}

abbrev pub terms : V2Terms
terms = record {
  collateral_asset = replicate 64 b'a';
  debt_asset = replicate 64 b'b';
  oracle_x = replicate 64 b'1';
  beacon_asset = replicate 64 b'2';
  precision = 0;
  liq_bp = 15000;
  target_bp = 16000;
  bonus_bp = 10500;
  maturity = 1_800_000_000;
  recover_after = 1_810_000_000;
  lender_spk = codes "0014";
  borrower_spk = codes "0015";
  market = [];
  borrower_hash = [];
  oracles = [];
  beacon_assets = [];
  threshold = 0;
}

-- A vault script that writes the state.
abbrev pub script_of : V2Terms → State → Text
script_of t (debt, last) = b's' ∷ debt ∷ last ∷ []

abbrev vault_out : State → ℕ → Decoded
vault_out s n = record {
  value = some n;
  asset = some terms.collateral_asset;
  spk = script_of terms s;
}

-- The spend of the opening coin that repays 4 of 9.
abbrev repayment : ChainTx
repayment = record {
  txid = codes "02";
  prevouts = some (codes "01", 0) ∷ none ∷ [];
  decoded = record {
    outs =
        vault_out (5, 5) 100
        ∷ record { value = some 4; asset = some terms.debt_asset; spk = terms.lender_spk }
        ∷ [];
    witnesses = [] ∷ [] ∷ [];
    locktime = 0;
  };
}

abbrev opening_tx : ChainTx
opening_tx = record {
  txid = codes "01";
  prevouts = [];
  decoded = record { outs = vault_out (9, 5) 100 ∷ []; witnesses = []; locktime = 5 };
}

-- A chain of the opening in block 1 and a repayment in block 2.
abbrev pub node : Node
node = record {
  mempool_entry = λ txid. false;
  header = λ bh. if text_eq bh (codes "b1") then some (2, 1) else none;
  tip = 2;
  block = λ h.
      if h == 1
      then record { hash = codes "b1"; txs = opening_tx ∷ [] }
      else if h == 2
      then record { hash = codes "b2"; txs = repayment ∷ [] }
      else record { hash = codes "b0"; txs = [] };
  mempool = [];
  gettxout = λ txid vout. if text_eq txid (codes "02") && vout == 0 then some 1 else none;
}

-- The same chain, whose node knows the second block's header.
abbrev next_poll : Node
next_poll = record node { header = λ bh. if text_eq bh (codes "b2") then some (1, 2) else none }

-- The node after both blocks were replaced.
abbrev replaced : Node
replaced = record node {
  header = λ bh. none;
  block = λ h. record { hash = codes "c0"; txs = [] };
  gettxout = λ txid vout. none;
}

abbrev coin_of : State → VaultCoin
coin_of s = record {
  vout = 0;
  amount = 100;
  asset = terms.collateral_asset;
  spk = script_of terms s;
  debt = s.0;
  last_time = s.1;
}

abbrev opening_step : Step
opening_step = record {
  txid = codes "01";
  event = none;
  place = record { height = some 1; blockhash = some (codes "b1"); kind = codes "block" };
  holds = coin (coin_of (9, 5));
}

abbrev repayment_step : Step
repayment_step = record {
  txid = codes "02";
  event = some repay;
  place = record { height = some 2; blockhash = some (codes "b2"); kind = codes "block" };
  holds = coin (coin_of (5, 5));
}

abbrev loan : Loan
loan = record {
  terms = terms;
  line = opening_step ∷ [];
  opening = some opening_step;
  state = some live;
  debt = 9;
  last_time = 5;
  collateral = 100;
  txid = codes "01";
  vout = 0;
}

abbrev repaid_loan : Loan
repaid_loan = record loan { line = repayment_step ∷ opening_step ∷ []; debt = 5; txid = codes "02" }

abbrev undone_loan : Loan
undone_loan = record repaid_loan { line = []; state = some ghost }

runs :
    reconcile_loan script_of (codes "1eaf") node loan
    ≡ ok (repaid_loan, true, stepped repay (codes "02") ∷ [])
unfolding reconcile_loan after_undo go_forward settle filled state_by state_differs state_eq advance
    next_step read_spend step_of logged undo undo_newest reopen reopened event_state where_is
    still_mined mined_again has_txid or_height spender spender_from spender_in input_of place_of
    place_eq follow moved_of successor_of spends_beacon spends_leaf paid_at out_at
runs = refl

-- The record of the repaid loan on the node whose blocks were replaced.
undoes :
    reconcile_loan script_of (codes "1eaf") replaced repaid_loan
    ≡ ok (undone_loan, true, undone (codes "02") ∷ undone (codes "01") ∷ [])
unfolding reconcile_loan after_undo state_differs state_eq undo undo_newest reopen reopened where_is
    still_mined mined_again has_txid or_height
undoes = refl

again : reconcile_loan script_of (codes "1eaf") next_poll repaid_loan ≡ ok (repaid_loan, false, [])
unfolding reconcile_loan after_undo go_forward settle filled state_by state_differs state_eq advance
    next_step undo undo_newest reopen reopened where_is still_mined mined_again has_txid or_height
    place_of place_eq spender spender_from spender_in input_of read_spend
again = refl

-- The place of the coin that the repayment made.
coin_place : place_of_coin node (codes "02") 0 ≡ some (in_block 2 (codes "b2"))
unfolding place_of_coin
coin_place = refl

loan-Shows : Shows loan loan.line
unfolding state_by
loan-Shows = (
  refl,
  λ c e.
      let same : coin_of (9, 5) ≡ c = ground arith in
      subst (IsOfCoin loan opening_step) same
        record { debt = refl; last_time = refl; collateral = refl; txid = refl; vout = refl },
)

repaid_loan-Shows : Shows repaid_loan repaid_loan.line
repaid_loan-Shows = reconcile_loan-Shows script_of (codes "1eaf") node loan runs

reconcile_loan-eq-nil_iff_example :
    ((undone_loan.line ≡ [])
      ↔ (All (IsOutOfSight replaced) repaid_loan.line × IsOutOfSight replaced opening_step))
    × (undone_loan.line ≡ [] → undone_loan.state ≡ some ghost)
reconcile_loan-eq-nil_iff_example =
    reconcile_loan-eq-nil_iff script_of (codes "1eaf") replaced repaid_loan opening_step refl undoes

abbrev no_events : List Logged
no_events = []

spender_finds : spender node (codes "01") 0 1 ≡ some (repayment, 0, in_block 2 (codes "b2"))
unfolding spender spender_from spender_in input_of
spender_finds = refl
