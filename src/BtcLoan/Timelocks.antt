-- ===== src/BtcLoan/Timelocks.antt =====
-- `timelocks_sane` of pignus/btc_collateral.py. The source subtracts a tip's height from a deadline and
-- multiplies by the chain's block time; here both sides of each comparison are moved to where nothing
-- is subtracted: a deadline of one chain is its height in seconds plus the other chain's tip in
-- seconds, and the present is both tips in seconds.
use pignus.Prelude.{
  ℕ, ◌+◌, ◌*◌, ◌/◌, Bool, true, false, not, ◌&&◌, ◌||◌, List, [], ◌∷◌, ◌++◌, Text, text_eq,
  is_empty, ltb, leb, ◌==◌, if◌then◌else◌,
}
use pignus.BtcLoan.{BtcLoan}

-- `BTC_BLOCK_SECONDS`
abbrev pub btc_block_seconds : ℕ
btc_block_seconds = 600

-- `SEQ_BLOCK_SECONDS`
abbrev pub seq_block_seconds : ℕ
seq_block_seconds = 60

-- `UPGRADE_MARGIN_SECONDS`
abbrev pub upgrade_margin_seconds : ℕ
upgrade_margin_seconds = 24 * 3600

-- `REPAY_MARGIN_SECONDS`
abbrev pub repay_margin_seconds : ℕ
repay_margin_seconds = 24 * 3600

-- `CLAIM_MARGIN_SECONDS`
abbrev pub claim_margin_seconds : ℕ
claim_margin_seconds = 2 * 3600

-- `TERM_MINIMUM_SECONDS`
abbrev pub term_minimum_seconds : ℕ
term_minimum_seconds = 24 * 3600

-- `CLAIM_MARGIN_BLOCKS`
abbrev pub claim_margin_blocks : ℕ
claim_margin_blocks = claim_margin_seconds / seq_block_seconds

-- `MIN_UPGRADE_FEE`
abbrev pub min_upgrade_fee : ℕ
min_upgrade_fee = 10_000

-- `LOCKTIME_THRESHOLD`
abbrev pub locktime_threshold : ℕ
locktime_threshold = 500_000_000

-- The problems that are reported.
pub data Problem : Type 0 where
  d_refund_time repay_deadline_time abort_after_time recover_after_time : Problem
  partial_origination no_time_to_claim abort_too_soon : Problem
  repay_too_soon sweep_too_soon term_too_short sweep_before_abort : Problem
  low_upgrade_fee one_secret : Problem

abbrev pub report : Bool → Problem → List Problem
report true p = p ∷ []
report false p = []

-- The two tips, and the seconds of a block of each chain.
pub record Tips : Type 0 where
  pub btc_height : ℕ
  pub seq_height : ℕ
  pub btc_seconds : ℕ
  pub seq_seconds : ℕ

-- The present, and a deadline of either chain, in seconds.
abbrev pub now : Tips → ℕ
now tips = tips.btc_height * tips.btc_seconds + tips.seq_height * tips.seq_seconds

abbrev pub btc_s : Tips → ℕ → ℕ
btc_s tips h = h * tips.btc_seconds + tips.seq_height * tips.seq_seconds

abbrev pub seq_s : Tips → ℕ → ℕ
seq_s tips h = h * tips.seq_seconds + tips.btc_height * tips.btc_seconds

-- The seconds by which `effective_repay_deadline` comes before the written one.
abbrev pub early : Tips → ℕ
early tips = claim_margin_blocks * tips.seq_seconds

-- A text or a number is set.
abbrev pub given : Text → Bool
given s = not (is_empty s)

abbrev pub set : ℕ → Bool
set n = not (n == 0)

-- The deadlines that a node reads as Unix times.
unfoldable pub times_named : BtcLoan → List Problem
times_named l =
    report (leb locktime_threshold l.d_refund) d_refund_time
    ++ report (leb locktime_threshold l.repay_deadline) repay_deadline_time
    ++ report (leb locktime_threshold l.abort_after) abort_after_time
    ++ report (leb locktime_threshold l.recover_after) recover_after_time

unfoldable pub origination_problems : Tips → BtcLoan → List Problem
origination_problems tips l =
    if given l.h_w || set l.abort_after || set l.d_refund
    then (if not (given l.h_w && set l.abort_after && set l.d_refund)
        then partial_origination ∷ []
        else report (ltb (seq_s tips l.d_refund) (now tips + claim_margin_seconds)) no_time_to_claim
          ++ report
              (ltb (btc_s tips l.abort_after) (seq_s tips l.d_refund + upgrade_margin_seconds))
              abort_too_soon)
    else []

unfoldable pub margin_problems : Tips → BtcLoan → List Problem
margin_problems tips l =
    report (ltb (seq_s tips l.repay_deadline) (now tips + claim_margin_seconds + early tips))
      repay_too_soon
    ++ report
        (ltb (btc_s tips l.recover_after) (seq_s tips l.repay_deadline + repay_margin_seconds))
        sweep_too_soon
    ++ report
        (set l.d_refund
          && ltb (seq_s tips l.repay_deadline)
              (seq_s tips l.d_refund + term_minimum_seconds + early tips))
        term_too_short
    ++ report (set l.abort_after && leb (btc_s tips l.recover_after) (btc_s tips l.abort_after))
        sweep_before_abort
    ++ report (set l.abort_after && ltb l.upgrade_fee min_upgrade_fee) low_upgrade_fee
    ++ report (given l.payment_hash && given l.h_w && text_eq l.payment_hash l.h_w) one_secret

-- `timelocks_sane`
unfoldable pub timelocks_sane : Tips → BtcLoan → List Problem
timelocks_sane tips l =
    if is_empty (times_named l)
    then origination_problems tips l ++ margin_problems tips l
    else times_named l
