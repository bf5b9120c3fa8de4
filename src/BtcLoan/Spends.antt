-- ===== src/BtcLoan/Spends.antt =====
-- The trees and the spends of pignus/btc_collateral.py: `funding_tree`, `prevault_tree`, `reclaim_tx`,
-- `complete_reclaim`, `upgrade_tx`, `complete_upgrade`, `abort_tx`, `seize_tx` and `timeout_tx`. The hash, the
-- curve and the signatures are other code and stand in a record.
use pignus.Prelude.{
  ℕ, ◌+◌, ◌-◌, ◌%◌, ◌^◌, Bool, not, ◌||◌, Option, none, some, List, [], ◌∷◌, Text, codes, text_eq,
  is_empty, ◌==◌, if◌then◌else◌, Result, ok, err, ◌>>=◌, ◌>>◌, raise_if,
}
use pignus.Prelude.Hex.{from_hex, to_hex}
use pignus.BtcLoan.{BtcLoan, prevault_value}
use pignus.BtcScript.{two_of_two, timelocked_single, hashlocked_two_of_two}
use pignus.BtcScript.Tree.{
  Curve, TapTree, leaf_version, tap_tree, leaf_named, control_block, script_pub_key,
}
use pignus.BtcScript.Tx.{BtcTx, taproot_sighash}

-- What the code raises, and what fails in a script that is too long.
pub data LoanError : Type 0 where
  bad_hex no_payment_hash no_prevault_terms long_push no_leaf : LoanError
  wrong_secret bad_release bad_presig bad_oracle_sig : LoanError

-- What the code takes from elsewhere: the hash and the curve, and `verify` and `sign` of
-- pignus/adaptor.py, whose keys and messages are bytes.
pub record Signer : Type 0 where
  pub curve : Curve
  pub verify : Text → Text → Text → Bool
  pub sign : Text → Text → Text

-- `NUMS`
abbrev pub nums : Text
nums =
    0x50 ∷ 0x92 ∷ 0x9b ∷ 0x74 ∷ 0xc1 ∷ 0xa0 ∷ 0x49 ∷ 0x54 ∷ 0xb7 ∷ 0x8b ∷ 0x4b ∷ 0x60 ∷ 0x35 ∷ 0xe9
    ∷ 0x7a ∷ 0x5e ∷ 0x07 ∷ 0x8a ∷ 0x5a ∷ 0x0f ∷ 0x28 ∷ 0xec ∷ 0x96 ∷ 0xd5 ∷ 0x47 ∷ 0xbf ∷ 0xee
    ∷ 0x9a ∷ 0xce ∷ 0x80 ∷ 0x3a ∷ 0xc0 ∷ []

-- `bytes.fromhex`
unfoldable pub bytes : Text → Result LoanError Text
bytes s = elim (from_hex s) [ none ↦ err bad_hex | some b ↦ ok b ]

-- A script, or the failure of an assertion.
unfoldable pub script : Option Text → Result LoanError Text
script none = err long_push
script (some s) = ok s

-- The value of an output that leaves a fee, in the 64 bits that it is packed in.
unfoldable pub less : ℕ → ℕ → ℕ
less value fee = (value + 2 ^ 64 - fee) % 2 ^ 64

module _ (g : Signer) where
  -- `BtcLoan.funding_tree`
  unfoldable pub funding_tree : BtcLoan → Result LoanError TapTree
  funding_tree loan = do
    bx ← bytes loan.borrower_x
    lx ← bytes loan.lender_x
    ox ← bytes loan.oracle_x
    raise_if (is_empty loan.payment_hash) no_payment_hash >> bytes loan.payment_hash >>= λ h. do
      reclaim ← script (hashlocked_two_of_two h bx lx)
      seize ← script (two_of_two lx ox)
      timeout ← script (timelocked_single loan.recover_after lx)
      ok (
          tap_tree g.curve nums (codes "reclaim", reclaim)
            ((codes "seize", seize) ∷ (codes "timeout", timeout) ∷ []))

  -- `BtcLoan.prevault_tree`
  unfoldable pub prevault_tree : BtcLoan → Result LoanError TapTree
  prevault_tree loan =
      raise_if (is_empty loan.h_w || (loan.abort_after == 0)) no_prevault_terms
      >> bytes loan.borrower_x
      >>= λ bx. do
        lx ← bytes loan.lender_x
        h ← bytes loan.h_w
        upgrade ← script (hashlocked_two_of_two h bx lx)
        abort ← script (timelocked_single loan.abort_after bx)
        ok (tap_tree g.curve nums (codes "upgrade", upgrade) ((codes "abort", abort) ∷ []))

-- `tree.leaves[name]` and `tree.control_block(name)`, at the end of a witness.
unfoldable pub leaf_witness : TapTree → Text → Result LoanError (Text × Text)
leaf_witness tree name = elim (leaf_named name tree.leaves) [
  | none ↦ err no_leaf
  | some l ↦ ok (l.script, control_block tree l)
]

-- A lock time that is asked for, or the loan's.
unfoldable pub asked_or : Option ℕ → ℕ → ℕ
asked_or none t = t
asked_or (some asked) t = asked

-- `_spend_tx`
unfoldable pub spend_tx : Text → ℕ → ℕ → Text → ℕ → ℕ → BtcTx
unfolding less
spend_tx txid vout value dest_spk fee locktime = record {
  version = 2;
  locktime = locktime;
  vin =
      record {
        txid = txid;
        vout = vout;
        sequence = if locktime == 0 then 0xffffffff else 0xfffffffe;
        witness = [];
      }
      ∷ [];
  vout = record { value = less value fee; spk = dest_spk } ∷ [];
}

-- `tx.vin[0].witness = ...`
unfoldable pub with_witness : BtcTx → List Text → BtcTx
with_witness tx stack = elim tx.vin [
  | [] ↦ tx
  | i ∷ ins ↦ record tx { vin = record i { witness = stack } ∷ ins }
]

-- `reclaim_tx`
unfoldable pub reclaim_tx : BtcLoan → Text → ℕ → Text → ℕ → BtcTx
unfolding spend_tx
reclaim_tx loan txid vout dest_spk fee = spend_tx txid vout loan.btc_amount dest_spk fee 0

module _ (g : Signer) where
  -- The message of a spend of an output by a leaf's script.
  unfoldable pub message : BtcTx → ℕ → TapTree → Text → Text
  message tx value tree leaf_script =
      taproot_sighash g.curve tx (record { value = value; spk = script_pub_key tree } ∷ []) 0
        leaf_script leaf_version

  -- `complete_reclaim`
  unfoldable pub complete_reclaim : BtcLoan → BtcTx → Text → Text → Text → Result LoanError BtcTx
  complete_reclaim loan tx release_sig secret borrower_sec =
      raise_if (not (text_eq (to_hex (g.curve.sha256 secret)) loan.payment_hash)) wrong_secret
      >> funding_tree g loan
      >>= λ tree. do
        (leaf, control) ← leaf_witness tree (codes "reclaim")
        lx ← bytes loan.lender_x
        raise_if (not (g.verify lx (message tx loan.btc_amount tree leaf) release_sig)) bad_release
            >> ok (
                with_witness tx (
                  release_sig
                  ∷ g.sign borrower_sec (message tx loan.btc_amount tree leaf)
                  ∷ secret
                  ∷ leaf
                  ∷ control
                  ∷ []))

  -- `upgrade_tx`
  unfoldable pub upgrade_tx : BtcLoan → Text → ℕ → Result LoanError BtcTx
  upgrade_tx loan txid vout = do
    tree ← funding_tree g loan
    ok record {
      version = 2;
      locktime = 0;
      vin = record { txid = txid; vout = vout; sequence = 0xffffffff; witness = [] } ∷ [];
      vout = record { value = loan.btc_amount; spk = script_pub_key tree } ∷ [];
    }

  -- `complete_upgrade`
  unfoldable pub complete_upgrade : BtcLoan → Text → ℕ → Text → Text → Text → Result LoanError BtcTx
  complete_upgrade loan txid vout presig secret_w lender_sec =
      raise_if (not (text_eq (to_hex (g.curve.sha256 secret_w)) loan.h_w)) wrong_secret
      >> upgrade_tx loan txid vout
      >>= λ tx. do
        tree ← prevault_tree g loan
        (leaf, control) ← leaf_witness tree (codes "upgrade")
        bx ← bytes loan.borrower_x
        raise_if (not (g.verify bx (message tx (prevault_value loan) tree leaf) presig)) bad_presig
            >> ok (
                with_witness tx (
                  g.sign lender_sec (message tx (prevault_value loan) tree leaf)
                  ∷ presig
                  ∷ secret_w
                  ∷ leaf
                  ∷ control
                  ∷ []))

  -- `abort_tx`
  unfoldable pub abort_tx : BtcLoan → Text → ℕ → Text → ℕ → Text → Option ℕ → Result LoanError BtcTx
  unfolding less
  abort_tx loan txid vout dest_spk fee borrower_sec asked =
      let locktime = asked_or asked loan.abort_after in
      let tx : BtcTx = record {
        version = 2;
        locktime = locktime;
        vin = record { txid = txid; vout = vout; sequence = 0xfffffffe; witness = [] } ∷ [];
        vout = record { value = less (prevault_value loan) fee; spk = dest_spk } ∷ [];
      } in
      prevault_tree g loan >>= λ tree. do
        (leaf, control) ← leaf_witness tree (codes "abort")
        ok (
            with_witness tx (
              g.sign borrower_sec (message tx (prevault_value loan) tree leaf)
              ∷ leaf
              ∷ control
              ∷ []))

  -- `seize_tx`
  unfoldable pub seize_tx : BtcLoan → Text → ℕ → Text → ℕ → Text → Text → Result LoanError BtcTx
  seize_tx loan txid vout dest_spk fee lender_sec oracle_sig =
      let tx = spend_tx txid vout loan.btc_amount dest_spk fee 0 in
      funding_tree g loan >>= λ tree. do
        (leaf, control) ← leaf_witness tree (codes "seize")
        ox ← bytes loan.oracle_x
        raise_if (not (g.verify ox (message tx loan.btc_amount tree leaf) oracle_sig))
              bad_oracle_sig
            >> ok (
                with_witness tx (
                  oracle_sig
                  ∷ g.sign lender_sec (message tx loan.btc_amount tree leaf)
                  ∷ leaf
                  ∷ control
                  ∷ []))

  -- `timeout_tx`
  unfoldable pub timeout_tx :
      BtcLoan → Text → ℕ → Text → ℕ → Text → Option ℕ → Result LoanError BtcTx
  timeout_tx loan txid vout dest_spk fee lender_sec asked =
      let locktime = asked_or asked loan.recover_after in
      let tx = spend_tx txid vout loan.btc_amount dest_spk fee locktime in
      funding_tree g loan >>= λ tree. do
        (leaf, control) ← leaf_witness tree (codes "timeout")
        ok (
            with_witness tx
              (g.sign lender_sec (message tx loan.btc_amount tree leaf) ∷ leaf ∷ control ∷ []))
