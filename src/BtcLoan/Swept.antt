-- ===== src/BtcLoan/Swept.antt =====
-- Proofs on `timeout_tx` and `abort_tx` of pignus/btc_collateral.py, the spends that one party makes alone after
-- a lock time.
use pignus.Prelude.{
  ℕ, ◌^◌, ◌≤◌, ◌<◌, ◌≡◌, ◌≢◌, ◌↔◌, refl, sym, ap, true, Option, some, List, [], ◌∷◌, Text, codes,
  ◌==◌, if◌then◌else◌, ok, Result-cases, inl, inr, arith, ◌∙◌,
}
use pignus.Prelude.Hex.{from_hex}
use mathlib.Core.Path.{subst}
use pignus.BtcLoan.{BtcLoan, prevault_value}
use pignus.BtcScript.{timelocked_single}
use pignus.BtcScript.Rules.{opens}
use pignus.BtcScript.Control.{commits}
use pignus.BtcScript.Tree.{TapTree, script_pub_key}
use pignus.BtcScript.Opens.{timelocked_single-opens_iff}
use pignus.BtcScript.Tx.{TxIn, TxOut, BtcTx}
use pignus.BtcScript.Bitcoin.{total}
use pignus.BtcScript.Valid.{reverse, valid}
use pignus.BtcLoan.Spends.{
  Signer, less, asked_or, funding_tree, prevault_tree, leaf_witness, spend_tx, with_witness,
  message, timeout_tx, abort_tx,
}
use pignus.BtcLoan.Opened.{
  IsSigner, funding_tree-IsFunding, prevault_tree-IsPrevault, leaf_witness-commits, unsigned, run,
  with_witness-valid, total-less,
}
use pignus.BtcLoan.Signed.{some_same, verified-Signed}

-- The abort before it is signed.
abbrev abort_base : BtcLoan → Text → ℕ → Text → ℕ → ℕ → BtcTx
abort_base loan txid vout dest_spk fee locktime = record {
  version = 2;
  locktime = locktime;
  vin = record { txid = txid; vout = vout; sequence = 0xfffffffe; witness = [] } ∷ [];
  vout = record { value = less (prevault_value loan) fee; spk = dest_spk } ∷ [];
}

module _ (g : Signer) (public_key : Text → Text) (good : IsSigner g public_key) where
  module _ (version locktime value : ℕ) (i : TxIn) (outs : List TxOut) (tree : TapTree)
      (leaf control key_x secret : Text) where
    -- A leaf with a lock time, spent with the signature of its key.
    locked-valid_iff :
        (after : ℕ)
        → after < 500_000_000
        → locktime < 500_000_000
        → i.sequence ≢ 0xffffffff
        → timelocked_single after key_x ≡ some leaf
        → public_key secret ≡ key_x
        → commits g.curve (script_pub_key tree) leaf control ≡ true
        → total outs ≤ value
        → (valid g.curve g.verify
              (with_witness (unsigned g version locktime value i outs tree leaf control) (
                g.sign secret (
                  message g
                    (unsigned g version locktime value i outs tree leaf control)
                    value
                    tree
                    leaf)
                ∷ leaf
                ∷ control
                ∷ []))
              record { value = value; spk = script_pub_key tree }
            ≡ true)
          ↔ (after ≤ locktime)
    locked-valid_iff after height tip in_force locked mine committed affords =
        let w = run g version locktime value i outs tree leaf control in
        let m =
          message g (unsigned g version locktime value i outs tree leaf control) value tree leaf in
        let sig = g.sign secret m in
        let one_left : reverse (sig ∷ []) [] ≡ sig ∷ [] = unfold reverse in refl in
        let same =
          with_witness-valid g version locktime value i outs tree leaf control (sig ∷ []) committed
            (unfold reverse in refl) affords
          ∙ ap (λ s. opens w leaf s) one_left in
        let iff =
          timelocked_single-opens_iff w after key_x leaf (sig ∷ []) (omega (arith, height))
            locked in
        let verified : g.verify key_x m sig ≡ true =
          ap (λ k. g.verify k m sig) (sym mine) ∙ good.signed secret m in
        (
          λ v. (iff.0 (sym same ∙ v)).0.reached,
          λ due.
              same
              ∙ iff.1 (
                record { reached = due; kind = (λ a. tip, λ b. height); in_force = in_force },
                sig,
                refl,
                verified-Signed g public_key good w key_x sig (good.refused key_x _) verified,
              ),
        )

  final_unless_locked :
      (locktime : ℕ)
      → 1 ≤ locktime
      → ◌≢◌ {A = ℕ} (if locktime == 0 then 0xffffffff else 0xfffffffe) 0xffffffff
  final_unless_locked locktime one e = ground arith

  timeout_tx-eq-ok :
      (loan : BtcLoan) (txid : Text) (vout : ℕ) (dest_spk : Text) (fee : ℕ) (lender_sec : Text)
      (asked : Option ℕ) (tx : BtcTx)
      → timeout_tx g loan txid vout dest_spk fee lender_sec asked ≡ ok tx
      → (tree : TapTree) × (leaf : Text) × (control : Text) × (funding_tree g loan ≡ ok tree)
        × (leaf_witness tree (codes "timeout") ≡ ok (leaf, control))
        × (with_witness
              (spend_tx txid vout loan.btc_amount dest_spk fee (asked_or asked loan.recover_after))
              (g.sign lender_sec (
                  message g
                    (spend_tx txid vout loan.btc_amount dest_spk fee
                      (asked_or asked loan.recover_after))
                    loan.btc_amount
                    tree
                    leaf)
                ∷ leaf
                ∷ control
                ∷ [])
            ≡ tx)
  unfolding timeout_tx
  timeout_tx-eq-ok loan txid vout dest_spk fee lender_sec asked tx e =
      elim (Result-cases (funding_tree g loan)) [
        | inl (x, bad) ↦ absurd (ground arith)
        | inr (tree, t) ↦ elim (Result-cases (leaf_witness tree (codes "timeout"))) [
          | inl (x, bad) ↦ absurd (ground arith)
          | inr ((leaf, control), l) ↦ (tree, leaf, control, t, l, ground arith)
        ]
      ]

  -- The lender's sweep, built for a height with the lender's own key and a fee of at most the collateral,
  -- is valid by Bitcoin's rules exactly
  -- when that height has reached the loan's `recover_after`.
  pub timeout_tx-valid_iff :
      (loan : BtcLoan) (txid : Text) (vout : ℕ) (dest_spk : Text) (fee : ℕ) (lender_sec : Text)
      (asked : Option ℕ) {tx : BtcTx}
      → from_hex loan.lender_x ≡ some (public_key lender_sec)
      → loan.recover_after < 500_000_000
      → 1 ≤ asked_or asked loan.recover_after
      → asked_or asked loan.recover_after < 500_000_000
      → fee ≤ loan.btc_amount
      → loan.btc_amount < 2 ^ 64
      → timeout_tx g loan txid vout dest_spk fee lender_sec asked ≡ ok tx
      → (tree : TapTree) × (funding_tree g loan ≡ ok tree)
        × ((valid g.curve g.verify tx record { value = loan.btc_amount; spk = script_pub_key tree }
              ≡ true)
            ↔ (loan.recover_after ≤ asked_or asked loan.recover_after))
  unfolding spend_tx
  timeout_tx-valid_iff loan txid vout dest_spk fee lender_sec asked {tx} mine height one tip low
        word e =
      let (tree, leaf, control, t, l, is_tx) =
        timeout_tx-eq-ok loan txid vout dest_spk fee lender_sec asked tx e in
      let is = funding_tree-IsFunding g loan tree t in
      let (named, committed) =
        leaf_witness-commits g.curve good.hash_32 tree (codes "reclaim", is.reclaim)
          ((codes "seize", is.seize) ∷ (codes "timeout", is.timeout) ∷ []) (codes "timeout") leaf
          control is.built l in
      let same : is.timeout ≡ leaf = ground (arith, named) in
      let lender : public_key lender_sec ≡ is.lx = some_same (sym mine ∙ is.lender) in
      let locktime = asked_or asked loan.recover_after in
      let i : TxIn = record {
        txid = txid;
        vout = vout;
        sequence = if locktime == 0 then 0xffffffff else 0xfffffffe;
        witness = [];
      } in
      let outs : List TxOut = record { value = less loan.btc_amount fee; spk = dest_spk } ∷ [] in
      (
        tree,
        t,
        subst
            (λ x.
              (valid g.curve g.verify x
                  record { value = loan.btc_amount; spk = script_pub_key tree }
                ≡ true)
              ↔ (loan.recover_after ≤ locktime))
            is_tx
            (locked-valid_iff 2 locktime loan.btc_amount i outs tree leaf control is.lx lender_sec
              loan.recover_after height tip (final_unless_locked locktime one)
              (is.times_out ∙ ap some same) lender committed
              (total-less loan.btc_amount fee dest_spk low word)),
      )

  abort_tx-eq-ok :
      (loan : BtcLoan) (txid : Text) (vout : ℕ) (dest_spk : Text) (fee : ℕ) (borrower_sec : Text)
      (asked : Option ℕ) (tx : BtcTx)
      → abort_tx g loan txid vout dest_spk fee borrower_sec asked ≡ ok tx
      → (tree : TapTree) × (leaf : Text) × (control : Text) × (prevault_tree g loan ≡ ok tree)
        × (leaf_witness tree (codes "abort") ≡ ok (leaf, control))
        × (with_witness (abort_base loan txid vout dest_spk fee (asked_or asked loan.abort_after)) (
              g.sign borrower_sec (
                message g
                  (abort_base loan txid vout dest_spk fee (asked_or asked loan.abort_after))
                  (prevault_value loan)
                  tree
                  leaf)
              ∷ leaf
              ∷ control
              ∷ [])
            ≡ tx)
  unfolding abort_tx less
  abort_tx-eq-ok loan txid vout dest_spk fee borrower_sec asked tx e =
      elim (Result-cases (prevault_tree g loan)) [
        | inl (x, bad) ↦ absurd (ground arith)
        | inr (tree, t) ↦ elim (Result-cases (leaf_witness tree (codes "abort"))) [
          | inl (x, bad) ↦ absurd (ground arith)
          | inr ((leaf, control), l) ↦ (tree, leaf, control, t, l, ground arith)
        ]
      ]

  -- The borrower's abort, built for a height with the borrower's own key and a fee of at most the
  -- pre-vault's value, is valid by Bitcoin's rules exactly when that height has reached the loan's `abort_after`.
  abort_tx-valid_iff :
      (loan : BtcLoan) (txid : Text) (vout : ℕ) (dest_spk : Text) (fee : ℕ) (borrower_sec : Text)
      (asked : Option ℕ) {tx : BtcTx}
      → from_hex loan.borrower_x ≡ some (public_key borrower_sec)
      → loan.abort_after < 500_000_000
      → asked_or asked loan.abort_after < 500_000_000
      → fee ≤ prevault_value loan
      → prevault_value loan < 2 ^ 64
      → abort_tx g loan txid vout dest_spk fee borrower_sec asked ≡ ok tx
      → (tree : TapTree) × (prevault_tree g loan ≡ ok tree)
        × ((valid g.curve g.verify tx
                record { value = prevault_value loan; spk = script_pub_key tree }
              ≡ true)
            ↔ (loan.abort_after ≤ asked_or asked loan.abort_after))
  abort_tx-valid_iff loan txid vout dest_spk fee borrower_sec asked {tx} mine height tip low word
        e =
      let (tree, leaf, control, t, l, is_tx) =
        abort_tx-eq-ok loan txid vout dest_spk fee borrower_sec asked tx e in
      let is = prevault_tree-IsPrevault g loan tree t in
      let (named, committed) =
        leaf_witness-commits g.curve good.hash_32 tree (codes "upgrade", is.upgrade)
          ((codes "abort", is.abort) ∷ []) (codes "abort") leaf control is.built l in
      let same : is.abort ≡ leaf = ground (arith, named) in
      let borrower : public_key borrower_sec ≡ is.bx = some_same (sym mine ∙ is.borrower) in
      let locktime = asked_or asked loan.abort_after in
      let i : TxIn = record { txid = txid; vout = vout; sequence = 0xfffffffe; witness = [] } in
      let outs : List TxOut =
        record { value = less (prevault_value loan) fee; spk = dest_spk } ∷ [] in
      (
        tree,
        t,
        subst
            (λ x.
              (valid g.curve g.verify x
                  record { value = prevault_value loan; spk = script_pub_key tree }
                ≡ true)
              ↔ (loan.abort_after ≤ locktime))
            is_tx
            (locked-valid_iff 2 locktime (prevault_value loan) i outs tree leaf control is.bx
              borrower_sec loan.abort_after height tip (λ f. ground arith)
              (is.aborts ∙ ap some same) borrower committed
              (total-less (prevault_value loan) fee dest_spk low word)),
      )
