-- ===== src/BtcLoan/Seized.antt =====
-- Proofs on a seizure of pignus/btc_collateral.py from its request to its transaction.
use pignus.Prelude.{
  ℕ, ◌-◌, ◌^◌, ◌≤◌, ◌<◌, ◌≡◌, refl, sym, ap, true, some, List, [], ◌∷◌, Text, codes, All, ok,
  Result-cases, inl, inr, arith, ◌∙◌,
}
use pignus.Prelude.Hex.{from_hex}
use mathlib.Core.Path.{subst}
use pignus.BtcLoan.{BtcLoan}
use pignus.BtcScript.{two_of_two}
use pignus.BtcScript.Tree.{TapTree, script_pub_key, tagged_hash}
use pignus.BtcScript.Control.{commits}
use pignus.BtcScript.Opens.{two_of_two-opens_iff}
use pignus.BtcScript.Tx.{TxIn, TxOut, BtcTx, taproot_sighash}
use pignus.BtcScript.Bitcoin.{total}
use pignus.BtcScript.Valid.{reverse, valid}
use pignus.BtcLoan.Spends.{
  Signer, bytes, less, funding_tree, leaf_witness, spend_tx, with_witness, message, seize_tx,
}
use pignus.BtcLoan.Opened.{
  IsSigner, funding_tree-IsFunding, leaf_witness-commits, unsigned, run, with_witness-valid,
  less-eq, total-less,
}
use pignus.BtcLoan.Signed.{some_same, verified-Signed}
use pignus.BtcLoan.Seize.{seize_sighash}

module _ (g : Signer) (public_key : Text → Text) (good : IsSigner g public_key) where
  module _ (version locktime value : ℕ) (i : TxIn) (outs : List TxOut) (tree : TapTree)
      (leaf control a_x b_x : Text) where
    -- A leaf of two keys, opened with both signatures.
    both-valid :
        (a_sig b_sig : Text)
        → two_of_two a_x b_x ≡ some leaf
        → commits g.curve (script_pub_key tree) leaf control ≡ true
        → total outs ≤ value
        → g.verify a_x
            (message g (unsigned g version locktime value i outs tree leaf control) value tree leaf)
            a_sig
          ≡ true
        → g.verify b_x
            (message g (unsigned g version locktime value i outs tree leaf control) value tree leaf)
            b_sig
          ≡ true
        → valid g.curve g.verify
            (with_witness
              (unsigned g version locktime value i outs tree leaf control)
              (b_sig ∷ a_sig ∷ leaf ∷ control ∷ []))
            record { value = value; spk = script_pub_key tree }
          ≡ true
    both-valid a_sig b_sig locked committed affords first second =
        let w = run g version locktime value i outs tree leaf control in
        with_witness-valid g version locktime value i outs tree leaf control (b_sig ∷ a_sig ∷ [])
          committed (unfold reverse in refl) affords
        ∙ (unfold reverse in
            (two_of_two-opens_iff w a_x b_x leaf (a_sig ∷ b_sig ∷ []) locked).1 (
              a_sig,
              b_sig,
              refl,
              verified-Signed g public_key good w a_x a_sig (good.refused a_x _) first,
              verified-Signed g public_key good w b_x b_sig (good.refused b_x _) second,
            ))

  -- What the message of a seizure is made of.
  pub seize_sighash-eq-ok :
      (loan : BtcLoan) (txid : Text) (vout : ℕ) (dest_spk : Text) (fee : ℕ) (m : Text)
      → seize_sighash g loan txid vout dest_spk fee ≡ ok m
      → (tree : TapTree) × (leaf : Text) × (control : Text) × (funding_tree g loan ≡ ok tree)
        × (leaf_witness tree (codes "seize") ≡ ok (leaf, control))
        × (message g (spend_tx txid vout loan.btc_amount dest_spk fee 0) loan.btc_amount tree leaf
            ≡ m)
  unfolding seize_sighash
  seize_sighash-eq-ok loan txid vout dest_spk fee m e = elim (Result-cases (funding_tree g loan)) [
    | inl (x, bad) ↦ absurd (ground arith)
    | inr (tree, t) ↦ elim (Result-cases (leaf_witness tree (codes "seize"))) [
      | inl (x, bad) ↦ absurd (ground arith)
      | inr ((leaf, control), l) ↦ (tree, leaf, control, t, l, ground arith)
    ]
  ]

  pub message-bytes :
      (tx : BtcTx) (value : ℕ) (tree : TapTree) (leaf : Text)
      → All (λ (b : ℕ). b < 256) (message g tx value tree leaf)
  unfolding message taproot_sighash tagged_hash
  message-bytes tx value tree leaf = good.hash_bytes _

  bytes-of : (s b : Text) → from_hex s ≡ some b → bytes s ≡ ok b
  unfolding bytes
  bytes-of s b e = rw (e, bytes) refl

  seize_tx-built :
      (loan : BtcLoan) (txid : Text) (vout : ℕ) (dest_spk : Text) (fee : ℕ)
      (lender_sec oracle_sig leaf control ox : Text) (tree : TapTree)
      → funding_tree g loan ≡ ok tree
      → leaf_witness tree (codes "seize") ≡ ok (leaf, control)
      → bytes loan.oracle_x ≡ ok ox
      → let m =
          message g (spend_tx txid vout loan.btc_amount dest_spk fee 0) loan.btc_amount tree leaf in
        g.verify ox m oracle_sig ≡ true
        → seize_tx g loan txid vout dest_spk fee lender_sec oracle_sig
          ≡ ok (
              with_witness
                (spend_tx txid vout loan.btc_amount dest_spk fee 0)
                (oracle_sig ∷ g.sign lender_sec m ∷ leaf ∷ control ∷ []))
  unfolding seize_tx
  seize_tx-built loan txid vout dest_spk fee lender_sec oracle_sig leaf control ox tree t l o v =
      rw (t, seize_tx) (rw l (rw o (rw v refl)))

  -- A seizure, of a fee of at most the collateral, that the lender and the oracle sign, each with the loan's key, is built, spends the
  -- funding output validly and pays what the fee leaves of it.
  pub signed-valid :
      (loan : BtcLoan) (txid : Text) (vout : ℕ) (dest_spk : Text) (fee : ℕ)
      (lender_sec oracle_sec m : Text)
      → from_hex loan.lender_x ≡ some (public_key lender_sec)
      → from_hex loan.oracle_x ≡ some (public_key oracle_sec)
      → fee ≤ loan.btc_amount
      → loan.btc_amount < 2 ^ 64
      → seize_sighash g loan txid vout dest_spk fee ≡ ok m
      → (tx : BtcTx) × (tree : TapTree) × (seize_tx g loan txid vout dest_spk fee lender_sec
            (g.sign oracle_sec m)
          ≡ ok tx)
        × (funding_tree g loan ≡ ok tree)
        × (valid g.curve g.verify tx record { value = loan.btc_amount; spk = script_pub_key tree }
            ≡ true)
        × (tx.vout ≡ record { value = loan.btc_amount - fee; spk = dest_spk } ∷ [])
  unfolding spend_tx with_witness
  signed-valid loan txid vout dest_spk fee lender_sec oracle_sec m lends judges low word e =
      let (tree, leaf, control, t, l, is_m) = seize_sighash-eq-ok loan txid vout dest_spk fee m e in
      let is = funding_tree-IsFunding g loan tree t in
      let (named, committed) =
        leaf_witness-commits g.curve good.hash_32 tree (codes "reclaim", is.reclaim)
          ((codes "seize", is.seize) ∷ (codes "timeout", is.timeout) ∷ []) (codes "seize") leaf
          control is.built l in
      let same : is.seize ≡ leaf = ground (arith, named) in
      let lender : public_key lender_sec ≡ is.lx = some_same (sym lends ∙ is.lender) in
      let oracle : public_key oracle_sec ≡ is.ox = some_same (sym judges ∙ is.oracle) in
      let base = spend_tx txid vout loan.btc_amount dest_spk fee 0 in
      let i : TxIn = record { txid = txid; vout = vout; sequence = 0xffffffff; witness = [] } in
      let outs : List TxOut = record { value = less loan.btc_amount fee; spk = dest_spk } ∷ [] in
      let oracle_sig = g.sign oracle_sec m in
      let here = message g base loan.btc_amount tree leaf in
      let lender_sig = g.sign lender_sec here in
      let by_oracle : g.verify is.ox here oracle_sig ≡ true =
        subst (λ k. g.verify k here oracle_sig ≡ true) oracle
          (ap (λ x. g.verify (public_key oracle_sec) x oracle_sig) is_m
            ∙ good.signed oracle_sec m) in
      let by_lender : g.verify is.lx here lender_sig ≡ true =
        subst (λ k. g.verify k here lender_sig ≡ true) lender (good.signed lender_sec here) in
      (
        with_witness base (oracle_sig ∷ lender_sig ∷ leaf ∷ control ∷ []),
        tree,
        seize_tx-built loan txid vout dest_spk fee lender_sec oracle_sig leaf control is.ox tree t l
            (bytes-of loan.oracle_x is.ox is.oracle) by_oracle,
        t,
        both-valid 2 0 loan.btc_amount i outs tree leaf control is.lx is.ox lender_sig oracle_sig
            (is.seizes ∙ ap some same) committed (total-less loan.btc_amount fee dest_spk low word)
            by_lender by_oracle,
        ap (λ v. record { value = v; spk = dest_spk } ∷ []) (less-eq loan.btc_amount fee low word),
      )
