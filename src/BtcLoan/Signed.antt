-- ===== src/BtcLoan/Signed.antt =====
-- Proofs that the spends of pignus/btc_collateral.py that two parties sign are valid by Bitcoin's rules.
use pignus.Prelude.{
  ℕ, ◌^◌, ◌≤◌, ◌<◌, ◌≡◌, refl, sym, ap, true, false, some, List, [], ◌∷◌, Text, codes, text_eq,
  text_eq_iff, ok, Result-cases, Bool-cases, inl, inr, arith, ◌∙◌,
}
use pignus.Prelude.Hex.{from_hex, to_hex, from_hex-to_hex}
use mathlib.Core.Path.{subst}
use pignus.BtcLoan.{BtcLoan}
use pignus.BtcScript.{hashlocked_two_of_two}
use pignus.BtcScript.Rules.{Spending}
use pignus.BtcScript.Tree.{TapTree, script_pub_key}
use pignus.BtcScript.Leaves.{Signed}
use pignus.BtcScript.Control.{commits}
use pignus.BtcScript.Opens.{hashlocked_two_of_two-opens_iff}
use pignus.BtcScript.Tx.{TxIn, TxOut, BtcTx}
use pignus.BtcScript.Bitcoin.{total}
use pignus.BtcScript.Valid.{reverse, valid}
use pignus.BtcLoan.Spends.{
  Signer, bytes, less, funding_tree, leaf_witness, spend_tx, with_witness, reclaim_tx, message,
  complete_reclaim,
}
use pignus.BtcLoan.Opened.{
  IsSigner, bytes-eq-ok, funding_tree-IsFunding, leaf_witness-commits, unsigned, run,
  with_witness-valid, total-less,
}

pub some_same : {a b : Text} → some a ≡ some b → a ≡ b
some_same e = ground arith

module _ (g : Signer) (public_key : Text → Text) (good : IsSigner g public_key) where
  pub verified-Signed :
      (w : Spending) (key sig : Text)
      → w.verifies key [] ≡ false
      → w.verifies key sig ≡ true
      → Signed w key sig
  verified-Signed w key sig refused e =
      (λ empty. let same = ap (w.verifies key) empty in absurd (ground arith), e)

  -- The secret whose hash is checked in hex is a preimage of the hash in the script.
  pub hash-secret :
      (secret hex h : Text)
      → text_eq (to_hex (g.curve.sha256 secret)) hex ≡ true
      → from_hex hex ≡ some h
      → g.curve.sha256 secret ≡ h
  hash-secret secret hex h same read =
      let is = (text_eq_iff (to_hex (g.curve.sha256 secret)) hex).0 same in
      let back = from_hex-to_hex (g.curve.sha256 secret) (good.hash_bytes secret) in
      let there : some (g.curve.sha256 secret) ≡ some h = sym back ∙ ap from_hex is ∙ read in
      ground arith

  module _ (version locktime value : ℕ) (i : TxIn) (outs : List TxOut) (tree : TapTree)
      (leaf control h a_x b_x : Text) where
    -- A leaf that asks for a preimage and two signatures, opened.
    pub hashed-valid :
        (a_sig b_sig secret : Text)
        → hashlocked_two_of_two h a_x b_x ≡ some leaf
        → commits g.curve (script_pub_key tree) leaf control ≡ true
        → total outs ≤ value
        → g.curve.sha256 secret ≡ h
        → g.verify a_x
            (message g (unsigned g version locktime value i outs tree leaf control) value tree leaf)
            a_sig
          ≡ true
        → g.verify b_x
            (message g (unsigned g version locktime value i outs tree leaf control) value tree leaf)
            b_sig
          ≡ true
        → valid g.curve g.verify
            (with_witness
              (unsigned g version locktime value i outs tree leaf control)
              (b_sig ∷ a_sig ∷ secret ∷ leaf ∷ control ∷ []))
            record { value = value; spk = script_pub_key tree }
          ≡ true
    hashed-valid a_sig b_sig secret locked committed affords hashes first second =
        let w = run g version locktime value i outs tree leaf control in
        with_witness-valid g version locktime value i outs tree leaf control
          (b_sig ∷ a_sig ∷ secret ∷ []) committed (unfold reverse in refl) affords
        ∙ (unfold reverse in
            (hashlocked_two_of_two-opens_iff w h a_x b_x leaf (secret ∷ a_sig ∷ b_sig ∷ [])
                locked).1
              (
                secret,
                a_sig ∷ b_sig ∷ [],
                refl,
                hashes,
                (
                  a_sig,
                  b_sig,
                  refl,
                  verified-Signed w a_x a_sig (good.refused a_x _) first,
                  verified-Signed w b_x b_sig (good.refused b_x _) second,
                ),
              ))

  -- What a completed reclaim is made of.
  complete_reclaim-eq-ok :
      (loan : BtcLoan) (base : BtcTx) (release_sig secret borrower_sec : Text) (tx : BtcTx)
      → complete_reclaim g loan base release_sig secret borrower_sec ≡ ok tx
      → (tree : TapTree) × (leaf : Text) × (control : Text) × (lx : Text) × (text_eq
            (to_hex (g.curve.sha256 secret))
            loan.payment_hash
          ≡ true)
        × (funding_tree g loan ≡ ok tree)
        × (leaf_witness tree (codes "reclaim") ≡ ok (leaf, control))
        × (bytes loan.lender_x ≡ ok lx)
        × (g.verify lx (message g base loan.btc_amount tree leaf) release_sig ≡ true)
        × (with_witness base (
              release_sig
              ∷ g.sign borrower_sec (message g base loan.btc_amount tree leaf)
              ∷ secret
              ∷ leaf
              ∷ control
              ∷ [])
            ≡ tx)
  unfolding complete_reclaim
  complete_reclaim-eq-ok loan base release_sig secret borrower_sec tx e =
      elim (Bool-cases (text_eq (to_hex (g.curve.sha256 secret)) loan.payment_hash)) [
        | inr wrong ↦ absurd (ground arith)
        | inl right ↦ elim (Result-cases (funding_tree g loan)) [
          | inl (x, bad) ↦ absurd (ground arith)
          | inr (tree, t) ↦ elim (Result-cases (leaf_witness tree (codes "reclaim"))) [
            | inl (x, bad) ↦ absurd (ground arith)
            | inr ((leaf, control), l) ↦ elim (Result-cases (bytes loan.lender_x)) [
              | inl (x, bad) ↦ absurd (ground arith)
              | inr (lx, b) ↦
                  elim (Bool-cases
                    (g.verify lx (message g base loan.btc_amount tree leaf) release_sig)) [
                      | inr refused ↦ absurd (ground arith)
                      | inl accepted ↦
                          (tree, leaf, control, lx, right, t, l, b, accepted, ground arith)
                    ]
            ]
          ]
        ]
      ]

  -- A reclaim that is completed, of the transaction that was agreed with a fee of at most the collateral,
  -- spends the vault's output validly by Bitcoin's rules, when the borrower's key is that of the secret it
  -- is signed with.
  pub complete_reclaim-valid :
      (loan : BtcLoan) (txid : Text) (vout : ℕ) (dest_spk : Text) (fee : ℕ)
      (release_sig secret borrower_sec : Text) {tx : BtcTx}
      → from_hex loan.borrower_x ≡ some (public_key borrower_sec)
      → fee ≤ loan.btc_amount
      → loan.btc_amount < 2 ^ 64
      → complete_reclaim g loan
          (reclaim_tx loan txid vout dest_spk fee)
          release_sig
          secret
          borrower_sec
        ≡ ok tx
      → (tree : TapTree) × (funding_tree g loan ≡ ok tree)
        × (valid g.curve g.verify tx record { value = loan.btc_amount; spk = script_pub_key tree }
            ≡ true)
  unfolding reclaim_tx spend_tx
  complete_reclaim-valid loan txid vout dest_spk fee release_sig secret borrower_sec {tx} mine low
        word e =
      let base = reclaim_tx loan txid vout dest_spk fee in
      let (tree, leaf, control, lx, right, t, l, b, accepted, is_tx) =
        complete_reclaim-eq-ok loan base release_sig secret borrower_sec tx e in
      let is = funding_tree-IsFunding g loan tree t in
      let (named, committed) =
        leaf_witness-commits g.curve good.hash_32 tree (codes "reclaim", is.reclaim)
          ((codes "seize", is.seize) ∷ (codes "timeout", is.timeout) ∷ []) (codes "reclaim") leaf
          control is.built l in
      let same : is.reclaim ≡ leaf = ground (arith, named) in
      let lender : lx ≡ is.lx = some_same (sym (bytes-eq-ok loan.lender_x lx b) ∙ is.lender) in
      let borrower : public_key borrower_sec ≡ is.bx = some_same (sym mine ∙ is.borrower) in
      let m = message g base loan.btc_amount tree leaf in
      let i : TxIn = record { txid = txid; vout = vout; sequence = 0xffffffff; witness = [] } in
      let outs : List TxOut = record { value = less loan.btc_amount fee; spk = dest_spk } ∷ [] in
      (
        tree,
        t,
        subst
            (λ x.
              valid g.curve g.verify x record { value = loan.btc_amount; spk = script_pub_key tree }
              ≡ true)
            is_tx
            (hashed-valid 2 0 loan.btc_amount i outs tree leaf control is.h is.bx is.lx
              (g.sign borrower_sec m) release_sig secret (is.reclaims ∙ ap some same) committed
              (total-less loan.btc_amount fee dest_spk low word)
              (hash-secret secret loan.payment_hash is.h right is.hash)
              (subst (λ k. g.verify k m (g.sign borrower_sec m) ≡ true) borrower
                (good.signed borrower_sec m))
              (subst (λ k. g.verify k m release_sig ≡ true) lender accepted)),
      )
