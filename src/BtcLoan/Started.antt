-- ===== src/BtcLoan/Started.antt =====
-- Proofs on `complete_upgrade` of pignus/btc_collateral.py, which starts a loan.
use pignus.Prelude.{
  ℕ, ◌+◌, ◌≡◌, refl, sym, ap, true, some, List, [], ◌∷◌, Text, codes, text_eq, ok, Result-cases,
  Bool-cases, inl, inr, arith, ◌∙◌,
}
use pignus.Prelude.Hex.{from_hex, to_hex}
use mathlib.Core.Path.{subst}
use pignus.BtcLoan.{BtcLoan, prevault_value}
use pignus.BtcScript.Tree.{TapTree, script_pub_key}
use pignus.BtcScript.Tx.{TxIn, TxOut, BtcTx}
use pignus.BtcScript.Bitcoin.{total}
use pignus.BtcScript.Valid.{valid}
use pignus.BtcLoan.Spends.{
  Signer, bytes, funding_tree, prevault_tree, leaf_witness, with_witness, message, upgrade_tx,
  complete_upgrade,
}
use pignus.BtcLoan.Opened.{IsSigner, bytes-eq-ok, prevault_tree-IsPrevault, leaf_witness-commits}
use pignus.BtcLoan.Signed.{some_same, hash-secret, hashed-valid}

-- The input and the output of the move.
move_in : Text → ℕ → TxIn
move_in txid vout = record { txid = txid; vout = vout; sequence = 0xffffffff; witness = [] }

move_out : BtcLoan → TapTree → TxOut
move_out loan vault = record { value = loan.btc_amount; spk = script_pub_key vault }

move : BtcLoan → Text → ℕ → TapTree → BtcTx
unfolding move_in move_out
move loan txid vout vault = record {
  version = 2;
  locktime = 0;
  vin = move_in txid vout ∷ [];
  vout = move_out loan vault ∷ [];
}

with_witness-vout : (tx : BtcTx) (stack : List Text) → (with_witness tx stack).vout ≡ tx.vout
unfolding with_witness
with_witness-vout tx stack = by_vin tx.vin refl
  where
    by_vin : (ins : List TxIn) → tx.vin ≡ ins → (with_witness tx stack).vout ≡ tx.vout
    by_vin [] e = rw e refl
    by_vin (i ∷ ins) e = rw e refl

module _ (g : Signer) where
  -- What a completed move into the vault is made of.
  complete_upgrade-eq-ok :
      (loan : BtcLoan) (txid : Text) (vout : ℕ) (presig secret_w lender_sec : Text) (tx : BtcTx)
      → complete_upgrade g loan txid vout presig secret_w lender_sec ≡ ok tx
      → (vault : TapTree) × (tree : TapTree) × (leaf : Text) × (control : Text) × (bx : Text)
        × (text_eq (to_hex (g.curve.sha256 secret_w)) loan.h_w ≡ true)
        × (funding_tree g loan ≡ ok vault)
        × (prevault_tree g loan ≡ ok tree)
        × (leaf_witness tree (codes "upgrade") ≡ ok (leaf, control))
        × (bytes loan.borrower_x ≡ ok bx)
        × (g.verify bx
              (message g (move loan txid vout vault) (prevault_value loan) tree leaf)
              presig
            ≡ true)
        × (with_witness (move loan txid vout vault) (
              g.sign lender_sec
                (message g (move loan txid vout vault) (prevault_value loan) tree leaf)
              ∷ presig
              ∷ secret_w
              ∷ leaf
              ∷ control
              ∷ [])
            ≡ tx)
  unfolding complete_upgrade upgrade_tx move
  complete_upgrade-eq-ok loan txid vout presig secret_w lender_sec tx e =
      elim (Bool-cases (text_eq (to_hex (g.curve.sha256 secret_w)) loan.h_w)) [
        | inr wrong ↦ absurd (ground arith)
        | inl right ↦ elim (Result-cases (funding_tree g loan)) [
          | inl (x, bad) ↦ absurd (ground arith)
          | inr (vault, v) ↦ elim (Result-cases (prevault_tree g loan)) [
            | inl (x, bad) ↦ absurd (ground arith)
            | inr (tree, t) ↦ elim (Result-cases (leaf_witness tree (codes "upgrade"))) [
              | inl (x, bad) ↦ absurd (ground arith)
              | inr ((leaf, control), l) ↦ elim (Result-cases (bytes loan.borrower_x)) [
                | inl (x, bad) ↦ absurd (ground arith)
                | inr (bx, b) ↦
                    let m = message g (move loan txid vout vault) (prevault_value loan) tree leaf in
                    elim (Bool-cases (g.verify bx m presig)) [
                      | inr refused ↦ absurd (ground arith)
                      | inl accepted ↦ (
                        vault,
                        tree,
                        leaf,
                        control,
                        bx,
                        right,
                        v,
                        t,
                        l,
                        b,
                        accepted,
                        ground arith,
                      )
                    ]
              ]
            ]
          ]
        ]
      ]

module _ (g : Signer) (public_key : Text → Text) (good : IsSigner g public_key) where
  -- A move into the vault that is completed spends the pre-vault's output validly by Bitcoin's rules,
  -- when the lender's key is that of the secret it is signed with, and pays the loan's whole
  -- amount of bitcoin to the vault out of that amount and the upgrade fee.
  pub complete_upgrade-valid :
      (loan : BtcLoan) (txid : Text) (vout : ℕ) (presig secret_w lender_sec : Text) {tx : BtcTx}
      → from_hex loan.lender_x ≡ some (public_key lender_sec)
      → complete_upgrade g loan txid vout presig secret_w lender_sec ≡ ok tx
      → (vault : TapTree) × (tree : TapTree) × (funding_tree g loan ≡ ok vault)
        × (prevault_tree g loan ≡ ok tree)
        × (tx.vout ≡ record { value = loan.btc_amount; spk = script_pub_key vault } ∷ [])
        × (valid g.curve g.verify tx
              record { value = loan.btc_amount + loan.upgrade_fee; spk = script_pub_key tree }
            ≡ true)
  unfolding move move_in move_out prevault_value total
  complete_upgrade-valid loan txid vout presig secret_w lender_sec {tx} mine e =
      let (vault, tree, leaf, control, bx, right, v, t, l, b, accepted, is_tx) =
        complete_upgrade-eq-ok g loan txid vout presig secret_w lender_sec tx e in
      let is = prevault_tree-IsPrevault g loan tree t in
      let (named, committed) =
        leaf_witness-commits g.curve good.hash_32 tree (codes "upgrade", is.upgrade)
          ((codes "abort", is.abort) ∷ []) (codes "upgrade") leaf control is.built l in
      let same : is.upgrade ≡ leaf = ground (arith, named) in
      let borrower : bx ≡ is.bx =
        some_same (sym (bytes-eq-ok loan.borrower_x bx b) ∙ is.borrower) in
      let lender : public_key lender_sec ≡ is.lx = some_same (sym mine ∙ is.lender) in
      let m = message g (move loan txid vout vault) (prevault_value loan) tree leaf in
      (
        vault,
        tree,
        v,
        t,
        ap (λ x. x.vout) (sym is_tx) ∙ with_witness-vout (move loan txid vout vault) _,
        subst
            (λ x.
              valid g.curve g.verify x
                record { value = prevault_value loan; spk = script_pub_key tree }
              ≡ true)
            is_tx
            (hashed-valid g public_key good 2 0 (prevault_value loan) (move_in txid vout)
              (move_out loan vault ∷ []) tree leaf control is.h is.bx is.lx presig
              (g.sign lender_sec m) secret_w (is.upgrades ∙ ap some same) committed (omega arith)
              (hash-secret g public_key good secret_w loan.h_w is.h right is.hash)
              (subst (λ k. g.verify k m presig ≡ true) borrower accepted)
              (subst (λ k. g.verify k m (g.sign lender_sec m) ≡ true) lender
                (good.signed lender_sec m))),
      )
