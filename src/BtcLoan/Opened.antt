-- ===== src/BtcLoan/Opened.antt =====
-- What the proofs on the spends of pignus/btc_collateral.py share: the trees as they are built, and a
-- witness that ends with a leaf.
use pignus.Prelude.{
  ℕ, ◌-◌, ◌^◌, ◌≤◌, ◌<◌, leb, ◌≡◌, refl, sym, ap, true, false, Option, none, some, List, [], ◌∷◌,
  ◌++◌, map, Text, codes, length, All, ok, Result-cases, Option-cases, inl, inr, arith, ◌∙◌,
}
use pignus.Prelude.Hex.{from_hex}
use mathlib.Core.Path.{subst}
use pignus.BtcLoan.{BtcLoan}
use pignus.BtcScript.{two_of_two, timelocked_single, hashlocked_two_of_two}
use pignus.BtcScript.Rules.{Spending, opens}
use pignus.BtcScript.Tree.{Curve, TapTree, tap_tree, leaf_named, control_block, script_pub_key}
use pignus.BtcScript.Control.{commits, named, tap_tree-commits, tap_tree-named}
use pignus.BtcScript.Tx.{TxIn, TxOut, BtcTx}
use pignus.BtcScript.Bitcoin.{total, spend_digest, taproot_sighash-spend_digest}
use pignus.BtcScript.Valid.{
  spending, reverse, valid_witness, valid, script_named, leaf_named-script, leaf_named-All,
}
use pignus.BtcLoan.Spends.{
  Signer, less, nums, bytes, script, funding_tree, prevault_tree, leaf_witness, with_witness,
  message,
}

-- What the code relies on: the hash has 32 bytes, a signature by a secret verifies for its key, and an
-- empty one does not verify.
pub record IsSigner (g : Signer) (public_key : Text → Text) : Type 0 where
  pub hash_32 : (s : Text) → length (g.curve.sha256 s) ≡ 32
  pub hash_bytes : (s : Text) → All (λ (b : ℕ). b < 256) (g.curve.sha256 s)
  pub signed : (secret m : Text) → g.verify (public_key secret) m (g.sign secret m) ≡ true
  pub refused : (key m : Text) → g.verify key m [] ≡ false

-- A fee of at most the value leaves the difference.
pub less-eq : (value fee : ℕ) → fee ≤ value → value < 2 ^ 64 → less value fee ≡ value - fee
unfolding less
less-eq value fee le small = omega arith

-- An output of what a fee leaves pays no more than the value.
pub total-less :
    (value fee : ℕ) (spk : Text)
    → fee ≤ value
    → value < 2 ^ 64
    → total (record { value = less value fee; spk = spk } ∷ []) ≤ value
unfolding total
total-less value fee spk le small = omega (arith, less-eq value fee le small)

pub bytes-eq-ok : (s b : Text) → bytes s ≡ ok b → from_hex s ≡ some b
unfolding bytes
bytes-eq-ok s b e = elim (Option-cases (from_hex s)) [
  | inl bad ↦ absurd (ground arith)
  | inr (b', read) ↦ ground arith
]

script-eq-ok : (o : Option Text) (s : Text) → script o ≡ ok s → o ≡ some s
unfolding script
script-eq-ok none s e = absurd (ground arith)
script-eq-ok (some r) s e = ground arith

module _ (g : Signer) where
  -- The funding tree of a loan, with the bytes and the scripts that it is built from.
  pub record IsFunding (loan : BtcLoan) (tree : TapTree) : Type 0 where
    pub bx : Text
    pub lx : Text
    pub ox : Text
    pub h : Text
    pub reclaim : Text
    pub seize : Text
    pub timeout : Text
    pub borrower : from_hex loan.borrower_x ≡ some bx
    pub lender : from_hex loan.lender_x ≡ some lx
    pub oracle : from_hex loan.oracle_x ≡ some ox
    pub hash : from_hex loan.payment_hash ≡ some h
    pub reclaims : hashlocked_two_of_two h bx lx ≡ some reclaim
    pub seizes : two_of_two lx ox ≡ some seize
    pub times_out : timelocked_single loan.recover_after lx ≡ some timeout
    pub built :
        tree
        ≡ tap_tree g.curve nums
            (codes "reclaim", reclaim)
            ((codes "seize", seize) ∷ (codes "timeout", timeout) ∷ [])

  pub funding_tree-IsFunding :
      (loan : BtcLoan) (tree : TapTree) → funding_tree g loan ≡ ok tree → IsFunding loan tree
  unfolding funding_tree
  funding_tree-IsFunding loan tree e = elim (Result-cases (bytes loan.borrower_x)) [
    | inl (x, bad) ↦ absurd (ground arith)
    | inr (bx, b) ↦ elim (Result-cases (bytes loan.lender_x)) [
      | inl (x, bad) ↦ absurd (ground arith)
      | inr (lx, l) ↦ elim (Result-cases (bytes loan.oracle_x)) [
        | inl (x, bad) ↦ absurd (ground arith)
        | inr (ox, o) ↦ elim (Result-cases (bytes loan.payment_hash)) [
          | inl (x, bad) ↦ absurd (ground arith)
          | inr (h, p) ↦ elim (Result-cases (script (hashlocked_two_of_two h bx lx))) [
            | inl (x, bad) ↦ absurd (ground arith)
            | inr (reclaim, r) ↦ elim (Result-cases (script (two_of_two lx ox))) [
              | inl (x, bad) ↦ absurd (ground arith)
              | inr (seize, s) ↦
                  elim (Result-cases (script (timelocked_single loan.recover_after lx))) [
                    | inl (x, bad) ↦ absurd (ground arith)
                    | inr (timeout, t) ↦ record {
                      bx = bx;
                      lx = lx;
                      ox = ox;
                      h = h;
                      reclaim = reclaim;
                      seize = seize;
                      timeout = timeout;
                      borrower = bytes-eq-ok loan.borrower_x bx b;
                      lender = bytes-eq-ok loan.lender_x lx l;
                      oracle = bytes-eq-ok loan.oracle_x ox o;
                      hash = bytes-eq-ok loan.payment_hash h p;
                      reclaims = script-eq-ok (hashlocked_two_of_two h bx lx) reclaim r;
                      seizes = script-eq-ok (two_of_two lx ox) seize s;
                      times_out = script-eq-ok (timelocked_single loan.recover_after lx) timeout t;
                      built = ground arith;
                    }
                  ]
            ]
          ]
        ]
      ]
    ]
  ]

  -- The tree of the pre-vault, with the bytes and the scripts that it is built from.
  pub record IsPrevault (loan : BtcLoan) (tree : TapTree) : Type 0 where
    pub bx : Text
    pub lx : Text
    pub h : Text
    pub upgrade : Text
    pub abort : Text
    pub borrower : from_hex loan.borrower_x ≡ some bx
    pub lender : from_hex loan.lender_x ≡ some lx
    pub hash : from_hex loan.h_w ≡ some h
    pub upgrades : hashlocked_two_of_two h bx lx ≡ some upgrade
    pub aborts : timelocked_single loan.abort_after bx ≡ some abort
    pub built :
        tree ≡ tap_tree g.curve nums (codes "upgrade", upgrade) ((codes "abort", abort) ∷ [])

  pub prevault_tree-IsPrevault :
      (loan : BtcLoan) (tree : TapTree) → prevault_tree g loan ≡ ok tree → IsPrevault loan tree
  unfolding prevault_tree
  prevault_tree-IsPrevault loan tree e = elim (Result-cases (bytes loan.borrower_x)) [
    | inl (x, bad) ↦ absurd (ground arith)
    | inr (bx, b) ↦ elim (Result-cases (bytes loan.lender_x)) [
      | inl (x, bad) ↦ absurd (ground arith)
      | inr (lx, l) ↦ elim (Result-cases (bytes loan.h_w)) [
        | inl (x, bad) ↦ absurd (ground arith)
        | inr (h, p) ↦ elim (Result-cases (script (hashlocked_two_of_two h bx lx))) [
          | inl (x, bad) ↦ absurd (ground arith)
          | inr (upgrade, u) ↦
              elim (Result-cases (script (timelocked_single loan.abort_after bx))) [
                | inl (x, bad) ↦ absurd (ground arith)
                | inr (abort, a) ↦ record {
                  bx = bx;
                  lx = lx;
                  h = h;
                  upgrade = upgrade;
                  abort = abort;
                  borrower = bytes-eq-ok loan.borrower_x bx b;
                  lender = bytes-eq-ok loan.lender_x lx l;
                  hash = bytes-eq-ok loan.h_w h p;
                  upgrades = script-eq-ok (hashlocked_two_of_two h bx lx) upgrade u;
                  aborts = script-eq-ok (timelocked_single loan.abort_after bx) abort a;
                  built = ground arith;
                }
              ]
        ]
      ]
    ]
  ]

-- A leaf at the end of a witness is one of those that the tree is built from, and its control block
-- opens the tree's output.
pub leaf_witness-commits :
    (c : Curve) (hashes_32 : (s : Text) → length (c.sha256 s) ≡ 32) (tree : TapTree)
    (first : Text × Text) (more : List (Text × Text)) (name leaf control : Text)
    → tree ≡ tap_tree c nums first more
    → leaf_witness tree name ≡ ok (leaf, control)
    → (script_named name (first ∷ more) ≡ some leaf)
      × (commits c (script_pub_key tree) leaf control ≡ true)
unfolding leaf_witness
leaf_witness-commits c hashes_32 tree first more name leaf control built e =
    elim (Option-cases (leaf_named name tree.leaves)) [
      | inl missing ↦ absurd (ground arith)
      | inr (l, found) ↦
          let same : l.script ≡ leaf = ground arith in
          let block : control_block tree l ≡ control = ground arith in
          let opened =
            subst
              (λ x.
                All (λ y. commits c (script_pub_key x) y.script (control_block x y) ≡ true)
                  x.leaves)
              (sym built) (tap_tree-commits c hashes_32 nums first more refl) in
          let commits_here =
            leaf_named-All
              (λ y. commits c (script_pub_key tree) y.script (control_block tree y) ≡ true) name
              tree.leaves l opened found in
          let names : map named tree.leaves ≡ first ∷ more =
            ap (λ x. map named x.leaves) built ∙ tap_tree-named c nums first more in
          (
            ap (script_named name) (sym names)
                ∙ leaf_named-script name tree.leaves l found
                ∙ ap some same,
            subst (λ s. commits c (script_pub_key tree) s control ≡ true) same
                (subst (λ b. commits c (script_pub_key tree) l.script b ≡ true) block commits_here),
          )
    ]

module _ (g : Signer) (version locktime value : ℕ) (i : TxIn) (outs : List TxOut) (tree : TapTree)
    (leaf control : Text) where
  -- A transaction of one input that spends a tree's output by a leaf.
  abbrev pub unsigned : BtcTx
  unsigned = record { version = version; locktime = locktime; vin = i ∷ []; vout = outs }

  -- The run of the leaf with the signatures of that transaction.
  abbrev pub run : Spending
  run = record {
    sha256 = g.curve.sha256;
    verifies = λ key sig. g.verify key (message g unsigned value tree leaf) sig;
    locktime = locktime;
    sequence = i.sequence;
  }

  -- What the code signs is what Bitcoin's signatures sign.
  digest :
      message g unsigned value tree leaf
      ≡ spend_digest g.curve unsigned i record { value = value; spk = script_pub_key tree } leaf
  unfolding message
  digest =
      taproot_sighash-spend_digest g.curve unsigned i
        record { value = value; spk = script_pub_key tree } leaf refl

  -- A stack under the leaf and its control block, in a transaction that pays no more than it spends, is a valid witness exactly when the leaf accepts it.
  pub with_witness-valid :
      (stack : List Text)
      → commits g.curve (script_pub_key tree) leaf control ≡ true
      → reverse (stack ++ (leaf ∷ control ∷ [])) [] ≡ control ∷ leaf ∷ reverse stack []
      → total outs ≤ value
      → valid g.curve g.verify
          (with_witness unsigned (stack ++ (leaf ∷ control ∷ [])))
          record { value = value; spk = script_pub_key tree }
        ≡ opens run leaf (reverse stack [])
  unfolding valid with_witness valid_witness spending spend_digest
  with_witness-valid stack committed back affords =
      let spent : TxOut = record { value = value; spk = script_pub_key tree } in
      let enough : leb (total outs) value ≡ true = ground arith in
      rw (back, committed, enough)
        (ap
          (λ m.
            opens
              record {
                sha256 = g.curve.sha256;
                verifies = λ key sig. g.verify key m sig;
                locktime = locktime;
                sequence = i.sequence;
              }
              leaf (reverse stack []))
          (sym digest))
