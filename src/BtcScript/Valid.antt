-- ===== src/BtcScript/Valid.antt =====
-- A taproot script path spend by Bitcoin's rules (BIP341), for the spends of pignus/btc_collateral.py: the
-- control block opens the output for the script, and the script accepts the rest of the witness.
use pignus.Prelude.{
  ◌≡◌, ap, Bool, false, ◌&&◌, Option, none, some, List, [], ◌∷◌, map, Text, text_eq, leb, All,
  if◌then◌else◌, Bool-cases, inl, inr, arith,
}
use mathlib.Core.Path.{subst}
use pignus.BtcScript.Rules.{Spending, opens}
use pignus.BtcScript.Tree.{Curve, TapLeaf, leaf_named}
use pignus.BtcScript.Bitcoin.{total, spend_digest}
use pignus.BtcScript.Control.{commits, named}
use pignus.BtcScript.Tx.{TxIn, TxOut, BtcTx}

-- The run of an input's script: its signatures are for this transaction, input and script.
unfoldable pub spending :
    Curve → (Text → Text → Text → Bool) → BtcTx → TxIn → TxOut → Text → Spending
spending c verify tx i spent script = record {
  sha256 = c.sha256;
  verifies = λ key sig. verify key (spend_digest c tx i spent script) sig;
  locktime = tx.locktime;
  sequence = i.sequence;
}

-- The last two elements of a witness, and the stack before them, its top first.
unfoldable pub reverse : List Text → List Text → List Text
reverse [] back = back
reverse (x ∷ xs) back = reverse xs (x ∷ back)

unfoldable pub valid_witness :
    Curve → (Text → Text → Text → Bool) → BtcTx → TxIn → TxOut → List Text → Bool
valid_witness c verify tx i spent [] = false
valid_witness c verify tx i spent (x ∷ []) = false
valid_witness c verify tx i spent (control ∷ script ∷ stack) =
    commits c spent.spk script control && opens (spending c verify tx i spent script) script stack

-- Whether a transaction of one input may spend an output: it pays no more than it spends, and its
-- witness is valid.
unfoldable pub valid : Curve → (Text → Text → Text → Bool) → BtcTx → TxOut → Bool
valid c verify tx spent = elim tx.vin [
  | i ∷ [] ↦
      leb (total tx.vout) spent.value && valid_witness c verify tx i spent (reverse i.witness [])
  | _ ↦ false
]

-- The script under a name.
abbrev pub script_named : Text → List (Text × Text) → Option Text
script_named name [] = none
script_named name ((n, s) ∷ leaves) = if text_eq n name then some s else script_named name leaves

pub leaf_named-script :
    (name : Text) (leaves : List TapLeaf) (l : TapLeaf)
    → leaf_named name leaves ≡ some l
    → script_named name (map named leaves) ≡ some l.script
unfolding leaf_named
leaf_named-script name [] l e = absurd (ground arith)
leaf_named-script name (x ∷ leaves) l e = elim (Bool-cases (text_eq x.name name)) [
  | inl here ↦ let same : x ≡ l = ground arith in rw here (ap (λ y. some y.script) same)
  | inr later ↦ rw later (leaf_named-script name leaves l (ground arith))
]

pub leaf_named-All :
    (P : TapLeaf → Type 0) (name : Text) (leaves : List TapLeaf) (l : TapLeaf)
    → All P leaves
    → leaf_named name leaves ≡ some l
    → P l
unfolding leaf_named
leaf_named-All P name [] l a e = absurd (ground arith)
leaf_named-All P name (x ∷ leaves) l (p, a) e = elim (Bool-cases (text_eq x.name name)) [
  | inl here ↦ let same : x ≡ l = ground arith in subst P same p
  | inr later ↦ leaf_named-All P name leaves l a (ground arith)
]
