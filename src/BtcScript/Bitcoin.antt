-- ===== src/BtcScript/Bitcoin.antt =====
-- What Bitcoin hashes and adds up in a taproot spend (BIP340, BIP341), written from its documents, against
-- which the hashes of pignus/btcscript.py are proved: the digests of a leaf, of a branch and of the
-- tweak, and the digest that a signature of a script path signs, for a transaction of one input.
use pignus.Prelude.{
  ℕ, zero, suc, ◌+◌, ◌/◌, ◌%◌, ◌≡◌, refl, ap, Bool, true, false, ◌&&◌, ◌||◌, List, [], ◌∷◌, ◌++◌,
  Text, codes, length, ltb, ◌==◌, if◌then◌else◌, arith,
}
use mathlib.Core.List.{append-nil}
use pignus.BtcScript.Tree.{
  to_bytes, ser_compact_size, ser_string, before, Curve, tagged_hash, tapleaf_hash, tapbranch_hash,
}
use pignus.BtcScript.Tx.{TxIn, TxOut, BtcTx, reversed, ser_outpoint, ser_out, join, taproot_sighash}

-- A number in as many bytes, the lowest first.
unfoldable pub little : ℕ → ℕ → Text
little zero n = []
little (suc k) n = n % 256 ∷ little k (n / 256)

-- Bytes after their count, in one byte, or in 2, 4 or 8 after a byte that says so.
unfoldable pub count : ℕ → Text
count n =
    if ltb n 0xfd
    then n ∷ []
    else if ltb n 0x10000
    then 0xfd ∷ little 2 n
    else if ltb n 0x100000000
    then 0xfe ∷ little 4 n
    else 0xff ∷ little 8 n

unfoldable pub counted : Text → Text
unfolding count
counted s = count (length s) ++ s

-- The order of the bytes.
unfoldable pub lower_than : Text → Text → Bool
lower_than [] [] = false
lower_than [] (y ∷ ys) = true
lower_than (x ∷ xs) [] = false
lower_than (x ∷ xs) (y ∷ ys) = ltb x y || ((x == y) && lower_than xs ys)

unfoldable pub backwards : Text → Text → Text
backwards [] back = back
backwards (b ∷ s) back = backwards s (b ∷ back)

-- The outputs, each its value in 8 bytes and its script, and the sum of their values.
unfoldable pub outputs : List TxOut → Text
outputs [] = []
outputs (o ∷ outs) = (little 8 o.value ++ counted o.spk) ++ outputs outs

unfoldable pub total : List TxOut → ℕ
total [] = 0
total (o ∷ outs) = o.value + total outs

module _ (c : Curve) where
  -- BIP340's tagged hash.
  unfoldable pub tagged : Text → Text → Text
  tagged tag s = c.sha256 (c.sha256 tag ++ c.sha256 tag ++ s)

  unfoldable pub leaf_digest : Text → ℕ → Text
  leaf_digest script version = tagged (codes "TapLeaf") (version ∷ counted script)

  -- The lower of the two sides comes first.
  unfoldable pub branch_digest : Text → Text → Text
  branch_digest a b = tagged (codes "TapBranch") (if lower_than a b then a ++ b else b ++ a)

  unfoldable pub tweak_digest : Text → Text → Text
  tweak_digest key root = tagged (codes "TapTweak") (key ++ root)

  -- What a signature signs that is given for all inputs and outputs (type 0x00) in a script path of the
  -- tapscript version 0xc0, the input being the transaction's only one.
  unfoldable pub spend_digest : BtcTx → TxIn → TxOut → Text → Text
  spend_digest tx i spent script = tagged (codes "TapSighash") (
      0
      ∷ 0
      ∷ (little 4 tx.version
          ++ little 4 tx.locktime
          ++ c.sha256 (backwards i.txid [] ++ little 4 i.vout)
          ++ c.sha256 (little 8 spent.value)
          ++ c.sha256 (counted spent.spk)
          ++ c.sha256 (little 4 i.sequence)
          ++ c.sha256 (outputs tx.vout)
          ++ (2 ∷ [])
          ++ little 4 0
          ++ leaf_digest script 0xc0
          ++ (0 ∷ [])
          ++ little 4 0xffffffff))

to_bytes-little : (k n : ℕ) → to_bytes k n ≡ little k n
unfolding to_bytes little
to_bytes-little zero n = refl
to_bytes-little (suc k) n = ap (λ s. n % 256 ∷ s) (to_bytes-little k (n / 256))

ser_compact_size-count : (n : ℕ) → ser_compact_size n ≡ count n
unfolding ser_compact_size count
ser_compact_size-count n =
    ground (arith, to_bytes-little 2 n, to_bytes-little 4 n, to_bytes-little 8 n)

ser_string-counted : (s : Text) → ser_string s ≡ counted s
unfolding ser_string counted
ser_string-counted s = ap (λ h. h ++ s) (ser_compact_size-count (length s))

before-lower_than : (a b : Text) → before a b ≡ lower_than a b
unfolding before lower_than
before-lower_than [] [] = refl
before-lower_than [] (y ∷ ys) = refl
before-lower_than (x ∷ xs) [] = refl
before-lower_than (x ∷ xs) (y ∷ ys) = ap (λ b. ltb x y || ((x == y) && b)) (before-lower_than xs ys)

reversed-backwards : (s back : Text) → reversed s back ≡ backwards s back
unfolding reversed backwards
reversed-backwards [] back = refl
reversed-backwards (b ∷ s) back = reversed-backwards s (b ∷ back)

join-outputs : (outs : List TxOut) → join ser_out outs ≡ outputs outs
unfolding join ser_out outputs
join-outputs [] = refl
join-outputs (o ∷ outs) =
    rw (join-outputs outs, to_bytes-little 8 o.value, ser_string-counted o.spk) refl

join-one : {A : Type 0} → (f : A → Text) (x : A) → join f (x ∷ []) ≡ f x
unfolding join
join-one f x = append-nil (f x)

ser_outpoint-backwards : (i : TxIn) → ser_outpoint i ≡ backwards i.txid [] ++ little 4 i.vout
unfolding ser_outpoint
ser_outpoint-backwards i = rw (reversed-backwards i.txid [], to_bytes-little 4 i.vout) refl

module _ (c : Curve) where
  pub tapleaf_hash-leaf_digest :
      (script : Text) (version : ℕ) → tapleaf_hash c script version ≡ leaf_digest c script version
  unfolding tapleaf_hash tagged_hash leaf_digest tagged
  tapleaf_hash-leaf_digest script version = rw (ser_string-counted script) refl

  pub tapbranch_hash-branch_digest : (a b : Text) → tapbranch_hash c a b ≡ branch_digest c a b
  unfolding tapbranch_hash tagged_hash branch_digest tagged
  tapbranch_hash-branch_digest a b = rw (before-lower_than a b) refl

  pub tagged_hash-tweak_digest :
      (key root : Text) → tagged_hash c (codes "TapTweak") (key ++ root) ≡ tweak_digest c key root
  unfolding tagged_hash tweak_digest tagged
  tagged_hash-tweak_digest key root = refl

  -- The code's hash of a transaction of one input is the digest that Bitcoin's signatures sign.
  pub taproot_sighash-spend_digest :
      (tx : BtcTx) (i : TxIn) (spent : TxOut) (script : Text)
      → tx.vin ≡ i ∷ []
      → taproot_sighash c tx (spent ∷ []) 0 script 0xc0 ≡ spend_digest c tx i spent script
  unfolding taproot_sighash tagged_hash spend_digest tagged
  taproot_sighash-spend_digest tx i spent script one =
      rw
        (
          one,
          join-one ser_outpoint i,
          ser_outpoint-backwards i,
          join-one (λ (o : TxOut). to_bytes 8 o.value) spent,
          join-one (λ (o : TxOut). ser_string o.spk) spent,
          join-one (λ (x : TxIn). to_bytes 4 x.sequence) i,
          join-outputs tx.vout,
          tapleaf_hash-leaf_digest script 0xc0,
          ser_string-counted spent.spk,
          to_bytes-little 4 tx.version,
          to_bytes-little 4 tx.locktime,
          to_bytes-little 8 spent.value,
          to_bytes-little 4 i.sequence,
          to_bytes-little 4 0,
          to_bytes-little 4 0xffffffff,
        )
        refl
