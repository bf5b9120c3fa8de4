-- ===== src/BtcScript/Tree.antt =====
-- The taproot outputs of pignus/btcscript.py: `tapleaf_hash`, `tapbranch_hash` and `TapTree`. SHA-256 and
-- the curve's addition are other code and parameters.
use pignus.Prelude.{
  ℕ, zero, suc, ◌+◌, ◌/◌, ◌%◌, Bool, true, false, ◌&&◌, ◌||◌, Option, none, some, List, [], ◌∷◌,
  ◌++◌, Text, codes, text_eq, length, ltb, leb, ◌==◌, if◌then◌else◌,
}

-- `n.to_bytes(k, "little")`
unfoldable pub to_bytes : ℕ → ℕ → Text
to_bytes zero n = []
to_bytes (suc k) n = n % 256 ∷ to_bytes k (n / 256)

-- `ser_compact_size`
unfoldable pub ser_compact_size : ℕ → Text
ser_compact_size n =
    if ltb n 253
    then n ∷ []
    else if leb n 0xffff
    then 0xfd ∷ to_bytes 2 n
    else if leb n 0xffffffff
    then 0xfe ∷ to_bytes 4 n
    else 0xff ∷ to_bytes 8 n

-- `ser_string`
unfoldable pub ser_string : Text → Text
ser_string b = ser_compact_size (length b) ++ b

-- `<` on byte strings
unfoldable pub before : Text → Text → Bool
before [] [] = false
before [] (y ∷ ys) = true
before (x ∷ xs) [] = false
before (x ∷ xs) (y ∷ ys) = ltb x y || ((x == y) && before xs ys)

-- `LEAF_VERSION`
abbrev pub leaf_version : ℕ
leaf_version = 0xc0

-- A leaf with the way from it to the root.
pub record TapLeaf : Type 0 where
  pub name : Text
  pub script : Text
  pub path : List Text

-- `TapTree`; whether the output key was negated stands in its byte of a control block.
pub record TapTree : Type 0 where
  pub internal_key : Text
  pub leaves : List TapLeaf
  pub merkle_root : Text
  pub output_key : Text
  pub negated : Bool

-- What the code takes from elsewhere: SHA-256, and the curve's sum of a key and a tweak with its
-- parity.
pub record Curve : Type 0 where
  pub sha256 : Text → Text
  pub tweak_add_pubkey : Text → Text → Text × Bool

module _ (c : Curve) where
  -- `tagged_hash`
  unfoldable pub tagged_hash : Text → Text → Text
  tagged_hash tag bytes = c.sha256 (c.sha256 tag ++ c.sha256 tag ++ bytes)

  -- `tapleaf_hash`
  unfoldable pub tapleaf_hash : Text → ℕ → Text
  tapleaf_hash script version = tagged_hash (codes "TapLeaf") (version ∷ ser_string script)

  -- `tapbranch_hash`
  unfoldable pub tapbranch_hash : Text → Text → Text
  tapbranch_hash a b = tagged_hash (codes "TapBranch") (if before a b then a ++ b else b ++ a)

  -- The step of the way to the root that a new leaf adds to the leaves before it.
  unfoldable pub lengthen : Text → List TapLeaf → List TapLeaf
  lengthen h [] = []
  lengthen h (l ∷ leaves) = record l { path = l.path ++ (h ∷ []) } ∷ lengthen h leaves

  -- The loop over the leaves after the first, with the hash so far.
  unfoldable pub build : Text → List TapLeaf → List (Text × Text) → Text × List TapLeaf
  build cur done [] = (cur, done)
  build cur done ((name, script) ∷ more) =
      let h = tapleaf_hash script leaf_version in
      build (tapbranch_hash cur h)
        (lengthen h done ++ (record { name = name; script = script; path = cur ∷ [] } ∷ [])) more

  -- `TapTree.__init__`, of a first leaf and the others.
  unfoldable pub tap_tree : Text → Text × Text → List (Text × Text) → TapTree
  tap_tree internal_key (name, script) more =
      let (root, leaves) =
        build (tapleaf_hash script leaf_version)
          (record { name = name; script = script; path = [] } ∷ []) more in
      let (output_key, negated) =
        c.tweak_add_pubkey internal_key (tagged_hash (codes "TapTweak") (internal_key ++ root)) in
      record {
        internal_key = internal_key;
        leaves = leaves;
        merkle_root = root;
        output_key = output_key;
        negated = negated;
      }

-- The leaf of a name.
unfoldable pub leaf_named : Text → List TapLeaf → Option TapLeaf
leaf_named name [] = none
leaf_named name (l ∷ leaves) = if text_eq l.name name then some l else leaf_named name leaves

abbrev pub concatenated : List Text → Text
concatenated [] = []
concatenated (h ∷ hs) = h ++ concatenated hs

-- `TapTree.control_block`, of a leaf.
unfoldable pub control_block : TapTree → TapLeaf → Text
control_block tree l =
    (leaf_version + (if tree.negated then 1 else 0)) ∷ (tree.internal_key ++ concatenated l.path)

-- `TapTree.scriptPubKey`
unfoldable pub script_pub_key : TapTree → Text
script_pub_key tree = 0x51 ∷ 0x20 ∷ tree.output_key
