-- ===== src/BtcScript/Control.antt =====
-- Bitcoin's rule for a script path spend (BIP341), and proofs that the control blocks of
-- pignus/btcscript.py satisfy it.
use pignus.Prelude.{
  ℕ, suc, ◌+◌, ◌-◌, ◌%◌, ◌≡◌, refl, sym, ap, Bool, true, false, ◌&&◌, Option, none, some, List, [],
  ◌∷◌, ◌++◌, map, Text, codes, text_eq, text_eq_refl, length, length-append, take, All, All-imp,
  All-zip, leb, ◌==◌, if◌then◌else◌, arith, ◌∙◌,
}
use mathlib.Core.List.{append-nil, append_assoc}
use pignus.BtcScript.Rules.{drop}
use pignus.BtcScript.Parsed.{take-front, drop-front}
use pignus.BtcScript.Tree.{
  leaf_version, TapLeaf, TapTree, Curve, tagged_hash, tapleaf_hash, tapbranch_hash, lengthen, build,
  tap_tree, concatenated, control_block, script_pub_key,
}
use pignus.BtcScript.Bitcoin.{
  leaf_digest, branch_digest, tweak_digest, tapleaf_hash-leaf_digest, tapbranch_hash-branch_digest,
  tagged_hash-tweak_digest,
}
use pignus.BtcScript.Pieces.{pieces, Is32, pieces-concatenated}
use pignus.BtcScript.Committed.{climb, LeadsTo, tap_tree-LeadsTo, All-append}

module _ (c : Curve) where
  -- The way up from a digest.
  unfoldable pub ascend : Text → List Text → Text
  ascend k [] = k
  ascend k (e ∷ path) = ascend (branch_digest c k e) path

  ascend-climb : (k : Text) (path : List Text) → climb c k path ≡ ascend k path
  unfolding climb ascend
  ascend-climb k [] = refl
  ascend-climb k (e ∷ path) =
      ap (λ h. climb c h path) (tapbranch_hash-branch_digest c k e)
      ∙ ascend-climb (branch_digest c k e) path

  -- Whether the pieces of a control block, of the tapscript version 0xc0, lead from a script to an output, when its first byte is `v`
  -- and its key is `key`.
  unfoldable pub leads : Text → Text → ℕ → Text → Option (List Text) → Bool
  leads spk script v key none = false
  leads spk script v key (some path) =
      let root = ascend (leaf_digest c script (v - v % 2)) path in
      let (output, negated) = c.tweak_add_pubkey key (tweak_digest c key root) in
      (v - v % 2 == 0xc0)
      && text_eq spk (0x51 ∷ 0x20 ∷ output)
      && (v % 2 == (if negated then 1 else 0))

  -- Whether a script and a control block open an output.
  unfoldable pub commits : Text → Text → Text → Bool
  commits spk script [] = false
  commits spk script (v ∷ rest) =
      leb 32 (length rest)
      && leads spk script v (take 32 rest) (pieces (suc (length rest)) (drop 32 rest))

module _ (c : Curve) (hashes_32 : (s : Text) → Is32 (c.sha256 s)) where
  abbrev PathIs32 : TapLeaf → Type 0
  PathIs32 l = All Is32 l.path

  All-append_hash :
      (path : List Text) (h : Text) → All Is32 path → Is32 h → All Is32 (path ++ (h ∷ []))
  All-append_hash [] h are is = (is, tt)
  All-append_hash (e ∷ path) h (one, are) is = (one, All-append_hash path h are is)

  lengthen-PathIs32 :
      (h : Text) (done : List TapLeaf)
      → Is32 h
      → All PathIs32 done
      → All PathIs32 (lengthen c h done)
  unfolding lengthen
  lengthen-PathIs32 h [] is are = tt
  lengthen-PathIs32 h (l ∷ done) is (one, are) =
      (All-append_hash l.path h one is, lengthen-PathIs32 h done is are)

  build-PathIs32 :
      (cur : Text) (done : List TapLeaf) (more : List (Text × Text))
      → Is32 cur
      → All PathIs32 done
      → All PathIs32 (build c cur done more).1
  unfolding build tapleaf_hash tapbranch_hash tagged_hash
  build-PathIs32 cur done [] is are = are
  build-PathIs32 cur done ((name, script) ∷ more) is are =
      let h = tapleaf_hash c script leaf_version in
      build-PathIs32 (tapbranch_hash c cur h)
        (lengthen c h done ++ (record { name = name; script = script; path = cur ∷ [] } ∷ [])) more
        (hashes_32 _)
        (All-append c PathIs32 (lengthen c h done)
          record { name = name; script = script; path = cur ∷ [] }
          (lengthen-PathIs32 h done (hashes_32 _) are) (is, tt))

  tap_tree-PathIs32 :
      (internal_key : Text) (first : Text × Text) (more : List (Text × Text))
      → All PathIs32 (tap_tree c internal_key first more).leaves
  unfolding tap_tree tapleaf_hash tagged_hash
  tap_tree-PathIs32 internal_key (name, script) more =
      build-PathIs32 (tapleaf_hash c script leaf_version)
        (record { name = name; script = script; path = [] } ∷ []) more (hashes_32 _) (tt, tt)

  -- The parity byte's two readings.
  version_byte :
      (b : Bool) → ((leaf_version + (if b then 1 else 0)) % 2 == (if b then 1 else 0)) ≡ true
  version_byte true = refl
  version_byte false = refl

  version_part :
      (b : Bool)
      → leaf_version + (if b then 1 else 0) - (leaf_version + (if b then 1 else 0)) % 2
        ≡ leaf_version
  version_part true = refl
  version_part false = refl

  -- The root of a tree is under its output key.
  tap_tree-output :
      (internal_key : Text) (first : Text × Text) (more : List (Text × Text))
      → c.tweak_add_pubkey internal_key (
          tagged_hash c
            (codes "TapTweak")
            (internal_key ++ (tap_tree c internal_key first more).merkle_root))
        ≡ (
          (tap_tree c internal_key first more).output_key,
          (tap_tree c internal_key first more).negated,
        )
  unfolding tap_tree
  tap_tree-output internal_key (name, script) more = refl

  tap_tree-key :
      (internal_key : Text) (first : Text × Text) (more : List (Text × Text))
      → (tap_tree c internal_key first more).internal_key ≡ internal_key
  unfolding tap_tree
  tap_tree-key internal_key (name, script) more = refl

  leads_up :
      (spk script key root output : Text) (negated : Bool) (path : List Text)
      → climb c (tapleaf_hash c script leaf_version) path ≡ root
      → c.tweak_add_pubkey key (tagged_hash c (codes "TapTweak") (key ++ root)) ≡ (output, negated)
      → spk ≡ 0x51 ∷ 0x20 ∷ output
      → leads c spk script (leaf_version + (if negated then 1 else 0)) key (some path) ≡ true
  unfolding leads
  leads_up spk script key root output negated path up tweaked is =
      let risen : ascend c (leaf_digest c script leaf_version) path ≡ root =
        ap (λ h. ascend c h path) (sym (tapleaf_hash-leaf_digest c script leaf_version))
        ∙ sym (ascend-climb c (tapleaf_hash c script leaf_version) path)
        ∙ up in
      let sum = ap (c.tweak_add_pubkey key) (sym (tagged_hash-tweak_digest c key root)) ∙ tweaked in
      rw (version_part negated, risen, sum, is, text_eq_refl output) (version_byte negated)

  leaf-commits :
      (tree : TapTree) (l : TapLeaf)
      → Is32 tree.internal_key
      → c.tweak_add_pubkey tree.internal_key
          (tagged_hash c (codes "TapTweak") (tree.internal_key ++ tree.merkle_root))
        ≡ (tree.output_key, tree.negated)
      → LeadsTo c tree.merkle_root l
      → PathIs32 l
      → commits c (script_pub_key tree) l.script (control_block tree l) ≡ true
  unfolding commits control_block script_pub_key
  leaf-commits tree l key tweaked up are =
      let path = concatenated l.path in
      let long = length-append tree.internal_key path in
      let front : take 32 (tree.internal_key ++ path) ≡ tree.internal_key =
        ap (λ n. take n (tree.internal_key ++ path)) (sym key)
        ∙ take-front tree.internal_key path in
      let back : drop 32 (tree.internal_key ++ path) ≡ path =
        ap (λ n. drop n (tree.internal_key ++ path)) (sym key)
        ∙ drop-front tree.internal_key path in
      let enough : leb 32 (length (tree.internal_key ++ path)) ≡ true = ground (arith, long, key) in
      let cut =
        pieces-concatenated (suc (length (tree.internal_key ++ path))) l.path (omega (arith, long))
          are in
      rw (enough, front, back, cut)
        (leads_up (0x51 ∷ 0x20 ∷ tree.output_key) l.script tree.internal_key tree.merkle_root
          tree.output_key tree.negated l.path up tweaked refl)

  -- When SHA-256 and the internal key have 32 bytes, each leaf of a tree has a control block that opens
  -- the tree's output for the leaf's script: by the digests of BIP341, the leaf's under the tapscript
  -- version lead up to the key's tweak, and the tweaked key and its parity are the output's and the
  -- block's.
  pub tap_tree-commits :
      (internal_key : Text) (first : Text × Text) (more : List (Text × Text))
      → Is32 internal_key
      → All
          (λ l.
            commits c
              (script_pub_key (tap_tree c internal_key first more))
              l.script
              (control_block (tap_tree c internal_key first more) l)
            ≡ true)
          (tap_tree c internal_key first more).leaves
  tap_tree-commits internal_key first more is =
      let tree = tap_tree c internal_key first more in
      let key = tap_tree-key internal_key first more in
      let tweaked =
        ap (λ k. c.tweak_add_pubkey k (tagged_hash c (codes "TapTweak") (k ++ tree.merkle_root)))
          key
        ∙ tap_tree-output internal_key first more in
      All-imp tree.leaves (λ l (up, are). leaf-commits tree l (ap length key ∙ is) tweaked up are)
        (All-zip (LeadsTo c tree.merkle_root) PathIs32 tree.leaves
          (tap_tree-LeadsTo c internal_key first more) (tap_tree-PathIs32 internal_key first more))

-- The leaf's name and script.
abbrev pub named : TapLeaf → Text × Text
named l = (l.name, l.script)

module _ (c : Curve) where
  lengthen-named : (h : Text) (done : List TapLeaf) → map named (lengthen c h done) ≡ map named done
  unfolding lengthen
  lengthen-named h [] = refl
  lengthen-named h (l ∷ done) = ap (λ ls. named l ∷ ls) (lengthen-named h done)

  map-append :
      (xs : List TapLeaf) (y : TapLeaf)
      → map named (xs ++ (y ∷ [])) ≡ map named xs ++ (named y ∷ [])
  map-append [] y = refl
  map-append (x ∷ xs) y = ap (λ ls. named x ∷ ls) (map-append xs y)

  build-named :
      (cur : Text) (done : List TapLeaf) (more : List (Text × Text))
      → map named (build c cur done more).1 ≡ map named done ++ more
  unfolding build
  build-named cur done [] = sym (append-nil (map named done))
  build-named cur done ((name, script) ∷ more) =
      let h = tapleaf_hash c script leaf_version in
      let l : TapLeaf = record { name = name; script = script; path = cur ∷ [] } in
      build-named (tapbranch_hash c cur h) (lengthen c h done ++ (l ∷ [])) more
      ∙ ap (λ ls. ls ++ more)
          (map-append (lengthen c h done) l
            ∙ ap (λ ls. ls ++ (named l ∷ [])) (lengthen-named h done))
      ∙ append_assoc (map named done) ((name, script) ∷ []) more

  -- A tree keeps the leaves that it is built from, in their order.
  pub tap_tree-named :
      (internal_key : Text) (first : Text × Text) (more : List (Text × Text))
      → map named (tap_tree c internal_key first more).leaves ≡ first ∷ more
  unfolding tap_tree
  tap_tree-named internal_key (name, script) more =
      build-named (tapleaf_hash c script leaf_version)
        (record { name = name; script = script; path = [] } ∷ []) more
