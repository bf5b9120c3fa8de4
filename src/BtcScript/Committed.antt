-- ===== src/BtcScript/Committed.antt =====
-- Proofs that the paths of `TapTree` of pignus/btcscript.py lead from each leaf to the root.
use pignus.Prelude.{
  ◌≡◌, refl, ap, true, false, List, [], ◌∷◌, ◌++◌, Text, All, Bool-cases, inl, inr, arith, ◌∙◌,
}
use pignus.BtcScript.Tree.{
  before, leaf_version, TapLeaf, Curve, tapleaf_hash, tapbranch_hash, lengthen, build, tap_tree,
}

before_both : (a b : Text) → before a b ≡ true → before b a ≡ true → ⊥
unfolding before
before_both [] [] e f = absurd (ground arith)
before_both [] (y ∷ ys) e f = absurd (ground arith)
before_both (x ∷ xs) [] e f = absurd (ground arith)
before_both (x ∷ xs) (y ∷ ys) e f = ground (arith, before_both xs ys)

before_neither : (a b : Text) → before a b ≡ false → before b a ≡ false → a ≡ b
unfolding before
before_neither [] [] e f = refl
before_neither [] (y ∷ ys) e f = absurd (ground arith)
before_neither (x ∷ xs) [] e f = absurd (ground arith)
before_neither (x ∷ xs) (y ∷ ys) e f = ground (arith, before_neither xs ys)

module _ (c : Curve) where
  -- A branch hashes its two sides the same in either order.
  tapbranch_hash-swap : (a b : Text) → tapbranch_hash c a b ≡ tapbranch_hash c b a
  unfolding tapbranch_hash
  tapbranch_hash-swap a b = elim (Bool-cases (before a b)) [
    | inl first ↦ elim (Bool-cases (before b a)) [
      | inl second ↦ absurd (before_both a b first second)
      | inr not_second ↦ rw (first, not_second) refl
    ]
    | inr not_first ↦ elim (Bool-cases (before b a)) [
      | inl second ↦ rw (not_first, second) refl
      | inr not_second ↦
          let same = before_neither a b not_first not_second in
          rw (not_first, not_second, same) refl
    ]
  ]

  -- The way up from a hash.
  unfoldable pub climb : Text → List Text → Text
  climb k [] = k
  climb k (e ∷ path) = climb (tapbranch_hash c k e) path

  climb-append :
      (k h : Text) (path : List Text)
      → climb k (path ++ (h ∷ [])) ≡ tapbranch_hash c (climb k path) h
  unfolding climb
  climb-append k h [] = refl
  climb-append k h (e ∷ path) = climb-append (tapbranch_hash c k e) h path

  -- A leaf's path leads to a root.
  abbrev pub LeadsTo : Text → TapLeaf → Type 0
  LeadsTo root l = climb (tapleaf_hash c l.script leaf_version) l.path ≡ root

  lengthen-LeadsTo :
      (cur h : Text) (done : List TapLeaf)
      → All (LeadsTo cur) done
      → All (LeadsTo (tapbranch_hash c cur h)) (lengthen c h done)
  unfolding lengthen
  lengthen-LeadsTo cur h [] lead = tt
  lengthen-LeadsTo cur h (l ∷ done) (leads, lead) = (
    climb-append (tapleaf_hash c l.script leaf_version) h l.path
        ∙ ap (λ k. tapbranch_hash c k h) leads,
    lengthen-LeadsTo cur h done lead,
  )

  pub All-append :
      (P : TapLeaf → Type 0) (xs : List TapLeaf) (y : TapLeaf)
      → All P xs
      → P y
      → All P (xs ++ (y ∷ []))
  All-append P [] y a p = (p, tt)
  All-append P (x ∷ xs) y (q, a) p = (q, All-append P xs y a p)

  build-LeadsTo :
      (cur : Text) (done : List TapLeaf) (more : List (Text × Text))
      → All (LeadsTo cur) done
      → All (LeadsTo (build c cur done more).0) (build c cur done more).1
  unfolding build climb
  build-LeadsTo cur done [] lead = lead
  build-LeadsTo cur done ((name, script) ∷ more) lead =
      let h = tapleaf_hash c script leaf_version in
      build-LeadsTo (tapbranch_hash c cur h)
        (lengthen c h done ++ (record { name = name; script = script; path = cur ∷ [] } ∷ [])) more
        (All-append (LeadsTo (tapbranch_hash c cur h)) (lengthen c h done)
          record { name = name; script = script; path = cur ∷ [] }
          (lengthen-LeadsTo cur h done lead) (tapbranch_hash-swap h cur))

  -- Every leaf's path leads from its hash to the tree's root.
  pub tap_tree-LeadsTo :
      (internal_key : Text) (first : Text × Text) (more : List (Text × Text))
      → All
          (LeadsTo (tap_tree c internal_key first more).merkle_root)
          (tap_tree c internal_key first more).leaves
  unfolding tap_tree climb
  tap_tree-LeadsTo internal_key (name, script) more =
      build-LeadsTo (tapleaf_hash c script leaf_version)
        (record { name = name; script = script; path = [] } ∷ []) more (refl, tt)
