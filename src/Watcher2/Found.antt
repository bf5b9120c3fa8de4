-- ===== src/Watcher2/Found.antt =====
-- Proofs on `Chain.spender` and `Chain.where` of pignus/watcher2.py.
use pignus.Prelude.{
  ℕ, zero, suc, ◌+◌, ◌-◌, ◌≤◌, ◌≡◌, ◌≢◌, ◌↔◌, inl, inr, ap, ◌&&◌, Option, none, some, List, [], ◌∷◌,
  Text, text_eq, text_eq_iff, ◌==◌, get_elem?, Bool-cases, Option-cases, arith,
}
use mathlib.Core.Path.{subst}
use pignus.Watcher2.{
  ChainTx, Node, Where, in_block, in_mempool, input_of, spender_in, spender_from, spender,
}

-- The `k`th input of a transaction spends an outpoint.
abbrev pub Spends : ChainTx → ℕ → Text → ℕ → Type 0
Spends tx k txid vout = get_elem? tx.prevouts k ≡ some (some (txid, vout))

-- A transaction of a list.
abbrev pub Among : List ChainTx → ChainTx → Type 0
Among txs tx = (i : ℕ) × (get_elem? txs i ≡ some tx)

input_of-eq-some :
    (txid : Text) (vout j k : ℕ) (ins : List (Option (Text × ℕ)))
    → input_of txid vout j ins ≡ some k
    → (i : ℕ) × (k ≡ j + i) × (get_elem? ins i ≡ some (some (txid, vout)))
unfolding input_of
input_of-eq-some txid vout j k [] e = absurd (ground arith)
input_of-eq-some txid vout j k (none ∷ ins) e =
    let (i, far, there) = input_of-eq-some txid vout (j + 1) k ins e in
    (suc i, omega (arith, far), there)
input_of-eq-some txid vout j k (some (id, n) ∷ ins) e =
    elim (Bool-cases (text_eq id txid && n == vout)) [
      | inl is ↦
          let same : id ≡ txid = (text_eq_iff id txid).0 (ground arith) in
          let number : n ≡ vout = ground arith in (0, ground arith, cc)
      | inr other ↦
          let (i, far, there) = input_of-eq-some txid vout (j + 1) k ins (ground arith) in
          (suc i, omega (arith, far), there)
    ]

input_of-eq-none :
    (txid : Text) (vout j : ℕ) (ins : List (Option (Text × ℕ)))
    → input_of txid vout j ins ≡ none
    → (i : ℕ) → get_elem? ins i ≢ some (some (txid, vout))
unfolding input_of
input_of-eq-none txid vout j [] e i there = cc
input_of-eq-none txid vout j (none ∷ ins) e zero there = cc
input_of-eq-none txid vout j (none ∷ ins) e (suc i) there =
    input_of-eq-none txid vout (j + 1) ins e i there
input_of-eq-none txid vout j (some (id, n) ∷ ins) e zero there = ground (arith, text_eq_iff id txid)
input_of-eq-none txid vout j (some (id, n) ∷ ins) e (suc i) there =
    input_of-eq-none txid vout (j + 1) ins (ground arith) i there

spender_in-eq-some :
    (txid : Text) (vout k : ℕ) (txs : List ChainTx) (tx : ChainTx)
    → spender_in txid vout txs ≡ some (tx, k)
    → Among txs tx × Spends tx k txid vout
unfolding spender_in
spender_in-eq-some txid vout k [] tx e = absurd (ground arith)
spender_in-eq-some txid vout k (x ∷ txs) tx e =
    elim (Option-cases (input_of txid vout 0 x.prevouts)) [
      | inl missing ↦
          let ((i, there), spends) = spender_in-eq-some txid vout k txs tx (ground arith) in
          ((suc i, there), spends)
      | inr (j, found) ↦
          let same : x ≡ tx = ground arith in
          let place : j ≡ k = ground arith in
          let (i, far, there) = input_of-eq-some txid vout 0 j x.prevouts found in
          let index : i ≡ k = omega (arith, far, place) in ((0, ap some same), (cc))
    ]

spender_in-eq-none :
    (txid : Text) (vout : ℕ) (txs : List ChainTx)
    → spender_in txid vout txs ≡ none
    → (tx : ChainTx) (k : ℕ) → Among txs tx
    → Spends tx k txid vout
    → ⊥
unfolding spender_in
spender_in-eq-none txid vout [] e tx k (i, there) spends = cc
spender_in-eq-none txid vout (x ∷ txs) e tx k (zero, there) spends =
    elim (Option-cases (input_of txid vout 0 x.prevouts)) [
      | inl missing ↦ input_of-eq-none txid vout 0 x.prevouts missing k (cc)
      | inr (j, found) ↦ absurd (ground arith)
    ]
spender_in-eq-none txid vout (x ∷ txs) e tx k (suc i, there) spends =
    elim (Option-cases (input_of txid vout 0 x.prevouts)) [
      | inl missing ↦ spender_in-eq-none txid vout txs (ground arith) tx k (i, there) spends
      | inr (j, found) ↦ absurd (ground arith)
    ]

-- The node shows a transaction at a place, in a block from a height to the tip or in the mempool.
pub data IsShown (node : Node) (from_height : ℕ) (tx : ChainTx) : Where → Type 0 where
  mined :
      (h : ℕ)
      → from_height ≤ h
      → h ≤ node.tip
      → Among (node.block h).txs tx
      → IsShown node from_height tx (in_block h (node.block h).hash)
  pooled : Among node.mempool tx → IsShown node from_height tx in_mempool

IsShown-above :
    (node : Node) (h : ℕ) (tx : ChainTx) (w : Where)
    → IsShown node (h + 1) tx w
    → IsShown node h tx w
IsShown-above node h tx _ (mined g low high there) = mined g (omega (arith, low)) high there
IsShown-above node h tx _ (pooled there) = pooled there

spender_from-eq-some :
    (node : Node) (txid : Text) (vout k h n : ℕ) (tx : ChainTx) (w : Where)
    → n ≤ node.tip + 1 - h
    → spender_from node txid vout h n ≡ some (tx, k, w)
    → Spends tx k txid vout × IsShown node h tx w
unfolding spender_from
spender_from-eq-some node txid vout k h zero tx w fits e =
    elim (Option-cases (spender_in txid vout node.mempool)) [
      | inl missing ↦ absurd (ground arith)
      | inr ((x, j), found) ↦
          let same : x ≡ tx = ground arith in
          let index : j ≡ k = ground arith in
          let place : in_mempool ≡ w = ground arith in
          let (there, spends) = spender_in-eq-some txid vout j node.mempool x found in
          subst (λ v. Spends tx k txid vout × IsShown node h tx v) place
            (subst (λ y. Spends y k txid vout × IsShown node h y in_mempool) same
              (subst (λ i. Spends x i txid vout) index spends, pooled there))
    ]
spender_from-eq-some node txid vout k h (suc n) tx w fits e =
    let b = node.block h in
    elim (Option-cases (spender_in txid vout b.txs)) [
      | inl missing ↦
          let (spends, shown) =
            spender_from-eq-some node txid vout k (h + 1) n tx w (omega (arith, fits))
              (ground arith) in
          (spends, IsShown-above node h tx w shown)
      | inr ((x, j), found) ↦
          let same : x ≡ tx = ground arith in
          let index : j ≡ k = ground arith in
          let place : in_block h b.hash ≡ w = ground arith in
          let (there, spends) = spender_in-eq-some txid vout j b.txs x found in
          subst (λ v. Spends tx k txid vout × IsShown node h tx v) place
            (subst (λ y. Spends y k txid vout × IsShown node h y (in_block h b.hash)) same
              (
                subst (λ i. Spends x i txid vout) index spends,
                mined h (omega arith) (omega (arith, fits)) there,
              ))
    ]

spender_from-eq-none :
    (node : Node) (txid : Text) (vout h n : ℕ)
    → node.tip + 1 ≤ h + n
    → spender_from node txid vout h n ≡ none
    → (tx : ChainTx) (k : ℕ) (w : Where) → IsShown node h tx w
    → Spends tx k txid vout
    → ⊥
unfolding spender_from
spender_from-eq-none node txid vout h zero fits e tx k _ (mined g low high there) spends =
    absurd (omega (arith, low, high, fits))
spender_from-eq-none node txid vout h zero fits e tx k _ (pooled there) spends =
    elim (Option-cases (spender_in txid vout node.mempool)) [
      | inl missing ↦ spender_in-eq-none txid vout node.mempool missing tx k there spends
      | inr (found, is) ↦ absurd (ground arith)
    ]
spender_from-eq-none node txid vout h (suc n) fits e tx k _ (pooled there) spends =
    elim (Option-cases (spender_in txid vout (node.block h).txs)) [
      | inr (found, is) ↦ absurd (ground arith)
      | inl missing ↦
          spender_from-eq-none node txid vout (h + 1) n (omega (arith, fits)) (ground arith) tx k
            in_mempool (pooled there) spends
    ]
spender_from-eq-none node txid vout h (suc n) fits e tx k _ (mined g low high there) spends =
    elim (Option-cases (spender_in txid vout (node.block h).txs)) [
      | inr (found, is) ↦ absurd (ground arith)
      | inl missing ↦ elim (Bool-cases (g == h)) [
        | inl here ↦
            let same : g ≡ h = ground arith in
            spender_in-eq-none txid vout (node.block h).txs missing tx k
              (subst (λ i. Among (node.block i).txs tx) same there) spends
        | inr above ↦
            let higher : h + 1 ≤ g = ground arith in
            spender_from-eq-none node txid vout (h + 1) n (omega (arith, fits)) (ground arith) tx k
              (in_block g (node.block g).hash) (mined g higher high there) spends
      ]
    ]

-- The answer of the search for the spend of a coin is a transaction whose input spends the coin, at
-- the place where the node shows it, from the height on.
pub spender-IsShown :
    (node : Node) (txid : Text) (vout k h : ℕ) (tx : ChainTx) (w : Where)
    → spender node txid vout h ≡ some (tx, k, w)
    → Spends tx k txid vout × IsShown node h tx w
unfolding spender
spender-IsShown node txid vout k h tx w e =
    spender_from-eq-some node txid vout k h (node.tip + 1 - h) tx w (omega arith) e

-- The search finds none exactly when nothing that the node shows from the height on, in a block or in
-- the mempool, spends the coin.
pub spender-eq-none_iff :
    (node : Node) (txid : Text) (vout h : ℕ)
    → (spender node txid vout h ≡ none)
      ↔ ((tx : ChainTx) (k : ℕ) (w : Where) → IsShown node h tx w → Spends tx k txid vout → ⊥)
spender-eq-none_iff node txid vout h = (
  λ e. spender_from-eq-none node txid vout h (node.tip + 1 - h) (omega arith) (unfold spender in e),
  λ nothing. elim (Option-cases (spender node txid vout h)) [
    | inl missing ↦ missing
    | inr ((tx, k, w), found) ↦
        let (spends, shown) = spender-IsShown node txid vout k h tx w found in
        absurd (nothing tx k w shown spends)
  ],
)
