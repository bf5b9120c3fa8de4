-- ===== src/Watcher2.antt =====
-- pignus/watcher2.py: what the node says in one poll, and where a transaction, a coin and a spend are
-- by its answers (`Chain`). The node's answers stand in a record, fixed for the poll.
use pignus.Prelude.{
  ℕ, zero, suc, ◌+◌, ◌-◌, Bool, true, false, ◌&&◌, Option, none, some, List, [], ◌∷◌, Text, text_eq,
  leb, ◌==◌, if◌then◌else◌, codes,
}
use pignus.Vault2.Spend.Follow.{DecodedTx}
pub mod Found
pub mod Loan
pub mod Kept
pub mod Run
pub mod Sound
pub mod Owed
pub mod Sight
pub mod Ends
pub mod Unchanged
pub mod Take
pub mod Offer
pub mod Named
pub mod Claimed
pub mod Claims
pub mod Opened
pub mod Poll
pub mod Followed
pub mod Polled
pub mod Passed
pub mod Carried
pub mod Current
mod Tests
mod TakeTests
mod PollTests

-- A transaction as decoded; a coinbase's input has no outpoint.
pub record ChainTx : Type 0 where
  pub txid : Text
  pub prevouts : List (Option (Text × ℕ))
  pub decoded : DecodedTx

pub record Block : Type 0 where
  pub hash : Text
  pub txs : List ChainTx

-- The node's answers: whether the mempool has an entry, a header's confirmations (0 for a block that
-- was replaced) and height, the tip, the blocks by height, the mempool's transactions, and the
-- confirmations of a coin that is unspent in the chain and the mempool.
pub record Node : Type 0 where
  pub mempool_entry : Text → Bool
  pub header : Text → Option (ℕ × ℕ)
  pub tip : ℕ
  pub block : ℕ → Block
  pub mempool : List ChainTx
  pub gettxout : Text → ℕ → Option ℕ

pub data Where : Type 0 where
  in_block : ℕ → Text → Where
  in_mempool : Where
  gone : Where

-- `_place`, whose "in" names the constructor.
pub record Place : Type 0 where
  pub height : Option ℕ
  pub blockhash : Option Text
  pub kind : Text

-- `x or y` on a height
unfoldable pub or_height : Option ℕ → ℕ → ℕ
or_height none d = d
or_height (some h) d = if h == 0 then d else h

-- Whether some transaction of a list has the id.
unfoldable pub has_txid : Text → List ChainTx → Bool
has_txid txid [] = false
has_txid txid (tx ∷ txs) = if text_eq tx.txid txid then true else has_txid txid txs

-- The search of `n` blocks from a height on for a transaction.
unfoldable pub mined_again : Node → Text → ℕ → ℕ → Where
mined_again node txid height zero = gone
mined_again node txid height (suc n) =
    let rest = mined_again node txid (height + 1) n in
    let b = node.block height in if has_txid txid b.txs then in_block height b.hash else rest

-- Whether the block that a step was last seen in is still in the chain, and at what height.
unfoldable pub still_mined : Node → Option Text → Option (ℕ × Text)
still_mined node none = none
still_mined node (some bh) = elim (node.header bh) [
  | none ↦ none
  | some (confirmations, height) ↦ if leb 1 confirmations then some (height, bh) else none
]

-- `Chain.where`, of a step's transaction and the place that it was last seen in.
unfoldable pub where_is : Node → Text → Place → Where
where_is node txid w =
    let start = or_height w.height node.tip - 10 in
    let searched = mined_again node txid start (node.tip + 1 - start) in
    if node.mempool_entry txid then in_mempool else elim (still_mined node w.blockhash) [
      | some (height, bh) ↦ in_block height bh
      | none ↦ searched
    ]

-- `Chain.place_of_coin`
unfoldable pub place_of_coin : Node → Text → ℕ → Option Where
place_of_coin node txid vout = elim (node.gettxout txid vout) [
  | none ↦ none
  | some conf ↦
      let height = node.tip + 1 - conf in
      let b = node.block height in
      if leb 1 conf then some (in_block height b.hash) else some in_mempool
]

-- The first input from the `k`th on that spends an outpoint.
unfoldable pub input_of : Text → ℕ → ℕ → List (Option (Text × ℕ)) → Option ℕ
input_of txid vout k [] = none
input_of txid vout k (none ∷ ins) = input_of txid vout (k + 1) ins
input_of txid vout k (some (id, i) ∷ ins) =
    let rest = input_of txid vout (k + 1) ins in
    if text_eq id txid && i == vout then some k else rest

-- The first transaction of a list that spends an outpoint, and by which input.
unfoldable pub spender_in : Text → ℕ → List ChainTx → Option (ChainTx × ℕ)
spender_in txid vout [] = none
spender_in txid vout (tx ∷ txs) = elim (input_of txid vout 0 tx.prevouts) [
  | none ↦ spender_in txid vout txs
  | some k ↦ some (tx, k)
]

-- The search of `n` blocks from a height on for the spend of an outpoint, then of the mempool.
unfoldable pub spender_from : Node → Text → ℕ → ℕ → ℕ → Option (ChainTx × ℕ × Where)
spender_from node txid vout height zero = elim (spender_in txid vout node.mempool) [
  | none ↦ none
  | some (tx, k) ↦ some (tx, k, in_mempool)
]
spender_from node txid vout height (suc n) =
    let b = node.block height in
    elim (spender_in txid vout b.txs) [
      | none ↦ spender_from node txid vout (height + 1) n
      | some (tx, k) ↦ some (tx, k, in_block height b.hash)
    ]

-- `Chain.spender`
unfoldable pub spender : Node → Text → ℕ → ℕ → Option (ChainTx × ℕ × Where)
spender node txid vout from_height =
    spender_from node txid vout from_height (node.tip + 1 - from_height)

-- `_place`
unfoldable pub place_of : Where → Place
place_of (in_block height bh) = record {
  height = some height;
  blockhash = some bh;
  kind = codes "block";
}
place_of in_mempool = record { height = none; blockhash = none; kind = codes "mempool" }
place_of gone = record { height = none; blockhash = none; kind = codes "gone" }

abbrev pub same_option {ℓ} : {A : Type ℓ} → (A → A → Bool) → Option A → Option A → Bool
same_option eq none none = true
same_option eq none (some b) = false
same_option eq (some a) none = false
same_option eq (some a) (some b) = eq a b

-- `==` on two places
unfoldable pub place_eq : Place → Place → Bool
place_eq p q =
    same_option ◌==◌ p.height q.height
    && same_option text_eq p.blockhash q.blockhash
    && text_eq p.kind q.kind
