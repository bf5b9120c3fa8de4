-- ===== src/Watcher2/Sight.antt =====
-- Proofs on `Chain.where` of pignus/watcher2.py: when it finds no place for a step's transaction.
use pignus.Prelude.{
  ℕ, zero, suc, ◌+◌, ◌-◌, ◌≤◌, ◌<◌, ◌≡◌, ◌↔◌, inl, inr, refl, ap, false, Option, none, some, List,
  [], ◌∷◌, Text, text_eq, ◌==◌, All, Bool-cases, Option-cases, arith, ◌∙◌,
}
use mathlib.Core.Path.{subst}
use pignus.Watcher2.{ChainTx, Node, gone, or_height, where_is, has_txid, mined_again, still_mined}
use pignus.Watcher2.Found.{Among}
use pignus.Watcher2.Loan.{Step}

-- `Chain.where` finds no place for a step's transaction.
abbrev pub IsGone : Node → Step → Type 0
IsGone node s = where_is node s.txid s.place ≡ gone

-- The height that a step's transaction was last seen at, or the tip where there is none.
abbrev pub last_seen : Option ℕ → ℕ → ℕ
last_seen none tip = tip
last_seen (some zero) tip = tip
last_seen (some (suc h)) tip = suc h

-- A step's transaction is out of sight: the mempool has it not, the block that it was last seen in is not
-- in the chain, and no block from ten below the height that it was last seen at up to the tip has it.
pub record IsOutOfSight (node : Node) (s : Step) : Type 0 where
  pub unpooled : node.mempool_entry s.txid ≡ false
  pub replaced :
      (bh : Text) (confirmations height : ℕ)
      → s.place.blockhash ≡ some bh
      → node.header bh ≡ some (confirmations, height)
      → confirmations ≡ 0
  pub unmined :
      (h : ℕ) (tx : ChainTx)
      → last_seen s.place.height node.tip - 10 ≤ h
      → h ≤ node.tip
      → Among (node.block h).txs tx
      → text_eq tx.txid s.txid ≡ false

has_txid-false :
    (txid : Text) (txs : List ChainTx)
    → (has_txid txid txs ≡ false) ↔ ((tx : ChainTx) → Among txs tx → text_eq tx.txid txid ≡ false)
unfolding has_txid
has_txid-false txid [] = (λ e tx (i, at). absurd (cc), λ none_here. refl)
has_txid-false txid (tx ∷ txs) =
    let (to, back) = has_txid-false txid txs in
    (
      λ e x there. elim (Bool-cases (text_eq tx.txid txid)) [
        | inl same ↦ absurd (ground arith)
        | inr other ↦ among_cons txid tx txs other (to (ground arith)) x there
      ],
      λ none_here.
          let first = none_here tx (0, refl) in
          let rest = back (λ x (i, at). none_here x (suc i, at)) in ground arith,
    )
  where
    among_cons :
        (txid : Text) (tx : ChainTx) (txs : List ChainTx)
        → text_eq tx.txid txid ≡ false
        → ((x : ChainTx) → Among txs x → text_eq x.txid txid ≡ false)
        → (x : ChainTx) → Among (tx ∷ txs) x
        → text_eq x.txid txid ≡ false
    among_cons txid tx txs first rest x (zero, at) =
        let same : tx ≡ x = ground arith in subst (λ y. text_eq y.txid txid ≡ false) same first
    among_cons txid tx txs first rest x (suc i, at) = rest x (i, at)

mined_again-gone :
    (node : Node) (txid : Text) (start n : ℕ)
    → (mined_again node txid start n ≡ gone)
      ↔ ((h : ℕ) → start ≤ h → h < start + n → has_txid txid (node.block h).txs ≡ false)
unfolding mined_again
mined_again-gone node txid start zero = (λ e h low high. absurd (omega arith), λ none_here. refl)
mined_again-gone node txid start (suc n) =
    let (to, back) = mined_again-gone node txid (start + 1) n in
    (
      λ e h low high. elim (Bool-cases (has_txid txid (node.block start).txs)) [
        | inl here ↦ absurd (ground arith)
        | inr absent ↦ elim (Bool-cases (h == start)) [
          | inl same ↦
              let at : start ≡ h = ground arith in
              subst (λ x. has_txid txid (node.block x).txs ≡ false) at absent
          | inr later ↦ to (ground arith) h (ground arith) (omega arith)
        ]
      ],
      λ none_here.
          let first = none_here start (omega arith) (omega arith) in
          let rest = back (λ h low high. none_here h (omega arith) (omega arith)) in ground arith,
    )

or_height-last_seen : (h : Option ℕ) (tip : ℕ) → or_height h tip ≡ last_seen h tip
unfolding or_height
or_height-last_seen none tip = refl
or_height-last_seen (some zero) tip = refl
or_height-last_seen (some (suc h)) tip = ground arith

still_mined-none :
    (node : Node) (o : Option Text)
    → (still_mined node o ≡ none)
      ↔ ((bh : Text) (n h : ℕ) → o ≡ some bh → node.header bh ≡ some (n, h) → n ≡ 0)
unfolding still_mined
still_mined-none node none = (λ e bh n h f. absurd (cc), λ replaced. refl)
still_mined-none node (some b) = elim (Option-cases (node.header b)) [
  | inl unknown ↦ (
    λ e bh n h f there.
        let same : b ≡ bh = ground arith in
        let known : node.header b ≡ some (n, h) = ap node.header same ∙ there in
        absurd (ground arith),
    λ replaced. ground arith,
  )
  | inr ((n', h'), known) ↦ (
    λ e bh n h f there.
        let same : b ≡ bh = ground arith in
        let again : node.header b ≡ some (n, h) = ap node.header same ∙ there in ground arith,
    λ replaced. let low = replaced b n' h' refl known in ground arith,
  )
]

pub IsGone-IsOutOfSight_iff : (node : Node) (s : Step) → IsGone node s ↔ IsOutOfSight node s
unfolding where_is
IsGone-IsOutOfSight_iff node s =
    let start = or_height s.place.height node.tip - 10 in
    let n = node.tip + 1 - start in
    let from_there = or_height-last_seen s.place.height node.tip in
    let (unmined_to, unmined_back) = mined_again-gone node s.txid start n in
    let (replaced_to, replaced_back) = still_mined-none node s.place.blockhash in
    (
      λ e. elim (Bool-cases (node.mempool_entry s.txid)) [
        | inl pooled ↦ absurd (ground arith)
        | inr unpooled ↦ elim (Option-cases (still_mined node s.place.blockhash)) [
          | inr ((h, bh), there) ↦ absurd (ground arith)
          | inl replaced ↦
              let searched : mined_again node s.txid start n ≡ gone = ground arith in
              record {
                unpooled = unpooled;
                replaced = replaced_to replaced;
                unmined = λ h tx low high there.
                    (has_txid-false s.txid (node.block h).txs).0
                      (unmined_to searched h (omega arith) (omega arith)) tx there;
              }
        ]
      ],
      λ is.
          let unpooled = is.unpooled in
          let replaced = replaced_back is.replaced in
          let searched = unmined_back (λ h low high.
            (has_txid-false s.txid (node.block h).txs).1
              (λ tx there. is.unmined h tx (omega arith) (omega arith) there)) in
          ground arith,
    )

pub All-IsGone_iff :
    (node : Node) (line : List Step) → All (IsGone node) line ↔ All (IsOutOfSight node) line
All-IsGone_iff node [] = (λ a. tt, λ a. tt)
All-IsGone_iff node (s ∷ line) =
    let (to, back) = All-IsGone_iff node line in
    let (one, one_back) = IsGone-IsOutOfSight_iff node s in
    (λ (a, b). (one a, to b), λ (a, b). (one_back a, back b))
