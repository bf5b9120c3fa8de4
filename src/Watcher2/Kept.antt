-- ===== src/Watcher2/Kept.antt =====
-- Proofs on the line of steps that `reconcile_loan` of pignus/watcher2.py keeps for a loan.
use pignus.Prelude.{
  ℕ, zero, suc, ◌+◌, ◌*◌, ◌≡◌, inl, inr, refl, sym, ap, Option, none, some, List, [], ◌∷◌, Text,
  Option-cases, Result-cases, ok, arith, ◌∙◌,
}
use mathlib.Core.Path.{subst}
use pignus.Vault2.Terms.{V2Terms, State}
use pignus.Vault2.Spend.Follow.{Event, Reading, out_at, follow, Seen, paid_at}
use pignus.Vault2.Spend.Line.{Line, opened, stepped, credited}
use pignus.Watcher2.{
  ChainTx, Node, Where, Place, in_block, in_mempool, gone, where_is, spender, place_of, or_height,
}
use pignus.Watcher2.Found.{Spends, spender-IsShown}
use pignus.Watcher2.Loan.{
  Step, VaultCoin, Holds, coin, closed, Undone, Logged, undo_newest, undo, reopened, step_of,
  read_spend, next_step, advance,
}

-- The place of a step does not matter to what it is.
step_of-place :
    (tx : ChainTx) (w v : Where) (r : Reading) (s : Step)
    → step_of tx w r ≡ ok s
    → step_of tx v r ≡ ok (record s { place = place_of v })
unfolding step_of
step_of-place tx w v (e, none, i) s made = ground arith
step_of-place tx w v (e, some state, none) s made = absurd (ground arith)
step_of-place tx w v (e, some (debt, last), some i) s made =
    elim (Option-cases (out_at tx.decoded.outs i)) [
      | inl missing ↦ absurd (ground arith)
      | inr (o, there) ↦ elim (Option-cases o.asset) [
        | inl hidden ↦ absurd (ground arith)
        | inr (a, shown) ↦ ground arith
      ]
    ]

-- A step that leaves a coin was read as leaving the coin's state at the coin's output.
step_of-coin :
    (tx : ChainTx) (w : Where) (r : Reading) (s : Step) (c : VaultCoin)
    → step_of tx w r ≡ ok s
    → s.holds ≡ coin c
    → (e : Event) × (o : Seen) × (r ≡ (e, some (c.debt, c.last_time), some c.vout))
      × (out_at tx.decoded.outs c.vout ≡ some o)
      × (o.spk ≡ c.spk)
unfolding step_of
step_of-coin tx w (e, none, i) s c made holds = absurd (ground arith)
step_of-coin tx w (e, some state, none) s c made holds = absurd (ground arith)
step_of-coin tx w (e, some (debt, last), some i) s c made holds =
    elim (Option-cases (out_at tx.decoded.outs i)) [
      | inl missing ↦ absurd (ground arith)
      | inr (o, there) ↦ elim (Option-cases o.asset) [
        | inl hidden ↦ absurd (ground arith)
        | inr (a, shown) ↦
            let same : record {
              vout = i;
              amount = o.amount;
              asset = a;
              spk = o.spk;
              debt = debt;
              last_time = last;
            }
                ≡ c =
              ground arith in
            let place : i ≡ c.vout = ap (λ x. x.vout) same in
            (
              e,
              o,
              ap (λ x. (e, some (x.debt, x.last_time), some x.vout)) same,
              subst (λ j. out_at tx.decoded.outs j ≡ some o) place there,
              ap (λ x. x.spk) same,
            )
      ]
    ]

module _ (vault_spk : V2Terms → State → Text) (leaf : Text) (t : V2Terms) (opening : Step) where
  -- The lines of steps, newest first, from an opening: each step was read off a transaction that
  -- spends the coin of the one before it.
  pub data IsLine : List Step → Type 0 where
    undone_all : IsLine []
    opened_at : (p : Place) → IsLine (record opening { place = p } ∷ [])
    spent_by :
        {cur s : Step} {line : List Step}
        → IsLine (cur ∷ line)
        → (c : VaultCoin) (tx : ChainTx) (k : ℕ) (w : Where) → cur.holds ≡ coin c
        → Spends tx k cur.txid c.vout
        → step_of tx w (follow vault_spk leaf t (c.debt, c.last_time) c.spk tx.decoded k) ≡ ok s
        → IsLine (s ∷ cur ∷ line)

  replaced-IsLine :
      (w : Where) {s : Step} {line : List Step}
      → IsLine (s ∷ line)
      → IsLine (record s { place = place_of w } ∷ line)
  replaced-IsLine w (opened_at p) = opened_at (place_of w)
  replaced-IsLine w (spent_by {cur} {s} before c tx k v holds spends made) =
      spent_by before c tx k w holds spends (step_of-place tx v w _ s made)

  tail-IsLine : {s : Step} {line : List Step} → IsLine (s ∷ line) → IsLine line
  tail-IsLine (opened_at p) = undone_all
  tail-IsLine (spent_by before c tx k v holds spends made) = before

  undo_newest-IsLine :
      (s : Step) (line : List Step) (rest : Undone) (w : Where)
      → IsLine (s ∷ line)
      → IsLine rest.0
      → IsLine (undo_newest s line rest w).0
  unfolding undo_newest
  undo_newest-IsLine s line rest gone whole kept = kept
  undo_newest-IsLine s line rest (in_block h bh) whole kept = replaced-IsLine (in_block h bh) whole
  undo_newest-IsLine s line rest in_mempool whole kept = replaced-IsLine in_mempool whole

  pub undo-IsLine : (node : Node) (line : List Step) → IsLine line → IsLine (undo node line).0
  unfolding undo
  undo-IsLine node [] is = is
  undo-IsLine node (s ∷ line) is =
      undo_newest-IsLine s line (undo node line) (where_is node s.txid s.place) is
        (undo-IsLine node line (tail-IsLine is))

  pub reopened-IsLine : (w : Where) → IsLine (reopened opening w)
  unfolding reopened
  reopened-IsLine gone = undone_all
  reopened-IsLine (in_block h bh) = opened_at (place_of (in_block h bh))
  reopened-IsLine in_mempool = opened_at (place_of in_mempool)

  read_spend-IsLine :
      (node : Node) (cur s : Step) (line : List Step) (c : VaultCoin)
      (found : Option (ChainTx × ℕ × Where))
      → IsLine (cur ∷ line)
      → cur.holds ≡ coin c
      → ((tx : ChainTx) (k : ℕ) (w : Where) → found ≡ some (tx, k, w) → Spends tx k cur.txid c.vout)
      → read_spend vault_spk leaf node t c found ≡ ok (some s)
      → IsLine (s ∷ cur ∷ line)
  unfolding read_spend
  read_spend-IsLine node cur s line c none is holds spends e = absurd (ground arith)
  read_spend-IsLine node cur s line c (some (tx, k, w)) is holds spends e =
      let read = follow vault_spk leaf t (c.debt, c.last_time) c.spk tx.decoded k in
      elim (Result-cases (step_of tx w read)) [
        | inl (x, bad) ↦ absurd (ground arith)
        | inr (made, m) ↦
            let same : made ≡ s = ground arith in
            spent_by is c tx k w holds (spends tx k w refl) (m ∙ ap ok same)
      ]

  next_step-IsLine :
      (node : Node) (cur s : Step) (line : List Step) (h : Holds)
      → IsLine (cur ∷ line)
      → cur.holds ≡ h
      → next_step vault_spk leaf node t cur h ≡ ok (some s)
      → IsLine (s ∷ cur ∷ line)
  unfolding next_step
  next_step-IsLine node cur s line (closed state) is holds e = absurd (ground arith)
  next_step-IsLine node cur s line (coin c) is holds e =
      let from_height = or_height cur.place.height node.tip in
      elim (Option-cases (node.gettxout cur.txid c.vout)) [
        | inr (conf, unspent) ↦ absurd (ground arith)
        | inl spent ↦
            read_spend-IsLine node cur s line c (spender node cur.txid c.vout from_height) is holds
              (λ tx k w found. (spender-IsShown node cur.txid c.vout k from_height tx w found).0)
              (ground arith)
      ]

  pub advance-IsLine :
      (node : Node) (n : ℕ) (line all : List Step) (log : List Logged)
      → IsLine line
      → advance vault_spk leaf node t n line ≡ ok (all, log)
      → IsLine all
  unfolding advance
  advance-IsLine node zero line all log is e =
      let same : line ≡ all = ground arith in subst IsLine same is
  advance-IsLine node (suc n) [] all log is e =
      let same : [] ≡ all = ground arith in subst IsLine same is
  advance-IsLine node (suc n) (cur ∷ line) all log is e =
      elim (Result-cases (next_step vault_spk leaf node t cur cur.holds)) [
        | inl (x, bad) ↦ absurd (ground arith)
        | inr (none, last) ↦ let same : cur ∷ line ≡ all = ground arith in subst IsLine same is
        | inr (some s, next) ↦
            elim (Result-cases (advance vault_spk leaf node t n (s ∷ cur ∷ line))) [
              | inl (x, bad) ↦ absurd (ground arith)
              | inr ((whole, more), rest) ↦
                  let same : whole ≡ all = ground arith in
                  subst IsLine same (
                    advance-IsLine node n (s ∷ cur ∷ line) whole more
                      (next_step-IsLine node cur s line cur.holds is refl next) rest)
            ]
      ]

module _ (vault_spk : V2Terms → State → Text) (leaf : Text) (t : V2Terms) (opening : Step) where
  -- What the spends of a line of steps, read as their events, paid to the lender for the debt.
  unfoldable pub paid_along : {line : List Step} → IsLine vault_spk leaf t opening line → ℕ
  paid_along undone_all = 0
  paid_along (opened_at p) = 0
  paid_along (spent_by before c tx k w holds spends made) =
      paid_along before
      + credited (follow vault_spk leaf t (c.debt, c.last_time) c.spk tx.decoded k).0
          (paid_at t (out_at tx.decoded.outs (2 * k + 1)))

-- The line of coins that a line of steps makes, from an opening to the newest coin.
pub Line-of :
    (vault_spk : V2Terms → State → Text) (leaf : Text) (t : V2Terms) (opening : Step)
    (o : VaultCoin) {s : Step} {line : List Step} (c : VaultCoin)
    → opening.holds ≡ coin o
    → (is : IsLine vault_spk leaf t opening (s ∷ line)) → s.holds ≡ coin c
    → Line vault_spk leaf t
        (o.debt, o.last_time)
        o.spk
        (c.debt, c.last_time)
        c.spk
        (paid_along vault_spk leaf t opening is)
unfolding paid_along
Line-of vault_spk leaf t opening o c start (opened_at p) holds =
    let same : o ≡ c = ground arith in
    subst (λ x. Line vault_spk leaf t (o.debt, o.last_time) o.spk (x.debt, x.last_time) x.spk 0)
      same opened
Line-of vault_spk leaf t opening o {s} c start (spent_by before b tx k w held spends made) holds =
    let line = Line-of vault_spk leaf t opening o b start before held in
    let (e, seen, read, there, script) = step_of-coin tx w _ s c made holds in
    let out = paid_at t (out_at tx.decoded.outs (2 * k + 1)) in
    let paid = paid_along vault_spk leaf t opening before in
    let event : e ≡ (follow vault_spk leaf t (b.debt, b.last_time) b.spk tx.decoded k).0 =
      sym (ap (λ (r : Reading). r.0) read) in
    subst
      (λ x.
        Line vault_spk leaf t (o.debt, o.last_time) o.spk (c.debt, c.last_time) c.spk
          (paid + credited x out))
      event
      (subst
        (λ spk.
          Line vault_spk leaf t (o.debt, o.last_time) o.spk (c.debt, c.last_time) spk
            (paid + credited e out))
        script (stepped line tx.decoded k read there))
