-- ===== src/Watcher2/Loan.antt =====
-- `V2Watcher.reconcile_loan` of pignus/watcher2.py. A line of steps is a list with the newest first;
-- the script of a vault in a state and the leaf that recreates a beacon are other code's and
-- parameters.
use pignus.Prelude.{
  ℕ, zero, suc, Bool, true, false, not, ◌||◌, Option, none, some, List, [], ◌∷◌, ◌++◌, Text, codes,
  text_eq, if◌then◌else◌, is_empty, Result, ok, err, ◌>>=◌,
}
use pignus.Vault2.Terms.{V2Terms, State}
use pignus.Vault2.Spend.Follow.{
  Event, Reading, repaid, liquidated, recovered, spent_unknown, top_up, repay, liquidate, out_at,
  follow,
}
use pignus.Watcher2.{
  ChainTx, Node, Where, Place, in_block, in_mempool, gone, or_height, where_is, spender, place_of,
  place_eq,
}

-- A loan's states, those of a closed one with `now_`.
pub data LoanState : Type 0 where
  unconfirmed live now_repaid now_liquidated now_recovered now_spent_unknown ghost : LoanState

-- `_EVENT_STATE.get(ev, "SPENT_UNKNOWN")`
unfoldable pub event_state : Event → LoanState
event_state repaid = now_repaid
event_state liquidated = now_liquidated
event_state recovered = now_recovered
event_state spent_unknown = now_spent_unknown
event_state top_up = now_spent_unknown
event_state repay = now_spent_unknown
event_state liquidate = now_spent_unknown

-- `==` on two states
unfoldable pub state_eq : LoanState → LoanState → Bool
state_eq unconfirmed unconfirmed = true
state_eq live live = true
state_eq now_repaid now_repaid = true
state_eq now_liquidated now_liquidated = true
state_eq now_recovered now_recovered = true
state_eq now_spent_unknown now_spent_unknown = true
state_eq ghost ghost = true
state_eq s t = false

-- The vault's coin that a step made, with its state.
pub record VaultCoin : Type 0 where
  pub vout : ℕ
  pub amount : ℕ
  pub asset : Text
  pub spk : Text
  pub debt : ℕ
  pub last_time : ℕ

pub data Holds : Type 0 where
  coin : VaultCoin → Holds
  closed : LoanState → Holds

-- A step of a line: the transaction, what it was, where it was last seen and what it left.
pub record Step : Type 0 where
  pub txid : Text
  pub event : Option Event
  pub place : Place
  pub holds : Holds

-- The record of a loan in the book.
pub record Loan : Type 0 where
  pub terms : V2Terms
  pub line : List Step
  pub opening : Option Step
  pub state : Option LoanState
  pub debt : ℕ
  pub last_time : ℕ
  pub collateral : ℕ
  pub txid : Text
  pub vout : ℕ

-- The events of a poll.
pub data Logged : Type 0 where
  undone : Text → Logged
  stepped : Event → Text → Logged

-- The KeyError or TypeError of a successor whose output does not show its asset.
pub data WatchError : Type 0 where
  hidden_output : WatchError

-- A line, whether it changed, and the events.
abbrev pub Undone : Type 0
Undone = List Step × Bool × List Logged

-- What becomes of a line's newest step by where its transaction is.
unfoldable pub undo_newest : Step → List Step → Undone → Where → Undone
undo_newest s line (kept, changed, log) gone = (kept, true, undone s.txid ∷ log)
undo_newest s line rest (in_block height bh) =
    let p = place_of (in_block height bh) in
    (record s { place = p } ∷ line, not (place_eq p s.place), [])
undo_newest s line rest in_mempool =
    let p = place_of in_mempool in (record s { place = p } ∷ line, not (place_eq p s.place), [])

-- The first loop of `reconcile_loan`.
unfoldable pub undo : Node → List Step → Undone
undo node [] = ([], false, [])
undo node (s ∷ line) = undo_newest s line (undo node line) (where_is node s.txid s.place)

-- The opening put back at where it is, unless it has gone.
unfoldable pub reopened : Step → Where → List Step
reopened s gone = []
reopened s (in_block height bh) = record s { place = place_of (in_block height bh) } ∷ []
reopened s in_mempool = record s { place = place_of in_mempool } ∷ []

unfoldable pub reopen : Node → Option Step → List Step
reopen node none = []
reopen node (some s) = reopened s (where_is node s.txid s.place)

-- The step that a transaction makes, by how it is read.
unfoldable pub step_of : ChainTx → Where → Reading → Result WatchError Step
step_of tx w (e, none, i) =
    ok record { txid = tx.txid; event = some e; place = place_of w; holds = closed (event_state e) }
step_of tx w (e, some s, none) = err hidden_output
step_of tx w (e, some (debt, last), some i) = elim (out_at tx.decoded.outs i) [
  | none ↦ err hidden_output
  | some o ↦ elim o.asset [
    | none ↦ err hidden_output
    | some a ↦ ok record {
      txid = tx.txid;
      event = some e;
      place = place_of w;
      holds = coin record {
        vout = i;
        amount = o.amount;
        asset = a;
        spk = o.spk;
        debt = debt;
        last_time = last;
      };
    }
  ]
]

-- The steps forward of one poll at most.
abbrev pub most_steps : ℕ
most_steps = 64

-- What a step's event is logged as.
unfoldable pub logged : Step → List Logged
logged s = elim s.event [ none ↦ [] | some e ↦ stepped e s.txid ∷ [] ]

module _ (vault_spk : V2Terms → State → Text) (leaf : Text) (node : Node) (t : V2Terms) where
  unfoldable pub read_spend :
      VaultCoin → Option (ChainTx × ℕ × Where) → Result WatchError (Option Step)
  read_spend c none = ok none
  read_spend c (some (tx, k, w)) =
      step_of tx w (follow vault_spk leaf t (c.debt, c.last_time) c.spk tx.decoded k) >>= λ s.
      ok (some s)

  -- One round of the second loop: the step after the newest one, if there is one.
  unfoldable pub next_step : Step → Holds → Result WatchError (Option Step)
  next_step s (closed state) = ok none
  next_step s (coin c) =
      let found = spender node s.txid c.vout (or_height s.place.height node.tip) in
      elim (node.gettxout s.txid c.vout) [ some conf ↦ ok none | none ↦ read_spend c found ]

  -- The second loop of `reconcile_loan`, of `n` rounds at most.
  unfoldable pub advance : ℕ → List Step → Result WatchError (List Step × List Logged)
  advance zero line = ok (line, [])
  advance (suc n) [] = ok ([], [])
  advance (suc n) (cur ∷ line) = next_step cur cur.holds >>= λ found. elim found [
    | none ↦ ok (cur ∷ line, [])
    | some s ↦ advance n (s ∷ cur ∷ line) >>= λ (all, log). ok (all, logged s ++ log)
  ]

-- The state of a loan by its newest step.
unfoldable pub state_by : Place → Holds → LoanState
state_by p (closed state) = state
state_by p (coin c) = if text_eq p.kind (codes "block") then live else unconfirmed

unfoldable pub state_differs : Option LoanState → LoanState → Bool
state_differs none s = true
state_differs (some t) s = not (state_eq t s)

-- The record's own fields after the newest step.
unfoldable pub filled : Loan → Text → Holds → Loan
filled rec txid (closed state) = rec
filled rec txid (coin c) = record rec {
  debt = c.debt;
  last_time = c.last_time;
  collateral = c.amount;
  txid = txid;
  vout = c.vout;
}

-- The end of `reconcile_loan`, and whether the state changed; the line is not empty there.
unfoldable pub settle : Loan → List Step → Loan × Bool
settle rec [] = (record rec { line = [] }, false)
settle rec (cur ∷ line) =
    let state = state_by cur.place cur.holds in
    (
      filled (record rec { line = cur ∷ line; state = some state }) cur.txid cur.holds,
      state_differs rec.state state,
    )

abbrev pub Reconciled : Type 0
Reconciled = Loan × Bool × List Logged

-- The rest of `reconcile_loan` after the line has some step.
unfoldable pub go_forward :
    (V2Terms → State → Text)
    → Text
    → Node
    → Loan
    → List Step
    → Bool
    → List Logged
    → Result WatchError Reconciled
go_forward vault_spk leaf node rec line changed log =
    advance vault_spk leaf node rec.terms most_steps line >>= λ (all, more).
    let (settled, differs) = settle rec all in
    ok (settled, changed || not (is_empty more) || differs, log ++ more)

-- The rest of `reconcile_loan` after the first loop.
unfoldable pub after_undo :
    (V2Terms → State → Text)
    → Text
    → Node
    → Loan
    → Undone
    → List Step
    → Result WatchError Reconciled
after_undo vault_spk leaf node rec (s ∷ line, changed, log) again =
    go_forward vault_spk leaf node rec (s ∷ line) changed log
after_undo vault_spk leaf node rec ([], changed, log) [] =
    ok (record rec { line = []; state = some ghost }, changed || state_differs rec.state ghost, log)
after_undo vault_spk leaf node rec ([], changed, log) (s ∷ line) =
    go_forward vault_spk leaf node (record rec { line = []; state = some ghost }) (s ∷ line) true
      log

-- `V2Watcher.reconcile_loan`
unfoldable pub reconcile_loan :
    (V2Terms → State → Text) → Text → Node → Loan → Result WatchError Reconciled
reconcile_loan vault_spk leaf node rec =
    after_undo vault_spk leaf node rec (undo node rec.line) (reopen node rec.opening)
