-- ===== src/Watcher2/Unchanged.antt =====
-- Proofs on when `reconcile_loan` of pignus/watcher2.py reports no change, and the poll writes nothing.
use pignus.Prelude.{
  ℕ, zero, suc, ◌≡◌, ◌≢◌, inl, inr, refl, sym, ap, Bool, true, false, not, ◌&&◌, ◌||◌, Option, none,
  some, List, [], ◌∷◌, ◌++◌, Text, text_eq, text_eq_iff, is_empty, empty_of_is_empty, Option-cases,
  ok, Result-cases, arith, ◌∙◌, ◌==◌,
}
use mathlib.Core.Path.{subst}
use pignus.Vault2.Terms.{V2Terms, State}
use pignus.Vault2.Spend.Follow.{Reading, out_at, follow}
use pignus.Watcher2.{
  ChainTx, Node, or_height, spender, Where, gone, in_block, in_mempool, Place, place_of, place_eq,
  same_option, where_is,
}
use pignus.Watcher2.Loan.{
  Step, VaultCoin, Holds, coin, closed, Loan, LoanState, Undone, Logged, undo_newest, undo, step_of,
  logged, read_spend, next_step, advance, most_steps, settle, filled, state_by, state_eq,
  state_differs, reconcile_loan, Reconciled, ghost,
}
use pignus.Watcher2.Run.{HasRun, nothing_left, went_on, opened_again, reconcile_loan-HasRun}
use pignus.Watcher2.Sound.{HasFields, IsOfCoin}

state_eq→eq : (s t : LoanState) → state_eq s t ≡ true → s ≡ t
unfolding state_eq
state_eq→eq s t e = ground arith

same_height : (p q : Option ℕ) → same_option ◌==◌ p q ≡ true → p ≡ q
same_height none none e = refl
same_height none (some b) e = absurd (ground arith)
same_height (some a) none e = absurd (ground arith)
same_height (some a) (some b) e = ground arith

same_hash : (p q : Option Text) → same_option text_eq p q ≡ true → p ≡ q
same_hash none none e = refl
same_hash none (some b) e = absurd (ground arith)
same_hash (some a) none e = absurd (ground arith)
same_hash (some a) (some b) e = ap some ((text_eq_iff a b).0 e)

both_true : (a b : Bool) → (a && b) ≡ true → (a ≡ true) × (b ≡ true)
both_true a b e = ground arith

neither : (a b : Bool) → (a || b) ≡ false → (a ≡ false) × (b ≡ false)
neither a b e = ground arith

place_eq→eq : (p q : Place) → place_eq p q ≡ true → p ≡ q
unfolding place_eq
place_eq→eq p q e =
    let hash_test = same_option text_eq p.blockhash q.blockhash in
    let kind_test = text_eq p.kind q.kind in
    let height_test = same_option ◌==◌ p.height q.height in
    let (both, kind) = both_true (height_test && hash_test) kind_test e in
    let (height, hash) = both_true height_test hash_test both in
    let same_h = same_height p.height q.height height in
    let same_b = same_hash p.blockhash q.blockhash hash in
    let same_k = (text_eq_iff p.kind q.kind).0 kind in ground (arith, same_h, same_b, same_k)

replaced_same :
    (s : Step) (line : List Step) (p : Place)
    → not (place_eq p s.place) ≡ false
    → ◌≡◌ {A = Undone}
        (record s { place = p } ∷ line, not (place_eq p s.place), [])
        (s ∷ line, false, [])
replaced_same s line p e =
    ap (λ (b : Bool). (record s { place = p } ∷ line, b, [])) e
    ∙ ap (λ q. (record s { place = q } ∷ line, false, [])) (place_eq→eq p s.place (ground arith))

-- The first loop reports no change only when it leaves the line and the log as they were.
undo_newest-same :
    (s : Step) (line : List Step) (rest : Undone) (w : Where)
    → (undo_newest s line rest w).1 ≡ false
    → undo_newest s line rest w ≡ (s ∷ line, false, [])
unfolding undo_newest
undo_newest-same s line rest gone e = absurd (ground arith)
undo_newest-same s line rest (in_block h bh) e = replaced_same s line (place_of (in_block h bh)) e
undo_newest-same s line rest in_mempool e = replaced_same s line (place_of in_mempool) e

undo-same :
    (node : Node) (line : List Step)
    → (undo node line).1 ≡ false
    → undo node line ≡ (line, false, [])
unfolding undo
undo-same node [] e = refl
undo-same node (s ∷ line) e =
    undo_newest-same s line (undo node line) (where_is node s.txid s.place) e

state_same : (o : Option LoanState) (s : LoanState) → state_differs o s ≡ false → o ≡ some s
unfolding state_differs
state_same none s e = absurd (ground arith)
state_same (some t) s e = ap some (state_eq→eq t s (ground arith))

filled-same :
    (rec : Loan) (s : Step) (line : List Step) (h : Holds)
    → rec.line ≡ s ∷ line
    → rec.state ≡ some (state_by s.place h)
    → ((c : VaultCoin) → h ≡ coin c → IsOfCoin rec s c)
    → filled (record rec { line = s ∷ line; state = some (state_by s.place h) }) s.txid h ≡ rec
unfolding filled
filled-same rec s line (closed state) is same shows =
    let here = sym is in let there = sym same in ground (arith, here, there)
filled-same rec s line (coin c) is same shows =
    let fields = shows c refl in
    let debt = sym fields.debt in
    let last_time = sym fields.last_time in
    let collateral = sym fields.collateral in
    let txid = sym fields.txid in
    let vout = sym fields.vout in
    let here = sym is in
    let there = sym same in ground (arith, here, there, debt, last_time, collateral, txid, vout)

settle-same :
    (rec : Loan) (s : Step) (line : List Step)
    → rec.line ≡ s ∷ line
    → HasFields rec (s ∷ line)
    → (settle rec (s ∷ line)).1 ≡ false
    → (settle rec (s ∷ line)).0 ≡ rec
unfolding settle
settle-same rec s line is fields quiet =
    let state = state_same rec.state (state_by s.place s.holds) quiet in
    filled-same rec s line s.holds is state fields

front_nil : (xs ys : List Logged) → xs ++ ys ≡ [] → xs ≡ []
front_nil [] ys e = refl
front_nil (x ∷ xs) ys e = absurd (ground arith)

step_of-logged :
    (tx : ChainTx) (w : Where) (r : Reading) (s : Step) → step_of tx w r ≡ ok s → logged s ≢ []
unfolding step_of logged
step_of-logged tx w (e, none, i) s made empty = absurd (ground arith)
step_of-logged tx w (e, some state, none) s made empty = absurd (ground arith)
step_of-logged tx w (e, some (debt, last), some i) s made empty =
    elim (Option-cases (out_at tx.decoded.outs i)) [
      | inl missing ↦ absurd (ground arith)
      | inr (o, there) ↦ elim (Option-cases o.asset) [
        | inl hidden ↦ absurd (ground arith)
        | inr (a, shown) ↦ absurd (ground arith)
      ]
    ]

module _ (vault_spk : V2Terms → State → Text) (leaf : Text) (node : Node) where
  read_spend-logged :
      (t : V2Terms) (c : VaultCoin) (found : Option (ChainTx × ℕ × Where)) (s : Step)
      → read_spend vault_spk leaf node t c found ≡ ok (some s)
      → logged s ≢ []
  unfolding read_spend
  read_spend-logged t c none s e = absurd (ground arith)
  read_spend-logged t c (some (tx, k, w)) s e =
      let read = follow vault_spk leaf t (c.debt, c.last_time) c.spk tx.decoded k in
      elim (Result-cases (step_of tx w read)) [
        | inl (x, bad) ↦ absurd (ground arith)
        | inr (made, m) ↦
            let same : made ≡ s = ground arith in step_of-logged tx w read s (m ∙ ap ok same)
      ]

  next_step-logged :
      (t : V2Terms) (cur s : Step) (h : Holds)
      → next_step vault_spk leaf node t cur h ≡ ok (some s)
      → logged s ≢ []
  unfolding next_step
  next_step-logged t cur s (closed state) e = absurd (ground arith)
  next_step-logged t cur s (coin c) e = elim (Option-cases (node.gettxout cur.txid c.vout)) [
    | inr (conf, there) ↦ absurd (ground arith)
    | inl spent ↦
        read_spend-logged t c (spender node cur.txid c.vout (or_height cur.place.height node.tip)) s
          (ground arith)
  ]

  advance-same :
      (t : V2Terms) (n : ℕ) (line all : List Step)
      → advance vault_spk leaf node t n line ≡ ok (all, [])
      → all ≡ line
  unfolding advance
  advance-same t zero line all e = ground arith
  advance-same t (suc n) [] all e = ground arith
  advance-same t (suc n) (cur ∷ line) all e =
      elim (Result-cases (next_step vault_spk leaf node t cur cur.holds)) [
        | inl (x, bad) ↦ absurd (ground arith)
        | inr (none, last) ↦ ground arith
        | inr (some s, next) ↦
            elim (Result-cases (advance vault_spk leaf node t n (s ∷ cur ∷ line))) [
              | inl (x, bad) ↦ absurd (ground arith)
              | inr ((whole, more), rest) ↦
                  let empty : logged s ++ more ≡ [] = ground arith in
                  absurd (next_step-logged t cur s cur.holds next (front_nil (logged s) more empty))
            ]
      ]

  HasRun-same :
      (rec : Loan) (out : Reconciled)
      → HasFields rec rec.line
      → HasRun vault_spk leaf node rec out
      → out.1 ≡ false
      → (out.0 ≡ rec) × (out.2 ≡ [])
  HasRun-same rec _ shows (nothing_left all_gone opening_gone) quiet =
      let (still, same) = neither (undo node rec.line).1 (state_differs rec.state ghost) quiet in
      let is = undo-same node rec.line still in
      let empty : [] ≡ rec.line = sym all_gone ∙ ap (λ (u : Undone). u.0) is in
      let state = sym (state_same rec.state ghost same) in
      (ground (arith, empty, state), ap (λ (u : Undone). u.2) is)
  HasRun-same rec _ shows (went_on s line all more there ran) quiet =
      let (two, same) =
        neither ((undo node rec.line).1 || not (is_empty more)) (settle rec all).1 quiet in
      let (still, nothing) = neither (undo node rec.line).1 (not (is_empty more)) two in
      let is = undo-same node rec.line still in
      let no_more : more ≡ [] = empty_of_is_empty more (ground arith) in
      let kept : rec.line ≡ s ∷ line = ap (λ (u : Undone). u.0) (sym is) ∙ there in
      let all_same : all ≡ s ∷ line =
        advance-same rec.terms most_steps (s ∷ line) all (ran ∙ ap (λ m. ok (all, m)) no_more) in
      (
        ap (λ a. (settle rec a).0) all_same
            ∙ settle-same rec s line kept (subst (HasFields rec) kept shows)
                (ap (λ a. (settle rec a).1) (sym all_same) ∙ same),
        ap (λ (u : Undone). u.2 ++ more) is ∙ no_more,
      )
  HasRun-same rec _ shows (opened_again s line all more is again ran) quiet = absurd (ground arith)

  -- When a record's fields are those of its newest coin, if it holds one, and a reconciliation reports
  -- no change, the record that it leaves is the one that it was given, and no event is logged.
  pub reconcile_loan_unchanged :
      (rec : Loan) {after : Loan} {log : List Logged}
      → HasFields rec rec.line
      → reconcile_loan vault_spk leaf node rec ≡ ok (after, false, log)
      → (after ≡ rec) × (log ≡ [])
  reconcile_loan_unchanged rec {after} {log} shows e =
      HasRun-same rec (after, false, log) shows
        (reconcile_loan-HasRun vault_spk leaf node rec (after, false, log) e) refl
