-- ===== src/Watcher2/Sound.antt =====
-- Proofs on the record that `reconcile_loan` of pignus/watcher2.py leaves.
use pignus.Prelude.{
  ℕ, zero, suc, ◌≡◌, ◌≢◌, inl, inr, refl, sym, ap, none, some, List, [], ◌∷◌, ◌++◌, Text,
  Result-cases, ok, arith, ◌∙◌,
}
use mathlib.Core.Path.{subst}
use mathlib.Core.List.{append_assoc}
use pignus.Vault2.Terms.{V2Terms, State}
use pignus.Watcher2.{Node, where_is}
use pignus.Watcher2.Loan.{
  Step, VaultCoin, Holds, coin, closed, Loan, Logged, reopen, reopened, next_step, advance,
  most_steps, settle, filled, state_by, reconcile_loan, Reconciled, ghost,
}
use pignus.Watcher2.Kept.{IsLine, undone_all, undo-IsLine, reopened-IsLine, advance-IsLine}
use pignus.Watcher2.Run.{HasRun, nothing_left, went_on, opened_again, reconcile_loan-HasRun}

-- The record's fields are those of the coin.
pub record IsOfCoin (rec : Loan) (s : Step) (c : VaultCoin) : Type 0 where
  pub debt : rec.debt ≡ c.debt
  pub last_time : rec.last_time ≡ c.last_time
  pub collateral : rec.collateral ≡ c.amount
  pub txid : rec.txid ≡ s.txid
  pub vout : rec.vout ≡ c.vout

-- While the vault is open, the record's fields are those of the newest step's coin.
abbrev pub HasFields : Loan → List Step → Type 0
HasFields rec [] = Unit {0}
HasFields rec (s ∷ line) = (c : VaultCoin) → s.holds ≡ coin c → IsOfCoin rec s c

-- The record shows its line: a ghost without steps, or the state and the coin of the newest.
abbrev pub Shows : Loan → List Step → Type 0
Shows rec [] = rec.state ≡ some ghost
Shows rec (s ∷ line) = (rec.state ≡ some (state_by s.place s.holds)) × HasFields rec (s ∷ line)

pub Shows-HasFields : (rec : Loan) (line : List Step) → Shows rec line → HasFields rec line
Shows-HasFields rec [] shows = tt
Shows-HasFields rec (s ∷ line) shows = shows.1

filled-eqs :
    (r : Loan) (txid : Text) (h : Holds)
    → ((filled r txid h).line ≡ r.line)
      × ((filled r txid h).terms ≡ r.terms)
      × ((filled r txid h).opening ≡ r.opening)
      × ((filled r txid h).state ≡ r.state)
unfolding filled
filled-eqs r txid (closed state) = (refl, refl, refl, refl)
filled-eqs r txid (coin c) = (refl, refl, refl, refl)

pub settle-eqs :
    (r : Loan) (all : List Step)
    → ((settle r all).0.line ≡ all)
      × ((settle r all).0.terms ≡ r.terms)
      × ((settle r all).0.opening ≡ r.opening)
unfolding settle
settle-eqs r [] = (refl, refl, refl)
settle-eqs r (s ∷ line) =
    let (same_line, terms, opening, state) =
      filled-eqs (record r { line = s ∷ line; state = some (state_by s.place s.holds) }) s.txid
        s.holds in
    (same_line, terms, opening)

filled-IsOfCoin :
    (r : Loan) (s : Step) (h : Holds) (c : VaultCoin)
    → h ≡ coin c
    → IsOfCoin (filled r s.txid h) s c
unfolding filled
filled-IsOfCoin r s (closed state) c e = absurd (ground arith)
filled-IsOfCoin r s (coin d) c e =
    let same : d ≡ c = ground arith in
    record {
      debt = ap (λ x. x.debt) same;
      last_time = ap (λ x. x.last_time) same;
      collateral = ap (λ x. x.amount) same;
      txid = refl;
      vout = ap (λ x. x.vout) same;
    }

settle-Shows : (r : Loan) (all : List Step) → all ≢ [] → Shows (settle r all).0 all
unfolding settle
settle-Shows r [] some_step = absurd (some_step refl)
settle-Shows r (s ∷ line) some_step =
    let r' : Loan = record r { line = s ∷ line; state = some (state_by s.place s.holds) } in
    let (same_line, terms, opening, state) = filled-eqs r' s.txid s.holds in
    (state, λ c e. filled-IsOfCoin r' s s.holds c e)

-- Going forward adds steps and removes none.
pub advance-keeps :
    (vault_spk : V2Terms → State → Text) (leaf : Text) (node : Node) (t : V2Terms) (n : ℕ)
    (line all : List Step) (log : List Logged)
    → advance vault_spk leaf node t n line ≡ ok (all, log)
    → (new : List Step) × (all ≡ new ++ line)
unfolding advance
advance-keeps vault_spk leaf node t zero line all log e = ([], ground arith)
advance-keeps vault_spk leaf node t (suc n) [] all log e = ([], ground arith)
advance-keeps vault_spk leaf node t (suc n) (cur ∷ line) all log e =
    elim (Result-cases (next_step vault_spk leaf node t cur cur.holds)) [
      | inl (x, bad) ↦ absurd (ground arith)
      | inr (none, last) ↦ ([], ground arith)
      | inr (some s, next) ↦
          elim (Result-cases (advance vault_spk leaf node t n (s ∷ cur ∷ line))) [
            | inl (x, bad) ↦ absurd (ground arith)
            | inr ((whole, more), rest) ↦
                let same : whole ≡ all = ground arith in
                let (new, is) =
                  advance-keeps vault_spk leaf node t n (s ∷ cur ∷ line) whole more rest in
                (new ++ (s ∷ []), sym same ∙ is ∙ sym (append_assoc new (s ∷ []) (cur ∷ line)))
          ]
    ]

pub append_some : (new : List Step) (s : Step) (line : List Step) → new ++ (s ∷ line) ≢ []
append_some [] s line e = cc
append_some (x ∷ new) s line e = cc

module _ (vault_spk : V2Terms → State → Text) (leaf : Text) (node : Node) where
  settled-Shows :
      (r : Loan) (t : V2Terms) (s : Step) (line all : List Step) (more : List Logged)
      → advance vault_spk leaf node t most_steps (s ∷ line) ≡ ok (all, more)
      → Shows (settle r all).0 (settle r all).0.line
  settled-Shows r t s line all more ran =
      let (new, is) = advance-keeps vault_spk leaf node t most_steps (s ∷ line) all more ran in
      let (same, terms, opening) = settle-eqs r all in
      subst (Shows (settle r all).0) (sym same)
        (settle-Shows r all (λ e. append_some new s line (sym is ∙ e)))

  HasRun-Shows :
      (rec : Loan) (out : Reconciled) → HasRun vault_spk leaf node rec out → Shows out.0 out.0.line
  HasRun-Shows rec _ (nothing_left all_gone opening_gone) = refl
  HasRun-Shows rec _ (went_on s line all more is ran) =
      settled-Shows rec rec.terms s line all more ran
  HasRun-Shows rec _ (opened_again s line all more is again ran) =
      settled-Shows (record rec { line = []; state = some ghost }) rec.terms s line all more ran

  -- The record that a reconciliation returns shows its line: it is a ghost when no step is left;
  -- otherwise its state is the newest step's, and while the vault is open its debt, its time, its
  -- collateral and its coin are those of the newest step.
  pub reconcile_loan-Shows :
      (rec : Loan) {out : Reconciled}
      → reconcile_loan vault_spk leaf node rec ≡ ok out
      → Shows out.0 out.0.line
  reconcile_loan-Shows rec {out} e =
      HasRun-Shows rec out (reconcile_loan-HasRun vault_spk leaf node rec out e)

-- The record's line is one from its opening.
pub record IsWatched (vault_spk : V2Terms → State → Text) (leaf : Text) (opening : Step)
    (rec : Loan) : Type 0 where
  pub kept : rec.opening ≡ some opening
  pub is_line : IsLine vault_spk leaf rec.terms opening rec.line

reopen-eq :
    (node : Node) (opening : Step)
    → reopened opening (where_is node opening.txid opening.place) ≡ reopen node (some opening)
unfolding reopen
reopen-eq node opening = refl

module _ (vault_spk : V2Terms → State → Text) (leaf : Text) (node : Node) (opening : Step) where
  settle-IsWatched :
      (r : Loan) (all : List Step)
      → r.opening ≡ some opening
      → IsLine vault_spk leaf r.terms opening all
      → IsWatched vault_spk leaf opening (settle r all).0
  settle-IsWatched r all kept is =
      let (same, terms, opens) = settle-eqs r all in
      record {
        kept = opens ∙ kept;
        is_line =
            subst (λ t. IsLine vault_spk leaf t opening (settle r all).0.line) (sym terms)
              (subst (IsLine vault_spk leaf r.terms opening) (sym same) is);
      }

  HasRun-IsWatched :
      (rec : Loan) (out : Reconciled)
      → IsWatched vault_spk leaf opening rec
      → HasRun vault_spk leaf node rec out
      → IsWatched vault_spk leaf opening out.0
  HasRun-IsWatched rec _ was (nothing_left all_gone opening_gone) = record {
    kept = was.kept;
    is_line = undone_all;
  }
  HasRun-IsWatched rec _ was (went_on s line all more is ran) =
      let t = rec.terms in
      settle-IsWatched rec all was.kept (
        advance-IsLine vault_spk leaf t opening node most_steps (s ∷ line) all more
          (subst (IsLine vault_spk leaf t opening) is
            (undo-IsLine vault_spk leaf t opening node rec.line was.is_line))
          ran)
  HasRun-IsWatched rec _ was (opened_again s line all more is again ran) =
      let t = rec.terms in
      let w = where_is node opening.txid opening.place in
      let start : reopened opening w ≡ s ∷ line =
        reopen-eq node opening ∙ ap (reopen node) (sym was.kept) ∙ again in
      settle-IsWatched (record rec { line = []; state = some ghost }) all was.kept
        (advance-IsLine vault_spk leaf t opening node most_steps (s ∷ line) all more
          (subst (IsLine vault_spk leaf t opening) start
            (reopened-IsLine vault_spk leaf t opening w))
          ran)

  -- A reconciliation keeps the record's line one of steps from its opening, each read off a
  -- transaction that spends the coin before it.
  pub reconcile_loan-IsWatched :
      (rec : Loan) {out : Reconciled}
      → IsWatched vault_spk leaf opening rec
      → reconcile_loan vault_spk leaf node rec ≡ ok out
      → IsWatched vault_spk leaf opening out.0
  reconcile_loan-IsWatched rec {out} was e =
      HasRun-IsWatched rec out was (reconcile_loan-HasRun vault_spk leaf node rec out e)
