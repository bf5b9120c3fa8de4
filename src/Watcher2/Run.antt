-- ===== src/Watcher2/Run.antt =====
-- The ways that `reconcile_loan` of pignus/watcher2.py runs, as a relation, and proofs on its end.
use pignus.Prelude.{
  ◌≡◌, inl, inr, refl, sym, ap, Bool, true, not, ◌||◌, some, List, [], ◌∷◌, ◌++◌, Text, is_empty,
  Result-cases, ok, arith, ◌∙◌,
}
use mathlib.Core.Path.{subst}
use pignus.Vault2.Terms.{V2Terms, State}
use pignus.Watcher2.{Node}
use pignus.Watcher2.Loan.{
  Step, Loan, Undone, Logged, undo, reopen, advance, most_steps, settle, state_differs, go_forward,
  after_undo, reconcile_loan, Reconciled, ghost,
}

module _ (vault_spk : V2Terms → State → Text) (leaf : Text) (node : Node) (rec : Loan) where
  abbrev first_loop : Undone
  first_loop = undo node rec.line

  abbrev Forward : List Step → List Step → List Logged → Type 0
  Forward from all more = advance vault_spk leaf node rec.terms most_steps from ≡ ok (all, more)

  abbrev left_alone : Loan
  left_alone = record rec { line = []; state = some ghost }

  -- A run ends with nothing of the line and its opening, or goes forward from what is left of the
  -- line, or from its opening put back.
  pub data HasRun : Reconciled → Type 0 where
    nothing_left :
        first_loop.0 ≡ []
        → reopen node rec.opening ≡ []
        → HasRun (left_alone, first_loop.1 || state_differs rec.state ghost, first_loop.2)
    went_on :
        (s : Step) (line all : List Step) (more : List Logged)
        → first_loop.0 ≡ s ∷ line
        → Forward (s ∷ line) all more
        → HasRun (
          (settle rec all).0,
          first_loop.1 || not (is_empty more) || (settle rec all).1,
          first_loop.2 ++ more,
        )
    opened_again :
        (s : Step) (line all : List Step) (more : List Logged)
        → first_loop.0 ≡ []
        → reopen node rec.opening ≡ s ∷ line
        → Forward (s ∷ line) all more
        → HasRun ((settle left_alone all).0, true, first_loop.2 ++ more)

  Forward-cases :
      (r : Loan) (s : Step) (line : List Step) (changed : Bool) (log : List Logged)
      (out : Reconciled)
      → r.terms ≡ rec.terms
      → go_forward vault_spk leaf node r (s ∷ line) changed log ≡ ok out
      → (all : List Step) × (more : List Logged) × Forward (s ∷ line) all more
        × (((settle r all).0, changed || not (is_empty more) || (settle r all).1, log ++ more)
            ≡ out)
  unfolding go_forward
  Forward-cases r s line changed log out terms e =
      elim (Result-cases (advance vault_spk leaf node r.terms most_steps (s ∷ line))) [
        | inl (x, bad) ↦ absurd (ground arith)
        | inr ((all, more), made) ↦ (
          all,
          more,
          subst (λ t. advance vault_spk leaf node t most_steps (s ∷ line) ≡ ok (all, more)) terms
              made,
          ground arith,
        )
      ]

  after_undo-HasRun :
      (first : Undone) (again : List Step) (out : Reconciled)
      → first ≡ first_loop
      → again ≡ reopen node rec.opening
      → after_undo vault_spk leaf node rec first again ≡ ok out
      → HasRun out
  unfolding after_undo
  after_undo-HasRun (s ∷ line, changed, log) again out first reopens e =
      let (all, more, ran, is) = Forward-cases rec s line changed log out refl e in
      subst HasRun
        (ap
            (λ (f : Undone).
              ((settle rec all).0, f.1 || not (is_empty more) || (settle rec all).1, f.2 ++ more))
            (sym first)
          ∙ is)
        (went_on s line all more (ap (λ (f : Undone). f.0) (sym first)) ran)
  after_undo-HasRun ([], changed, log) [] out first reopens e =
      let is : (left_alone, changed || state_differs rec.state ghost, log) ≡ out = ground arith in
      subst HasRun
        (ap (λ (f : Undone). (left_alone, f.1 || state_differs rec.state ghost, f.2)) (sym first)
          ∙ is)
        (nothing_left (ap (λ (f : Undone). f.0) (sym first)) (sym reopens))
  after_undo-HasRun ([], changed, log) (s ∷ line) out first reopens e =
      let (all, more, ran, is) = Forward-cases left_alone s line true log out refl e in
      subst HasRun
        (ap (λ (f : Undone). ((settle left_alone all).0, true, f.2 ++ more)) (sym first) ∙ is)
        (opened_again s line all more (ap (λ (f : Undone). f.0) (sym first)) (sym reopens) ran)

  pub reconcile_loan-HasRun :
      (out : Reconciled) → reconcile_loan vault_spk leaf node rec ≡ ok out → HasRun out
  unfolding reconcile_loan
  reconcile_loan-HasRun out e =
      after_undo-HasRun (undo node rec.line) (reopen node rec.opening) out refl refl e
