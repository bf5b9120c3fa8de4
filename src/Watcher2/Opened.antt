-- ===== src/Watcher2/Opened.antt =====
-- Proofs on the loans that `reconcile_offer` of pignus/watcher2.py reports as opened.
use pignus.Prelude.{
  ℕ, zero, suc, ◌+◌, ◌*◌, ◌≡◌, ◌≢◌, refl, sym, ap, Option, none, some, List, [], ◌∷◌, Text,
  get_elem?, All, Option-cases, Result-cases, inl, inr, ok, arith, ◌∙◌,
}
use mathlib.Core.Path.{subst}
use pignus.Vault2.Terms.{V2Terms, State}
use pignus.Vault2.Spend.{V2Offer}
use pignus.Watcher2.{ChainTx, Node, Where, or_height, spender}
use pignus.Watcher2.Found.{spender-IsShown}
use pignus.Watcher2.Take.{TakeReading, no_take, bad_witness, taken_by, borrower_from_take}
use pignus.Watcher2.Claims.{Stands, IsClaimed, AllTaken, AllClaimed, claimed, kept_claim}
use pignus.Watcher2.Claimed.{borrower_from_take-eq-taken, opened_by-IsTaken}
use pignus.Watcher2.Offer.{
  OfferStep, OfferHolds, coin, closed, OfferRec, OpenedLoan, opened_by, rest_of, Spent, spent_as,
  also, read_found, next_spend, step_on, kept_steps, shown, settle_offer, count_of, reconcile_offer,
}

module _ (vault_spk : V2Terms → State → Text) (offer : V2Offer) where
  spent_as-IsTaken :
      (spk : Text) (tx : ChainTx) (k : ℕ) (w : Where) (r : TakeReading) (s : Spent)
      → borrower_from_take vault_spk offer tx k ≡ r
      → spent_as offer spk tx k w r ≡ ok s
      → AllTaken vault_spk offer tx k s.1
  unfolding spent_as
  spent_as-IsTaken spk tx k w bad_witness s read e = absurd (ground arith)
  spent_as-IsTaken spk tx k w no_take s read e =
      let nothing : none ≡ s.1 = ground arith in subst (AllTaken vault_spk offer tx k) nothing tt
  spent_as-IsTaken spk tx k w (taken_by h) s read e =
      let (d, there, derived, hash) = borrower_from_take-eq-taken vault_spk offer tx k h read in
      elim (Result-cases (opened_by offer h tx k w (get_elem? tx.decoded.outs (2 * k)))) [
        | inl (x, bad) ↦ absurd (ground arith)
        | inr (o, made) ↦
            elim (Result-cases (rest_of spk tx k (get_elem? tx.decoded.outs (2 * k + 1)))) [
              | inl (x, bad) ↦ absurd (ground arith)
              | inr (left, l) ↦
                  let same : some o ≡ s.1 = ground arith in
                  subst (AllTaken vault_spk offer tx k) same (
                    opened_by-IsTaken vault_spk offer h tx k w d o there derived hash
                      (ap (λ m. opened_by offer h tx k w m) (sym there) ∙ made))
            ]
      ]

  read_found-IsTaken :
      (node : Node) (spk : Text) (found : Option (ChainTx × ℕ × Where)) (s : Spent)
      → read_found vault_spk node offer spk found ≡ ok (some s)
      → (tx : ChainTx) × (k : ℕ) × (w : Where) × (found ≡ some (tx, k, w))
        × AllTaken vault_spk offer tx k s.1
  unfolding read_found
  read_found-IsTaken node spk none s e = absurd (ground arith)
  read_found-IsTaken node spk (some (tx, k, w)) s e =
      let r = borrower_from_take vault_spk offer tx k in
      elim (Result-cases (spent_as offer spk tx k w r)) [
        | inl (x, bad) ↦ absurd (ground arith)
        | inr (made, m) ↦
            let same : made ≡ s = ground arith in
            (tx, k, w, refl, spent_as-IsTaken spk tx k w r s refl (m ∙ ap ok same))
      ]

  next_spend-IsTaken :
      (node : Node) (cur : OfferStep) (h : OfferHolds) (line : List OfferStep) (s : Spent)
      → cur.holds ≡ h
      → next_spend vault_spk node offer cur h ≡ ok (some s)
      → AllClaimed vault_spk offer node (cur ∷ line) s.1
  unfolding next_spend
  next_spend-IsTaken node cur closed line s holds e = absurd (ground arith)
  next_spend-IsTaken node cur (coin c) line s holds e =
      elim (Option-cases (node.gettxout cur.txid c.vout)) [
        | inr (conf, there) ↦ absurd (ground arith)
        | inl spent ↦
            let h = or_height cur.place.height node.tip in
            let (tx, k, w, found, is) =
              read_found-IsTaken node c.spk (spender node cur.txid c.vout h) s (ground arith) in
            let (spends, there) = spender-IsShown node cur.txid c.vout k h tx w found in
            claimed vault_spk offer node tx k w h cur c line s.1 holds spends there is
      ]

  also-All :
      (node : Node) (line : List OfferStep) (o : Option OpenedLoan) (os : List OpenedLoan)
      → AllClaimed vault_spk offer node line o
      → All (IsClaimed vault_spk offer node line) os
      → All (IsClaimed vault_spk offer node line) (also o os)
  also-All node line none os one all = all
  also-All node line (some o) os one all = (one, all)

  -- The steps that the second loop begins with stay in the line.
  step_on-Stands :
      (node : Node) (n : ℕ) (line all : List OfferStep) (os : List OpenedLoan)
      → step_on vault_spk node offer n line ≡ ok (all, os)
      → (s : OfferStep) → Stands s line
      → Stands s all
  unfolding step_on
  step_on-Stands node zero line all os e s there =
      let same : line ≡ all = ground arith in subst (Stands s) same there
  step_on-Stands node (suc n) [] all os e s there =
      let same : [] ≡ all = ground arith in subst (Stands s) same there
  step_on-Stands node (suc n) (cur ∷ line) all os e s there =
      elim (Result-cases (next_spend vault_spk node offer cur cur.holds)) [
        | inl (x, bad) ↦ absurd (ground arith)
        | inr (none, last) ↦
            let same : cur ∷ line ≡ all = ground arith in subst (Stands s) same there
        | inr (some (next, o), found) ↦
            elim (Result-cases (step_on vault_spk node offer n (next ∷ cur ∷ line))) [
              | inl (x, bad) ↦ absurd (ground arith)
              | inr ((whole, more), rest) ↦
                  let same : whole ≡ all = ground arith in
                  let (i, at) = there in
                  subst (Stands s) same
                    (step_on-Stands node n (next ∷ cur ∷ line) whole more rest s (suc i, at))
            ]
      ]

  step_on-some :
      (node : Node) (n : ℕ) (s : OfferStep) (line all : List OfferStep) (os : List OpenedLoan)
      → step_on vault_spk node offer n (s ∷ line) ≡ ok (all, os)
      → all ≢ []
  unfolding step_on
  step_on-some node zero s line all os e f = absurd (ground arith)
  step_on-some node (suc n) s line all os e f =
      elim (Result-cases (next_spend vault_spk node offer s s.holds)) [
        | inl (x, bad) ↦ absurd (ground arith)
        | inr (none, last) ↦ absurd (ground arith)
        | inr (some (next, o), found) ↦
            elim (Result-cases (step_on vault_spk node offer n (next ∷ s ∷ line))) [
              | inl (x, bad) ↦ absurd (ground arith)
              | inr ((whole, more), rest) ↦
                  let lines : whole ≡ all = ground arith in
                  step_on-some node n next (s ∷ line) whole more rest (lines ∙ f)
            ]
      ]

  -- The loans that the second loop reports, and that it leaves some step when it began with one.
  step_on-IsTaken :
      (node : Node) (n : ℕ) (line all : List OfferStep) (os : List OpenedLoan)
      → step_on vault_spk node offer n line ≡ ok (all, os)
      → All (IsClaimed vault_spk offer node all) os × (all ≡ [] → os ≡ [])
  unfolding step_on
  step_on-IsTaken node zero line all os e =
      let nothing : [] ≡ os = ground arith in
      (subst (All (IsClaimed vault_spk offer node all)) nothing tt, λ f. sym nothing)
  step_on-IsTaken node (suc n) [] all os e =
      let nothing : [] ≡ os = ground arith in
      (subst (All (IsClaimed vault_spk offer node all)) nothing tt, λ f. sym nothing)
  step_on-IsTaken node (suc n) (cur ∷ line) all os e =
      elim (Result-cases (next_spend vault_spk node offer cur cur.holds)) [
        | inl (x, bad) ↦ absurd (ground arith)
        | inr (none, last) ↦
            let nothing : [] ≡ os = ground arith in
            (subst (All (IsClaimed vault_spk offer node all)) nothing tt, λ f. sym nothing)
        | inr (some (s, o), next) ↦
            elim (Result-cases (step_on vault_spk node offer n (s ∷ cur ∷ line))) [
              | inl (x, bad) ↦ absurd (ground arith)
              | inr ((whole, more), rest) ↦
                  let same : also o more ≡ os = ground arith in
                  let lines : whole ≡ all = ground arith in
                  let (each, some_left) = step_on-IsTaken node n (s ∷ cur ∷ line) whole more rest in
                  (
                    subst (All (IsClaimed vault_spk offer node all)) same (
                        subst (λ x. All (IsClaimed vault_spk offer node x) (also o more)) lines
                          (also-All node whole o more
                            (kept_claim vault_spk offer node o (cur ∷ line) whole
                              (λ x there.
                                step_on-Stands node n (s ∷ cur ∷ line) whole more rest x
                                  (suc there.0, there.1))
                              (next_spend-IsTaken node cur cur.holds line (s, o) refl next))
                            each)),
                    λ f. absurd (step_on-some node n s (cur ∷ line) whole more rest (lines ∙ f)),
                  )
            ]
      ]

shown-taken : (rec : OfferRec) (s : OfferStep) (h : OfferHolds) → (shown rec s h).taken ≡ rec.taken
unfolding shown
shown-taken rec s closed = refl
shown-taken rec s (coin c) = refl

shown-line : (rec : OfferRec) (s : OfferStep) (h : OfferHolds) → (shown rec s h).line ≡ rec.line
unfolding shown
shown-line rec s closed = refl
shown-line rec s (coin c) = refl

settle_offer-line :
    (rec : OfferRec) (all : List OfferStep) (n : ℕ) → (settle_offer rec all n).line ≡ all
unfolding settle_offer
settle_offer-line rec [] n = refl
settle_offer-line rec (s ∷ line) n = shown-line _ s s.holds

settle_offer-taken :
    (rec : OfferRec) (all : List OfferStep) (os : List OpenedLoan)
    → (all ≡ [] → os ≡ [])
    → (settle_offer rec all (count_of os)).taken ≡ rec.taken + count_of os
unfolding settle_offer
settle_offer-taken rec [] os empty =
    let none_opened : count_of os ≡ 0 = ap count_of (empty refl) ∙ (unfold count_of in refl) in
    omega (arith, none_opened)
settle_offer-taken rec (s ∷ line) os empty = shown-taken _ s s.holds

-- Every loan that a reconciliation of an offer reports was opened by a transaction that the node shows in
-- a block or the mempool and that spends, by some input `k`, the coin of a step of the offer's line; it
-- stands at that transaction's explicit output `2 * k`, at the script of the offer's vault for the loan's
-- borrower, named by 32 bytes of hex, the offer's debt and the transaction's time. The offer's count of
-- takes grows by the number of these loans.
pub reconcile_offer-AllTaken :
    (vault_spk : V2Terms → State → Text) (node : Node) (rec : OfferRec) {out : OfferRec}
    {os : List OpenedLoan}
    → reconcile_offer vault_spk node rec ≡ ok (out, os)
    → All (IsClaimed vault_spk rec.offer node out.line) os × (out.taken ≡ rec.taken + count_of os)
unfolding reconcile_offer
reconcile_offer-AllTaken vault_spk node rec {out} {os} e =
    elim (Result-cases (step_on vault_spk node rec.offer 64 (kept_steps node rec.line))) [
      | inl (x, bad) ↦ absurd (ground arith)
      | inr ((all, found), ran) ↦
          let same : found ≡ os = ground arith in
          let settled : settle_offer rec all (count_of found) ≡ out = ground arith in
          let (each, empty) =
            step_on-IsTaken vault_spk rec.offer node 64 (kept_steps node rec.line) all found ran in
          (
            subst (All (IsClaimed vault_spk rec.offer node out.line)) same (
                subst (λ x. All (IsClaimed vault_spk rec.offer node x.line) found) settled
                  (subst (λ l. All (IsClaimed vault_spk rec.offer node l) found)
                    (sym (settle_offer-line rec all (count_of found))) each)),
            ap (λ r. r.taken) (sym settled)
                ∙ settle_offer-taken rec all found empty
                ∙ ap (λ l. rec.taken + count_of l) same,
          )
    ]
