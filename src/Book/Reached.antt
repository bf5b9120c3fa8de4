-- ===== src/Book/Reached.antt =====
-- Proofs on the takes that any updates of pignus/book.py can leave.
use pignus.Prelude.{
  ℕ, ◌≡◌, refl, sym, ap, Option, none, some, Text, text_eq, text_eq_iff, Bool-cases, Result-cases,
  inl, inr, ok, arith, ◌∙◌,
}
use mathlib.Core.Path.{subst}
use pignus.Book.{
  Rec, Takes, find, store, wanted, status_of, check_step, written, update_found, update_btc_take,
}
use pignus.Book.Fields.{find-store}
use pignus.Book.Ratchet.{IsReport, IsForward, IsForward-refl, IsForward-trans, written-IsForward}

-- The takes that updates leave, one after another, of any takes.
pub data Reached (start : Takes) : Takes → Type 0 where
  begun : Reached start start
  reported :
      {takes takes' : Takes} {r : Option Rec}
      → Reached start takes
      → (take_id : Text) (fields : Rec) (clock : ℕ) → IsReport fields
      → update_btc_take takes take_id fields clock ≡ ok (takes', r)
      → Reached start takes'

-- A take is still there and has moved forward.
abbrev pub IsAhead : Takes → Text → Rec → Type 0
IsAhead takes take_id rec =
    (rec' : Rec) × (find takes take_id ≡ some rec')
    × IsForward (status_of (some rec)) (status_of (some rec'))

update_found-IsAhead :
    (takes : Takes) (take_id : Text) (fields : Rec) (clock : ℕ) (found : Option Rec)
    {takes' : Takes} {r : Option Rec} (other : Text) (rec : Rec)
    → IsReport fields
    → find takes take_id ≡ found
    → update_found takes take_id fields clock found ≡ ok (takes', r)
    → find takes other ≡ some rec
    → IsAhead takes' other rec
unfolding update_found
update_found-IsAhead takes take_id fields clock none {takes'} {r} other rec report at_id e there =
    let same : takes ≡ takes' = ground arith in
    subst (λ x. IsAhead x other rec) same (rec, there, IsForward-refl (status_of (some rec)))
update_found-IsAhead takes take_id fields clock (some old) {takes'} {r} other rec report at_id e
      there =
    elim (Result-cases (check_step (status_of (some old)) (wanted fields))) [
      | inl (x, bad) ↦ absurd (ground arith)
      | inr (tt, passes) ↦
          let same : store takes take_id (written old fields clock) ≡ takes' = ground arith in
          let read = find-store takes take_id (written old fields clock) other in
          subst (λ x. IsAhead x other rec) same
            (elim (Bool-cases (text_eq take_id other)) [
              | inl here ↦
                  let is = (text_eq_iff take_id other).0 here in
                  let found : find takes other ≡ some old = ap (find takes) (sym is) ∙ at_id in
                  let it : old ≡ rec = cc in
                  (
                    written old fields clock,
                    read ∙ rw here refl,
                    subst
                        (λ x.
                          IsForward (status_of (some x))
                            (status_of (some (written old fields clock))))
                        it (written-IsForward old fields clock report passes),
                  )
              | inr elsewhere ↦
                  (rec, read ∙ rw elsewhere there, IsForward-refl (status_of (some rec)))
            ])
    ]

-- Whatever updates are made of whatever takes, with known statuses or none, a take that was there is
-- there, and its status has only moved forward: an end is still that end, and a step of the order is
-- an end or a step no earlier.
pub Reached-IsAhead :
    (start : Takes) {takes : Takes} (take_id : Text) (rec : Rec)
    → Reached start takes
    → find start take_id ≡ some rec
    → IsAhead takes take_id rec
unfolding update_btc_take
Reached-IsAhead start take_id rec begun there = (rec, there, IsForward-refl (status_of (some rec)))
Reached-IsAhead start take_id rec (reported {takes} {takes'} {r} earlier id fields clock report e)
      there =
    let (rec', there', ahead) = Reached-IsAhead start take_id rec earlier there in
    let (rec'', there'', further) =
      update_found-IsAhead takes id fields clock (find takes id) {takes' = takes'} {r = r} take_id
        rec' report refl e there' in
    (
      rec'',
      there'',
      IsForward-trans (status_of (some rec)) (status_of (some rec')) (status_of (some rec'')) ahead
          further,
    )
