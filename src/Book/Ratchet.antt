-- ===== src/Book/Ratchet.antt =====
-- Proofs on the ratchet of a take's status in pignus/book.py.
use pignus.Prelude.{
  ℕ, ◌≤◌, ◌≡◌, ◌⊎◌, refl, sym, ap, true, false, not, ◌&&◌, Option, none, some, [], ◌∷◌, Text, codes,
  text_eq, text_eq_iff, Bool-cases, inl, inr, ok, arith, ◌∙◌,
}
use mathlib.Core.Path.{subst}
use pignus.Book.{
  txt, Rec, Takes, find, store, without, as_text, wanted, or_requested, status_of, is_terminal,
  rank, index_from, goes_back, forward_from, forward_only, check_step, written, update_found,
  update_btc_take,
}
use pignus.Book.Fields.{over, find-without, find-written}

check_step-without :
    (now : Text) (fields : Rec) → check_step now (wanted (without fields (codes "status"))) ≡ ok tt
unfolding wanted check_step
check_step-without now fields = rw (find-without fields (codes "status")) refl

check_step-none : (now : Text) → check_step now none ≡ ok tt
unfolding check_step
check_step-none now = refl

check_step-passes :
    (now want : Text)
    → (is_terminal now && not (text_eq want now)) ≡ false
    → (is_terminal want ≡ true) ⊎ (goes_back (rank now) (rank want) ≡ false)
    → check_step now (some want) ≡ ok tt
unfolding check_step
check_step-passes now want going (inl ends) = rw (going, ends) refl
check_step-passes now want going (inr on) =
    rw (going, on) (elim (Bool-cases (is_terminal want)) [ inl a ↦ rw a refl | inr b ↦ rw b refl ])

-- The test passes on fields that were put through the ratchet.
check_step-forward_from :
    (now : Text) (fields : Rec) (w : Option Text)
    → wanted fields ≡ w
    → check_step now (wanted (forward_from now fields w)) ≡ ok tt
unfolding forward_from
check_step-forward_from now fields none e = rw e (check_step-none now)
check_step-forward_from now fields (some want) e =
    let cut = check_step-without now fields in
    elim (Bool-cases (is_terminal now && not (text_eq want now))) [
      | inl ended ↦ rw ended cut
      | inr going ↦ elim (Bool-cases (is_terminal want)) [
        | inl ends ↦ rw (going, ends) (rw e (check_step-passes now want going (inl ends)))
        | inr steps ↦ elim (Bool-cases (goes_back (rank now) (rank want))) [
          | inl back ↦ rw (going, steps, back) cut
          | inr on ↦ rw (going, steps, on) (rw e (check_step-passes now want going (inr on)))
        ]
      ]
    ]

update_found-answers :
    (takes : Takes) (take_id : Text) (fields : Rec) (clock : ℕ) (r : Option Rec)
    → check_step (status_of r) (wanted fields) ≡ ok tt
    → (a : Takes × Option Rec) × (update_found takes take_id fields clock r ≡ ok a)
unfolding update_found
update_found-answers takes take_id fields clock none e = ((takes, none), refl)
update_found-answers takes take_id fields clock (some rec) e =
    ((store takes take_id (written rec fields clock), some (written rec fields clock)), rw e refl)

-- A report put through the ratchet is never refused: every update with the fields that
-- `forward_only` leaves is made.
pub update_btc_take-forward_only :
    (takes : Takes) (take_id : Text) (fields : Rec) (clock : ℕ)
    → (r : Takes × Option Rec) × (update_btc_take takes take_id
          (forward_only takes take_id fields)
          clock
        ≡ ok r)
unfolding update_btc_take forward_only
update_btc_take-forward_only takes take_id fields clock =
    update_found-answers takes take_id (forward_only takes take_id fields) clock
      (find takes take_id)
      (check_step-forward_from (status_of (find takes take_id)) fields (wanted fields) refl)

-- A status that the order or the ends name.
abbrev pub IsKnown : Text → Type 0
IsKnown s = (is_terminal s ≡ true) ⊎ ((a : ℕ) × (rank s ≡ some a))

-- From one status to a later one: an end stays, and a step goes to an end or to no earlier step.
pub record IsForward (s s' : Text) : Type 0 where
  pub stays : is_terminal s ≡ true → s' ≡ s
  pub climbs :
      {a : ℕ} → rank s ≡ some a → (is_terminal s' ≡ true) ⊎ ((b : ℕ) × (rank s' ≡ some b) × (a ≤ b))

pub IsForward-refl : (s : Text) → IsForward s s
IsForward-refl s = record { stays = λ t. refl; climbs = λ {a} r. inr (a, r, omega arith) }

pub IsForward-trans : (s t u : Text) → IsForward s t → IsForward t u → IsForward s u
IsForward-trans s t u p q = record {
  stays = λ e. let same = p.stays e in q.stays (rw same e) ∙ same;
  climbs = λ {a} r. elim (p.climbs r) [
    | inl ended ↦ inl (rw (q.stays ended) ended)
    | inr (b, at_b, le) ↦ elim (q.climbs at_b) [
      | inl ended ↦ inl ended
      | inr (c, at_c, le') ↦ inr (c, at_c, omega (arith, le, le'))
    ]
  ];
}

-- What passes the test is forward.
check_step-IsForward :
    (now want : Text) → check_step now (some want) ≡ ok tt → IsKnown want → IsForward now want
unfolding check_step
check_step-IsForward now want e known = record {
  stays = λ ended. ground (arith, text_eq_iff want now);
  climbs = λ {a} r. elim known [
    | inl ends ↦ inl ends
    | inr (b, at_b) ↦ elim (Bool-cases (is_terminal want)) [
      | inl ends ↦ inl ends
      | inr steps ↦ inr (b, at_b, ground arith)
    ]
  ];
}

-- A report that names no status, or a known one.
abbrev pub IsReport : Rec → Type 0
IsReport fields =
    (find fields (codes "status") ≡ none)
    ⊎ ((s : Text) × (find fields (codes "status") ≡ some (txt s)) × IsKnown s)

IsKnown-or_requested : (s : Text) → IsKnown s → or_requested (some s) ≡ s
unfolding is_terminal rank index_from
IsKnown-or_requested [] (inl ended) = absurd (ground arith)
IsKnown-or_requested [] (inr (a, ranked)) = absurd (ground arith)
IsKnown-or_requested (c ∷ s) known = refl

-- An update of a take that passes the test moves its status forward.
pub written-IsForward :
    (rec fields : Rec) (clock : ℕ)
    → IsReport fields
    → check_step (status_of (some rec)) (wanted fields) ≡ ok tt
    → IsForward (status_of (some rec)) (status_of (some (written rec fields clock)))
unfolding wanted
written-IsForward rec fields clock (inl silent) e =
    let read = find-written rec fields clock in
    let same : find (written rec fields clock) (codes "status") ≡ find rec (codes "status") =
      read ∙ ap (λ v. over v (find rec (codes "status"))) silent in
    subst (λ v. IsForward (status_of (some rec)) (or_requested (as_text v))) (sym same)
      (IsForward-refl (status_of (some rec)))
written-IsForward rec fields clock (inr (s, said, known)) e =
    let read : find (written rec fields clock) (codes "status") ≡ some (txt s) =
      find-written rec fields clock ∙ ap (λ v. over v (find rec (codes "status"))) said in
    let step =
      check_step-IsForward (status_of (some rec)) s
        (sym (ap (λ v. check_step (status_of (some rec)) (as_text v)) said) ∙ e) known in
    subst (λ v. IsForward (status_of (some rec)) (or_requested (as_text v))) (sym read)
      (rw (IsKnown-or_requested s known) step)
