-- ===== src/Book/Sold.antt =====
-- Proofs on the lots of an offer in pignus/book.py.
use pignus.Prelude.{
  ℕ, suc, ◌+◌, ◌-◌, ◌≤◌, ◌≡◌, ◌⊎◌, refl, true, false, ◌&&◌, member, text_eq_refl, some, [], ◌∷◌,
  Text, codes, text_eq, ◌==◌, Result-cases, Option-cases, Bool-cases, inl, inr, ok, arith,
}
use mathlib.Core.Path.{subst}
use pignus.Book.{Rec, Takes, find, store, wanted, as_text}
use pignus.Book.Stored.{find-store_self}
use pignus.Book.Lots.{
  Book, num_or, too_old, holds_lot, is_of, lots_of, lots_taken, held_lots, lots_left, text_or,
  completed, claims_lot, claims_coin, claims_commitment, put_btc_take,
}

held_lots-store :
    (takes : Takes) (id : Text) (rec : Rec) (offer_id : Text) (clock take_ttl signed_ttl : ℕ)
    → held_lots (store takes id rec) offer_id clock take_ttl signed_ttl
      ≤ held_lots takes offer_id clock take_ttl signed_ttl + 1
unfolding held_lots store
held_lots-store [] id rec offer_id clock take_ttl signed_ttl =
    elim (Bool-cases (is_of offer_id rec && holds_lot rec clock take_ttl signed_ttl)) [
      | inl holds ↦ rw holds (omega arith)
      | inr free ↦ rw free (omega arith)
    ]
held_lots-store ((i, old) ∷ takes) id rec offer_id clock take_ttl signed_ttl =
    let others = held_lots-store takes id rec offer_id clock take_ttl signed_ttl in
    elim (Bool-cases (text_eq i id)) [
      | inl here ↦
          rw here
            (elim (Bool-cases (is_of offer_id rec && holds_lot rec clock take_ttl signed_ttl)) [
              | inl holds ↦ rw holds (omega arith)
              | inr free ↦ rw free (omega arith)
            ])
      | inr there ↦ rw there (omega (arith, others))
    ]

room : (n taken held : ℕ) → (n - (taken + held) == 0) ≡ false → taken + held + 1 ≤ n
room n taken held e = ground arith

-- A claim that passes finds a lot free.
lots_left-room :
    (book : Book) (offer_id : Text) (clock take_ttl signed_ttl : ℕ)
    → claims_lot book (some offer_id) clock take_ttl signed_ttl ≡ ok tt
    → (offer : Rec) × (find book.offers offer_id ≡ some offer)
      × (lots_taken offer + held_lots book.takes offer_id clock take_ttl signed_ttl + 1
          ≤ lots_of offer)
unfolding lots_left
lots_left-room book offer_id clock take_ttl signed_ttl e =
    elim (Option-cases (find book.offers offer_id)) [
      | inl missing ↦ absurd (ground arith)
      | inr (offer, there) ↦
          (offer, there, room (lots_of offer) (lots_taken offer) _ (ground arith))
    ]

-- A take holds a lot of an offer at a time: it names the offer; it is not aborted, refunded or expired;
-- it is within its time to live where it is not yet signed, and within that of a signed one where it
-- is signed, a time of 0 being without end. A take without a status is pending, and one without a time
-- is new.
pub record IsHolding (offer_id : Text) (clock take_ttl signed_ttl : ℕ) (rec : Rec) : Type 0 where
  pub of_offer : as_text (find rec (codes "btc_offer_id")) ≡ some offer_id
  pub not_freed :
      member
        (text_or (wanted rec) (codes "pending"))
        (codes "aborted" ∷ codes "refunded" ∷ codes "expired" ∷ [])
      ≡ false
  pub unsigned_young :
      member
          (text_or (wanted rec) (codes "pending"))
          (codes "requested" ∷ codes "reserved" ∷ codes "pending" ∷ [])
        ≡ true
      → (take_ttl ≡ 0) ⊎ (clock ≤ num_or (find rec (codes "created")) clock + take_ttl)
  pub signed_young :
      text_eq (text_or (wanted rec) (codes "pending")) (codes "signed") ≡ true
      → (signed_ttl ≡ 0) ⊎ (clock ≤ num_or (find rec (codes "created")) clock + signed_ttl)

not-too_old :
    (ttl clock since : ℕ) → (ttl ≡ 0) ⊎ (clock ≤ since + ttl) → too_old ttl (clock - since) ≡ false
not-too_old ttl clock since h = elim h [ inl endless ↦ ground arith | inr young ↦ ground arith ]

IsHolding-holds :
    (offer_id : Text) (clock take_ttl signed_ttl : ℕ) (rec : Rec)
    → IsHolding offer_id clock take_ttl signed_ttl rec
    → holds_lot rec clock take_ttl signed_ttl ≡ true
unfolding holds_lot
IsHolding-holds offer_id clock take_ttl signed_ttl rec is =
    let s = text_or (wanted rec) (codes "pending") in
    let since = num_or (find rec (codes "created")) clock in
    let kept = is.not_freed in
    elim (Bool-cases (member s (codes "requested" ∷ codes "reserved" ∷ codes "pending" ∷ []))) [
      | inl early ↦
          let young = not-too_old take_ttl clock since (is.unsigned_young early) in
          rw (kept, early, young) refl
      | inr later ↦ elim (Bool-cases (text_eq s (codes "signed"))) [
        | inl at_signed ↦
            let young = not-too_old signed_ttl clock since (is.signed_young at_signed) in
            rw (kept, later, at_signed, young) refl
        | inr onward ↦ rw (kept, later, onward) refl
      ]
    ]

IsHolding-counts :
    (offer_id : Text) (clock take_ttl signed_ttl : ℕ) (rec : Rec)
    → IsHolding offer_id clock take_ttl signed_ttl rec
    → (is_of offer_id rec && holds_lot rec clock take_ttl signed_ttl) ≡ true
IsHolding-counts offer_id clock take_ttl signed_ttl rec is =
    let named = is.of_offer in
    let same = text_eq_refl offer_id in
    let of : is_of offer_id rec ≡ true = ground arith in
    rw (of, IsHolding-holds offer_id clock take_ttl signed_ttl rec is) refl

-- Some of the takes, each of which holds a lot, and how many.
pub data Holding (offer_id : Text) (clock take_ttl signed_ttl : ℕ) : Takes → ℕ → Type 0 where
  all_seen : Holding offer_id clock take_ttl signed_ttl [] 0
  passed_over :
      (id : Text) (rec : Rec) {takes : Takes} {n : ℕ}
      → Holding offer_id clock take_ttl signed_ttl takes n
      → Holding offer_id clock take_ttl signed_ttl ((id, rec) ∷ takes) n
  counted :
      (id : Text) (rec : Rec) {takes : Takes} {n : ℕ}
      → IsHolding offer_id clock take_ttl signed_ttl rec
      → Holding offer_id clock take_ttl signed_ttl takes n
      → Holding offer_id clock take_ttl signed_ttl ((id, rec) ∷ takes) (suc n)

Holding-le :
    (offer_id : Text) (clock take_ttl signed_ttl : ℕ) {takes : Takes} {n : ℕ}
    → Holding offer_id clock take_ttl signed_ttl takes n
    → n ≤ held_lots takes offer_id clock take_ttl signed_ttl
unfolding held_lots
Holding-le offer_id clock take_ttl signed_ttl all_seen = omega arith
Holding-le offer_id clock take_ttl signed_ttl (passed_over id rec h) =
    omega (arith, Holding-le offer_id clock take_ttl signed_ttl h)
Holding-le offer_id clock take_ttl signed_ttl (counted id rec is h) =
    let more = Holding-le offer_id clock take_ttl signed_ttl h in
    rw (IsHolding-counts offer_id clock take_ttl signed_ttl rec is) (omega (arith, more))

-- Whenever a take that claims a lot of an offer is recorded, the take stands in the book under its id,
-- the offer is there, and however many of the takes that stand there then hold a lot of it, these and
-- the takes no longer kept are no more than its lots.
pub put_btc_take_fits :
    (book : Book) (rec : Rec) (h_w offer_id drawn : Text) (clock take_ttl signed_ttl : ℕ)
    {book' : Book} {kept : Rec}
    → put_btc_take book rec h_w (some offer_id) drawn clock take_ttl signed_ttl ≡ ok (book', kept)
    → (offer : Rec) × (find book'.offers offer_id ≡ some offer)
      × (find book'.takes (text_or (as_text (find kept (codes "take_id"))) []) ≡ some kept)
      × ((n : ℕ)
          → Holding offer_id clock take_ttl signed_ttl book'.takes n
          → lots_taken offer + n ≤ lots_of offer)
unfolding put_btc_take
put_btc_take_fits book rec h_w offer_id drawn clock take_ttl signed_ttl {book'} {kept} e =
    let whole = completed rec drawn clock in
    let id = text_or (as_text (find whole (codes "take_id"))) [] in
    let held = held_lots book.takes offer_id clock take_ttl signed_ttl in
    elim (Result-cases (claims_lot book (some offer_id) clock take_ttl signed_ttl)) [
      | inl (x, bad) ↦ absurd (ground arith)
      | inr (tt, claimed) ↦ elim (Result-cases (claims_coin book.takes whole)) [
        | inl (x, bad) ↦ absurd (ground arith)
        | inr (tt, coin) ↦ elim (Result-cases (claims_commitment book h_w id)) [
          | inl (x, bad) ↦ absurd (ground arith)
          | inr (commitments, c) ↦
              let (offer, there, fits) =
                lots_left-room book offer_id clock take_ttl signed_ttl claimed in
              let grown = held_lots-store book.takes id whole offer_id clock take_ttl signed_ttl in
              let offers : book.offers ≡ book'.offers = ground arith in
              let takes : store book.takes id whole ≡ book'.takes = ground arith in
              let whole_is : whole ≡ kept = ground arith in
              let room_left : lots_taken offer
                    + held_lots book'.takes offer_id clock take_ttl signed_ttl
                  ≤ lots_of offer =
                subst
                  (λ x.
                    lots_taken offer + held_lots x offer_id clock take_ttl signed_ttl
                    ≤ lots_of offer)
                  takes (omega (arith, fits, grown)) in
              (
                offer,
                subst (λ x. find x offer_id ≡ some offer) offers there,
                subst
                    (λ r.
                      find book'.takes (text_or (as_text (find r (codes "take_id"))) []) ≡ some r)
                    whole_is
                    (subst (λ x. find x id ≡ some whole) takes
                      (find-store_self book.takes id whole)),
                λ n h. omega (arith, room_left, Holding-le offer_id clock take_ttl signed_ttl h),
              )
        ]
      ]
    ]
