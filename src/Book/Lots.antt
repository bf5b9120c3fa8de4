-- ===== src/Book/Lots.antt =====
-- The lots of an offer in pignus/book.py: `_holds_lot`, `_lots_left` and `put_btc_take`. The clock and the drawn identifier are arguments, and so is the commitment that the take's
-- loan document carries, empty where it carries none.
use pignus.Prelude.{
  ℕ, ◌+◌, ◌-◌, Bool, true, false, not, ◌&&◌, ◌||◌, Option, none, some, List, [], ◌∷◌, Text, codes,
  text_eq, member, is_empty, ltb, ◌==◌, if◌then◌else◌, Result, ok, err, ◌>>=◌, ◌>>◌, raise_if,
}
use pignus.Book.{Value, txt, num, Rec, Takes, find, store, wanted, as_text}

-- The ValueErrors of `put_btc_take`.
pub data PutError : Type 0 where
  all_taken funded_already commitment_used : PutError

pub record Book : Type 0 where
  pub offers : List (Text × Rec)
  pub takes : Takes
  pub commitments : List (Text × Text)

-- `LOT_FREE`
abbrev pub lot_free : List Text
lot_free = codes "aborted" ∷ codes "refunded" ∷ codes "expired" ∷ []

-- `UNSIGNED`
abbrev pub unsigned : List Text
unsigned = codes "requested" ∷ codes "reserved" ∷ codes "pending" ∷ []

abbrev pub text_or : Option Text → Text → Text
text_or none s = s
text_or (some t) s = t

abbrev pub num_or : Option Value → ℕ → ℕ
num_or none n = n
num_or (some (txt s)) n = n
num_or (some (num m)) n = m

-- `ttl and age > ttl`
abbrev pub too_old : ℕ → ℕ → Bool
too_old ttl age = not (ttl == 0) && ltb ttl age

-- `_holds_lot`; where the clock is behind, the age is not over any limit.
unfoldable pub holds_lot : Rec → ℕ → ℕ → ℕ → Bool
holds_lot rec clock take_ttl signed_ttl =
    let status = text_or (wanted rec) (codes "pending") in
    let age = clock - num_or (find rec (codes "created")) clock in
    if member status lot_free
    then false
    else if member status unsigned
    then not (too_old take_ttl age)
    else if text_eq status (codes "signed")
    then not (too_old signed_ttl age)
    else true

-- `rec.get(k) or n`
abbrev pub number_or : Option Value → ℕ → ℕ
number_or v n = if num_or v 0 == 0 then n else num_or v 0

abbrev pub lots_of : Rec → ℕ
lots_of offer = number_or (find offer (codes "lots")) 1

abbrev pub lots_taken : Rec → ℕ
lots_taken offer = number_or (find offer (codes "lots_taken")) 0

abbrev pub is_of : Text → Rec → Bool
is_of offer_id rec = elim (as_text (find rec (codes "btc_offer_id"))) [
  | none ↦ false
  | some i ↦ text_eq i offer_id
]

-- The takes that hold a lot of the offer.
unfoldable pub held_lots : Takes → Text → ℕ → ℕ → ℕ → ℕ
held_lots [] offer_id clock take_ttl signed_ttl = 0
held_lots ((i, rec) ∷ takes) offer_id clock take_ttl signed_ttl =
    (if is_of offer_id rec && holds_lot rec clock take_ttl signed_ttl then 1 else 0)
    + held_lots takes offer_id clock take_ttl signed_ttl

-- `_lots_left`
unfoldable pub lots_left : Book → Text → ℕ → ℕ → ℕ → ℕ
lots_left book offer_id clock take_ttl signed_ttl = elim (find book.offers offer_id) [
  | none ↦ 0
  | some offer ↦
      lots_of offer - (lots_taken offer + held_lots book.takes offer_id clock take_ttl signed_ttl)
]

-- Whether a take names this outpoint.
abbrev pub funded_by : Rec → Text → ℕ → Bool
funded_by rec txid vout = elim (as_text (find rec (codes "prevault_txid"))) [
  | none ↦ false
  | some t ↦ elim (find rec (codes "prevault_vout")) [
    | none ↦ false
    | some v ↦ text_eq t txid && num_or (some v) 0 == vout
  ]
]

-- `_take_by_funding`
unfoldable pub take_by_funding : Takes → Text → ℕ → Bool
take_by_funding [] txid vout = false
take_by_funding ((i, rec) ∷ takes) txid vout =
    funded_by rec txid vout || take_by_funding takes txid vout

-- `rec[k] = rec.get(k) or s`, for a text.
abbrev pub with_text : Rec → Text → Text → Rec
with_text rec k s =
    if is_empty (text_or (as_text (find rec k)) []) then store rec k (txt s) else rec

-- `rec["created"] = rec.get("created") or clock`
abbrev pub with_created : Rec → ℕ → Rec
with_created rec clock =
    store rec (codes "created") (num (number_or (find rec (codes "created")) clock))

-- The record as it is kept.
unfoldable pub completed : Rec → Text → ℕ → Rec
completed rec drawn clock =
    with_text (with_created (with_text rec (codes "take_id") drawn) clock) (codes "status")
      (codes "pending")

abbrev pub claims_lot : Book → Option Text → ℕ → ℕ → ℕ → Result PutError (Unit {0})
claims_lot book none clock take_ttl signed_ttl = ok tt
claims_lot book (some offer_id) clock take_ttl signed_ttl =
    raise_if (lots_left book offer_id clock take_ttl signed_ttl == 0) all_taken

abbrev pub claims_coin : Takes → Rec → Result PutError (Unit {0})
claims_coin takes rec =
    let txid = text_or (as_text (find rec (codes "prevault_txid"))) [] in
    raise_if
      (not (is_empty txid)
        && take_by_funding takes txid (num_or (find rec (codes "prevault_vout")) 0))
      funded_already

abbrev pub claims_commitment : Book → Text → Text → Result PutError (List (Text × Text))
claims_commitment book [] id = ok book.commitments
claims_commitment book (c ∷ h) id =
    let claimed = ok (store book.commitments (c ∷ h) id) in
    elim (find book.commitments (c ∷ h)) [
      | none ↦ claimed
      | some who ↦ if text_eq who id then claimed else err commitment_used
    ]

-- `put_btc_take`
unfoldable pub put_btc_take :
    Book → Rec → Text → Option Text → Text → ℕ → ℕ → ℕ → Result PutError (Book × Rec)
put_btc_take book rec h_w lots drawn clock take_ttl signed_ttl = do
  let kept = completed rec drawn clock
  let id = text_or (as_text (find kept (codes "take_id"))) []
  claims_lot book lots clock take_ttl signed_ttl
  claims_coin book.takes kept
  commitments ← claims_commitment book h_w id
  ok (
    record { offers = book.offers; takes = store book.takes id kept; commitments = commitments },
    kept,
  )
