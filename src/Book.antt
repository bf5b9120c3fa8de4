-- ===== src/Book.antt =====
-- pignus/book.py: the book's records of Bitcoin-collateral takes and the ratchet on their statuses.
-- A record is a JSON object, so a list of its fields; the lock and the file on disk are left out, and
-- the clock is an argument.
use pignus.Prelude.{
  ℕ, Bool, true, false, not, ◌&&◌, ◌||◌, Option, none, some, List, [], ◌∷◌, ◌+◌, Text, codes,
  text_eq, member, is_empty, ltb, if◌then◌else◌, Result, ok, err, ◌>>=◌, ◌>>◌, raise_if,
}
pub mod Fields
pub mod Ratchet
pub mod Reached
pub mod Lots
pub mod Sold
pub mod Lines
pub mod Stored
pub mod Listed
mod Tests

-- A field's value, a text or a number.
pub data Value : Type 0 where
  txt : Text → Value
  num : ℕ → Value

abbrev pub Rec : Type 0
Rec = List (Text × Value)

abbrev pub Takes : Type 0
Takes = List (Text × Rec)

-- `TakeMoved`
pub data TakeError : Type 0 where
  take_moved : TakeError

-- `d.get(k)`
unfoldable pub find : {A : Type 0} → List (Text × A) → Text → Option A
find [] k = none
find ((j, a) ∷ d) k = let rest = find d k in if text_eq j k then some a else rest

-- `d[k] = a`
unfoldable pub store : {A : Type 0} → List (Text × A) → Text → A → List (Text × A)
store [] k a = (k, a) ∷ []
store ((j, b) ∷ d) k a = let rest = store d k a in if text_eq j k then (j, a) ∷ d else (j, b) ∷ rest

-- `rec.update(fields)`; new keys, whose order nothing reads, come in the other order.
unfoldable pub updated_with : Rec → Rec → Rec
updated_with rec [] = rec
updated_with rec ((k, v) ∷ fields) = store (updated_with rec fields) k v

-- The fields but one.
unfoldable pub without : Rec → Text → Rec
without [] k = []
without ((j, v) ∷ fields) k =
    let rest = without fields k in if text_eq j k then rest else (j, v) ∷ rest

abbrev pub as_text : Option Value → Option Text
as_text none = none
as_text (some (txt s)) = some s
as_text (some (num n)) = none

-- `fields.get("status")`
unfoldable pub wanted : Rec → Option Text
wanted fields = as_text (find fields (codes "status"))

-- `x or "requested"`
abbrev pub or_requested : Option Text → Text
or_requested none = codes "requested"
or_requested (some s) = if is_empty s then codes "requested" else s

-- The status of a record, or of none.
abbrev pub status_of : Option Rec → Text
status_of none = codes "requested"
status_of (some rec) = or_requested (wanted rec)

-- `TAKE_ORDER`
abbrev pub take_order : List Text
take_order =
    codes "requested"
    ∷ codes "reserved"
    ∷ codes "pending"
    ∷ codes "signed"
    ∷ codes "disbursed"
    ∷ codes "live"
    ∷ codes "repaid"
    ∷ codes "claimed"
    ∷ []

-- `TAKE_TERMINAL`
abbrev pub take_terminal : List Text
take_terminal = codes "refunded" ∷ codes "aborted" ∷ codes "expired" ∷ []

unfoldable pub is_terminal : Text → Bool
is_terminal s = member s take_terminal

unfoldable pub index_from : ℕ → List Text → Text → Option ℕ
index_from i [] s = none
index_from i (t ∷ ts) s = let rest = index_from (i + 1) ts s in if text_eq t s then some i else rest

-- `_rank`
unfoldable pub rank : Text → Option ℕ
rank s = index_from 0 take_order s

-- `a is not None and b is not None and b < a`
abbrev pub goes_back : Option ℕ → Option ℕ → Bool
goes_back none b = false
goes_back (some a) none = false
goes_back (some a) (some b) = ltb b a

-- `forward_only` at the status that the take has now and the one that is wanted.
unfoldable pub forward_from : Text → Rec → Option Text → Rec
forward_from now fields none = fields
forward_from now fields (some want) =
    if is_terminal now && not (text_eq want now)
    then without fields (codes "status")
    else if is_terminal want
    then fields
    else if goes_back (rank now) (rank want)
    then without fields (codes "status")
    else fields

-- `forward_only`
unfoldable pub forward_only : Takes → Text → Rec → Rec
forward_only takes take_id fields =
    forward_from (status_of (find takes take_id)) fields (wanted fields)

-- The test on the status that `update_btc_take` makes.
unfoldable pub check_step : Text → Option Text → Result TakeError (Unit {0})
check_step now none = ok tt
check_step now (some want) = do
  raise_if (is_terminal now && not (text_eq want now)) take_moved
  raise_if (not (is_terminal want) && goes_back (rank now) (rank want)) take_moved

-- The record after an update at a time.
unfoldable pub written : Rec → Rec → ℕ → Rec
written rec fields clock = store (updated_with rec fields) (codes "updated") (num clock)

-- `update_btc_take` on the record found.
unfoldable pub update_found :
    Takes → Text → Rec → ℕ → Option Rec → Result TakeError (Takes × Option Rec)
update_found takes take_id fields clock none = ok (takes, none)
update_found takes take_id fields clock (some rec) =
    check_step (status_of (some rec)) (wanted fields)
    >> ok (store takes take_id (written rec fields clock), some (written rec fields clock))

-- `update_btc_take`; no record for a take that is not there.
unfoldable pub update_btc_take : Takes → Text → Rec → ℕ → Result TakeError (Takes × Option Rec)
update_btc_take takes take_id fields clock =
    update_found takes take_id fields clock (find takes take_id)
