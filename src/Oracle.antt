-- ===== src/Oracle.antt =====
-- pignus/oracle.py: what `verify` accepts, and which attestations a threshold vault is shown.
-- Hashing, the attested message and the signature check are other libraries' code, a parameter.
pub mod Slots
pub mod Order
pub mod Choice
pub mod Signed
pub mod Sound
pub mod Tests
use pignus.Prelude.{
  ℕ, suc, ◌+◌, ◌≤◌, ◌<◌, max, ◌≡◌, Bool, true, false, not, ◌&&◌, Option, none, some, List, [], ◌∷◌,
  Text, text_eq, ltb, leb, ◌==◌, if◌then◌else◌, length, take, set, replicate, Result, ok, err,
  ◌>>=◌, ◌>>◌, raise_if,
}
use pignus.Prelude.Hex.{lower, from_hex, to_hex}
use pignus.Terms.{LoanTerms, oracle_keys, threshold, is_liquidatable}

pub record Attestation : Type 0 where
  pub market : Text
  pub feed_id : Text
  pub timestamp : ℕ
  pub price : ℕ
  pub price_scale : ℕ
  pub signature : Text

-- What the code calls and this repository does not hold: the tagged hash of a market, the bytes
-- an attestation signs, and the check of a signature over them.
pub record Signing : Type 0 where
  pub feed_of : Text → Text
  pub attestation_message : Text → ℕ → ℕ → Text
  pub verify_schnorr_varlen : Text → Text → Text → Bool

pub data OracleError : Type 0 where
  bad_hex : OracleError

-- `bytes.fromhex` where nothing catches its ValueError.
abbrev pub decoded : Text → Result OracleError Text
decoded s = elim (from_hex s) [ none ↦ err bad_hex | some bytes ↦ ok bytes ]

-- What signing an attestation covers.
abbrev pub signed_by : Signing → Text → Attestation → Result OracleError Bool
signed_by c key att = elim (from_hex att.signature) [
  | none ↦ ok false
  | some sig ↦ do
    feed ← decoded att.feed_id
    ok (c.verify_schnorr_varlen key sig (c.attestation_message feed att.timestamp att.price))
]

-- `price_scale is not None and int(att.price_scale) != int(price_scale)`
abbrev pub wrong_scale : Attestation → Option ℕ → Bool
wrong_scale att none = false
wrong_scale att (some s) = not (att.price_scale == s)

-- `verify(oracle_x, att, price_scale)`
unfoldable pub verify : Signing → Text → Attestation → Option ℕ → Result OracleError Bool
verify c oracle_x att price_scale = do
  key ← decoded oracle_x
  let wrong_feed = not (text_eq (to_hex (c.feed_of att.market)) att.feed_id)
  if wrong_feed
      then ok false
      else if wrong_scale att price_scale
      then ok false
      else signed_by c key att

-- `by_key.get(k)` in the dict of lower-case keys, where a later entry replaces an earlier one.
unfoldable pub by_key : Text → List (Text × Attestation) → Option Attestation
by_key k [] = none
by_key k ((j, a) ∷ m) = elim (by_key k m) [
  | some b ↦ some b
  | none ↦ if text_eq (lower j) k then some a else none
]

-- A slot's index and its attestation.
abbrev pub Usable : Type 0
Usable = List (ℕ × Attestation)

module _ (c : Signing) (t : LoanTerms) where
  -- Does the loop keep this attestation for the key `k`?
  unfoldable pub is_usable : Text → Attestation → Result OracleError Bool
  is_usable k att = do
    good ← verify c k att (some t.price_scale)
    ok (good && not (ltb att.timestamp t.not_before))

  -- The loop over the keys, from slot `i` on.
  unfoldable pub usable_from : ℕ → List Text → List (Text × Attestation) → Result OracleError Usable
  usable_from i [] attestations = ok []
  usable_from i (k ∷ ks) attestations =
      let rest = usable_from (suc i) ks attestations in
      elim (by_key (lower k) attestations) [
        | none ↦ rest
        | some att ↦ do
          keep ← is_usable k att
          others ← rest
          ok (if keep then (i, att) ∷ others else others)
      ]

-- `sorted(…, key=lambda kv: kv[1].price)`, which is stable.
unfoldable pub insert_by_price : ℕ × Attestation → Usable → Usable
insert_by_price e [] = e ∷ []
insert_by_price e (f ∷ fs) =
    if leb e.1.price f.1.price then e ∷ f ∷ fs else f ∷ insert_by_price e fs

unfoldable pub sort_by_price : Usable → Usable
unfolding insert_by_price
sort_by_price [] = []
sort_by_price (e ∷ es) = insert_by_price e (sort_by_price es)

-- `max(att.price for …)`
unfoldable pub max_price : Usable → ℕ
max_price [] = 0
max_price (e ∷ es) = max e.1.price (max_price es)

-- One entry for each key: none to abstain, or the attestation presented.
abbrev pub SlotList : Type 0
SlotList = List (Option Attestation)

unfoldable pub fill_slots : Usable → SlotList → SlotList
fill_slots [] slots = slots
fill_slots (e ∷ es) slots = fill_slots es (set slots e.0 (some e.1))

-- The choice among the usable attestations.
unfoldable pub choose : LoanTerms → Usable → Option (SlotList × ℕ)
unfolding sort_by_price max_price fill_slots
choose t usable =
    if ltb (length usable) (threshold t)
    then none
    else let chosen = take (threshold t) (sort_by_price usable) in
      some (fill_slots chosen (replicate (length (oracle_keys t)) none), max_price chosen)

unfoldable pub select_threshold :
    Signing → LoanTerms → List (Text × Attestation) → Result OracleError (Option (SlotList × ℕ))
unfolding usable_from choose
select_threshold c t attestations = do
  usable ← usable_from c t 0 (oracle_keys t) attestations
  ok (choose t usable)

-- `{k: a … if terms.is_liquidatable(a.price)}`
unfoldable pub under_strike : LoanTerms → List (Text × Attestation) → List (Text × Attestation)
under_strike t [] = []
under_strike t ((k, a) ∷ m) =
    if is_liquidatable t a.price then (k, a) ∷ under_strike t m else under_strike t m

unfoldable pub liquidatable_slots :
    Signing → LoanTerms → List (Text × Attestation) → Result OracleError (Option (SlotList × ℕ))
unfolding under_strike select_threshold is_liquidatable
liquidatable_slots c t attestations = do
  found ← select_threshold c t (under_strike t attestations)
  ok (elim found [
    | none ↦ none
    | some (slots, price) ↦ if is_liquidatable t price then some (slots, price) else none
  ])
