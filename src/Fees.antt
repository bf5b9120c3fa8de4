-- ===== src/Fees.antt =====
-- pignus/fees.py: the price of a network fee in an asset, the dust threshold, and the choice of the
-- asset that pays. Assets and rates are natural numbers; asset ids are all of one length, so their
-- order as texts is that of the numbers.
pub mod Price
pub mod Choice
mod Tests
use pignus.Prelude.{
  ℕ, ◌+◌, ◌*◌, max, Bool, true, false, not, ◌&&◌, ◌||◌, Option, none, some, List, [], ◌∷◌, ◌++◌,
  Text, codes, text_eq, leb, ◌==◌, if◌then◌else◌, Result, ok, err,
}
use pignus.Prelude.Ceil.{ceil_div}
use pignus.Tx.Dict.{Dict, get, has_key}

-- `RATE_SCALE`
abbrev pub rate_scale : ℕ
rate_scale = 100_000_000

-- `DEFAULT_FEERATE_RFA_PER_KVB`
abbrev pub default_feerate : ℕ
default_feerate = 2000

-- `DUST_RELAY_RFA_PER_KVB`
abbrev pub dust_relay : ℕ
dust_relay = 100

-- `DUST_OUTPUT_VSIZE`
abbrev pub dust_output_vsize : ℕ
dust_output_vsize = 145

-- `VSIZE`
abbrev pub vsizes : List (Text × ℕ)
vsizes =
    (codes "fund", 400)
    ∷ (codes "withdraw", 600)
    ∷ (codes "take", 3000)
    ∷ (codes "repay", 2000)
    ∷ (codes "liquidate", 2200)
    ∷ (codes "default", 2200)
    ∷ (codes "recover", 1900)
    ∷ (codes "repay4", 600)
    ∷ (codes "liquidate4", 800)
    ∷ (codes "default4", 800)
    ∷ (codes "recover4", 500)
    ∷ (codes "btcrepay", 600)
    ∷ (codes "btcclaim", 800)
    ∷ []

-- `VSIZE.get(flow, 2000)`, on the entries given.
unfoldable pub vsize_of : List (Text × ℕ) → Text → ℕ
vsize_of [] flow = 2000
vsize_of ((name, n) ∷ entries) flow =
    let rest = vsize_of entries flow in if text_eq name flow then n else rest

-- The atoms at a positive rate that are worth `rfa` reference atoms, at least one.
unfoldable pub atoms_for : ℕ → ℕ → ℕ
atoms_for rate rfa = max 1 (ceil_div (rfa * rate_scale) rate)

unfoldable pub dust_atoms : ℕ → ℕ
unfolding atoms_for
dust_atoms rate = atoms_for rate (ceil_div (dust_relay * dust_output_vsize) 1000)

-- rate, vsize, feerate
unfoldable pub fee_atoms : ℕ → ℕ → ℕ → ℕ
unfolding atoms_for
fee_atoms rate vsize feerate = atoms_for rate (ceil_div (feerate * vsize) 1000)

-- What `pick_fee` is asked about: the table's rates, read as 0 where there is none, and its
-- feerate, the wallet's holdings and what the flow itself needs of each asset.
pub record Wallet : Type 0 where
  pub rates : Dict
  pub feerate : Option ℕ
  pub holdings : Dict
  pub committed : Dict

abbrev pub feerate_or : Option ℕ → ℕ
feerate_or none = default_feerate
feerate_or (some n) = n

abbrev pub cost_of : Wallet → ℕ → ℕ → ℕ
cost_of w vsize asset = fee_atoms (get w.rates asset) vsize (feerate_or w.feerate)

abbrev pub among : ℕ → List ℕ → Bool
among a [] = false
among a (b ∷ bs) = (a == b) || among a bs

-- A held asset with a rate pays when it covers the fee besides what is committed: the source's
-- difference may be negative, so the sum is compared.
unfoldable pub affords : Wallet → ℕ → ℕ → Bool
affords w vsize asset =
    not (get w.rates asset == 0)
    && leb (get w.committed asset + cost_of w vsize asset) (get w.holdings asset)

unfoldable pub pick_from : Wallet → ℕ → List ℕ → List ℕ → Option (ℕ × ℕ)
unfolding affords
pick_from w vsize seen [] = none
pick_from w vsize seen (asset ∷ order) =
    let skip = among asset seen || not (has_key w.holdings asset) in
    let rest = pick_from w vsize (if skip then seen else asset ∷ seen) order in
    if skip
    then rest
    else if affords w vsize asset
    then some (asset, cost_of w vsize asset)
    else rest

unfoldable pub insert : ℕ → List ℕ → List ℕ
insert a [] = a ∷ []
insert a (b ∷ bs) = let rest = insert a bs in if leb a b then a ∷ b ∷ bs else b ∷ rest

-- `sorted(holdings)`
unfoldable pub sorted_keys : Dict → List ℕ
unfolding insert
sorted_keys [] = []
sorted_keys ((a, n) ∷ d) = insert a (sorted_keys d)

-- `[a for a in prefer if a]`
unfoldable pub named : List (Option ℕ) → List ℕ
named [] = []
named (none ∷ prefer) = named prefer
named (some a ∷ prefer) = a ∷ named prefer

pub data FeeError : Type 0 where
  nothing_to_pay_with : FeeError

abbrev pub found_or_raise : Option (ℕ × ℕ) → Result FeeError (ℕ × ℕ)
found_or_raise none = err nothing_to_pay_with
found_or_raise (some found) = ok found

unfoldable pub pick_fee : Wallet → Text → List (Option ℕ) → Result FeeError (ℕ × ℕ)
unfolding pick_from sorted_keys named
pick_fee w flow prefer =
    found_or_raise (pick_from w (vsize_of vsizes flow) [] (named prefer ++ sorted_keys w.holdings))
