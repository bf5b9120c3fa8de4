-- ===== src/Vault2/Spend/Follow.antt =====
-- `follow` of pignus/vault2.py: what a transaction did to the vault coin that it spends. The script
-- of a vault in a state and the leaf that recreates a beacon are other code's and parameters.
use pignus.Prelude.{
  ℕ, ◌+◌, ◌-◌, ◌*◌, Bool, false, not, ◌&&◌, ◌||◌, Option, none, some, List, [], ◌∷◌, Text, text_eq,
  get_elem?, ltb, ◌==◌, if◌then◌else◌,
}
use pignus.Vault2.Terms.{V2Terms, State}

-- An output as the node decodes it, with none for what is blinded.
pub record Decoded : Type 0 where
  pub value : Option ℕ
  pub asset : Option Text
  pub spk : Text

-- The transaction as decoded, with each input's witness stack.
pub record DecodedTx : Type 0 where
  pub outs : List Decoded
  pub witnesses : List (List Text)
  pub locktime : ℕ

pub data Event : Type 0 where
  top_up repay liquidate repaid liquidated recovered spent_unknown : Event

-- The event, the next state and the successor's place.
abbrev pub Reading : Type 0
Reading = Event × Option State × Option ℕ

abbrev pub closing : Event → Reading
closing e = (e, none, none)

-- An output whose value is explicit.
pub record Seen : Type 0 where
  pub amount : ℕ
  pub asset : Option Text
  pub spk : Text

unfoldable pub out_at : List Decoded → ℕ → Option Seen
out_at outs i = elim (get_elem? outs i) [
  | none ↦ none
  | some o ↦ elim o.value [
    | none ↦ none
    | some v ↦ some record { amount = v; asset = o.asset; spk = o.spk }
  ]
]

abbrev pub carries : Seen → Text → Bool
carries o asset = elim o.asset [ none ↦ false | some a ↦ text_eq a asset ]

-- What the lender got at the output.
unfoldable pub paid_at : V2Terms → Option Seen → ℕ
paid_at t none = 0
paid_at t (some o) = if text_eq o.spk t.lender_spk && carries o t.debt_asset then o.amount else 0

-- `len(stack) >= 2 and stack[-2] == leaf`
unfoldable pub spends_leaf : Text → List Text → Bool
spends_leaf leaf [] = false
spends_leaf leaf (x ∷ []) = false
spends_leaf leaf (x ∷ y ∷ []) = text_eq x leaf
spends_leaf leaf (x ∷ y ∷ z ∷ stack) = spends_leaf leaf (y ∷ z ∷ stack)

-- Whether an input but the `k`th spends a beacon, from the input `i` on.
unfoldable pub spends_beacon : Text → ℕ → ℕ → List (List Text) → Bool
unfolding spends_leaf
spends_beacon leaf k i [] = false
spends_beacon leaf k i (stack ∷ stacks) =
    not (i == k) && spends_leaf leaf stack || spends_beacon leaf k (i + 1) stacks

module _ (vault_spk : V2Terms → State → Text) (leaf : Text) where
  -- The two readings of a spend that leaves a debt.
  unfoldable pub successor_of : V2Terms → State → ℕ → ℕ → Seen → ℕ → Reading
  successor_of t (debt, last) paid lock main i =
      if text_eq main.spk (vault_spk t (debt - paid, last))
      then (repay, some (debt - paid, last), some i)
      else if text_eq main.spk (vault_spk t (debt - paid, lock))
      then (liquidate, some (debt - paid, lock), some i)
      else closing spent_unknown

  -- The readings of a spend that does not stand in place, by what the lender got.
  unfoldable pub moved_of : V2Terms → State → ℕ → ℕ → Seen → ℕ → Bool → Reading
  moved_of t (debt, last) paid lock main i beacon =
      if ltb 0 paid
      then (if ltb paid debt
          then successor_of t (debt, last) paid lock main i
          else closing (if beacon then liquidated else repaid))
      else if text_eq main.spk t.lender_spk && carries main t.collateral_asset
      then closing recovered
      else closing spent_unknown

  -- `follow`
  unfoldable pub follow : V2Terms → State → Text → DecodedTx → ℕ → Reading
  follow t state coin_spk tx k = elim (out_at tx.outs (2 * k)) [
    | none ↦ closing spent_unknown
    | some main ↦
        let paid = paid_at t (out_at tx.outs (2 * k + 1)) in
        let beacon = spends_beacon leaf k 0 tx.witnesses in
        if text_eq main.spk coin_spk && carries main t.collateral_asset
        then (top_up, some state, some (2 * k))
        else moved_of t state paid tx.locktime main (2 * k) beacon
  ]
