-- ===== src/Vault/Change.antt =====
-- `VaultSpender._change`: what is left of the funding, and the fee with the dust folded in.
use pignus.Prelude.{
  ℕ, ◌+◌, ◌-◌, ◌≤◌, ◌≡◌, true, ◌&&◌, none, some, List, [], ◌∷◌, Text, ltb, ◌==◌, if◌then◌else◌,
  Option-cases, inl, inr, All, Result, Result-cases, ok, err, ◌>>=◌, ◌>>◌, raise_if, arith,
}
use mathlib.Core.Path.{subst}
use pignus.Tx.{Outpoint, Output}
use pignus.Tx.Dict.{Dict, get, add, has_key, IsDict, get-add, add-IsDict, get_absent}
use pignus.Tx.Totals.{counted, total_in, total_out}
use pignus.Vault.Spender.{Payer, VaultError, no_asset_id, short}

-- `have`
unfoldable pub gather : List Outpoint → Dict → Result VaultError Dict
gather [] have = ok have
gather (o ∷ os) have = elim o.asset [
  | none ↦ err no_asset_id
  | some a ↦ gather os (add have a o.amount)
]

unfoldable pub check_supply : Dict → Dict → Result VaultError (Unit {0})
check_supply have [] = ok tt
check_supply have ((a, n) ∷ need) =
    raise_if (ltb (get have a) n) (short a (n - get have a)) >> check_supply have need

-- The last loop, from the fee so far.
unfoldable pub change_outs : Payer → Dict → Text → Dict → ℕ → List Output × ℕ
change_outs s need spk [] fee = ([], fee)
change_outs s need spk ((a, supplied) ∷ have) fee =
    let rest = supplied - get need a in
    let folds = ltb 0 rest && ltb rest s.dust_fold && a == s.fee_asset in
    let (outs, paid) = change_outs s need spk have (if folds then fee + rest else fee) in
    (
      if folds
          then outs
          else if ltb 0 rest
          then record { amount = rest; spk = spk; asset = a } ∷ outs
          else outs,
      paid,
    )

-- `_change`
unfoldable pub change : Payer → List Outpoint → Dict → Text → Result VaultError (List Output × ℕ)
unfolding gather check_supply change_outs
change s funding spent spk = do
  have ← gather funding []
  let need = add spent s.fee_asset s.fee_amount
  check_supply have need
  ok (change_outs s need spk have s.fee_amount)

gather_total :
    (os : List Outpoint) (have : Dict) {d : Dict} (a : ℕ)
    → gather os have ≡ ok d
    → get d a ≡ get have a + total_in a os
unfolding gather total_in
gather_total [] have a e = ground arith
gather_total (o ∷ os) have {d} a e = elim (Option-cases o.asset) [
  | inl absent ↦ absurd (ground arith)
  | inr (b, there) ↦ rw there (
      omega (
        arith,
        gather_total os (add have b o.amount) a (rw (there, gather) at e),
        get-add have b o.amount a,
      ))
]

gather-IsDict :
    (os : List Outpoint) (have : Dict) {d : Dict} → IsDict have → gather os have ≡ ok d → IsDict d
unfolding gather
gather-IsDict [] have {d} h e = subst IsDict (let q : have ≡ d = ground arith in q) h
gather-IsDict (o ∷ os) have {d} h e = elim (Option-cases o.asset) [
  | inl absent ↦ absurd (ground arith)
  | inr (b, there) ↦
      gather-IsDict os (add have b o.amount) (add-IsDict have b o.amount h)
        (rw (there, gather) at e)
]

-- After the check no asset is short.
check_supply_covers :
    (have need : Dict) (a : ℕ) → check_supply have need ≡ ok tt → get need a ≤ get have a
unfolding check_supply get
check_supply_covers have [] a e = omega arith
check_supply_covers have ((b, n) ∷ need) a e = ground (arith, check_supply_covers have need a)

covered_tail :
    (n b v a : ℕ) (have : Dict)
    → IsDict ((b, v) ∷ have)
    → (has_key ((b, v) ∷ have) a ≡ true → n ≤ get ((b, v) ∷ have) a)
    → has_key have a ≡ true
    → n ≤ get have a
unfolding has_key get
covered_tail n b v a have d h there = ground (arith, h)

-- Each asset's supply is its need, its change and, in the fee's asset, what was folded.
change_outs_total :
    (s : Payer) (need : Dict) (spk : Text) (have : Dict) (fee a : ℕ)
    → IsDict have
    → (has_key have a ≡ true → get need a ≤ get have a)
    → total_out a (change_outs s need spk have fee).0
        + counted a s.fee_asset (change_outs s need spk have fee).1
        + (if has_key have a then get need a else 0)
      ≡ get have a + counted a s.fee_asset fee
unfolding change_outs total_out get has_key
change_outs_total s need spk [] fee a d h = omega arith
change_outs_total s need spk ((b, n) ∷ have) fee a d h = ground (
  arith,
  covered_tail (get need a) b n a have d h,
  change_outs_total s need spk have (fee + (n - get need b)) a d.1
      (covered_tail (get need a) b n a have d h),
  change_outs_total s need spk have fee a d.1 (covered_tail (get need a) b n a have d h),
  get_absent have a,
  h,
)

-- What each change output is.
abbrev pub IsChange : Payer → Text → Output → Type 0
IsChange s spk o = (o.spk ≡ spk) × (1 ≤ o.amount) × (o.asset ≡ s.fee_asset → s.dust_fold ≤ o.amount)

change_outs-IsChange :
    (s : Payer) (need : Dict) (spk : Text) (have : Dict) (fee : ℕ)
    → All (IsChange s spk) (change_outs s need spk have fee).0
unfolding change_outs
change_outs-IsChange s need spk [] fee = tt
change_outs-IsChange s need spk ((a, n) ∷ have) fee = ground (
  arith,
  change_outs-IsChange s need spk have (fee + (n - get need a)),
  change_outs-IsChange s need spk have fee,
)

le-change_outs :
    (s : Payer) (need : Dict) (spk : Text) (have : Dict) (fee : ℕ)
    → fee ≤ (change_outs s need spk have fee).1
unfolding change_outs
le-change_outs s need spk [] fee = omega arith
le-change_outs s need spk ((a, n) ∷ have) fee = ground (
  arith,
  le-change_outs s need spk have (fee + (n - get need a)),
  le-change_outs s need spk have fee,
)

-- A change that was computed, step by step.
change-eq-ok :
    (s : Payer) (funding : List Outpoint) (spent : Dict) (spk : Text) {outs : List Output} {fee : ℕ}
    → change s funding spent spk ≡ ok (outs, fee)
    → (have : Dict) × (gather funding [] ≡ ok have)
      × (check_supply have (add spent s.fee_asset s.fee_amount) ≡ ok tt)
      × (change_outs s (add spent s.fee_asset s.fee_amount) spk have s.fee_amount ≡ (outs, fee))
unfolding change
change-eq-ok s funding spent spk e = elim (Result-cases (gather funding [])) [
  | inl (x, bad) ↦ absurd (ground arith)
  | inr (have, gathered) ↦
      elim (Result-cases (check_supply have (add spent s.fee_asset s.fee_amount))) [
        | inl (x, bad) ↦ absurd (ground arith)
        | inr (u, supplied) ↦ (have, gathered, supplied, ground arith)
      ]
]

module _ (s : Payer) (spent : Dict) (spk : Text) (have : Dict) (outs : List Output)
    (fee a : ℕ) where
  balance :
      {brought : ℕ}
      → change_outs s (add spent s.fee_asset s.fee_amount) spk have s.fee_amount ≡ (outs, fee)
      → get (add spent s.fee_asset s.fee_amount) a ≤ get have a
      → (let r = change_outs s (add spent s.fee_asset s.fee_amount) spk have s.fee_amount in
          total_out a r.0
            + counted a s.fee_asset r.1
            + (if has_key have a then get (add spent s.fee_asset s.fee_amount) a else 0)
          ≡ get have a + counted a s.fee_asset s.fee_amount)
      → get have a ≡ get [] a + brought
      → get spent a + total_out a outs + counted a s.fee_asset fee ≡ brought
  unfolding get
  balance folded covers total gathered =
      let total' = rw folded at total in
      ground (arith, total', get-add spent s.fee_asset s.fee_amount a, get_absent have a)

-- Whenever the funding suffices, for every asset the funding is what the covenant outputs consume,
-- plus the change, plus the fee; the change goes to the given script, no change output is empty and
-- none in the fee's asset is below the dust threshold; and the fee is at least the one asked for.
pub change_balances :
    (s : Payer) (funding : List Outpoint) (spent : Dict) (spk : Text) {outs : List Output} {fee : ℕ}
    → change s funding spent spk ≡ ok (outs, fee)
    → ((a : ℕ) → get spent a + total_out a outs + counted a s.fee_asset fee ≡ total_in a funding)
      × All (IsChange s spk) outs
      × (s.fee_amount ≤ fee)
change_balances s funding spent spk {outs} {fee} e =
    let (have, gathered, supplied, folded) = change-eq-ok s funding spent spk e in
    let need = add spent s.fee_asset s.fee_amount in
    let dict = gather-IsDict funding [] tt gathered in
    (
      λ a.
          let covers = check_supply_covers have need a supplied in
          let total = change_outs_total s need spk have s.fee_amount a dict (λ _. covers) in
          balance s spent spk have outs fee a folded covers total
            (gather_total funding [] a gathered),
      subst (λ r. All (IsChange s spk) r.0) folded
          (change_outs-IsChange s need spk have s.fee_amount),
      subst (λ (r : List Output × ℕ). s.fee_amount ≤ r.1) folded
          (le-change_outs s need spk have s.fee_amount),
    )
