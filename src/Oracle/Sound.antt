-- ===== src/Oracle/Sound.antt =====
-- What `select_threshold` and `liquidatable_slots` return is what a threshold vault accepts.
use pignus.Prelude.{
  ℕ, suc, ◌+◌, ◌≤◌, ◌<◌, ◌≡◌, ◌⊎◌, sym, ◌∙◌, ap, All-imp, All-zip, length-replicate, length-take_le,
  true, false, none, some, List, [], ◌∷◌, Text, length, take, get_elem?, replicate, All, Result, ok,
  arith, Option-cases, inl, inr, Result-cases,
}
use mathlib.Core.Path.{subst}
use pignus.Prelude.Hex.{lower}
use pignus.Terms.{LoanTerms, threshold, oracle_keys}
use pignus.Oracle.{
  Signing, Attestation, OracleError, Usable, SlotList, sort_by_price, fill_slots, choose, is_usable,
  usable_from, by_key, max_price, select_threshold, under_strike, liquidatable_slots,
}
use pignus.Oracle.Signed.{IsFit, is_usable-IsFit}
use pignus.Oracle.Order.{length-sort_by_price}
use pignus.Oracle.Slots.{
  count_given, dearest, dearest-fill_slots, dearest-replicate, IsDistinct, IsOpen, All-sort,
  All-take, sort_by_price-IsDistinct, take-IsDistinct, count_given-fill_slots, length-fill_slots,
  fill_slots_given, IsOpen-replicate, no_slot_given, count_given-replicate, le-max_price,
}

choose-eq-some :
    (t : LoanTerms) (u : Usable) {slots : SlotList} {price : ℕ}
    → choose t u ≡ some (slots, price)
    → (threshold t ≤ length u)
      × (slots
          ≡ fill_slots
              (take (threshold t) (sort_by_price u))
              (replicate (length (oracle_keys t)) none))
      × (price ≡ max_price (take (threshold t) (sort_by_price u)))
unfolding choose
choose-eq-some t u e = ground arith

module _ (c : Signing) (t : LoanTerms) (attestations : List (Text × Attestation)) where
  -- The attestation of a slot is the one given for that slot's key, which signed it, at the loan's
  -- scale and not before `not_before`.
  abbrev pub IsUsableAt : ℕ → Attestation → Type 0
  IsUsableAt i a =
      (k : Text) × (get_elem? (oracle_keys t) i ≡ some k)
      × (by_key (lower k) attestations ≡ some a)
      × IsFit c t k a

  -- What the loop from slot `i` on over `ks` yields.
  record Found (i : ℕ) (ks : List Text) (u : Usable) : Type 0 where
    usable : All (λ e. IsUsableAt e.0 e.1) u
    from_slot : All (λ e. i ≤ e.0) u
    in_range : All (λ e. e.0 < i + length ks) u
    distinct : IsDistinct u

  -- One round of the loop leaves its key out, or puts the key's attestation in front.
  abbrev Round : ℕ → Text → Result OracleError Usable → Usable → Type 0
  Round i k rest u =
      (rest ≡ ok u)
      ⊎ ((a : Attestation) × (others : Usable) × (by_key (lower k) attestations ≡ some a)
          × (is_usable c t k a ≡ ok true)
          × (rest ≡ ok others)
          × (u ≡ (i, a) ∷ others))

  usable_from-Round :
      (i : ℕ) (k : Text) (ks : List Text) {u : Usable}
      → usable_from c t i (k ∷ ks) attestations ≡ ok u
      → Round i k (usable_from c t (suc i) ks attestations) u
  unfolding usable_from
  usable_from-Round i k ks {u} e = elim (Option-cases (by_key (lower k) attestations)) [
    | inl absent ↦ inl (ground arith)
    | inr (a, found) ↦ elim (Result-cases (is_usable c t k a)) [
      | inl (x, bad) ↦ absurd (ground arith)
      | inr (true, good) ↦ elim (Result-cases (usable_from c t (suc i) ks attestations)) [
        | inl (x, bad) ↦ absurd (ground arith)
        | inr (others, rest) ↦ inr (a, others, found, good, rest, ground arith)
      ]
      | inr (false, good) ↦ inl (ground arith)
    ]
  ]

  next :
      (i : ℕ) (ks : List Text) (k : Text)
      → ((j : ℕ) → get_elem? (k ∷ ks) j ≡ get_elem? (oracle_keys t) (i + j))
      → (j : ℕ) → get_elem? ks j ≡ get_elem? (oracle_keys t) (suc i + j)
  next i ks k at j =
      at (suc j) ∙ ap (get_elem? (oracle_keys t)) (let e : i + suc j ≡ suc i + j = omega arith in e)

  usable_from-Found :
      (i : ℕ) (ks : List Text) {u : Usable}
      → ((j : ℕ) → get_elem? ks j ≡ get_elem? (oracle_keys t) (i + j))
      → usable_from c t i ks attestations ≡ ok u
      → Found i ks u
  unfolding usable_from
  usable_from-Found i [] {u} at e =
      subst (Found i []) (let r : [] ≡ u = ground arith in r)
        (record { usable = tt; from_slot = tt; in_range = tt; distinct = tt })
  usable_from-Found i (k ∷ ks) {u} at e = elim (usable_from-Round i k ks e) [
    | inl rest ↦
        let f = usable_from-Found (suc i) ks (next i ks k at) rest in
        record {
          usable = f.usable;
          from_slot = All-imp u (λ x h. omega arith) f.from_slot;
          in_range = All-imp u (λ x h. omega arith) f.in_range;
          distinct = f.distinct;
        }
    | inr (a, others, found, good, rest, eq) ↦
        let f = usable_from-Found (suc i) ks (next i ks k at) rest in
        subst (Found i (k ∷ ks)) (sym eq) (record {
          usable = (
            (
              k,
              ap (get_elem? (oracle_keys t)) (let q : i ≡ i + 0 = omega arith in q) ∙ sym (at 0),
              found,
              is_usable-IsFit c t k a good,
            ),
            f.usable,
          );
          from_slot = (omega arith, All-imp others (λ x h. omega arith) f.from_slot);
          in_range = (omega arith, All-imp others (λ x h. omega arith) f.in_range);
          distinct = (All-imp others (λ x h. omega arith) f.from_slot, f.distinct);
        })
  ]

  -- What a presented slot is worth: the attestation is its key's and usable, at a price of at most
  -- the price that the covenant computes with.
  abbrev pub IsPresented : ℕ → ℕ → Attestation → Type 0
  IsPresented price i a = IsUsableAt i a × (a.price ≤ price)

  -- The slots that the choice fills, from what the loop found.
  presented :
      (u : Usable) {slots : SlotList} {price : ℕ}
      → Found 0 (oracle_keys t) u
      → choose t u ≡ some (slots, price)
      → (length slots ≡ length (oracle_keys t))
        × (count_given slots ≡ threshold t)
        × (price ≡ dearest slots)
        × ((i : ℕ) (a : Attestation) → get_elem? slots i ≡ some (some a) → IsPresented price i a)
  presented u {slots} {price} f e =
      let (enough, filled, dearest_price) = choose-eq-some t u e in
      let chosen = take (threshold t) (sort_by_price u) in
      let n = length (oracle_keys t) in
      let free = All-take (IsOpen (replicate n none)) (threshold t) (sort_by_price u) (
        All-sort (IsOpen (replicate n none)) u
          (All-imp u (λ x h. IsOpen-replicate n x (omega arith)) f.in_range)) in
      let apart =
        take-IsDistinct (threshold t) (sort_by_price u) (sort_by_price-IsDistinct u f.distinct) in
      let all_usable =
        All-take (λ x. IsUsableAt x.0 x.1) (threshold t) (sort_by_price u)
          (All-sort (λ x. IsUsableAt x.0 x.1) u f.usable) in
      (
        ap length filled ∙ length-fill_slots chosen (replicate n none) ∙ length-replicate n none,
        ap count_given filled
            ∙ count_given-fill_slots chosen (replicate n none) apart free
            ∙ omega (
              arith,
              count_given-replicate n,
              length-take_le (threshold t) (sort_by_price u),
              length-sort_by_price u,
            ),
        omega (
          arith,
          ap dearest filled,
          dearest-fill_slots chosen (replicate n none) apart free,
          dearest-replicate n,
          dearest_price,
        ),
        λ i a h.
            fill_slots_given (IsPresented price) chosen (replicate n none)
              (All-zip (λ x. IsUsableAt x.0 x.1) (λ x. x.1.price ≤ price) chosen all_usable
                (All-imp chosen (λ x q. rw dearest_price q) (le-max_price chosen)))
              (λ j b g. absurd (no_slot_given n j b g)) i a
              (sym (ap (λ s. get_elem? s i) filled) ∙ h),
      )

  -- Whenever slots and a price are returned, there is one slot for each key of the loan, exactly
  -- `threshold` slots are given, the returned price is the highest of theirs, and each given slot
  -- holds the attestation supplied for its own key: that key signed its feed, time and price, the feed
  -- is that of the market it names, its scale is the loan's, it is not older than `not_before`, and its
  -- price is at most the returned one.
  pub select_threshold_sound :
      {slots : SlotList} {price : ℕ}
      → select_threshold c t attestations ≡ ok (some (slots, price))
      → (length slots ≡ length (oracle_keys t))
        × (count_given slots ≡ threshold t)
        × (price ≡ dearest slots)
        × ((i : ℕ) (a : Attestation) → get_elem? slots i ≡ some (some a) → IsPresented price i a)
  unfolding select_threshold
  select_threshold_sound {slots} {price} e =
      elim (Result-cases (usable_from c t 0 (oracle_keys t) attestations)) [
        | inl (x, bad) ↦ absurd (ground arith)
        | inr (u, found) ↦
            let f =
              usable_from-Found 0 (oracle_keys t)
                (λ j. ap (get_elem? (oracle_keys t)) (let q : j ≡ 0 + j = omega arith in q))
                found in
            presented u f (ground arith)
      ]

liquidatable_slots-eq-some :
    (c : Signing) (t : LoanTerms) (attestations : List (Text × Attestation)) {slots : SlotList}
    {price : ℕ}
    → liquidatable_slots c t attestations ≡ ok (some (slots, price))
    → (select_threshold c t (under_strike t attestations) ≡ ok (some (slots, price)))
      × (price < t.strike)
unfolding liquidatable_slots
liquidatable_slots-eq-some c t attestations e =
    elim (Result-cases (select_threshold c t (under_strike t attestations))) [
      | inl (x, bad) ↦ absurd (ground arith)
      | inr (none, found) ↦ absurd (ground arith)
      | inr (some (s, p), found) ↦ (ground arith, ground arith)
    ]

-- Whenever slots and a price are returned for a liquidation, the price is strictly under the
-- strike, exactly `threshold` slots are given, the price is the highest of theirs, and each
-- given slot holds an attestation that its own key signed, with a price strictly under the strike too.
pub liquidatable_slots_sound :
    (c : Signing) (t : LoanTerms) (attestations : List (Text × Attestation)) {slots : SlotList}
    {price : ℕ}
    → liquidatable_slots c t attestations ≡ ok (some (slots, price))
    → (price < t.strike)
      × (count_given slots ≡ threshold t)
      × (price ≡ dearest slots)
      × ((i : ℕ) (a : Attestation)
          → get_elem? slots i ≡ some (some a)
          → (a.price < t.strike)
            × ((k : Text) × (get_elem? (oracle_keys t) i ≡ some k) × IsFit c t k a))
liquidatable_slots_sound c t attestations {slots} {price} e =
    let (found, under) = liquidatable_slots-eq-some c t attestations e in
    let (_, count, its, given) = select_threshold_sound c t (under_strike t attestations) found in
    (
      under,
      count,
      its,
      λ i a h. let ((k, at, _, usable), low) = given i a h in (omega arith, (k, at, usable)),
    )
