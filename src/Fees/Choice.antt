-- ===== src/Fees/Choice.antt =====
-- Proofs on `pick_fee` of pignus/fees.py.
use pignus.Prelude.{
  ℕ, ◌+◌, ◌*◌, ◌≤◌, ◌≡◌, ◌↔◌, refl, true, false, not, ◌||◌, Option, none, some, List, [], ◌∷◌, ◌++◌,
  Text, ◌==◌, ok, err, Bool-cases, Option-cases, inl, inr, arith,
}
use mathlib.Core.Path.{subst}
use pignus.Tx.Dict.{Dict, get, has_key}
use pignus.Fees.{
  Wallet, nothing_to_pay_with, vsizes, vsize_of, cost_of, among, affords, pick_from, insert,
  sorted_keys, named, found_or_raise, pick_fee, feerate_or,
}
use pignus.Prelude.Ceil.{ceil_div}
use pignus.Fees.Price.{fee_atoms_least}

among-insert : (a b : ℕ) (bs : List ℕ) → among a (insert b bs) ≡ ((a == b) || among a bs)
unfolding insert
among-insert a b [] = refl
among-insert a b (c ∷ bs) = ground (arith, among-insert a b bs)

among-sorted_keys : (a : ℕ) (d : Dict) → among a (sorted_keys d) ≡ has_key d a
unfolding sorted_keys has_key
among-sorted_keys a [] = refl
among-sorted_keys a ((b, n) ∷ d) =
    ground (arith, among-sorted_keys a d, among-insert a b (sorted_keys d))

among-append : (a : ℕ) (bs cs : List ℕ) → among a (bs ++ cs) ≡ (among a bs || among a cs)
among-append a [] cs = refl
among-append a (b ∷ bs) cs = ground (arith, among-append a bs cs)

-- What the choice amounts to: the chosen asset is held and pays.
abbrev pub IsPayable : Wallet → ℕ → ℕ → Type 0
IsPayable w vsize a = (has_key w.holdings a ≡ true) × (affords w vsize a ≡ true)

pick_from-IsPayable :
    (w : Wallet) (vsize : ℕ) (seen order : List ℕ) {a cost : ℕ}
    → pick_from w vsize seen order ≡ some (a, cost)
    → IsPayable w vsize a × (cost ≡ cost_of w vsize a) × (among a order ≡ true)
unfolding pick_from
pick_from-IsPayable w vsize seen [] e = absurd (ground arith)
pick_from-IsPayable w vsize seen (b ∷ order) {a} {cost} e =
    elim (Bool-cases (among b seen || not (has_key w.holdings b))) [
      | inl skip ↦
          let (p, q, r) =
            pick_from-IsPayable w vsize seen order {a = a} {cost = cost} (ground arith) in
          (p, q, ground arith)
      | inr held ↦ elim (Bool-cases (affords w vsize b)) [
        | inl pays ↦
            let same : b ≡ a = ground arith in
            let its : cost_of w vsize b ≡ cost = ground arith in
            ((ground arith, ground arith), ground arith, ground arith)
        | inr short ↦
            let (p, q, r) =
              pick_from-IsPayable w vsize (b ∷ seen) order {a = a} {cost = cost} (ground arith) in
            (p, q, ground arith)
      ]
    ]

-- Nothing found: no asset of the order is held and pays, where none of those seen does.
pick_from-eq-none :
    (w : Wallet) (vsize : ℕ) (seen order : List ℕ)
    → pick_from w vsize seen order ≡ none
    → ((a : ℕ) → among a seen ≡ true → affords w vsize a ≡ false)
    → (a : ℕ) → among a order ≡ true
    → has_key w.holdings a ≡ true
    → affords w vsize a ≡ false
unfolding pick_from
pick_from-eq-none w vsize seen [] e old a m held = absurd (ground arith)
pick_from-eq-none w vsize seen (b ∷ order) e old a m held =
    elim (Bool-cases (among b seen || not (has_key w.holdings b))) [
      | inl skip ↦ elim (Bool-cases (a == b)) [
        | inl same ↦ let eq : b ≡ a = ground arith in ground (arith, old a)
        | inr other ↦ pick_from-eq-none w vsize seen order (ground arith) old a (ground arith) held
      ]
      | inr held_b ↦
          let short : affords w vsize b ≡ false = elim (Bool-cases (affords w vsize b)) [
            | inl pays ↦ absurd (ground arith)
            | inr unpaid ↦ unpaid
          ] in
          elim (Bool-cases (a == b)) [
            | inl same ↦
                let eq : b ≡ a = ground arith in subst (λ c. affords w vsize c ≡ false) eq short
            | inr other ↦
                pick_from-eq-none w vsize (b ∷ seen) order (ground arith)
                  (λ c m'. elim (Bool-cases (c == b)) [
                    | inl same ↦
                        let eq : b ≡ c = ground arith in
                        subst (λ x. affords w vsize x ≡ false) eq short
                    | inr later ↦ old c (ground arith)
                  ])
                  a (ground arith) held
          ]
    ]

-- What is found at the front is found in the whole.
pick_from-append :
    (w : Wallet) (vsize : ℕ) (seen front back : List ℕ) {r : ℕ × ℕ}
    → pick_from w vsize seen front ≡ some r
    → pick_from w vsize seen (front ++ back) ≡ some r
unfolding pick_from
pick_from-append w vsize seen [] back e = absurd (ground arith)
pick_from-append w vsize seen (b ∷ front) back {r} e =
    elim (Bool-cases (among b seen || not (has_key w.holdings b))) [
      | inl skip ↦ ground (arith, pick_from-append w vsize seen front back {r = r})
      | inr held ↦ elim (Bool-cases (affords w vsize b)) [
        | inl pays ↦ ground arith
        | inr short ↦ ground (arith, pick_from-append w vsize (b ∷ seen) front back {r = r})
      ]
    ]

found_or_raise-eq-ok : (o : Option (ℕ × ℕ)) {r : ℕ × ℕ} → found_or_raise o ≡ ok r → o ≡ some r
found_or_raise-eq-ok o e = ground arith

found_or_raise-eq-err : (o : Option (ℕ × ℕ)) → found_or_raise o ≡ err nothing_to_pay_with → o ≡ none
found_or_raise-eq-err o e = ground arith

affords-eq-true :
    (w : Wallet) (vsize a : ℕ)
    → affords w vsize a ≡ true
    → (1 ≤ get w.rates a) × (get w.committed a + cost_of w vsize a ≤ get w.holdings a)
unfolding affords
affords-eq-true w vsize a e = (ground arith, ground arith)

-- Every held asset is in the order.
among-order :
    (w : Wallet) (prefer : List (Option ℕ)) (a : ℕ)
    → has_key w.holdings a ≡ true
    → among a (named prefer ++ sorted_keys w.holdings) ≡ true
among-order w prefer a held =
    ground (
      arith,
      among-append a (named prefer) (sorted_keys w.holdings),
      among-sorted_keys a w.holdings,
    )

-- A preferred asset that would do keeps the choice among the preferred ones.
pick_from_preferred :
    (w : Wallet) (vsize : ℕ) (front back : List ℕ) {a cost : ℕ}
    → pick_from w vsize [] (front ++ back) ≡ some (a, cost)
    → (b : ℕ) → among b front ≡ true
    → IsPayable w vsize b
    → among a front ≡ true
pick_from_preferred w vsize front back {a} {cost} found b m (held, pays) =
    elim (Option-cases (pick_from w vsize [] front)) [
      | inl missing ↦
          let unpaid =
            pick_from-eq-none w vsize [] front missing (λ c k. absurd (ground arith)) b m held in
          absurd (ground arith)
      | inr ((c, its), first) ↦
          let whole = pick_from-append w vsize [] front back first in
          let same : c ≡ a = ground arith in
          let (_, _, there) = pick_from-IsPayable w vsize [] front first in ground arith
    ]

-- A number of atoms that pays: at least one, and at the rate worth at least the rounded-up fee of the
-- bytes in reference atoms.
abbrev pub IsEnough : (rate vsize feerate n : ℕ) → Type 0
IsEnough rate vsize feerate n = (1 ≤ n) × (ceil_div (feerate * vsize) 1000 * 100_000_000 ≤ n * rate)

-- An asset that would do: it is held, has a rate, and the holding has room for some such number of
-- atoms besides what the flow needs of it.
abbrev pub WouldDo : Wallet → ℕ → ℕ → Type 0
WouldDo w vsize a =
    (has_key w.holdings a ≡ true)
    × (1 ≤ get w.rates a)
    × ((n : ℕ) × IsEnough (get w.rates a) vsize (feerate_or w.feerate) n
        × (get w.committed a + n ≤ get w.holdings a))

WouldDo-IsPayable : (w : Wallet) (vsize a : ℕ) → WouldDo w vsize a → IsPayable w vsize a
unfolding affords
WouldDo-IsPayable w vsize a (held, rate, (n, (one, worth), room)) =
    let (_, _, least) = fee_atoms_least (get w.rates a) vsize (feerate_or w.feerate) rate in
    let le = least n one worth in (held, ground arith)

-- The asset chosen is held and has a rate; the cost is the least number of atoms, at least one, that
-- is worth the flow's bytes at the feerate, both roundings upwards, and the holding has room for it
-- besides what the flow needs of the asset; the asset is one of the preferred ones whenever a preferred
-- one is held, has a rate and has room for such a number of atoms.
pub pick_fee_sound :
    (w : Wallet) (flow : Text) (prefer : List (Option ℕ)) {a cost : ℕ}
    → pick_fee w flow prefer ≡ ok (a, cost)
    → (has_key w.holdings a ≡ true)
      × (1 ≤ get w.rates a)
      × IsEnough (get w.rates a) (vsize_of vsizes flow) (feerate_or w.feerate) cost
      × ((n : ℕ)
          → IsEnough (get w.rates a) (vsize_of vsizes flow) (feerate_or w.feerate) n
          → cost ≤ n)
      × (get w.committed a + cost ≤ get w.holdings a)
      × ((b : ℕ)
          → among b (named prefer) ≡ true
          → WouldDo w (vsize_of vsizes flow) b
          → among a (named prefer) ≡ true)
unfolding pick_fee
pick_fee_sound w flow prefer {a} {cost} e =
    let vsize = vsize_of vsizes flow in
    let order = named prefer ++ sorted_keys w.holdings in
    let found = found_or_raise-eq-ok (pick_from w vsize [] order) e in
    let ((held, pays), its, _) = pick_from-IsPayable w vsize [] order found in
    let (rate, enough) = affords-eq-true w vsize a pays in
    let (one, worth, least) = fee_atoms_least (get w.rates a) vsize (feerate_or w.feerate) rate in
    (
      held,
      rate,
      rw its (one, worth),
      λ n (some_atoms, covers). rw its (least n some_atoms covers),
      rw its enough,
      λ b m p.
          pick_from_preferred w vsize (named prefer) (sorted_keys w.holdings) found b m
            (WouldDo-IsPayable w vsize b p),
    )

-- It raises exactly where no held asset has a rate and covers the fee besides what the flow needs.
pick_fee-eq-err :
    (w : Wallet) (flow : Text) (prefer : List (Option ℕ))
    → (pick_fee w flow prefer ≡ err nothing_to_pay_with)
      ↔ ((a : ℕ) → IsPayable w (vsize_of vsizes flow) a → ⊥)
unfolding pick_fee
pick_fee-eq-err w flow prefer =
    let vsize = vsize_of vsizes flow in
    let order = named prefer ++ sorted_keys w.holdings in
    (
      λ e a p.
          let missing = found_or_raise-eq-err (pick_from w vsize [] order) e in
          let there = among-order w prefer a p.0 in
          let unpaid =
            pick_from-eq-none w vsize [] order missing (λ b m. absurd (ground arith)) a there p.0 in
          let pays = p.1 in ground arith,
      λ unpaid. elim (Option-cases (pick_from w vsize [] order)) [
        | inl missing ↦ rw missing refl
        | inr ((a, cost), found) ↦ absurd (unpaid a (pick_from-IsPayable w vsize [] order found).0)
      ],
    )
