-- ===== src/Vault2/Spend/Line.antt =====
-- The line of coins that `follow` of pignus/vault2.py steps along, from the coin that opened a loan to
-- the one that holds it now, and proofs on it.
use pignus.Prelude.{
  ℕ, ◌+◌, ◌-◌, ◌*◌, ◌≤◌, ◌<◌, ◌≡◌, ◌⊎◌, refl, sym, ap, Bool, ◌&&◌, some, Text, text_eq, text_eq_iff,
  ltb, Bool-cases, Option-cases, inl, inr, arith, ◌∙◌,
}
use pignus.Vault2.Terms.{V2Terms, State}
use pignus.Vault2.Spend.Follow.{
  DecodedTx, Event, Seen, top_up, repay, liquidate, out_at, carries, paid_at, spends_beacon,
  successor_of, moved_of, follow,
}

-- What the lender is credited with by an event.
abbrev pub credited : Event → ℕ → ℕ
credited top_up paid = 0
credited e paid = paid

module _ (vault_spk : V2Terms → State → Text) (leaf : Text) (t : V2Terms) where
  -- A coin's successor, as it is read.
  pub record IsSuccessor (s : State) (coin_spk : Text) (tx : DecodedTx) (k : ℕ) (e : Event)
      (s' : State) (i : ℕ) : Type 0 where
    pub main : Seen
    pub placed : i ≡ 2 * k
    pub there : out_at tx.outs i ≡ some main
    pub script : ((main.spk ≡ coin_spk) × (s' ≡ s)) ⊎ (main.spk ≡ vault_spk t s')
    pub owes : s'.0 + credited e (paid_at t (out_at tx.outs (2 * k + 1))) ≡ s.0
    pub still : 1 ≤ s.0 → 1 ≤ s'.0
    pub dated : (s'.1 ≡ s.1) ⊎ (s'.1 ≡ tx.locktime)

  -- The two readings that leave a debt.
  successor_of-cases :
      (debt last paid lock : ℕ) (main : Seen) (j : ℕ) (e : Event) (s' : State) (i : ℕ)
      → successor_of vault_spk leaf t (debt, last) paid lock main j ≡ (e, some s', some i)
      → (i ≡ j)
        × (main.spk ≡ vault_spk t s')
        × (credited e paid ≡ paid)
        × (s'.0 ≡ debt - paid)
        × ((s'.1 ≡ last) ⊎ (s'.1 ≡ lock))
  unfolding successor_of
  successor_of-cases debt last paid lock main j e s' i r =
      elim (Bool-cases (text_eq main.spk (vault_spk t (debt - paid, last)))) [
        | inl kept ↦
            let same : (debt - paid, last) ≡ s' = ground arith in
            let is = (text_eq_iff main.spk (vault_spk t (debt - paid, last))).0 kept in
            let event : e ≡ repay = ground arith in
            (
              ground arith,
              is ∙ ap (vault_spk t) same,
              ap (λ x. credited x paid) event,
              ap (λ x. x.0) (sym same),
              inl (ap (λ x. x.1) (sym same)),
            )
        | inr other ↦ elim (Bool-cases (text_eq main.spk (vault_spk t (debt - paid, lock)))) [
          | inr unknown ↦ absurd (ground arith)
          | inl set ↦
              let same : (debt - paid, lock) ≡ s' = ground arith in
              let is = (text_eq_iff main.spk (vault_spk t (debt - paid, lock))).0 set in
              let event : e ≡ liquidate = ground arith in
              (
                ground arith,
                is ∙ ap (vault_spk t) same,
                ap (λ x. credited x paid) event,
                ap (λ x. x.0) (sym same),
                inr (ap (λ x. x.1) (sym same)),
              )
        ]
      ]

  -- A reading that leaves a successor is one of the two, and the lender got some of the debt.
  moved_of-cases :
      (debt last paid lock : ℕ) (main : Seen) (j : ℕ) (beacon : Bool) (e : Event) (s' : State)
      (i : ℕ)
      → moved_of vault_spk leaf t (debt, last) paid lock main j beacon ≡ (e, some s', some i)
      → (paid < debt)
        × (successor_of vault_spk leaf t (debt, last) paid lock main j ≡ (e, some s', some i))
  unfolding moved_of
  moved_of-cases debt last paid lock main j beacon e s' i r = elim (Bool-cases (ltb 0 paid)) [
    | inr nothing ↦
        elim (Bool-cases (text_eq main.spk t.lender_spk && carries main t.collateral_asset)) [
          | inl back ↦ absurd (ground arith)
          | inr lost ↦ absurd (ground arith)
        ]
    | inl something ↦ elim (Bool-cases (ltb paid debt)) [
      | inr whole ↦ absurd (ground arith)
      | inl part ↦ (ground arith, ground arith)
    ]
  ]

  -- A successor that is read off a transaction stands at output 2k, at the script of its state or in
  -- place; it owes the old debt less what the lender is credited with, and owes something if
  -- something was owed.
  pub follow-IsSuccessor :
      (s : State) (coin_spk : Text) (tx : DecodedTx) (k : ℕ) {e : Event} {s' : State} {i : ℕ}
      → follow vault_spk leaf t s coin_spk tx k ≡ (e, some s', some i)
      → IsSuccessor s coin_spk tx k e s' i
  unfolding follow
  follow-IsSuccessor (debt, last) coin_spk tx k {e} {s'} {i} r =
      elim (Option-cases (out_at tx.outs (2 * k))) [
        | inl missing ↦ absurd (ground arith)
        | inr (main, there) ↦
            elim (Bool-cases (text_eq main.spk coin_spk && carries main t.collateral_asset)) [
              | inl stays ↦
                  let same : (debt, last) ≡ s' = ground arith in
                  let event : e ≡ top_up = ground arith in
                  let place : i ≡ 2 * k = ground arith in
                  let owed : s'.0 ≡ debt = ap (λ x. x.0) (sym same) in
                  let paid = paid_at t (out_at tx.outs (2 * k + 1)) in
                  let credit : credited e paid ≡ 0 = ap (λ x. credited x paid) event in
                  record {
                    main = main;
                    placed = place;
                    there = rw place there;
                    script = inl (ground (arith, text_eq_iff main.spk coin_spk), sym same);
                    owes = omega (arith, owed, credit);
                    still = λ one. omega (arith, owed, one);
                    dated = inl (ap (λ x. x.1) (sym same));
                  }
              | inr moves ↦
                  let paid = paid_at t (out_at tx.outs (2 * k + 1)) in
                  let beacon = spends_beacon leaf k 0 tx.witnesses in
                  let (less, read) =
                    moved_of-cases debt last paid tx.locktime main (2 * k) beacon e s' i
                      (ground arith) in
                  let (place, is, credit, left, date) =
                    successor_of-cases debt last paid tx.locktime main (2 * k) e s' i read in
                  record {
                    main = main;
                    placed = place;
                    there = rw place there;
                    script = inr is;
                    owes = omega (arith, less, credit, left);
                    still = λ one. omega (arith, less, left);
                    dated = date;
                  }
            ]
      ]

  -- The lines of coins from an opening coin: each ends in a state, at a script, with what the lender
  -- has been credited with along it.
  pub data Line (opening : State) (opening_spk : Text) : State → Text → ℕ → Type 0 where
    opened : Line opening opening_spk opening opening_spk 0
    stepped :
        {s : State} {spk : Text} {paid : ℕ}
        → Line opening opening_spk s spk paid
        → (tx : DecodedTx) (k : ℕ) {e : Event} {s' : State} {i : ℕ} {o : Seen}
        → follow vault_spk leaf t s spk tx k ≡ (e, some s', some i)
        → out_at tx.outs i ≡ some o
        → Line opening opening_spk s' o.spk
            (paid + credited e (paid_at t (out_at tx.outs (2 * k + 1))))

  -- Along any line of coins from one at the script of its state, the coin at the end stands at the
  -- script of the state at the end; what that state owes and what the lender was credited with make
  -- up the debt at the opening; and it owes something if something was owed.
  pub Line-owes :
      (opening : State) {s : State} {spk : Text} {paid : ℕ}
      → Line opening (vault_spk t opening) s spk paid
      → (spk ≡ vault_spk t s) × (s.0 + paid ≡ opening.0) × (1 ≤ opening.0 → 1 ≤ s.0)
  Line-owes opening opened = (refl, omega arith, λ one. one)
  Line-owes opening (stepped {s} {spk} line tx k {e} {s'} {i} {o} read found) =
      let (at_script, total, owing) = Line-owes opening line in
      let next = follow-IsSuccessor s spk tx k {e = e} {s' = s'} {i = i} read in
      let there = next.there in
      let same : next.main ≡ o = cc in
      let owes = next.owes in
      let still = next.still in
      (
        elim next.script [
          | inl (in_place, unmoved) ↦
              ap (λ m. m.spk) (sym same) ∙ in_place ∙ at_script ∙ ap (vault_spk t) (sym unmoved)
          | inr derived ↦ ap (λ m. m.spk) (sym same) ∙ derived
        ],
        omega (arith, total, owes),
        λ one. still (owing one),
      )
