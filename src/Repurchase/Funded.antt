-- ===== src/Repurchase/Funded.antt =====
-- Proofs on `verify_funding` of pignus/repurchase.py.
use pignus.Prelude.{
  ℕ, ◌-◌, ◌<◌, ◌≡◌, ◌≢◌, ◌↔◌, inl, inr, refl, Bool, true, Option, none, some, Text, text_eq,
  text_eq_iff, ok, err, Bool-cases, Option-cases, Result-cases, arith,
}
use mathlib.Core.Path.{subst}
use pignus.Repurchase.Terms.{RepurchaseTerms, not_funded, sanity_check, IsSane}
use pignus.Repurchase.Coins.{
  Txout, Answers, scan_vouts, first_match, find_output, find_again, is_blinded, is_bond, check_bond,
  verify_funding,
}
use pignus.Repurchase.Sane.{sanity_check_iff, IsSane-bond}
use pignus.Repurchase.Scan.{first_match-eq-some, first_match-eq-none, holds-eq, find_again_there}

-- What a bond is.
pub record IsBond (address : Text) (t : RepurchaseTerms) (o : Txout) : Type 0 where
  pub pays : o.spk ≡ address
  pub asset_named : o.asset ≡ some t.debt_asset
  pub exact : o.value ≡ some (t.collateral_value - t.debt)

check_bond-IsBond :
    (address : Text) (t : RepurchaseTerms) (b : ℕ) (o : Txout)
    → b ≡ t.collateral_value - t.debt
    → check_bond address t b o ≡ ok tt
    → IsBond address t o
unfolding check_bond
check_bond-IsBond address t b o same e = elim (Bool-cases (is_blinded o)) [
  | inl hidden ↦ absurd (ground arith)
  | inr plain ↦ record {
    pays = ground (arith, text_eq_iff o.spk address);
    asset_named = holds-eq o.asset t.debt_asset (ground arith);
    exact = rw (← same) (holds-eq o.value b (ground arith));
  }
]

IsBond-is_bond :
    (address : Text) (t : RepurchaseTerms) (o : Txout)
    → IsBond address t o
    → is_bond address t (t.collateral_value - t.debt) o ≡ true
IsBond-is_bond address t o h =
    let pays = h.pays in
    let asset = h.asset_named in let exact = h.exact in ground (arith, text_eq_iff o.spk address)

is_bond-check_bond :
    (address : Text) (t : RepurchaseTerms) (b : ℕ) (o : Txout)
    → is_bond address t b o ≡ true
    → check_bond address t b o ≡ ok tt
unfolding check_bond
is_bond-check_bond address t b o h =
    let asset = holds-eq o.asset t.debt_asset (ground arith) in
    let exact = holds-eq o.value b (ground arith) in ground arith

module _ (compiled : RepurchaseTerms → Text) (answers : Answers) (t : RepurchaseTerms) where
  -- Whenever the funding check returns a coin, the terms are sane and the coin is an unspent output
  -- at the index returned that pays the address the terms compile to, exactly the bond, in the debt
  -- asset.
  pub verify_funding_sound :
      (vout : Option ℕ) {n : ℕ} {o : Txout}
      → verify_funding compiled answers t vout ≡ ok (n, o)
      → IsSane t × (answers n ≡ some o) × IsBond (compiled t) t o
  unfolding verify_funding
  verify_funding_sound vout {n} {o} e = elim (Result-cases (sanity_check t)) [
    | inl (x, bad) ↦ absurd (ground arith)
    | inr (tt, good) ↦
        let sane = (sanity_check_iff t).0 good in
        let b = t.collateral_value - t.debt in
        let bonded = IsSane-bond t sane in
        elim (Result-cases (find_output answers vout (is_bond (compiled t) t b))) [
          | inl (x, bad) ↦ absurd (ground arith)
          | inr (first, f) ↦ elim (Result-cases (find_again answers (compiled t) vout first)) [
            | inl (x, bad) ↦ absurd (ground arith)
            | inr (none, g) ↦ absurd (ground arith)
            | inr (some (m, p), g) ↦ elim (Result-cases (check_bond (compiled t) t b p)) [
              | inl (x, bad) ↦ absurd (ground arith)
              | inr (tt, c) ↦
                  let it : p ≡ o = ground arith in
                  let same_n : m ≡ n = ground arith in
                  let there =
                    find_again_there answers (compiled t) vout (is_bond (compiled t) t b) first
                      {n = m} {o = p} f g in
                  (
                    sane,
                    subst (λ k. answers k ≡ some o) same_n (rw (← it) there),
                    subst (IsBond (compiled t) t) it
                        (check_bond-IsBond (compiled t) t b p (refl) c),
                  )
            ]
          ]
        ]
  ]

  -- For sane terms, when one of the outputs scanned is the bond, the check returns a coin, whatever
  -- else the transaction pays to the same address.
  pub verify_funding_finds :
      (i : ℕ) (o : Txout)
      → IsSane t
      → i < scan_vouts
      → answers i ≡ some o
      → IsBond (compiled t) t o
      → (n : ℕ) × (p : Txout) × (verify_funding compiled answers t none ≡ ok (n, p))
  unfolding verify_funding find_output find_again
  verify_funding_finds i o sane lt there bond_there =
      let b = t.collateral_value - t.debt in
      let good = (sanity_check_iff t).1 sane in
      let bonded = IsSane-bond t sane in
      elim (Option-cases (first_match answers (is_bond (compiled t) t b) scan_vouts 0)) [
        | inl nothing ↦
            let passed =
              first_match-eq-none answers (is_bond (compiled t) t b) scan_vouts 0 nothing i o
                (omega arith) (omega arith) there in
            let is = IsBond-is_bond (compiled t) t o bond_there in absurd (ground arith)
        | inr ((n, p), found) ↦
            let (_, is, _) =
              first_match-eq-some answers (is_bond (compiled t) t b) scan_vouts 0 {n = n} {o = p}
                found in
            let checked = is_bond-check_bond (compiled t) t b p is in (n, p, ground arith)
      ]

  -- For sane terms and no output named, the check says that nothing has funded the bond exactly
  -- when no output scanned pays the address.
  verify_funding-eq-not_funded :
      IsSane t
      → (verify_funding compiled answers t none ≡ err not_funded)
        ↔ ((i : ℕ) (o : Txout) → i < scan_vouts → answers i ≡ some o → o.spk ≢ compiled t)
  unfolding verify_funding find_output find_again
  verify_funding-eq-not_funded sane =
      let b = t.collateral_value - t.debt in
      let good = (sanity_check_iff t).1 sane in
      let bonded = IsSane-bond t sane in
      let pays : Txout → Bool = λ o. text_eq o.spk (compiled t) in
      (
        λ e i o lt there same.
            elim (Option-cases (first_match answers (is_bond (compiled t) t b) scan_vouts 0)) [
              | inr ((n, p), found) ↦
                  let (_, is, _) =
                    first_match-eq-some answers (is_bond (compiled t) t b) scan_vouts 0 {n = n}
                      {o = p} found in
                  let checked = is_bond-check_bond (compiled t) t b p is in absurd (ground arith)
              | inl nothing ↦ elim (Option-cases (first_match answers pays scan_vouts 0)) [
                | inl none_at_all ↦
                    let passed =
                      first_match-eq-none answers pays scan_vouts 0 none_at_all i o (omega arith)
                        (omega arith) there in
                    absurd (ground (arith, text_eq_iff o.spk (compiled t)))
                | inr ((n, p), found) ↦ absurd (ground arith)
              ]
            ],
        λ none_pays.
            elim (Option-cases (first_match answers (is_bond (compiled t) t b) scan_vouts 0)) [
              | inr ((n, p), found) ↦
                  let (there, is, lt) =
                    first_match-eq-some answers (is_bond (compiled t) t b) scan_vouts 0 {n = n}
                      {o = p} found in
                  let other = none_pays n p (omega arith) there in
                  absurd (ground (arith, text_eq_iff p.spk (compiled t)))
              | inl nothing ↦ elim (Option-cases (first_match answers pays scan_vouts 0)) [
                | inl none_at_all ↦ ground arith
                | inr ((n, p), found) ↦
                    let (there, is, lt) =
                      first_match-eq-some answers pays scan_vouts 0 {n = n} {o = p} found in
                    let other = none_pays n p (omega arith) there in
                    absurd (ground (arith, text_eq_iff p.spk (compiled t)))
              ]
            ],
      )
