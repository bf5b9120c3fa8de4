-- ===== src/Vault/Steps.antt =====
-- What each composed exit was composed of: the steps of a call that returned.
use pignus.Prelude.{
  ℕ, ◌≤◌, ◌≡◌, Option, List, [], ◌∷◌, map, Text, ok, Result-cases, inl, inr, arith,
}
use pignus.Terms.{or_text, seizure_at}
use pignus.Oracle.{Signing}
use pignus.Tx.{Output, Entry, pay, Tx}
use pignus.Vault.Spender.{payer, Spender, held, held-eq-ok, pinned}
use pignus.Vault.Change.{change}
use pignus.Vault.Evidence.{Evidence, Leaf, Shown, oracle_evidence}
use pignus.Vault.Exits

-- What a composed repayment was composed of.
pub repay-eq-ok :
    (s : Spender) (r : Exits.Request) {tx : Tx}
    → Exits.repay s r ≡ ok tx
    → (spks : Text × Text) × (rest : List Output) × (fee : ℕ) × (change
          (payer s)
          r.funding
          ((s.terms.debt_asset, s.terms.debt) ∷ [])
          r.change_spk
        ≡ ok (rest, fee))
      × (tx
          ≡ Exits.assemble s r
              (Exits.output s.terms.debt spks.0 s.terms.debt_asset
                ∷ Exits.output r.vault.amount spks.1 s.terms.collateral_asset
                ∷ map pay rest)
              fee
              0)
      × (pinned s ≡ ok spks)
unfolding Exits.repay
repay-eq-ok s r {tx} e = elim (Result-cases (held s r.answer r.vault)) [
  | inl (x, bad) ↦ absurd (ground arith)
  | inr (n, holds) ↦ elim (Result-cases (pinned s)) [
    | inl (x, bad) ↦ absurd (ground arith)
    | inr (spks, pins) ↦
        elim (Result-cases
          (change (payer s) r.funding ((s.terms.debt_asset, s.terms.debt) ∷ []) r.change_spk)) [
            | inl (x, bad) ↦ absurd (ground arith)
            | inr ((rest, fee), changed) ↦ (
              spks,
              rest,
              fee,
              changed,
              ground (arith, held-eq-ok s r.answer r.vault holds),
              pins,
            )
          ]
  ]
]

-- What a composed seizure was composed of.
pub record IsSeizure (c : Signing) (s : Spender) (r : Exits.Request) (evidence : Evidence)
    (taker : Text) (leaf : Leaf) (locktime : ℕ) (tx : Tx) : Type 0 where
  pub price : ℕ
  pub shown : Shown
  pub spks : Text × Text
  pub seize : ℕ
  pub rest : List Output
  pub fee : ℕ
  pub outs : List Entry
  pub holds : held s r.answer r.vault ≡ ok r.vault.amount
  pub attested : oracle_evidence c s evidence leaf ≡ ok (price, shown)
  pub pins : pinned s ≡ ok spks
  pub seizes : seizure_at s.terms price ≡ ok seize
  pub changed :
      change
        (payer s)
        r.funding
        ((s.terms.debt_asset, s.terms.debt) ∷ [])
        (or_text r.change_spk taker)
      ≡ ok (rest, fee)
  pub laid : Exits.seizure_outs s spks.1 taker r.vault.amount seize rest ≡ ok outs
  pub composed :
      tx
      ≡ Exits.assemble s r (Exits.output s.terms.debt spks.0 s.terms.debt_asset ∷ outs) fee locktime

pub seizure-eq-ok :
    (c : Signing) (s : Spender) (r : Exits.Request) (evidence : Evidence) (taker : Text)
    (leaf : Leaf) (locktime : ℕ) {tx : Tx}
    → Exits.seizure c s r evidence taker leaf locktime ≡ ok tx
    → IsSeizure c s r evidence taker leaf locktime tx
unfolding Exits.seizure
seizure-eq-ok c s r evidence taker leaf locktime {tx} e =
    elim (Result-cases (held s r.answer r.vault)) [
      | inl (x, bad) ↦ absurd (ground arith)
      | inr (n, holds) ↦ elim (Result-cases (oracle_evidence c s evidence leaf)) [
        | inl (x, bad) ↦ absurd (ground arith)
        | inr ((price, shown), attested) ↦ elim (Result-cases (pinned s)) [
          | inl (x, bad) ↦ absurd (ground arith)
          | inr (spks, pins) ↦ elim (Result-cases (seizure_at s.terms price)) [
            | inl (x, bad) ↦ absurd (ground arith)
            | inr (seize, seizes) ↦
                elim (Result-cases (
                  change (payer s) r.funding ((s.terms.debt_asset, s.terms.debt) ∷ [])
                    (or_text r.change_spk taker))) [
                      | inl (x, bad) ↦ absurd (ground arith)
                      | inr ((rest, fee), changed) ↦
                          elim (Result-cases (Exits.seizure_outs s spks.1 taker n seize rest)) [
                            | inl (x, bad) ↦ absurd (ground arith)
                            | inr (outs, laid) ↦
                                let whole = (held-eq-ok s r.answer r.vault holds).0 in
                                record {
                                  price = price;
                                  shown = shown;
                                  spks = spks;
                                  seize = seize;
                                  rest = rest;
                                  fee = fee;
                                  outs = outs;
                                  holds = rw whole at holds;
                                  attested = attested;
                                  pins = pins;
                                  seizes = seizes;
                                  changed = changed;
                                  laid = rw whole at laid;
                                  composed = ground arith;
                                }
                          ]
                    ]
          ]
        ]
      ]
    ]

-- What a composed recovery was composed of.
pub recover-eq-ok :
    (s : Spender) (r : Exits.Request) (locktime : Option ℕ) {tx : Tx}
    → Exits.recover s r locktime ≡ ok tx
    → (spks : Text × Text) × (rest : List Output) × (fee : ℕ) × (s.terms.recover_after
        ≤ Exits.locktime_or locktime s.terms.recover_after)
      × (pinned s ≡ ok spks)
      × (held s r.answer r.vault ≡ ok r.vault.amount)
      × (change (payer s) r.funding [] r.change_spk ≡ ok (rest, fee))
      × (tx
          ≡ Exits.assemble s r
              (Exits.output r.vault.amount spks.0 s.terms.collateral_asset ∷ map pay rest)
              fee
              (Exits.locktime_or locktime s.terms.recover_after))
unfolding Exits.recover
recover-eq-ok s r locktime {tx} e = elim (Result-cases (pinned s)) [
  | inl (x, bad) ↦ absurd (ground arith)
  | inr (spks, pins) ↦ elim (Result-cases (held s r.answer r.vault)) [
    | inl (x, bad) ↦ absurd (ground arith)
    | inr (n, holds) ↦ elim (Result-cases (change (payer s) r.funding [] r.change_spk)) [
      | inl (x, bad) ↦ absurd (ground arith)
      | inr ((rest, fee), changed) ↦
          let whole = (held-eq-ok s r.answer r.vault holds).0 in
          (spks, rest, fee, ground arith, pins, rw whole at holds, changed, ground arith)
    ]
  ]
]
