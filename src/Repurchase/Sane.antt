-- ===== src/Repurchase/Sane.antt =====
-- Proofs on `sanity_check` of pignus/repurchase.py.
use pignus.Prelude.{
  ℕ, ◌+◌, ◌-◌, ◌≤◌, ◌<◌, ◌≡◌, ◌↔◌, inl, inr, Text, leb, ◌==◌, length, Bool-cases, Option-cases,
  Result-cases, ok, arith,
}
use pignus.Prelude.Hex.{from_hex}
use pignus.Repurchase.Terms.{
  RepurchaseTerms, locktime_threshold, decoded_length, check_program, sanity_check, bond, IsProgram,
  IsSane,
}

check_program-IsProgram :
    (prog : Text) (ver : ℕ) → check_program prog ver ≡ ok tt → IsProgram prog ver
unfolding check_program
check_program-IsProgram prog ver e = elim (Option-cases (from_hex prog)) [
  | inl bad ↦ absurd (ground arith)
  | inr (bytes, found) ↦ record {
    bytes = bytes;
    decodes = found;
    payable = elim (Bool-cases (ver == 1)) [
      | inl one ↦ inr (ground arith)
      | inr zero_ver ↦ inl (ground arith)
    ];
  }
]

check_program-eq-ok : (prog : Text) (ver : ℕ) → IsProgram prog ver → check_program prog ver ≡ ok tt
unfolding check_program
check_program-eq-ok prog ver p =
    let found = p.decodes in
    elim p.payable [ inl (v, n) ↦ ground arith | inr (v, n) ↦ ground arith ]

decoded_length-IsProgram :
    (prog : Text) {n : ℕ} → decoded_length prog ≡ ok n → n ≡ 32 → IsProgram prog 1
decoded_length-IsProgram prog {n} e h = elim (Option-cases (from_hex prog)) [
  | inl bad ↦ absurd (ground arith)
  | inr (bytes, found) ↦ record { bytes = bytes; decodes = found; payable = inr (ground arith) }
]

-- Terms with an equity have it as their bond.
pub bond-eq-ok :
    (t : RepurchaseTerms) {b : ℕ}
    → bond t ≡ ok b
    → (t.debt < t.collateral_value) × (b + t.debt ≡ t.collateral_value) × (1 ≤ b)
unfolding bond
bond-eq-ok t e = (ground arith, ground arith, ground arith)

pub IsSane-bond : (t : RepurchaseTerms) → IsSane t → bond t ≡ ok (t.collateral_value - t.debt)
unfolding bond
IsSane-bond t sane = let equity = sane.equity in let interest = sane.interest in ground arith

sanity_check-IsSane : (t : RepurchaseTerms) → sanity_check t ≡ ok tt → IsSane t
unfolding sanity_check
sanity_check-IsSane t e = elim (Result-cases (decoded_length t.borrower_cu)) [
  | inl (x, bad) ↦ absurd (ground arith)
  | inr (n, cu) ↦ elim (Result-cases (check_program t.borrower_prog t.borrower_ver)) [
    | inl (x, bad) ↦ absurd (ground arith)
    | inr (tt, borrower) ↦ elim (Result-cases (check_program t.lender_prog t.lender_ver)) [
      | inl (x, bad) ↦ absurd (ground arith)
      | inr (tt, lender) ↦ elim (Result-cases (bond t)) [
        | inl (x, bad) ↦ absurd (ground arith)
        | inr (b, some_bond) ↦ record {
          some_collateral = ground arith;
          some_principal = ground arith;
          interest = ground arith;
          equity = (bond-eq-ok t some_bond).0;
          deadline = ground arith;
          deadline_kind = elim (Bool-cases (leb locktime_threshold t.forfeit_after)) [
            | inl time ↦ inr (ground arith)
            | inr height ↦ inl (ground arith)
          ];
          cu = decoded_length-IsProgram t.borrower_cu cu (ground arith);
          borrower = check_program-IsProgram t.borrower_prog t.borrower_ver borrower;
          lender = check_program-IsProgram t.lender_prog t.lender_ver lender;
          assets_differ = ground arith;
        }
      ]
    ]
  ]
]

IsSane-sanity_check : (t : RepurchaseTerms) → IsSane t → sanity_check t ≡ ok tt
unfolding sanity_check
IsSane-sanity_check t sane =
    let b = check_program-eq-ok t.borrower_prog t.borrower_ver sane.borrower in
    let l = check_program-eq-ok t.lender_prog t.lender_ver sane.lender in
    let cu = sane.cu.decodes in
    let bonded = IsSane-bond t sane in
    let coll = sane.some_collateral in
    let principal = sane.some_principal in
    let interest = sane.interest in
    let deadline = sane.deadline in
    let differ = sane.assets_differ in
    let thirty_two : length sane.cu.bytes ≡ 32 = elim sane.cu.payable [
      | inl (v, n) ↦ absurd (omega arith)
      | inr (v, n) ↦ n
    ] in
    elim sane.deadline_kind [ inl height ↦ ground arith | inr time ↦ ground arith ]

-- The checks pass exactly on sane terms.
pub sanity_check_iff : (t : RepurchaseTerms) → (sanity_check t ≡ ok tt) ↔ IsSane t
sanity_check_iff t = (sanity_check-IsSane t, IsSane-sanity_check t)
