-- ===== src/BtcLoan/Safe.antt =====
-- What `timelocks_sane` of pignus/btc_collateral.py accepts, as an order of deadlines, and proofs on it.
use pignus.Prelude.{
  ◌+◌, ◌*◌, ◌≤◌, ◌<◌, ◌≡◌, ◌≢◌, ◌↔◌, ◌⊎◌, refl, ap, ◌∙◌, empty_of_is_empty, Bool, true, false, ◌&&◌,
  List, [], ◌∷◌, ◌++◌, Text, text_eq, text_eq_iff, is_empty, Bool-cases, inl, inr, arith,
}
use pignus.BtcLoan.{BtcLoan}
use pignus.BtcLoan.Timelocks.{
  Problem, report, Tips, given, times_named, origination_problems, margin_problems, timelocks_sane,
}

-- The deadlines are block heights, under 500 million.
pub record AreHeights (l : BtcLoan) : Type 0 where
  pub d_refund : l.d_refund < 500_000_000
  pub repay_deadline : l.repay_deadline < 500_000_000
  pub abort_after : l.abort_after < 500_000_000
  pub recover_after : l.recover_after < 500_000_000

-- An origination that the borrower can abort: the borrower has two hours to claim the principal, and
-- the lender who sees the claim has a day to move the collateral before it can be taken back. Times
-- are in seconds; a deadline is compared with the tip of its own chain.
pub record IsAbortable (tips : Tips) (l : BtcLoan) : Type 0 where
  pub secret : l.h_w ≢ []
  pub abort_after : l.abort_after ≢ 0
  pub d_refund : l.d_refund ≢ 0
  pub claim : tips.seq_height * tips.seq_seconds + 7200 ≤ l.d_refund * tips.seq_seconds
  pub upgrade :
      l.d_refund * tips.seq_seconds + tips.btc_height * tips.btc_seconds + 86_400
      ≤ l.abort_after * tips.btc_seconds + tips.seq_height * tips.seq_seconds

-- A loan without an origination to abort.
pub record IsDirect (l : BtcLoan) : Type 0 where
  pub secret : l.h_w ≡ []
  pub abort_after : l.abort_after ≡ 0
  pub d_refund : l.d_refund ≡ 0

-- The margins about the repayment. The claim of the repayment takes 120 blocks, so the last moment to
-- repay is 120 blocks before the written deadline: it is two hours away at least, and a day at least
-- after the last start. The lender's sweep opens a day after the written deadline at least, and after
-- the abort; the fee of the move is paid; and no secret
-- opens both sides.
pub record HasMargins (tips : Tips) (l : BtcLoan) : Type 0 where
  pub repay :
      tips.seq_height * tips.seq_seconds + 7200 + 120 * tips.seq_seconds
      ≤ l.repay_deadline * tips.seq_seconds
  pub sweep :
      l.repay_deadline * tips.seq_seconds + tips.btc_height * tips.btc_seconds + 86_400
      ≤ l.recover_after * tips.btc_seconds + tips.seq_height * tips.seq_seconds
  pub term :
      l.d_refund ≢ 0
      → l.d_refund * tips.seq_seconds + 86_400 + 120 * tips.seq_seconds
        ≤ l.repay_deadline * tips.seq_seconds
  pub after_abort :
      l.abort_after ≢ 0 → l.abort_after * tips.btc_seconds < l.recover_after * tips.btc_seconds
  pub fee : l.abort_after ≢ 0 → 10_000 ≤ l.upgrade_fee
  pub secrets : l.payment_hash ≢ [] → l.h_w ≢ [] → l.payment_hash ≢ l.h_w

pub record IsSafe (tips : Tips) (l : BtcLoan) : Type 0 where
  pub heights : AreHeights l
  pub origination : IsDirect l ⊎ IsAbortable tips l
  pub margins : HasMargins tips l

report-nil : (b : Bool) (p : Problem) → (report b p ≡ []) ↔ (b ≡ false)
report-nil b p = ground arith

append-nil_iff : (xs ys : List Problem) → (xs ++ ys ≡ []) ↔ ((xs ≡ []) × (ys ≡ []))
append-nil_iff [] ys = (λ e. (refl, e), λ (e, f). f)
append-nil_iff (x ∷ xs) ys = (λ e. absurd (ground arith), λ (e, f). absurd (ground arith))

times_named-nil : (l : BtcLoan) → (times_named l ≡ []) ↔ AreHeights l
unfolding times_named
times_named-nil l = (
  λ e. ground arith,
  λ heights.
      let a = heights.d_refund in
      let b = heights.repay_deadline in
      let c = heights.abort_after in let d = heights.recover_after in ground arith,
)

is_empty-false : (s : Text) → (is_empty s ≡ false) ↔ (s ≢ [])
is_empty-false [] = (λ e. absurd (ground arith), λ d. absurd (d refl))
is_empty-false (c ∷ s) = (λ e. λ f. cc, λ d. refl)

origination-nil :
    (tips : Tips) (l : BtcLoan)
    → (origination_problems tips l ≡ []) ↔ (IsDirect l ⊎ IsAbortable tips l)
unfolding origination_problems
origination-nil tips l = (
  λ e. elim (Bool-cases (is_empty l.h_w)) [
    | inl empty ↦ inl record {
      secret = empty_of_is_empty l.h_w empty;
      abort_after = ground arith;
      d_refund = ground arith;
    }
    | inr named ↦ inr record {
      secret = (is_empty-false l.h_w).0 named;
      abort_after = λ z. ground arith;
      d_refund = λ z. ground arith;
      claim = ground arith;
      upgrade = ground arith;
    }
  ],
  λ d. elim d [
    | inl direct ↦
        let secret : is_empty l.h_w ≡ true = ap is_empty direct.secret in
        let abort_after = direct.abort_after in let d_refund = direct.d_refund in ground arith
    | inr abortable ↦
        let secret = (is_empty-false l.h_w).1 abortable.secret in
        let abort_after = abortable.abort_after in
        let d_refund = abortable.d_refund in
        let claim = abortable.claim in let upgrade = abortable.upgrade in ground arith
  ],
)

apart_false :
    (l : BtcLoan)
    → (l.payment_hash ≢ [] → l.h_w ≢ [] → l.payment_hash ≢ l.h_w)
    → (given l.payment_hash && given l.h_w && text_eq l.payment_hash l.h_w) ≡ false
apart_false l apart = elim (Bool-cases (text_eq l.payment_hash l.h_w)) [
  | inr differ ↦ ground arith
  | inl same ↦ elim (Bool-cases (is_empty l.payment_hash)) [
    | inl empty ↦ ground arith
    | inr some_hash ↦
        let hash = (is_empty-false l.payment_hash).0 some_hash in
        let eq = (text_eq_iff l.payment_hash l.h_w).0 same in
        absurd (apart hash (λ e. hash (eq ∙ e)) eq)
  ]
]

margin-nil : (tips : Tips) (l : BtcLoan) → (margin_problems tips l ≡ []) ↔ HasMargins tips l
unfolding margin_problems
margin-nil tips l = (
  λ e. record {
    repay = ground arith;
    sweep = ground arith;
    term = λ d. ground arith;
    after_abort = λ d. ground arith;
    fee = λ d. ground arith;
    secrets = λ p h s.
        let payment = (is_empty-false l.payment_hash).1 p in
        let secret = (is_empty-false l.h_w).1 h in
        let same = (text_eq_iff l.payment_hash l.h_w).1 s in ground arith;
  },
  λ m.
      let repay = m.repay in
      let sweep = m.sweep in
      let term = m.term in
      let after_abort = m.after_abort in let fee = m.fee in ground (arith, apart_false l m.secrets),
)

-- No problem is reported exactly when the loan is safe to enter: the deadlines are heights; the
-- origination is direct, or leaves two hours to claim and a day to move the collateral; the last moment
-- to repay, 120 blocks before the written deadline, is two hours away and a day after the last start;
-- the lender's sweep opens a day after the written deadline, and after the abort; an origination that
-- can be aborted pays 10000 for the move; and no secret opens both sides.
pub timelocks_sane-IsSafe_iff :
    (tips : Tips) (l : BtcLoan) → (timelocks_sane tips l ≡ []) ↔ IsSafe tips l
unfolding timelocks_sane
timelocks_sane-IsSafe_iff tips l = (
  λ e. elim (Bool-cases (is_empty (times_named l))) [
    | inr named ↦
        let none_named : times_named l ≡ [] = ground arith in
        absurd (ground (arith, ap is_empty none_named))
    | inl empty ↦
        let (origination, margins) =
          (append-nil_iff (origination_problems tips l) (margin_problems tips l)).0
            (ground arith) in
        record {
          heights = (times_named-nil l).0 (empty_of_is_empty (times_named l) empty);
          origination = (origination-nil tips l).0 origination;
          margins = (margin-nil tips l).0 margins;
        }
  ],
  λ safe.
      let heights = (times_named-nil l).1 safe.heights in
      let origination = (origination-nil tips l).1 safe.origination in
      let margins = (margin-nil tips l).1 safe.margins in
      let empty : is_empty (times_named l) ≡ true = ap is_empty heights in
      rw empty (
        (append-nil_iff (origination_problems tips l) (margin_problems tips l)).1
          (origination, margins)),
)
