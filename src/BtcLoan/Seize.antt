-- ===== src/BtcLoan/Seize.antt =====
-- How a seizure of pignus/btc_collateral.py is asked for and judged: `seize_sighash`,
-- `check_seize_request` and `seize_is_justified`, with the offer's and the acceptance's signatures of
-- pignus/btc_relay.py. Canonical JSON and its tagged hash are a parameter, as are the signatures.
use pignus.Prelude.{
  ℕ, Bool, true, false, not, ◌||◌, Option, none, some, List, [], ◌∷◌, Text, codes, text_eq,
  is_empty, take, ltb, ◌==◌, if◌then◌else◌, Result, ok, err, ◌>>=◌, ◌>>◌, raise_if,
}
use pignus.Prelude.Hex.{lower, from_hex, to_hex}
use pignus.Oracle.{Attestation, Signing, OracleError, verify}
use pignus.BtcLoan.{BtcLoan}
use pignus.BtcLoan.Spends.{Signer, LoanError, funding_tree, leaf_witness, spend_tx, message}

-- `OFFER_FIELDS` and what `offer_payload` puts beside them.
pub record OfferPayload : Type 0 where
  pub btc_amount : ℕ
  pub lender_x : Text
  pub oracle_x : Text
  pub recover_after : ℕ
  pub debt_asset : Text
  pub debt : ℕ
  pub principal : ℕ
  pub repay_deadline : ℕ
  pub abort_after : ℕ
  pub upgrade_fee : ℕ
  pub d_refund : ℕ
  pub lender_prog : Text
  pub lender_ver : ℕ
  pub loan_market : Text
  pub strike : ℕ
  pub price_scale : ℕ
  pub market : Text
  pub lots : ℕ

-- `lots or 1`
unfoldable pub or_one : ℕ → ℕ
or_one n = if n == 0 then 1 else n

-- `offer_payload`
unfoldable pub offer_payload : BtcLoan → Text → ℕ → OfferPayload
offer_payload loan market lots = record {
  btc_amount = loan.btc_amount;
  lender_x = loan.lender_x;
  oracle_x = loan.oracle_x;
  recover_after = loan.recover_after;
  debt_asset = loan.debt_asset;
  debt = loan.debt;
  principal = loan.principal;
  repay_deadline = loan.repay_deadline;
  abort_after = loan.abort_after;
  upgrade_fee = loan.upgrade_fee;
  d_refund = loan.d_refund;
  lender_prog = loan.lender_prog;
  lender_ver = loan.lender_ver;
  loan_market = loan.market;
  strike = loan.strike;
  price_scale = loan.price_scale;
  market = market;
  lots = or_one lots;
}

-- `TAKE_FIELDS`
pub record TakePayload : Type 0 where
  pub btc_offer_id : Text
  pub borrower_x : Text
  pub h_w : Text
  pub borrower_prog : Text
  pub borrower_ver : ℕ
  pub prevault_txid : Text
  pub prevault_vout : ℕ

-- `take_payload`; none where it raises on an empty field.
unfoldable pub take_payload : Text → BtcLoan → Text → Option ℕ → Option TakePayload
take_payload oid loan txid none = none
take_payload oid loan txid (some vout) =
    if is_empty oid
      || is_empty loan.borrower_x
      || is_empty loan.h_w
      || is_empty loan.borrower_prog
      || is_empty txid
    then none
    else some record {
      btc_offer_id = lower oid;
      borrower_x = lower loan.borrower_x;
      h_w = lower loan.h_w;
      borrower_prog = lower loan.borrower_prog;
      borrower_ver = loan.borrower_ver;
      prevault_txid = lower txid;
      prevault_vout = vout;
    }

-- `tagged(OFFER_TAG, canonical(p))` and `tagged(TAKE_TAG, canonical(p))`
pub record Digests : Type 0 where
  pub offer_digest : OfferPayload → Text
  pub take_digest : TakePayload → Text

-- The field `loan` of a request, as `loan_from_dict` reads it.
pub data LoanField : Type 0 where
  unreadable : LoanField
  readable : BtcLoan → LoanField

-- A request, whose numbers are numbers; a text that is absent is empty.
pub record SeizeRequest : Type 0 where
  pub loan : Option LoanField
  pub dest_spk : Text
  pub funding_txid : Text
  pub funding_vout : Option ℕ
  pub fee : Option ℕ
  pub sighash : Text
  pub offer_sig : Text
  pub offer_lots : ℕ
  pub take_auth : Text
  pub prevault_txid : Text
  pub prevault_vout : Option ℕ

pub data SeizeError : Type 0 where
  missing_fields unreadable_loan dest_not_hex other_sighash : SeizeError
  no_offer bad_offer_sig no_acceptance bad_acceptance : SeizeError
  no_tree : LoanError → SeizeError

-- The loan, the outpoint's index and the fee of a request with all its fields.
unfoldable pub given : SeizeRequest → Option (LoanField × ℕ × ℕ)
given q =
    if is_empty q.dest_spk || is_empty q.funding_txid || is_empty q.sighash
    then none
    else elim q.loan as (λ l. Option (LoanField × ℕ × ℕ)) [
      | none ↦ none
      | some l ↦ elim q.funding_vout [
        | none ↦ none
        | some vout ↦ elim q.fee [ none ↦ none | some fee ↦ some (l, vout, fee) ]
      ]
    ]

unfoldable pub read_loan : LoanField → Result SeizeError BtcLoan
read_loan unreadable = err unreadable_loan
read_loan (readable loan) = ok loan

unfoldable pub read_dest : Text → Result SeizeError Text
read_dest s = elim (from_hex s) [ none ↦ err dest_not_hex | some b ↦ ok b ]

unfoldable pub or_no_tree : Result LoanError Text → Result SeizeError Text
or_no_tree (err e) = err (no_tree e)
or_no_tree (ok m) = ok m

-- `A.verify` of a key and a signature in hex; what it raises is a refusal.
unfoldable pub verify_hex : Signer → Text → Text → Text → Bool
verify_hex g key_x m sig_hex = elim (from_hex key_x) [
  | none ↦ false
  | some key ↦ elim (from_hex sig_hex) [ none ↦ false | some sig ↦ g.verify key m sig ]
]

-- `seize_sighash`
unfoldable pub seize_sighash : Signer → BtcLoan → Text → ℕ → Text → ℕ → Result LoanError Text
seize_sighash g loan txid vout dest_spk fee = do
  tree ← funding_tree g loan
  (leaf, control) ← leaf_witness tree (codes "seize")
  ok (message g (spend_tx txid vout loan.btc_amount dest_spk fee 0) loan.btc_amount tree leaf)

module _ (g : Signer) (d : Digests) where
  -- `verify_offer`
  unfoldable pub verify_offer : BtcLoan → Text → ℕ → Text → Bool
  verify_offer loan market lots sig_hex =
      verify_hex g loan.lender_x (d.offer_digest (offer_payload loan market lots)) sig_hex

  -- `offer_id`
  unfoldable pub offer_id : BtcLoan → Text → ℕ → Text
  offer_id loan market lots = take 24 (to_hex (d.offer_digest (offer_payload loan market lots)))

  -- `verify_take`
  unfoldable pub verify_take : Text → Text → Option TakePayload → Bool
  verify_take key_x sig_hex none = false
  verify_take key_x sig_hex (some p) = verify_hex g key_x (d.take_digest p) sig_hex

  -- The checks of the signatures on the terms.
  unfoldable pub check_terms :
      SeizeRequest → BtcLoan → Text → Bool → Result SeizeError (BtcLoan × Text)
  check_terms q loan want require_offer =
      let lots = or_one q.offer_lots in
      if is_empty q.offer_sig
      then (if require_offer then err no_offer else ok (loan, want))
      else (do
        raise_if (not (verify_offer loan loan.market lots q.offer_sig)) bad_offer_sig
        raise_if (is_empty q.take_auth) no_acceptance
        let accepted =
            take_payload (offer_id loan loan.market lots) loan q.prevault_txid q.prevault_vout
        raise_if (not (verify_take loan.borrower_x q.take_auth accepted)) bad_acceptance
        ok (loan, want))

  -- `check_seize_request`
  unfoldable pub check_seize_request : SeizeRequest → Bool → Result SeizeError (BtcLoan × Text)
  check_seize_request q require_offer = elim (given q) [
    | none ↦ err missing_fields
    | some (l, vout, fee) ↦ do
      loan ← read_loan l
      dest ← read_dest q.dest_spk
      m ← or_no_tree (seize_sighash g loan q.funding_txid vout dest fee)
      raise_if (not (text_eq (to_hex m) (lower q.sighash))) other_sighash
      check_terms q loan (to_hex m) require_offer
  ]

pub data JudgeError : Type 0 where
  bad_key : OracleError → JudgeError
  no_strike : JudgeError

-- `any(O.verify(k, attestation) for k in keys)`
unfoldable pub any_verifies : Signing → List Text → Attestation → Result JudgeError Bool
any_verifies c [] att = ok false
any_verifies c (k ∷ ks) att =
    let rest = any_verifies c ks att in
    elim (verify c k att none) [
      | err e ↦ err (bad_key e)
      | ok good ↦ if good then ok true else rest
    ]

abbrev pub bound_of : BtcLoan → Option ℕ → ℕ
bound_of loan none = loan.strike
bound_of loan (some s) = s

abbrev pub keys_of : BtcLoan → List Text → List Text
keys_of loan [] = loan.oracle_x ∷ []
keys_of loan (k ∷ ks) = k ∷ ks

-- `seize_is_justified`
unfoldable pub seize_is_justified :
    Signing → BtcLoan → Attestation → Option ℕ → List Text → Result JudgeError Bool
seize_is_justified c loan att strike oracle_keys =
    any_verifies c (keys_of loan oracle_keys) att >>= λ good.
    if not good
    then ok false
    else if bound_of loan strike == 0
    then err no_strike
    else if not (att.price_scale == loan.price_scale)
    then ok false
    else ok (ltb att.price (bound_of loan strike))
