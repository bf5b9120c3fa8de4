-- ===== src/BtcLoan/Requested.antt =====
-- Proofs on what `check_seize_request` of pignus/btc_collateral.py answers to.
use pignus.Prelude.{ℕ, ◌-◌, ◌≡◌, true, Bool, some, [], ◌∷◌, Text, ok}
use pignus.Prelude.Hex.{lower, from_hex, to_hex}
use pignus.BtcLoan.{BtcLoan}
use pignus.BtcScript.Tree.{TapTree, script_pub_key}
use pignus.BtcScript.Tx.{BtcTx}
use pignus.BtcScript.Valid.{valid}
use pignus.BtcLoan.Spends.{Signer, funding_tree, seize_tx}
use pignus.BtcLoan.Seize.{
  Digests, SeizeRequest, readable, TakePayload, given, or_one, offer_payload, take_payload,
  offer_id, verify_hex, seize_sighash,
}

module _ (g : Signer) (d : Digests) where
  -- The lender's key signed the offer of the loan's terms, the strike among them, and the borrower's key
  -- signed an acceptance that names the id of that offer.
  pub record IsPinned (q : SeizeRequest) (loan : BtcLoan) : Type 0 where
    pub lender_signed :
        verify_hex g loan.lender_x
          (d.offer_digest (offer_payload loan loan.market (or_one q.offer_lots)))
          q.offer_sig
        ≡ true
    pub payload : TakePayload
    pub accepted :
        take_payload
          (offer_id g d loan loan.market (or_one q.offer_lots))
          loan
          q.prevault_txid
          q.prevault_vout
        ≡ some payload
    pub borrower_signed : verify_hex g loan.borrower_x (d.take_digest payload) q.take_auth ≡ true

  -- What a request asks for: the loan, the outpoint's index, the fee, where the collateral goes and the
  -- number to sign.
  pub record IsAsked (q : SeizeRequest) (required : Bool) (loan : BtcLoan) (want : Text)
      : Type 0 where
    pub vout : ℕ
    pub fee : ℕ
    pub dest : Text
    pub m : Text
    pub fields : given q ≡ some (readable loan, vout, fee)
    pub pays : from_hex q.dest_spk ≡ some dest
    pub hashed : seize_sighash g loan q.funding_txid vout dest fee ≡ ok m
    pub number : want ≡ to_hex m
    pub agreed : want ≡ lower q.sighash
    pub pinned : required ≡ true → IsPinned q loan

  -- The seizure that a request names, signed with two secrets: it is built, pays the request's script what
  -- the fee leaves of the collateral, and is valid by Bitcoin's rules.
  pub record Completes (q : SeizeRequest) (required : Bool) (loan : BtcLoan) (want : Text)
      (lender_sec oracle_sec : Text) : Type 0 where
    pub asked : IsAsked q required loan want
    pub read : from_hex want ≡ some asked.m
    pub tx : BtcTx
    pub tree : TapTree
    pub built :
        seize_tx g loan q.funding_txid asked.vout asked.dest asked.fee lender_sec
          (g.sign oracle_sec asked.m)
        ≡ ok tx
    pub funded : funding_tree g loan ≡ ok tree
    pub is_valid :
        valid g.curve g.verify tx record { value = loan.btc_amount; spk = script_pub_key tree }
        ≡ true
    pub pays : tx.vout ≡ record { value = loan.btc_amount - asked.fee; spk = asked.dest } ∷ []
