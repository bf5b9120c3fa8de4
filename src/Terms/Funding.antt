-- ===== src/Terms/Funding.antt =====
-- `LoanTerms.verify_funding`. The two compilers from terms to a scriptPubKey are the covenant
-- builder's, which is not in this repository, so they are parameters; a script is its bytes.
use pignus.Prelude.{
  ◌≡◌, ◌≢◌, ◌↔◌, refl, Bool, true, false, ◌&&◌, Option, none, some, Text, text_eq, text_eq_iff,
  text_eq→eq, sym, ◌∙◌, if◌then◌else◌, Result, ok, err, arith,
}
use pignus.Terms.{LoanTerms, TermsError, address_mismatch}

-- `single_leaf in (None, is_single)`
abbrev pub accepts : Option Bool → Bool → Bool
accepts none is_single = true
accepts (some true) is_single = is_single
accepts (some false) true = false
accepts (some false) false = true

-- The check on the outcomes of its two comparisons.
abbrev pick : Bool → Bool → Option Bool → Result TermsError Bool
pick is_four is_offer single_leaf =
    if is_four && accepts single_leaf false
    then ok false
    else if is_offer && accepts single_leaf true
    then ok true
    else err address_mismatch

abbrev matches : Bool → Bool → Bool → Bool
matches is_four is_offer true = is_offer
matches is_four is_offer false = is_four

pick_iff :
    (is_four is_offer : Bool) (single_leaf : Option Bool) (is_single : Bool)
    → ((is_four ≡ true) → (is_offer ≡ true) → ⊥)
    → (pick is_four is_offer single_leaf ≡ ok is_single)
      ↔ ((matches is_four is_offer is_single ≡ true) × (accepts single_leaf is_single ≡ true))
pick_iff is_four is_offer single_leaf is_single ne = (λ e. ground arith, λ e. ground arith)

module _ (four_leaf_address offer_vault_address : LoanTerms → Text) where
  unfoldable pub verify_funding : LoanTerms → Text → Option Bool → Result TermsError Bool
  verify_funding t funding single_leaf =
      if text_eq (four_leaf_address t) funding && accepts single_leaf false
      then ok false
      else if text_eq (offer_vault_address t) funding && accepts single_leaf true
      then ok true
      else err address_mismatch

  -- The address of the vault format that a Boolean names.
  abbrev pub address_of : LoanTerms → Bool → Text
  address_of t true = offer_vault_address t
  address_of t false = four_leaf_address t

  matches_eq :
      (t : LoanTerms) (funding : Text) (is_single : Bool)
      → text_eq (address_of t is_single) funding
        ≡ matches
            (text_eq (four_leaf_address t) funding)
            (text_eq (offer_vault_address t) funding)
            is_single
  matches_eq t funding true = refl
  matches_eq t funding false = refl

  -- Where the two formats compile to different addresses, the check returns a format exactly when
  -- the funded script is that format's address and the caller accepts the format.
  verify_funding_iff :
      (t : LoanTerms) (funding : Text) (single_leaf : Option Bool) (is_single : Bool)
      → four_leaf_address t ≢ offer_vault_address t
      → (verify_funding t funding single_leaf ≡ ok is_single)
        ↔ ((address_of t is_single ≡ funding) × (accepts single_leaf is_single ≡ true))
  unfolding verify_funding
  verify_funding_iff t funding single_leaf is_single ne =
      let same = text_eq_iff (address_of t is_single) funding in
      let picked =
        pick_iff (text_eq (four_leaf_address t) funding) (text_eq (offer_vault_address t) funding)
          single_leaf is_single
          (λ four offer. ne (text_eq→eq _ _ four ∙ sym (text_eq→eq _ _ offer))) in
      let read = matches_eq t funding is_single in
      (
        λ e. (same.0 (read ∙ (picked.0 e).0), (picked.0 e).1),
        λ p. picked.1 (sym read ∙ same.1 p.0, p.1),
      )
