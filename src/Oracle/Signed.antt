-- ===== src/Oracle/Signed.antt =====
-- What `verify` of pignus/oracle.py and the loop of `select_threshold` ask of an attestation.
use pignus.Prelude.{
  ℕ, ◌≤◌, ◌≡◌, true, false, Option, some, Text, text_eq_iff, ok, arith, Option-cases, Result-cases,
  inl, inr,
}
use pignus.Prelude.Hex.{from_hex, to_hex}
use pignus.Terms.{LoanTerms}
use pignus.Oracle.{Signing, Attestation, verify, is_usable}

-- An attestation that a key signed: key, signature and feed are hex, the feed is that of the market
-- it names, and the signature is good for its feed, time and price.
pub record IsSigned (c : Signing) (k : Text) (a : Attestation) : Type 0 where
  pub key : Text
  pub sig : Text
  pub feed : Text
  pub key_hex : from_hex k ≡ some key
  pub sig_hex : from_hex a.signature ≡ some sig
  pub feed_hex : from_hex a.feed_id ≡ some feed
  pub of_market : to_hex (c.feed_of a.market) ≡ a.feed_id
  pub good : c.verify_schnorr_varlen key sig (c.attestation_message feed a.timestamp a.price) ≡ true

pub verify-IsSigned :
    (c : Signing) (k : Text) (a : Attestation) (scale : Option ℕ)
    → verify c k a scale ≡ ok true
    → IsSigned c k a
unfolding verify
verify-IsSigned c k a scale e = elim (Option-cases (from_hex k)) [
  | inl bad ↦ absurd (ground arith)
  | inr (key, key_hex) ↦ elim (Option-cases (from_hex a.signature)) [
    | inl bad ↦ absurd (ground arith)
    | inr (sig, sig_hex) ↦ elim (Option-cases (from_hex a.feed_id)) [
      | inl bad ↦ absurd (ground arith)
      | inr (feed, feed_hex) ↦ record {
        key = key;
        sig = sig;
        feed = feed;
        key_hex = key_hex;
        sig_hex = sig_hex;
        feed_hex = feed_hex;
        of_market = (text_eq_iff (to_hex (c.feed_of a.market)) a.feed_id).0 (ground arith);
        good = ground arith;
      }
    ]
  ]
]

-- What the loan asks of an attestation besides: its own scale, and no time before `not_before`.
abbrev pub IsFit : Signing → LoanTerms → Text → Attestation → Type 0
IsFit c t k a = IsSigned c k a × (a.price_scale ≡ t.price_scale) × (t.not_before ≤ a.timestamp)

verify-scale :
    (c : Signing) (k : Text) (a : Attestation) (scale : ℕ)
    → verify c k a (some scale) ≡ ok true
    → a.price_scale ≡ scale
unfolding verify
verify-scale c k a scale e = elim (Option-cases (from_hex k)) [
  | inl bad ↦ absurd (ground arith)
  | inr (key, key_hex) ↦ ground arith
]

pub is_usable-IsFit :
    (c : Signing) (t : LoanTerms) (k : Text) (a : Attestation)
    → is_usable c t k a ≡ ok true
    → IsFit c t k a
unfolding is_usable
is_usable-IsFit c t k a e = elim (Result-cases (verify c k a (some t.price_scale))) [
  | inl (x, bad) ↦ absurd (ground arith)
  | inr (false, refused) ↦ absurd (ground arith)
  | inr (true, good) ↦ (
    verify-IsSigned c k a (some t.price_scale) good,
    verify-scale c k a t.price_scale good,
    ground arith,
  )
]
