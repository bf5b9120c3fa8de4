-- ===== src/Watcher2/Claimed.antt =====
-- Proofs on `borrower_from_take` of pignus/watcher2.py and the loan that a take opens.
use pignus.Prelude.{
  ℕ, ◌*◌, ◌≡◌, refl, sym, ap, Option, none, some, Text, text_eq, text_eq_iff, get_elem?,
  Option-cases, Bool-cases, inl, inr, ok, arith, ◌∙◌,
}
use mathlib.Core.Path.{subst}
use pignus.Prelude.Hex.{from_hex}
use pignus.Vault2.Terms.{V2Terms, State}
use pignus.Vault2.Spend.{V2Offer}
use pignus.Vault2.Spend.Follow.{Decoded}
use pignus.Watcher2.{ChainTx, Where, place_of}
use pignus.Watcher2.Take.{
  taken_by, terms_witness, vault_for, read_hash, read_bytes, hash_at, bits_of, borrower_bit,
  borrower_from_take,
}
use pignus.Watcher2.Named.{IsHash, hash_at-IsHash}
use pignus.Watcher2.Offer.{OpenedLoan, opened_by}

module _ (vault_spk : V2Terms → State → Text) (offer : V2Offer) where
  read_hash-eq-taken :
      (main : Decoded) (lock : ℕ) (o : Option Text) (h : Text)
      → read_hash vault_spk offer main lock o ≡ taken_by h
      → (vault_for vault_spk offer h lock ≡ main.spk) × (o ≡ some h)
  unfolding read_hash
  read_hash-eq-taken main lock none h e = absurd (ground arith)
  read_hash-eq-taken main lock (some x) h e =
      elim (Bool-cases (text_eq (vault_for vault_spk offer x lock) main.spk)) [
        | inl same ↦
            let is : x ≡ h = ground arith in
            (
              ap (λ y. vault_for vault_spk offer y lock) (sym is)
                  ∙ (text_eq_iff (vault_for vault_spk offer x lock) main.spk).0 same,
              ap some is,
            )
        | inr other ↦ absurd (ground arith)
      ]

  read_bytes-eq-taken :
      (main : Option Decoded) (lock : ℕ) (wit : Option Text) (h : Text)
      → read_bytes vault_spk offer main lock wit ≡ taken_by h
      → (d : Decoded) × (main ≡ some d) × (vault_for vault_spk offer h lock ≡ d.spk) × IsHash h
  unfolding read_bytes
  read_bytes-eq-taken main lock none h e = absurd (ground arith)
  read_bytes-eq-taken none lock (some wit) h e = absurd (ground arith)
  read_bytes-eq-taken (some d) lock (some wit) h e =
      let (derived, read) =
        read_hash-eq-taken d lock (hash_at (borrower_bit offer) (bits_of wit)) h e in
      (d, refl, derived, hash_at-IsHash (borrower_bit offer) (bits_of wit) read)

  -- A borrower that is read from a take derives the script at the take's output.
  pub borrower_from_take-eq-taken :
      (tx : ChainTx) (k : ℕ) (h : Text)
      → borrower_from_take vault_spk offer tx k ≡ taken_by h
      → (d : Decoded) × (get_elem? tx.decoded.outs (2 * k) ≡ some d)
        × (vault_for vault_spk offer h tx.decoded.locktime ≡ d.spk)
        × IsHash h
  unfolding borrower_from_take
  borrower_from_take-eq-taken tx k h e =
      elim (Option-cases (terms_witness (get_elem? tx.decoded.witnesses k))) [
        | inl nothing ↦ absurd (ground arith)
        | inr (wit, there) ↦
            read_bytes-eq-taken (get_elem? tx.decoded.outs (2 * k)) tx.decoded.locktime
              (from_hex wit) h (ground arith)
      ]

  -- A loan opened by a take of the offer through a transaction's `k`th input: its coin is the explicit
  -- output `2 * k` of the transaction, at the
  -- script of the offer's vault for its borrower, of 32 bytes, which owes the offer's debt from the
  -- lock time on.
  pub record IsTaken (tx : ChainTx) (k : ℕ) (o : OpenedLoan) : Type 0 where
    pub out : Decoded
    pub at_place : o.vout ≡ 2 * k
    pub there : get_elem? tx.decoded.outs (2 * k) ≡ some out
    pub txid : o.txid ≡ tx.txid
    pub amount : out.value ≡ some o.amount
    pub asset : out.asset ≡ some o.asset
    pub spk : out.spk ≡ o.spk
    pub terms : o.terms ≡ offer.terms
    pub debt : o.debt ≡ offer.debt
    pub last_time : o.last_time ≡ tx.decoded.locktime
    pub borrower : IsHash o.borrower_hash
    pub script :
        o.spk ≡ vault_spk (record o.terms { borrower_hash = o.borrower_hash }) (o.debt, o.last_time)

  pub opened_by-IsTaken :
      (h : Text) (tx : ChainTx) (k : ℕ) (w : Where) (d : Decoded) (o : OpenedLoan)
      → get_elem? tx.decoded.outs (2 * k) ≡ some d
      → vault_for vault_spk offer h tx.decoded.locktime ≡ d.spk
      → IsHash h
      → opened_by offer h tx k w (some d) ≡ ok o
      → IsTaken tx k o
  unfolding opened_by vault_for
  opened_by-IsTaken h tx k w d o there derived hash e = elim (Option-cases d.value) [
    | inl hidden ↦ absurd (ground arith)
    | inr (amount, v) ↦ elim (Option-cases d.asset) [
      | inl hidden ↦ absurd (ground arith)
      | inr (asset, a) ↦
          let same : record {
            terms = offer.terms;
            borrower_hash = h;
            txid = tx.txid;
            vout = 2 * k;
            amount = amount;
            asset = asset;
            spk = d.spk;
            debt = offer.debt;
            last_time = tx.decoded.locktime;
            place = place_of w;
          }
              ≡ o =
            ground arith in
          subst (IsTaken tx k) same record {
            out = d;
            at_place = refl;
            there = there;
            txid = refl;
            amount = v;
            asset = a;
            spk = refl;
            terms = refl;
            debt = refl;
            last_time = refl;
            borrower = hash;
            script = sym derived;
          }
    ]
  ]
