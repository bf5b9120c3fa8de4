-- ===== src/Watcher2/Offer.antt =====
-- `V2Watcher.reconcile_offer` of pignus/watcher2.py. A line of steps is a list with the newest first.
use pignus.Prelude.{
  ℕ, zero, suc, ◌+◌, ◌*◌, Bool, Option, none, some, List, [], ◌∷◌, Text, codes, text_eq, get_elem?,
  if◌then◌else◌, Result, ok, err, ◌>>=◌,
}
use pignus.Vault2.Terms.{V2Terms, State}
use pignus.Vault2.Spend.{V2Offer}
use pignus.Vault2.Spend.Follow.{Decoded}
use pignus.Watcher2.{
  ChainTx, Node, Where, Place, in_block, in_mempool, gone, or_height, where_is, spender, place_of,
}
use pignus.Watcher2.Take.{TakeReading, no_take, bad_witness, taken_by, borrower_from_take}

pub data OfferEvent : Type 0 where
  take refund spent_unknown : OfferEvent

-- The coin that an offer holds, or that a step closed it.
pub record OfferCoin : Type 0 where
  pub vout : ℕ
  pub amount : ℕ
  pub spk : Text

pub data OfferHolds : Type 0 where
  coin : OfferCoin → OfferHolds
  closed : OfferHolds

pub record OfferStep : Type 0 where
  pub txid : Text
  pub event : Option OfferEvent
  pub place : Place
  pub holds : OfferHolds

pub data OfferStatus : Type 0 where
  open_offer ghost taken refunded gone_offer : OfferStatus

-- The record of an offer in the book; whether its coin is confirmed stands with the coin.
pub record OfferRec : Type 0 where
  pub offer : V2Offer
  pub line : List OfferStep
  pub status : OfferStatus
  pub taken : ℕ
  pub held : Option (Text × OfferCoin × Bool)

-- A loan that a take opened.
pub record OpenedLoan : Type 0 where
  pub terms : V2Terms
  pub borrower_hash : Text
  pub txid : Text
  pub vout : ℕ
  pub amount : ℕ
  pub asset : Text
  pub spk : Text
  pub debt : ℕ
  pub last_time : ℕ
  pub place : Place

pub data OfferError : Type 0 where
  bad_witness_hex hidden_output : OfferError

-- The first loop: the newest steps whose transactions have gone are undone.
unfoldable pub kept_from : OfferStep → List OfferStep → List OfferStep → Where → List OfferStep
kept_from s line rest gone = rest
kept_from s line rest (in_block h bh) = record s { place = place_of (in_block h bh) } ∷ line
kept_from s line rest in_mempool = record s { place = place_of in_mempool } ∷ line

unfoldable pub kept_steps : Node → List OfferStep → List OfferStep
kept_steps node [] = []
kept_steps node (s ∷ line) = kept_from s line (kept_steps node line) (where_is node s.txid s.place)

-- The loan that a take by a borrower opens at its output.
unfoldable pub opened_by :
    V2Offer → Text → ChainTx → ℕ → Where → Option Decoded → Result OfferError OpenedLoan
opened_by offer h tx k w none = err hidden_output
opened_by offer h tx k w (some vo) = elim vo.value [
  | none ↦ err hidden_output
  | some amount ↦ elim vo.asset [
    | none ↦ err hidden_output
    | some asset ↦ ok record {
      terms = offer.terms;
      borrower_hash = h;
      txid = tx.txid;
      vout = 2 * k;
      amount = amount;
      asset = asset;
      spk = vo.spk;
      debt = offer.debt;
      last_time = tx.decoded.locktime;
      place = place_of w;
    }
  ]
]

-- What a take leaves of the offer's coin, by the output after the vault.
unfoldable pub rest_of : Text → ChainTx → ℕ → Option Decoded → Result OfferError OfferHolds
rest_of spk tx k none = ok closed
rest_of spk tx k (some rest) =
    if text_eq rest.spk spk
    then (elim rest.value as (λ v. Result OfferError OfferHolds) [
      | none ↦ err hidden_output
      | some amount ↦ ok (coin record { vout = 2 * k + 1; amount = amount; spk = spk })
    ])
    else ok closed

-- The event of a spend that is no take, by the output that the vault would stand at.
unfoldable pub other_event : V2Offer → Option Decoded → OfferEvent
other_event offer none = spent_unknown
other_event offer (some main) =
    if text_eq main.spk offer.terms.lender_spk then refund else spent_unknown

-- A step that a spend makes, and the loan that it opens.
abbrev pub Spent : Type 0
Spent = OfferStep × Option OpenedLoan

unfoldable pub spent_as :
    V2Offer → Text → ChainTx → ℕ → Where → TakeReading → Result OfferError Spent
spent_as offer spk tx k w bad_witness = err bad_witness_hex
spent_as offer spk tx k w no_take = ok (
  record {
    txid = tx.txid;
    event = some (other_event offer (get_elem? tx.decoded.outs (2 * k)));
    place = place_of w;
    holds = closed;
  },
  none,
)
spent_as offer spk tx k w (taken_by h) = do
  o ← opened_by offer h tx k w (get_elem? tx.decoded.outs (2 * k))
  left ← rest_of spk tx k (get_elem? tx.decoded.outs (2 * k + 1))
  ok (record { txid = tx.txid; event = some take; place = place_of w; holds = left }, some o)

abbrev pub also : Option OpenedLoan → List OpenedLoan → List OpenedLoan
also none os = os
also (some o) os = o ∷ os

module _ (vault_spk : V2Terms → State → Text) (node : Node) (offer : V2Offer) where
  unfoldable pub read_found : Text → Option (ChainTx × ℕ × Where) → Result OfferError (Option Spent)
  read_found spk none = ok none
  read_found spk (some (tx, k, w)) =
      spent_as offer spk tx k w (borrower_from_take vault_spk offer tx k) >>= λ s. ok (some s)

  -- One round of the second loop.
  unfoldable pub next_spend : OfferStep → OfferHolds → Result OfferError (Option Spent)
  next_spend s closed = ok none
  next_spend s (coin c) =
      let found = spender node s.txid c.vout (or_height s.place.height node.tip) in
      elim (node.gettxout s.txid c.vout) [ some conf ↦ ok none | none ↦ read_found c.spk found ]

  -- The second loop, of `n` rounds at most: the line and the loans that it opened.
  unfoldable pub step_on : ℕ → List OfferStep → Result OfferError (List OfferStep × List OpenedLoan)
  step_on zero line = ok (line, [])
  step_on (suc n) [] = ok ([], [])
  step_on (suc n) (cur ∷ line) = next_spend cur cur.holds >>= λ found. elim found [
    | none ↦ ok (cur ∷ line, [])
    | some (s, o) ↦ step_on n (s ∷ cur ∷ line) >>= λ (all, os). ok (all, also o os)
  ]

unfoldable pub closed_status : Option OfferEvent → OfferStatus
closed_status (some take) = taken
closed_status (some refund) = refunded
closed_status (some spent_unknown) = gone_offer
closed_status none = gone_offer

-- The end of `reconcile_offer`, by the newest step.
unfoldable pub shown : OfferRec → OfferStep → OfferHolds → OfferRec
shown rec s closed = record rec { status = closed_status s.event }
shown rec s (coin c) = record rec {
  status = open_offer;
  held = some (s.txid, c, text_eq s.place.kind (codes "block"));
}

unfoldable pub settle_offer : OfferRec → List OfferStep → ℕ → OfferRec
settle_offer rec [] n = record rec { line = []; status = ghost }
settle_offer rec (s ∷ line) n =
    shown (record rec { line = s ∷ line; taken = rec.taken + n }) s s.holds

unfoldable pub count_of : List OpenedLoan → ℕ
count_of [] = 0
count_of (o ∷ os) = count_of os + 1

-- `V2Watcher.reconcile_offer`
unfoldable pub reconcile_offer :
    (V2Terms → State → Text) → Node → OfferRec → Result OfferError (OfferRec × List OpenedLoan)
reconcile_offer vault_spk node rec =
    step_on vault_spk node rec.offer 64 (kept_steps node rec.line) >>= λ (all, os).
    ok (settle_offer rec all (count_of os), os)
