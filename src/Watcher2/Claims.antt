-- ===== src/Watcher2/Claims.antt =====
-- A loan that a take opened, by what the node shows to `reconcile_offer` of pignus/watcher2.py.
use pignus.Prelude.{ℕ, ◌≡◌, refl, Option, none, some, List, [], ◌∷◌, Text, get_elem?, All}
use pignus.Vault2.Terms.{V2Terms, State}
use pignus.Vault2.Spend.{V2Offer}
use pignus.Watcher2.{ChainTx, Node, Where}
use pignus.Watcher2.Found.{Spends, IsShown}
use pignus.Watcher2.Claimed.{IsTaken}
use pignus.Watcher2.Offer.{OfferStep, OfferCoin, coin, OpenedLoan}

-- A step stands in a line.
abbrev pub Stands : OfferStep → List OfferStep → Type 0
Stands s line = (i : ℕ) × (get_elem? line i ≡ some s)

module _ (vault_spk : V2Terms → State → Text) (offer : V2Offer) where
  -- A loan that a take opened: the transaction of the take, which the node shows, spends by its `k`th
  -- input the coin that a step of the offer's line left, and the loan stands at its output `2 * k`.
  pub record IsClaimed (node : Node) (line : List OfferStep) (o : OpenedLoan) : Type 0 where
    pub tx : ChainTx
    pub k : ℕ
    pub w : Where
    pub from_height : ℕ
    pub cur : OfferStep
    pub held : OfferCoin
    pub taken : IsTaken vault_spk offer tx k o
    pub in_line : Stands cur line
    pub holds : cur.holds ≡ coin held
    pub spends : Spends tx k cur.txid held.vout
    pub is_shown : IsShown node from_height tx w

  Stands-All :
      (node : Node) (line all : List OfferStep) (os : List OpenedLoan)
      → ((s : OfferStep) → Stands s line → Stands s all)
      → All (IsClaimed node line) os
      → All (IsClaimed node all) os
  Stands-All node line all [] keep each = tt
  Stands-All node line all (o ∷ os) keep (first, rest) = (
    record {
      tx = first.tx;
      k = first.k;
      w = first.w;
      from_height = first.from_height;
      cur = first.cur;
      held = first.held;
      taken = first.taken;
      in_line = keep first.cur first.in_line;
      holds = first.holds;
      spends = first.spends;
      is_shown = first.is_shown;
    },
    Stands-All node line all os keep rest,
  )

  abbrev pub AllTaken : ChainTx → ℕ → Option OpenedLoan → Type 0
  AllTaken tx k none = Unit
  AllTaken tx k (some o) = IsTaken vault_spk offer tx k o

  abbrev pub AllClaimed : Node → List OfferStep → Option OpenedLoan → Type 0
  AllClaimed node line none = Unit
  AllClaimed node line (some o) = IsClaimed node line o

  pub claimed :
      (node : Node) (tx : ChainTx) (k : ℕ) (w : Where) (from_height : ℕ) (cur : OfferStep)
      (c : OfferCoin) (line : List OfferStep) (o : Option OpenedLoan)
      → cur.holds ≡ coin c
      → Spends tx k cur.txid c.vout
      → IsShown node from_height tx w
      → AllTaken tx k o
      → AllClaimed node (cur ∷ line) o
  claimed node tx k w from_height cur c line none holds spends there is = tt
  claimed node tx k w from_height cur c line (some o) holds spends there is = record {
    tx = tx;
    k = k;
    w = w;
    from_height = from_height;
    cur = cur;
    held = c;
    taken = is;
    in_line = (0, refl);
    holds = holds;
    spends = spends;
    is_shown = there;
  }

  pub kept_claim :
      (node : Node) (o : Option OpenedLoan) (line all : List OfferStep)
      → ((s : OfferStep) → Stands s line → Stands s all)
      → AllClaimed node line o
      → AllClaimed node all o
  kept_claim node none line all keep is = tt
  kept_claim node (some o) line all keep is = (Stands-All node line all (o ∷ []) keep (is, tt)).0
