-- ===== src/Fees/Tests.antt =====
-- The theorems on fees, at sample wallets.
use pignus.Prelude.{ℕ, ◌+◌, ◌≤◌, ◌≡◌, refl, true, none, some, [], ◌∷◌, codes, ok}
use pignus.Prelude.Ceil.{ceil_div}
use pignus.Tx.Dict.{get, has_key}
use pignus.Fees.{Wallet, fee_atoms, dust_atoms, vsizes, vsize_of, among, named, pick_fee}
use pignus.Fees.Choice.{IsEnough, WouldDo, pick_fee_sound}

-- Enough of asset 1 for the fee but not besides what the flow needs; asset 2 pays.
abbrev wallet : Wallet
wallet = record {
  rates = (1, 100_000_000) ∷ (2, 50_000_000) ∷ [];
  feerate = none;
  holdings = (2, 9000) ∷ (1, 5000) ∷ (3, 1) ∷ [];
  committed = (1, 4000) ∷ [];
}

dust_there : dust_atoms 100_000_000 ≡ 15
unfolding dust_atoms ceil_div
dust_there = refl

fee_there : fee_atoms 100_000 2000 2000 ≡ 4_000_000
unfolding fee_atoms ceil_div
fee_there = refl

picked : pick_fee wallet (codes "repay") (some 1 ∷ none ∷ []) ≡ ok (2, 8000)
unfolding pick_fee vsize_of fee_atoms ceil_div get has_key
picked = refl

pick_fee_sound_example :
    (has_key wallet.holdings 2 ≡ true)
    × (1 ≤ get wallet.rates 2)
    × IsEnough (get wallet.rates 2) (vsize_of vsizes (codes "repay")) 2000 8000
    × ((n : ℕ) → IsEnough (get wallet.rates 2) (vsize_of vsizes (codes "repay")) 2000 n → 8000 ≤ n)
    × (get wallet.committed 2 + 8000 ≤ get wallet.holdings 2)
    × ((b : ℕ)
        → among b (named (some 1 ∷ none ∷ [])) ≡ true
        → WouldDo wallet (vsize_of vsizes (codes "repay")) b
        → among 2 (named (some 1 ∷ none ∷ [])) ≡ true)
pick_fee_sound_example = pick_fee_sound wallet (codes "repay") (some 1 ∷ none ∷ []) picked
