-- ===== src/Tx/Dict.antt =====
-- A Python dict from assets to amounts, in insertion order, read with a default of 0.
use pignus.Prelude.{ℕ, ◌+◌, ◌≡◌, refl, Bool, true, false, List, [], ◌∷◌, ◌==◌, if◌then◌else◌, arith}

abbrev pub Dict : Type 0
Dict = List (ℕ × ℕ)

-- `d.get(k, 0)`
unfoldable pub get : Dict → ℕ → ℕ
get [] k = 0
get ((j, n) ∷ d) k = if j == k then n else get d k

-- `d[k] = d.get(k, 0) + n`
unfoldable pub add : Dict → ℕ → ℕ → Dict
add [] k n = (k, n) ∷ []
add ((j, m) ∷ d) k n = if j == k then (j, m + n) ∷ d else (j, m) ∷ add d k n

unfoldable pub has_key : Dict → ℕ → Bool
has_key [] k = false
has_key ((j, n) ∷ d) k = if j == k then true else has_key d k

pub get-add : (d : Dict) (k n j : ℕ) → get (add d k n) j ≡ get d j + (if k == j then n else 0)
unfolding get add
get-add [] k n j = ground arith
get-add ((i, m) ∷ d) k n j = ground (arith, get-add d k n j)

has_key-add :
    (d : Dict) (k n j : ℕ) → has_key (add d k n) j ≡ (if k == j then true else has_key d j)
unfolding has_key add
has_key-add [] k n j = ground arith
has_key-add ((i, m) ∷ d) k n j = ground (arith, has_key-add d k n j)

-- No key twice, as in every dict.
abbrev pub IsDict : Dict → Type 0
IsDict [] = Unit
IsDict ((j, n) ∷ d) = (has_key d j ≡ false) × IsDict d

pub add-IsDict : (d : Dict) (k n : ℕ) → IsDict d → IsDict (add d k n)
unfolding add has_key
add-IsDict [] k n h = ground arith
add-IsDict ((j, m) ∷ d) k n h = ground (arith, add-IsDict d k n h.1, has_key-add d k n j)

-- A key that is not there reads as 0.
pub get_absent : (d : Dict) (k : ℕ) → has_key d k ≡ false → get d k ≡ 0
unfolding get has_key
get_absent [] k h = refl
get_absent ((j, n) ∷ d) k h = ground (arith, get_absent d k)
