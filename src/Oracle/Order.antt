-- ===== src/Oracle/Order.antt =====
-- The sort by price: it keeps what it sorts, and a prefix of it holds the lowest prices.
use pignus.Prelude.{
  ℕ, zero, suc, ◌+◌, ◌≤◌, ◌≡◌, refl, [], ◌∷◌, leb, if◌then◌else◌, length, take, All, arith,
}
use pignus.Oracle.{Attestation, Usable, insert_by_price, sort_by_price, max_price}

-- How many entries have a price of at most `p`.
unfoldable pub count_le : ℕ → Usable → ℕ
count_le p [] = 0
count_le p (e ∷ es) = (if leb e.1.price p then 1 else 0) + count_le p es

count_le-insert_by_price :
    (p : ℕ) (e : ℕ × Attestation) (es : Usable)
    → count_le p (insert_by_price e es) ≡ (if leb e.1.price p then 1 else 0) + count_le p es
unfolding count_le insert_by_price
count_le-insert_by_price p e [] = refl
count_le-insert_by_price p e (f ∷ fs) = ground (arith, count_le-insert_by_price p e fs)

pub count_le-sort_by_price : (p : ℕ) (es : Usable) → count_le p (sort_by_price es) ≡ count_le p es
unfolding count_le sort_by_price
count_le-sort_by_price p [] = refl
count_le-sort_by_price p (e ∷ es) =
    ground (arith, count_le-insert_by_price p e (sort_by_price es), count_le-sort_by_price p es)

length-insert_by_price :
    (e : ℕ × Attestation) (es : Usable) → length (insert_by_price e es) ≡ suc (length es)
unfolding insert_by_price
length-insert_by_price e [] = refl
length-insert_by_price e (f ∷ fs) = ground (arith, length-insert_by_price e fs)

pub length-sort_by_price : (es : Usable) → length (sort_by_price es) ≡ length es
unfolding sort_by_price
length-sort_by_price [] = refl
length-sort_by_price (e ∷ es) =
    ground (arith, length-insert_by_price e (sort_by_price es), length-sort_by_price es)

-- Each entry's price is at most those behind it.
abbrev pub IsSorted : Usable → Type 0
IsSorted [] = Unit
IsSorted (e ∷ es) = All (λ f. e.1.price ≤ f.1.price) es × IsSorted es

All-insert_by_price :
    (p : ℕ) (e : ℕ × Attestation) (es : Usable)
    → p ≤ e.1.price
    → All (λ f. p ≤ f.1.price) es
    → All (λ f. p ≤ f.1.price) (insert_by_price e es)
unfolding insert_by_price
All-insert_by_price p e [] h a = (h, tt)
All-insert_by_price p e (f ∷ fs) h a = ground (arith, All-insert_by_price p e fs)

All-le_trans :
    (p q : ℕ) (es : Usable) → p ≤ q → All (λ f. q ≤ f.1.price) es → All (λ f. p ≤ f.1.price) es
All-le_trans p q [] h a = tt
All-le_trans p q (e ∷ es) h a = (omega arith, All-le_trans p q es h a.1)

insert_by_price-IsSorted :
    (e : ℕ × Attestation) (es : Usable) → IsSorted es → IsSorted (insert_by_price e es)
unfolding insert_by_price
insert_by_price-IsSorted e [] s = (tt, tt)
insert_by_price-IsSorted e (f ∷ fs) s = ground (
  arith,
  insert_by_price-IsSorted e fs,
  All-insert_by_price f.1.price e fs,
  All-le_trans e.1.price f.1.price fs,
)

pub sort_by_price-IsSorted : (es : Usable) → IsSorted (sort_by_price es)
unfolding sort_by_price
sort_by_price-IsSorted [] = tt
sort_by_price-IsSorted (e ∷ es) =
    insert_by_price-IsSorted e (sort_by_price es) (sort_by_price-IsSorted es)

-- No entry behind a price above `p` counts.
count_le_none :
    (p q : ℕ) (es : Usable) → suc p ≤ q → All (λ f. q ≤ f.1.price) es → count_le p es ≡ 0
unfolding count_le
count_le_none p q [] h a = refl
count_le_none p q (e ∷ es) h a = ground (arith, count_le_none p q es)

-- Where at least `k` sorted entries are at most `p`, the first `k` are.
pub max_price-take-le :
    (k p : ℕ) (es : Usable) → IsSorted es → k ≤ count_le p es → max_price (take k es) ≤ p
unfolding count_le max_price
max_price-take-le zero p es s h = omega arith
max_price-take-le (suc k) p [] s h = omega arith
max_price-take-le (suc k) p (e ∷ es) s h =
    ground (arith, max_price-take-le k p es, count_le_none p e.1.price es)
