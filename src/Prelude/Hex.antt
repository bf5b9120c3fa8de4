-- ===== src/Prelude/Hex.antt =====
-- Python's `bytes.fromhex`, `bytes.hex` and `str.lower`, on texts of ASCII code points.
use Prim.Native.Nat.{ℕ, ◌<◌, ◌+◌, ◌-◌, ◌*◌, ◌/◌, ◌%◌}
use mathlib.Core.Path.{◌≡◌, refl}
use mathlib.Core.Bool.{Bool, false, ◌&&◌, ◌||◌}
use mathlib.Core.Option.{Option, none, some}
use mathlib.Core.List.{[], ◌∷◌, map}
use pignus.Prelude.Tests.{ltb, leb, ◌==◌, if◌then◌else◌}
use native.Mathlib.Omega.{arith}
use pignus.Prelude.Lists.{Text, codes, All}

lower_char : ℕ → ℕ
lower_char c = if leb b'A' c && leb c b'Z' then c + 32 else c

-- `s.lower()`
unfoldable pub lower : Text → Text
unfolding lower_char
lower s = map lower_char s

hex_value : ℕ → Option ℕ
hex_value c =
    if leb b'0' c && leb c b'9'
    then some (c - 48)
    else if leb b'a' c && leb c b'f'
    then some (c - 87)
    else if leb b'A' c && leb c b'F'
    then some (c - 55)
    else none

-- The white space that `fromhex` skips between bytes.
is_space : ℕ → Bool
is_space c = (leb 9 c && leb c 13) || c == 32

byte_of : Option ℕ → Option ℕ → Option Text → Option Text
byte_of (some h) (some l) (some rest) = some ((h * 16 + l) ∷ rest)
byte_of (some h) (some l) none = none
byte_of (some h) none rest = none
byte_of none l rest = none

-- `bytes.fromhex(s)`; none where it raises.
unfoldable pub from_hex : Text → Option Text
unfolding hex_value is_space byte_of
from_hex [] = some []
from_hex (c ∷ []) = if is_space c then some [] else none
from_hex (c ∷ d ∷ s) =
    let skipped = from_hex (d ∷ s) in
    let rest = from_hex s in
    if is_space c then skipped else byte_of (hex_value c) (hex_value d) rest

hex_digit : ℕ → ℕ
hex_digit n = if ltb n 10 then n + 48 else n + 87

-- `b.hex()`
unfoldable pub to_hex : Text → Text
unfolding hex_digit
to_hex [] = []
to_hex (b ∷ bs) = hex_digit (b / 16) ∷ hex_digit (b % 16) ∷ to_hex bs

hex_there : from_hex (codes "0aF0") ≡ some (10 ∷ 240 ∷ [])
unfolding from_hex
hex_there = refl

hex_back : to_hex (10 ∷ 240 ∷ []) ≡ codes "0af0"
unfolding to_hex
hex_back = refl

lower_char_again : (c : ℕ) → lower_char (lower_char c) ≡ lower_char c
unfolding lower_char
lower_char_again c = ground arith

-- Lowering twice is lowering.
pub lower-lower : (s : Text) → lower (lower s) ≡ lower s
unfolding lower
lower-lower [] = refl
lower-lower (c ∷ s) = ground (arith, lower_char_again c, lower-lower s)

lower_char-hex_digit : (n : ℕ) → n < 16 → lower_char (hex_digit n) ≡ hex_digit n
unfolding lower_char hex_digit
lower_char-hex_digit n h = ground arith

-- The hex of bytes is in lower case.
pub lower-to_hex : (bs : Text) → All (λ (b : ℕ). b < 256) bs → lower (to_hex bs) ≡ to_hex bs
unfolding lower to_hex
lower-to_hex [] h = refl
lower-to_hex (b ∷ bs) (low, rest) = ground (
  arith,
  lower_char-hex_digit (b / 16) (omega arith),
  lower_char-hex_digit (b % 16) (omega arith),
  lower-to_hex bs rest,
)

hex_value-hex_digit : (n : ℕ) → n < 16 → hex_value (hex_digit n) ≡ some n
unfolding hex_value hex_digit
hex_value-hex_digit n h = ground arith

is_space-hex_digit : (n : ℕ) → n < 16 → is_space (hex_digit n) ≡ false
unfolding is_space hex_digit
is_space-hex_digit n h = ground arith

-- Bytes are read back from their hex.
pub from_hex-to_hex : (bs : Text) → All (λ (b : ℕ). b < 256) bs → from_hex (to_hex bs) ≡ some bs
unfolding from_hex to_hex byte_of
from_hex-to_hex [] h = refl
from_hex-to_hex (b ∷ bs) (low, rest) =
    rw
      (
        is_space-hex_digit (b / 16) (omega (arith, low)),
        hex_value-hex_digit (b / 16) (omega (arith, low)),
        hex_value-hex_digit (b % 16) (omega arith),
        from_hex-to_hex bs rest,
      )
      (ground (arith, low))
