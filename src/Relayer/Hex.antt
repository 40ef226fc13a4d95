-- ===== src/Relayer/Hex.antt =====
-- Hexadecimal text as Node writes and reads it: `buffer.toString('hex')` and
-- `Buffer.from(text, 'hex')`, which stops at the first pair that is not hexadecimal.
use pactum.Prelude.{
  ℕ, ◌+◌, ◌-◌, ◌*◌, ◌/◌, ◌%◌, ◌<◌, ◌≡◌, refl, ap, [], ◌∷◌, ◌&&◌, if◌then◌else◌, ltb, leb, ◌==◌,
  Option, none, some, arith, Text, Bytes, IsBytes,
}

unfoldable pub hex_digit : ℕ → ℕ
hex_digit n = if ltb n 10 then n + 48 else n + 87

unfoldable pub hex_value : ℕ → Option ℕ
hex_value c =
    if leb 48 c && leb c 57
    then some (c - 48)
    else if leb 97 c && leb c 102
    then some (c - 87)
    else if leb 65 c && leb c 70
    then some (c - 55)
    else none

unfoldable pub to_hex : Bytes → Text
to_hex [] = []
to_hex (b ∷ bs) = hex_digit (b / 16) ∷ hex_digit (b % 16) ∷ to_hex bs

hex_pair : Option ℕ → Option ℕ → Bytes → Bytes
hex_pair (some hi) (some lo) rest = (hi * 16 + lo) ∷ rest
hex_pair (some hi) none rest = []
hex_pair none lo rest = []

unfoldable pub from_hex : Text → Bytes
unfolding hex_pair
from_hex [] = []
from_hex (c ∷ []) = []
from_hex (c ∷ d ∷ rest) = hex_pair (hex_value c) (hex_value d) (from_hex rest)

-- `0x${buffer.toString('hex')}`
unfoldable pub hex_text : Bytes → Text
hex_text bs = b'0' ∷ b'x' ∷ to_hex bs

-- `.replace(/^0x/, '')`
unfoldable pub strip_prefix : Text → Text
strip_prefix [] = []
strip_prefix (c ∷ []) = c ∷ []
strip_prefix (c ∷ d ∷ rest) = if c == b'0' && d == b'x' then rest else c ∷ d ∷ rest

-- `Buffer.from(node.sibling.replace(/^0x/, ''), 'hex')`
unfoldable pub parse_hex : Text → Bytes
parse_hex s = from_hex (strip_prefix s)

pub hex_value-hex_digit : (n : ℕ) → n < 16 → hex_value (hex_digit n) ≡ some n
unfolding hex_value hex_digit
hex_value-hex_digit n h = ground arith

pub from_hex-to_hex : (bs : Bytes) → IsBytes bs → from_hex (to_hex bs) ≡ bs
unfolding from_hex to_hex
from_hex-to_hex [] h = refl
from_hex-to_hex (b ∷ bs) h =
    rw
      (
        hex_value-hex_digit (b / 16) (omega arith),
        hex_value-hex_digit (b % 16) (omega arith),
        from_hex-to_hex bs h.1,
      )
      (ap (λ (c : ℕ). c ∷ bs) (omega arith))

-- Bytes that are written as hexadecimal text are read back unchanged.
pub parse_hex-hex_text : (bs : Bytes) → IsBytes bs → parse_hex (hex_text bs) ≡ bs
unfolding parse_hex hex_text strip_prefix
parse_hex-hex_text bs h = from_hex-to_hex bs h
