-- ===== src/Pktline/Hex.antt =====
-- `parseHexLength` (pktline/reader.go) and `encodeHexLength` (pktline/writer.go).
use go_ls_remote.Base.{
  ℕ, ◌+◌, ◌-◌, ◌*◌, ◌/◌, ◌%◌, ◌<◌, ◌≡◌, refl, Bool, true, false, ◌&&◌, Option, none, some, [], ◌∷◌,
  arith, leb, ◌==◌, if◌then◌else◌, Bytes, get_or, Result, ok, err,
}
use go_ls_remote.Base.Text.{bytes}
use go_ls_remote.Base.Table.{holds_below, holds_below_sound}
use go_ls_remote.Pktline.{ReadError, invalid_hex}

-- The switch on one byte; either case is read.
unfoldable pub hex_value : ℕ → Option ℕ
hex_value c =
    if leb b'0' c && leb c b'9'
    then some (c - b'0')
    else if leb b'a' c && leb c b'f'
    then some (c - b'a' + 10)
    else if leb b'A' c && leb c b'F'
    then some (c - b'A' + 10)
    else none

-- The loop. `v<<4 | n` adds, since the low four bits of `v<<4` are clear.
pub parse_hex_from : ℕ → Bytes → Result ReadError ℕ
parse_hex_from v [] = ok v
parse_hex_from v (c ∷ b) = elim (hex_value c) [
  | some n ↦ parse_hex_from (v * 16 + n) b
  | none ↦ err invalid_hex
]

unfoldable pub parse_hex_length : Bytes → Result ReadError ℕ
unfolding parse_hex_from
parse_hex_length = parse_hex_from 0

-- `hex[n]`.
unfoldable pub hex_digit : ℕ → ℕ
hex_digit n = get_or (bytes "0123456789abcdef") n 0

unfoldable pub encode_hex_length : ℕ → Bytes
encode_hex_length v =
    hex_digit (v / 4096 % 16)
    ∷ hex_digit (v / 256 % 16)
    ∷ hex_digit (v / 16 % 16)
    ∷ hex_digit (v % 16)
    ∷ []

-- `n` is read back from its digit.
abbrev reads_back : ℕ → Bool
reads_back n = elim (hex_value (hex_digit n)) [ some m ↦ m == n | none ↦ false ]

pub hex_value-hex_digit : (n : ℕ) → n < 16 → hex_value (hex_digit n) ≡ some n
hex_value-hex_digit n h = ground (arith, holds_below_sound 16 reads_back table n h)
  where
    table : holds_below 16 reads_back ≡ true
    table = unfold holds_below hex_value hex_digit in refl

-- The prefix of every length below 2^16 is read back as that length.
pub parse_hex_length-encode_hex_length :
    (v : ℕ) → v < 65536 → parse_hex_length (encode_hex_length v) ≡ ok v
unfolding parse_hex_from encode_hex_length parse_hex_length
parse_hex_length-encode_hex_length v h = ground (
  arith,
  hex_value-hex_digit (v / 4096 % 16) (omega arith),
  hex_value-hex_digit (v / 256 % 16) (omega arith),
  hex_value-hex_digit (v / 16 % 16) (omega arith),
  hex_value-hex_digit (v % 16) (omega arith),
)
