-- ===== src/Objfmt/Hash.antt =====
-- internal/objfmt/hash.go and algo.go: object ids and their hex text. An id is its raw bytes; the
-- functions of Go's encoding/hex that the sources call are written out.
use go_ls_remote.Base.{
  ℕ, ◌+◌, ◌-◌, ◌*◌, ◌/◌, ◌%◌, ◌<◌, ◌≡◌, refl, Bool, true, false, ◌&&◌, [], ◌∷◌, Option, none, some,
  arith, leb, ◌==◌, if◌then◌else◌, Bytes, IsByte, All, length, get_or,
}
use go_ls_remote.Base.Text.{bytes}
use go_ls_remote.Base.Table.{holds_below, holds_below_sound}
use go_ls_remote.Base.Fields.{is_space, Solid}

-- `Algo`: `SHA1` and `SHA256`.
pub data Algo : Type 0 where
  sha1 sha256 : Algo

-- `Size`.
abbrev pub size : Algo → ℕ
size sha1 = 20
size sha256 = 32

-- `String`.
abbrev pub to_string : Algo → Bytes
to_string sha1 = bytes "sha1"
to_string sha256 = bytes "sha256"

-- `IsZero`.
unfoldable pub is_zero : Bytes → Bool
is_zero [] = true
is_zero (c ∷ h) = if c == 0 then is_zero h else false

abbrev pub zeros : ℕ → Bytes
zeros ℕ.zero = []
zeros (ℕ.suc n) = 0 ∷ zeros n

-- The zero value of a hash type.
abbrev pub zero_id : Algo → Bytes
zero_id algo = zeros (size algo)

unfoldable pub digit : ℕ → ℕ
digit n = get_or (bytes "0123456789abcdef") n 0

-- `Hex` and the text that `AppendHex` appends.
unfoldable pub hex : Bytes → Bytes
hex [] = []
hex (c ∷ h) = digit (c / 16 % 16) ∷ digit (c % 16) ∷ hex h

-- One digit of `hex.Decode`, which takes either case.
unfoldable pub digit_value : ℕ → Option ℕ
digit_value c =
    if leb b'0' c && leb c b'9'
    then some (c - b'0')
    else if leb b'a' c && leb c b'f'
    then some (c - b'a' + 10)
    else if leb b'A' c && leb c b'F'
    then some (c - b'A' + 10)
    else none

abbrev pair_value : Option ℕ → Option ℕ → Option Bytes → Option Bytes
pair_value (some x) (some y) (some h) = some ((x * 16 + y) ∷ h)
pair_value _ _ _ = none

-- `hex.Decode`.
pub hex_decode : Bytes → Option Bytes
hex_decode [] = some []
hex_decode (a ∷ []) = none
hex_decode (a ∷ b ∷ s) = pair_value (digit_value a) (digit_value b) (hex_decode s)

-- `ParseHex`.
unfoldable pub parse_hex : Algo → Bytes → Option Bytes
parse_hex algo s = if length s == size algo * 2 then hex_decode s else none

abbrev digit_reads_back : ℕ → Bool
digit_reads_back n = elim (digit_value (digit n)) [ some m ↦ m == n | none ↦ false ]

digit_value-digit : (n : ℕ) → n < 16 → digit_value (digit n) ≡ some n
digit_value-digit n h = ground (arith, holds_below_sound 16 digit_reads_back table n h)
  where
    table : holds_below 16 digit_reads_back ≡ true
    table = unfold holds_below digit_value digit in refl

pub length-hex : (h : Bytes) → length (hex h) ≡ length h * 2
unfolding hex
length-hex [] = refl
length-hex (c ∷ h) = omega (arith, length-hex h)

hex_decode-hex : (h : Bytes) → All IsByte h → hex_decode (hex h) ≡ some h
unfolding hex hex_decode
hex_decode-hex [] hb = refl
hex_decode-hex (c ∷ h) hb = ground (
  arith,
  digit_value-digit (c / 16 % 16) (omega arith),
  digit_value-digit (c % 16) (omega arith),
  hex_decode-hex h hb.1,
)

-- `ParseHex` reads the hex text of every object id of the algorithm back as that id.
pub parse_hex-hex :
    (algo : Algo) (h : Bytes)
    → length h ≡ size algo
    → All IsByte h
    → parse_hex algo (hex h) ≡ some h
unfolding parse_hex
parse_hex-hex algo h l hb = ground (arith, length-hex h, hex_decode-hex h hb)

-- A digit is no white space.
digit_solid : (n : ℕ) → n < 16 → is_space (digit n) ≡ false
digit_solid n h =
    ground (arith, holds_below_sound 16 (λ k. if is_space (digit k) then false else true) table n h)
  where
    table : holds_below 16 (λ k. if is_space (digit k) then false else true) ≡ true
    table = unfold holds_below is_space digit in refl

pub hex-Solid : (h : Bytes) → Solid is_space (hex h)
unfolding hex
hex-Solid [] = tt
hex-Solid (c ∷ h) =
    (digit_solid (c / 16 % 16) (omega arith), (digit_solid (c % 16) (omega arith), hex-Solid h))
