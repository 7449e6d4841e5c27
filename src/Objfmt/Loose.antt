-- ===== src/Objfmt/Loose.antt =====
-- internal/objfmt/loose.go: the header and the body of a loose object. What zlib inflates is a parameter: the
-- bytes that its reader yields, and whether it ends with an error.
pub mod Size
pub mod Header
pub mod Body
use go_ls_remote.Base.{
  ℕ, ◌+◌, ◌-◌, ◌*◌, ◌/◌, ◌^◌, Bool, true, false, ◌&&◌, ◌||◌, Option, none, some, [], ◌∷◌, ltb, leb,
  ◌==◌, if◌then◌else◌, Bytes, length, drop, equal, Result, ok, err, ◌>>=◌,
}
use go_ls_remote.Base.Text.{bytes, cut}

-- `corrupt_size` wraps ErrCorrupt; the other errors do not.
pub data LooseError : Type 0 where
  zlib_init read_type unknown_type read_size corrupt_size : LooseError

-- What a reader still yields, and whether an error comes behind it in place of io.EOF.
pub record Stream : Type 0 where
  pub yields : Bytes
  pub fails : Bool

-- `looseBody`; `is_closed` is a closer that is nil.
pub record LooseBody : Type 0 where
  pub reader : Stream
  pub remaining : ℕ
  pub overrun : Bool
  pub is_closed : Bool

-- The constants of `ObjectType` that a loose object can have.
abbrev pub type_commit : ℕ
type_commit = 1

abbrev pub type_tree : ℕ
type_tree = 2

abbrev pub type_blob : ℕ
type_blob = 3

abbrev pub type_tag : ℕ
type_tag = 4

-- `parseLooseTypeName`.
unfoldable pub parse_loose_type_name : Bytes → Result LooseError ℕ
parse_loose_type_name name =
    if equal name (bytes "commit")
    then ok type_commit
    else if equal name (bytes "tree")
    then ok type_tree
    else if equal name (bytes "blob")
    then ok type_blob
    else if equal name (bytes "tag")
    then ok type_tag
    else err unknown_type

-- The loop of `parseLooseSize`; `n` is an int64 that is not negative.
unfoldable pub size_digits : ℕ → Bytes → Result LooseError ℕ
size_digits n [] = ok n
size_digits n (c ∷ s) =
    let rest = size_digits (n * 10 + (c - b'0')) s in
    if ltb c b'0' || ltb b'9' c
    then err corrupt_size
    else if ltb ((2 ^ 63 - 1 - (c - b'0')) / 10) n
    then err corrupt_size
    else rest

-- `parseLooseSize`.
unfoldable pub parse_loose_size : Bytes → Result LooseError ℕ
parse_loose_size [] = err corrupt_size
parse_loose_size (c ∷ s) =
    if ltb 1 (length (c ∷ s)) && (c == b'0') then err corrupt_size else size_digits 0 (c ∷ s)

-- `br.ReadString(delim)`, without the delimiter, and what is left.
abbrev pub read_string : ℕ → LooseError → Bytes → Result LooseError (Bytes × Bytes)
read_string delim e s = elim (cut delim s) [ none ↦ err e | some r ↦ ok r ]

-- `ReadLooseHeader` on what `zlib.NewReader` gives.
unfoldable pub read_loose_header : Option Stream → Result LooseError (ℕ × ℕ × LooseBody)
read_loose_header none = err zlib_init
read_loose_header (some z) = do
  name ← read_string b' ' read_type z.yields
  typ ← parse_loose_type_name name.0
  digits ← read_string 0 read_size name.1
  n ← parse_loose_size digits.0
  ok (
    typ,
    n,
    record {
      reader = record { yields = digits.1; fails = z.fails };
      remaining = n;
      overrun = false;
      is_closed = false;
    },
  )

-- `Read`, where the reader behind it gives its next `n` bytes.
unfoldable pub read : ℕ → LooseBody → LooseBody
read n b =
    let after : LooseBody = record b {
      reader = record b.reader { yields = drop n b.reader.yields };
    } in
    if ltb b.remaining n
    then record after { overrun = true; remaining = 0 }
    else record after { remaining = b.remaining - n }

-- `trailerErr`: garbage at the end of the object.
unfoldable pub has_garbage : LooseBody → Bool
has_garbage b =
    if b.overrun
    then true
    else if b.remaining == 0
    then ltb 0 (length b.reader.yields) || b.reader.fails
    else false

-- The errors that `Close` joins: garbage, and that of the decoder.
pub record CloseErrors : Type 0 where
  pub garbage : Bool
  pub decoder : Bool

-- `Close`, where `fails` tells that the decoder's has an error other than io.ErrClosedPipe.
unfoldable pub close : Bool → LooseBody → CloseErrors × LooseBody
close fails b =
    if b.is_closed
    then (record { garbage = false; decoder = false }, b)
    else (record { garbage = has_garbage b; decoder = fails }, record b { is_closed = true })
