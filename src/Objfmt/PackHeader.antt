-- ===== src/Objfmt/PackHeader.antt =====
-- internal/objfmt/pack_header.go: the header of an object in a pack. The pack is its bytes, all of
-- which can be read; an offset is not negative.
pub mod Size
mod Offset
pub mod RoundTrip
use go_ls_remote.Base.{
  ℕ, zero, suc, ◌+◌, ◌-◌, ◌*◌, ◌/◌, ◌%◌, ◌^◌, Bool, true, false, ◌&&◌, ◌||◌, [], ◌∷◌, ltb, leb,
  ◌==◌, if◌then◌else◌, Bytes, length, take, drop, Result, ok, err, ◌>>=◌,
}
use go_ls_remote.Objfmt.{Error, truncated, corrupt, out_of_range}
use go_ls_remote.Objfmt.Hash.{Algo, size, zero_id}

-- `ObjectHeader`, with the fields of `DeltaRef`; the types are the numbers of the constants.
pub record ObjectHeader : Type 0 where
  pub type_code : ℕ
  pub ofs_base : ℕ
  pub ref_base : Bytes
  pub size_of : ℕ
  pub body_at : ℕ

abbrev pub pack_header_peek : ℕ
pack_header_peek = 32

-- `c&0x80 != 0`.
abbrev pub is_open : ℕ → Bool
is_open c = leb 128 (c % 256)

-- The loop over the size: `c` is the byte read last, and the list is `buf[used:]`. The bits of a group lie
-- above those of `sum`, and a group that would not fit an int64 is followed by the error.
unfoldable pub size_loop : Bytes → ℕ → ℕ → ℕ → ℕ → Result Error (ℕ × ℕ)
size_loop [] c sum shift used = if is_open c then err truncated else ok (sum, used)
size_loop (d ∷ rest) c sum shift used =
    let more = size_loop rest d (sum + d % 128 * 2 ^ shift) (shift + 7) (used + 1) in
    if is_open c then (if leb 64 (shift + 7) then err corrupt else more) else ok (sum, used)

-- The loop of `readOfsBase`. `off` is an int64: `off++` can reach 2^63, which is negative and passes the
-- guard, and the shift then drops it.
unfoldable pub ofs_loop : Bytes → ℕ → ℕ → ℕ → Result Error (ℕ × ℕ)
ofs_loop [] c off used = if is_open c then err truncated else ok (off, used)
ofs_loop (d ∷ rest) c off used =
    let more = ofs_loop rest d ((off + 1) * 128 % 2 ^ 64 + d % 128) (used + 1) in
    if is_open c
    then (if leb (2 ^ 56) (off + 1) && ltb (off + 1) (2 ^ 63) then err corrupt else more)
    else ok (off, used)

-- `readOfsBase`.
unfoldable pub read_ofs_base : Bytes → Result Error (ℕ × ℕ)
read_ofs_base [] = err truncated
read_ofs_base (c ∷ rest) = ofs_loop rest c (c % 128) 1

module _ (hash : Algo) where
  -- The switch over the type of an object at `at`, behind the `used` bytes of its size.
  unfoldable pub typed_header : Bytes → ℕ → ℕ → ℕ → ℕ → Result Error ObjectHeader
  typed_header buf at type_code sum used =
      let plain : ObjectHeader = record {
        type_code = type_code;
        ofs_base = 0;
        ref_base = zero_id hash;
        size_of = sum;
        body_at = at + used;
      } in
      if type_code == 6
      then (do
        (off, advanced) ← read_ofs_base (drop used buf)
        if leb at off || off == 0
            then err corrupt
            else ok (record plain { ofs_base = at - off; body_at = at + (used + advanced) }))
      else if type_code == 7
      then (if ltb (length buf) (used + size hash)
          then err truncated
          else ok (record plain {
            ref_base = take (size hash) (drop used buf);
            body_at = at + (used + size hash);
          }))
      else if type_code == 1 || (type_code == 2 || (type_code == 3 || type_code == 4))
      then ok plain
      else err corrupt

  abbrev pub header_from : Bytes → ℕ → Result Error ObjectHeader
  header_from [] at = err truncated
  header_from (c ∷ rest) at = do
    (sum, used) ← size_loop rest c (c % 16) 4 1
    typed_header (c ∷ rest) at (c / 16 % 8) sum used

  -- `ReadHeader`.
  unfoldable pub read_header : Bytes → ℕ → Result Error ObjectHeader
  read_header pack at =
      if leb (length pack) at
      then err out_of_range
      else header_from (take (pack_header_peek + size hash) (drop at pack)) at
