-- ===== src/Reftable/Varint.antt =====
-- internal/reftable/varint.go.
pub mod Complete
pub mod Exact
pub mod Canonical
use go_ls_remote.Base.{
  ℕ, ◌+◌, ◌*◌, ◌/◌, ◌%◌, ◌-◌, ◌^◌, ◌≤◌, ◌<◌, ◌≡◌, refl, Bool, true, false, [], ◌∷◌, ◌++◌, arith,
  leb, ◌==◌, if◌then◌else◌, Bytes, length, Result, ok, err,
}
use go_ls_remote.Reftable.{Error, truncated_record, varint_overflow}

-- `varintMaxBytes`.
abbrev varint_max_bytes : ℕ
varint_max_bytes = 10

-- `c&0x80 != 0`.
abbrev pub is_open : ℕ → Bool
is_open c = leb 128 (c % 256)

-- The guards of one round on the uint64 `val` after `i` bytes, before the next byte is taken.
unfoldable pub guarded : ℕ → ℕ → Result Error (ℕ × ℕ) → Result Error (ℕ × ℕ)
guarded val i next =
    if leb varint_max_bytes i
    then err varint_overflow
    else if (val + 1) % 2 ^ 64 / 2 ^ (64 - 7) == 0
    then next
    else err varint_overflow

-- `(val << 7) | uint64(c&0x7f)`, after `val++`; the low seven bits of `val << 7` are clear.
abbrev pub add_group : ℕ → ℕ → ℕ
add_group val c = (val + 1) % 2 ^ 64 * 128 % 2 ^ 64 + c % 128

-- The loop: `c` is the byte read last, and the list is `buf[i:]`.
unfoldable pub varint_loop : Bytes → ℕ → ℕ → ℕ → Result Error (ℕ × ℕ)
varint_loop [] c val i = if is_open c then guarded val i (err truncated_record) else ok (val, i)
varint_loop (d ∷ rest) c val i =
    let more = varint_loop rest d (add_group val d) (i + 1) in
    let next = guarded val i more in if is_open c then next else ok (val, i)

-- `decodeVarint`: the value, and the number of bytes consumed.
unfoldable pub decode_varint : Bytes → Result Error (ℕ × ℕ)
decode_varint [] = err truncated_record
decode_varint (c ∷ rest) = varint_loop rest c (c % 128) 1
