-- ===== src/Objfmt/PackHeader/Offset.antt =====
-- The offset of an OFS_DELTA is read back.
use go_ls_remote.Base.{
  ℕ, zero, suc, ◌+◌, ◌*◌, ◌%◌, ◌^◌, ◌≤◌, ◌<◌, ◌≡◌, ap, ◌∙◌, [], ◌∷◌, ◌++◌, arith, Bytes, length, ok,
}
use native.Mathlib.Decide.{dec_lt}
use go_ls_remote.OffsetVarint.{IsVarint, IsOpen, value, value_from, le-value_from, least}
use go_ls_remote.Objfmt.PackHeader.{ofs_loop, read_ofs_base}

ofs_loop-end : (rest : Bytes) (c off used : ℕ) → c < 128 → ofs_loop rest c off used ≡ ok (off, used)
unfolding ofs_loop
ofs_loop-end [] c off used h = ground arith
ofs_loop-end (d ∷ rest) c off used h = ground arith

ofs_loop-open :
    (d : ℕ) (rest : Bytes) (c off used : ℕ)
    → IsOpen c
    → off + 1 < 2 ^ 56
    → ofs_loop (d ∷ rest) c off used ≡ ofs_loop rest d ((off + 1) * 128 + d % 128) (used + 1)
unfolding ofs_loop
ofs_loop-open d rest c off used h l = ground (arith, h.0, h.1, l)

ofs_loop-varint :
    (c : ℕ) (s rest : Bytes) (off used : ℕ)
    → IsVarint (c ∷ s)
    → value_from off s < 2 ^ 63
    → ofs_loop (s ++ rest) c off used ≡ ok (value_from off s, used + length s)
ofs_loop-varint c [] rest off used w l =
    ofs_loop-end rest c off used w ∙ ap (λ (n : ℕ). ok (off, n)) (omega arith)
ofs_loop-varint c (d ∷ s) rest off used w l =
    ofs_loop-open d (s ++ rest) c off used w.0
      (omega (arith, l, le-value_from ((off + 1) * 128 + d % 128) s))
    ∙ ofs_loop-varint d s rest ((off + 1) * 128 + d % 128) (used + 1) w.1 l
    ∙ ap (λ (n : ℕ). ok (value_from ((off + 1) * 128 + d % 128) s, n)) (omega arith)

-- `readOfsBase` reads the offset that a varint encodes, if it is an int64, and its bytes.
pub read_ofs_base-varint :
    (s rest : Bytes)
    → IsVarint s
    → value s < 2 ^ 63
    → read_ofs_base (s ++ rest) ≡ ok (value s, length s)
unfolding read_ofs_base
read_ofs_base-varint [] rest w l = absurd w
read_ofs_base-varint (c ∷ s) rest w l =
    ofs_loop-varint c s rest (c % 128) 1 w l
    ∙ ap (λ (n : ℕ). ok (value_from (c % 128) s, n)) (omega arith)

least_long : (n : ℕ) → 10 ≤ n → 2 ^ 63 ≤ least n
least_long zero h = absurd (omega (arith, h))
least_long (suc zero) h = absurd (omega (arith, h))
least_long (suc (suc n)) h = elim (dec_lt (suc n) 10) [
  | yes l ↦ let e : suc (suc n) ≡ 10 = omega (arith, h, l) in omega (arith, ap least e)
  | no l ↦ omega (arith, least_long (suc n) (omega (arith, l)))
]

least-value_from :
    (i acc : ℕ) (s : Bytes) → least (suc i) ≤ acc → least (suc i + length s) ≤ value_from acc s
least-value_from i acc [] h = rw (last i) h
  where
    last : (n : ℕ) → suc n + 0 ≡ suc n
    last n = omega arith
least-value_from i acc (d ∷ s) h =
    rw (moved i (length s))
      (least-value_from (suc i) ((acc + 1) * 128 + d % 128) s (omega (arith, h)))
  where
    moved : (n m : ℕ) → suc n + suc m ≡ suc (suc n) + m
    moved n m = omega arith

-- A varint of an int64 has at most nine bytes.
pub length-varint : (s : Bytes) → IsVarint s → value s < 2 ^ 63 → length s ≤ 9
length-varint [] w l = omega arith
length-varint (c ∷ s) w l = elim (dec_lt (length s) 9) [
  | yes h ↦ omega (arith, h)
  | no h ↦ absurd (
      omega (
        arith,
        l,
        least_long (suc 0 + length s) (omega (arith, h)),
        least-value_from 0 (c % 128) s (omega arith),
      ))
]
