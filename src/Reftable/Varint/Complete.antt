-- ===== src/Reftable/Varint/Complete.antt =====
-- `decodeVarint` takes every well-formed varint that fits 64 bits.
use go_ls_remote.Base.{
  ℕ, zero, suc, ◌+◌, ◌*◌, ◌%◌, ◌^◌, ◌≤◌, ◌<◌, ◌≡◌, refl, ap, ◌∙◌, [], ◌∷◌, ◌++◌, arith, Bytes,
  length, Result, ok,
}
use go_ls_remote.OffsetVarint.{IsOpen, IsVarint, value_from, value, le-value_from, least}
use native.Mathlib.Decide.{dec_lt}
use go_ls_remote.Reftable.{Error}
use go_ls_remote.Reftable.Varint.{varint_loop, guarded, add_group, decode_varint}

-- The guards pass where the next byte fits 64 bits and no more than ten bytes are read.
guarded_pass :
    (val i : ℕ) (next : Result Error (ℕ × ℕ))
    → i < 10
    → val + 1 < 2 ^ 57
    → guarded val i next ≡ next
unfolding guarded
guarded_pass val i next hi hv = ground arith

-- Ten bytes have a value past the guard, so a value below 2^64 never needs an eleventh.
below_ten : (val i : ℕ) → i ≤ 10 → least i ≤ val → val + 1 < 2 ^ 57 → i < 10
below_ten val i hi low hv = elim (dec_lt i 10) [
  | yes h ↦ h
  | no h ↦ absurd (omega (arith, ap least (let e : i ≡ 10 = omega arith in e)))
]

pub add_group_fits : (val d : ℕ) → val + 1 < 2 ^ 57 → add_group val d ≡ (val + 1) * 128 + d % 128
add_group_fits val d h = omega arith

pub loop_stop : (s : Bytes) (c val i : ℕ) → c < 128 → varint_loop s c val i ≡ ok (val, i)
unfolding varint_loop
loop_stop [] c val i h = ground arith
loop_stop (d ∷ s) c val i h = ground arith

pub loop_open :
    (d : ℕ) (s : Bytes) (c val i : ℕ)
    → IsOpen c
    → varint_loop (d ∷ s) c val i ≡ guarded val i (varint_loop s d (add_group val d) (i + 1))
unfolding varint_loop
loop_open d s c val i h = ground arith

loop_round :
    (d : ℕ) (s : Bytes) (c val i : ℕ)
    → IsOpen c
    → i < 10
    → val + 1 < 2 ^ 57
    → varint_loop (d ∷ s) c val i ≡ varint_loop s d ((val + 1) * 128 + d % 128) (i + 1)
loop_round d s c val i hc hi hv =
    loop_open d s c val i hc
    ∙ guarded_pass val i (varint_loop s d (add_group val d) (i + 1)) hi hv
    ∙ ap (λ (t : ℕ). varint_loop s d t (i + 1)) (add_group_fits val d hv)

least_step : (val i d : ℕ) → 1 ≤ i → least i ≤ val → least (i + 1) ≤ (val + 1) * 128 + d
least_step val zero d one h = absurd (omega arith)
least_step val (suc i) d one h = let e : suc i + 1 ≡ suc (suc i) = omega arith in rw e (omega arith)

loop_complete :
    (s rest : Bytes) (c val i : ℕ)
    → IsOpen c
    → IsVarint s
    → i ≤ 10
    → 1 ≤ i
    → least i ≤ val
    → value_from val s < 2 ^ 64
    → varint_loop (s ++ rest) c val i ≡ ok (value_from val s, i + length s)
loop_complete [] rest c val i hc hs hi one low fits = elim hs [ ]
loop_complete (d ∷ []) rest c val i hc hs hi one low fits =
    loop_round d rest c val i hc (below_ten val i hi low (omega arith)) (omega arith)
    ∙ loop_stop rest d ((val + 1) * 128 + d % 128) (i + 1) hs
loop_complete (d ∷ e ∷ s) rest c val i hc hs hi one low fits =
    let val' = (val + 1) * 128 + d % 128 in
    let small : val + 1 < 2 ^ 57 = omega (arith, le-value_from val' (e ∷ s)) in
    let i-lt : i < 10 = below_ten val i hi low small in
    loop_round d ((e ∷ s) ++ rest) c val i hc i-lt small
    ∙ loop_complete (e ∷ s) rest d val' (i + 1) hs.0 hs.1 (omega arith) (omega arith)
        (least_step val i (d % 128) one low) fits
    ∙ ap (λ (n : ℕ). ok (value_from val (d ∷ e ∷ s), n)) (omega arith)

pub varint_complete :
    (s rest : Bytes)
    → IsVarint s
    → value s < 2 ^ 64
    → decode_varint (s ++ rest) ≡ ok (value s, length s)
unfolding decode_varint
varint_complete [] rest h fits = elim h [ ]
varint_complete (c ∷ []) rest h fits =
    loop_stop rest c (c % 128) 1 h ∙ ap (λ (t : ℕ). ok (t, 1)) refl
varint_complete (c ∷ d ∷ s) rest h fits =
    loop_complete (d ∷ s) rest c (c % 128) 1 h.0 h.1 (omega arith) (omega arith) (omega arith) fits
    ∙ ap (λ (n : ℕ). ok (value (c ∷ d ∷ s), n)) (omega arith)
