-- ===== src/Reftable/Varint/Exact.antt =====
-- `decodeVarint` against the format, both ways.
use go_ls_remote.Base.{
  ℕ, zero, suc, ◌+◌, ◌*◌, ◌%◌, ◌^◌, ◌≤◌, ◌<◌, ◌≡◌, ◌↔◌, refl, sym, ap, ◌∙◌, true, [], ◌∷◌, ◌++◌,
  arith, ltb, Bytes, IsByte, All, length, Result, ok, err,
}
use go_ls_remote.Base.Table.{holds_below, holds_below_sound}
use go_ls_remote.OffsetVarint.{IsOpen, IsVarint, value_from, Reads}
use native.Mathlib.Decide.{dec_lt}
use go_ls_remote.Reftable.{Error, truncated_record}
use go_ls_remote.Reftable.Varint.{varint_loop, guarded, add_group, decode_varint}
use go_ls_remote.Reftable.Varint.Complete.{add_group_fits, loop_stop, loop_open, varint_complete}

-- What the loop has read from `s` when it returns `v` after `n` bytes, having started with `val`
-- after `i` bytes, the last of them `c`.
record LoopReads (s : Bytes) (c val i v n : ℕ) : Type 0 where
  front : Bytes
  rest : Bytes
  splits : s ≡ front ++ rest
  well_formed : IsVarint (c ∷ front)
  value_is : value_from val front ≡ v
  length_is : i + length front ≡ n
  fits : v < 2 ^ 64

-- One more than the largest value of a varint of `i` bytes.
abbrev above : ℕ → ℕ
above zero = 1
above (suc zero) = 128
above (suc (suc i)) = (above (suc i) + 1) * 128

above_small : (i : ℕ) → i < 10 → above i < 2 ^ 64
above_small i h = ground (arith, holds_below_sound 10 (λ k. ltb (above k) (2 ^ 64)) table i h)
  where
    table : holds_below 10 (λ k. ltb (above k) (2 ^ 64)) ≡ true
    table = unfold holds_below in refl

above_step : (val i d : ℕ) → 1 ≤ i → val < above i → (val + 1) * 128 + d % 128 < above (i + 1)
above_step val zero d one h = absurd (omega arith)
above_step val (suc i) d one h = let e : suc i + 1 ≡ suc (suc i) = omega arith in rw e (omega arith)

-- With fewer than ten bytes read `val++` cannot wrap, so the guard says that the next group fits.
guarded-ok :
    (val i : ℕ) (next : Result Error (ℕ × ℕ)) (r : ℕ × ℕ)
    → val < above i
    → guarded val i next ≡ ok r
    → (i < 10) × (val + 1 < 2 ^ 57) × (next ≡ ok r)
unfolding guarded
guarded-ok val i next r h e = ground (arith, above_small i)

loop_cut : (c val i : ℕ) → IsOpen c → varint_loop [] c val i ≡ guarded val i (err truncated_record)
unfolding varint_loop
loop_cut c val i h = ground arith

LoopReads-stop :
    (s : Bytes) (c val i v n : ℕ)
    → c < 128
    → val < 2 ^ 64
    → varint_loop s c val i ≡ ok (v, n)
    → LoopReads s c val i v n
LoopReads-stop s c val i v n h fits e = record {
  front = [];
  rest = s;
  splits = refl;
  well_formed = h;
  value_is = ground (arith, loop_stop s c val i h);
  length_is = ground (arith, loop_stop s c val i h);
  fits = ground (arith, loop_stop s c val i h);
}

LoopReads-cons :
    (d : ℕ) (s : Bytes) (c val i v n : ℕ)
    → IsOpen c
    → LoopReads s d ((val + 1) * 128 + d % 128) (i + 1) v n
    → LoopReads (d ∷ s) c val i v n
LoopReads-cons d s c val i v n hc r = record {
  front = d ∷ r.front;
  rest = r.rest;
  splits = ap (◌∷◌ d) r.splits;
  well_formed = (hc, r.well_formed);
  value_is = r.value_is;
  length_is = omega (arith, r.length_is);
  fits = r.fits;
}

loop_sound :
    (s : Bytes) (c val i v n : ℕ)
    → c < 256
    → All IsByte s
    → 1 ≤ i
    → val < above i
    → val < 2 ^ 64
    → varint_loop s c val i ≡ ok (v, n)
    → LoopReads s c val i v n
loop_sound [] c val i v n hc hs one top fits e = elim (dec_lt c 128) [
  | yes h ↦ LoopReads-stop [] c val i v n h fits e
  | no h ↦ absurd (
      cc (
        (guarded-ok val i (err truncated_record) (v, n) top
          (sym (loop_cut c val i (omega arith)) ∙ e)).2))
]
loop_sound (d ∷ s) c val i v n hc hs one top fits e = elim (dec_lt c 128) [
  | yes h ↦ LoopReads-stop (d ∷ s) c val i v n h fits e
  | no h ↦
      let hc' : IsOpen c = omega arith in
      let (hi, hv, e') =
        guarded-ok val i (varint_loop s d (add_group val d) (i + 1)) (v, n) top
          (sym (loop_open d s c val i hc') ∙ e) in
      let val' = (val + 1) * 128 + d % 128 in
      LoopReads-cons d s c val i v n hc' (
        loop_sound s d val' (i + 1) v n hs.0 hs.1 (omega arith) (above_step val i d one top)
          (omega arith)
          (ap (λ (t : ℕ). varint_loop s d t (i + 1)) (sym (add_group_fits val d hv)) ∙ e'))
]

Reads-of :
    (s : Bytes) (c v n : ℕ) → LoopReads s c (c % 128) 1 v n → Reads (c ∷ s) v n × (v < 2 ^ 64)
Reads-of s c v n r = (
  record {
    front = c ∷ r.front;
    rest = r.rest;
    splits = ap (◌∷◌ c) r.splits;
    well_formed = r.well_formed;
    value_is = r.value_is;
    length_is = omega (arith, r.length_is);
  },
  r.fits,
)

varint_sound :
    (buf : Bytes) (v n : ℕ)
    → All IsByte buf
    → decode_varint buf ≡ ok (v, n)
    → Reads buf v n × (v < 2 ^ 64)
unfolding decode_varint
varint_sound [] v n h e = absurd (cc)
varint_sound (c ∷ s) v n h e =
    Reads-of s c v n
      (loop_sound s c (c % 128) 1 v n h.0 h.1 (omega arith) (omega arith) (omega arith) e)

varint_of_Reads :
    (buf : Bytes) (v n : ℕ) → Reads buf v n → v < 2 ^ 64 → decode_varint buf ≡ ok (v, n)
varint_of_Reads buf v n r fits =
    ap decode_varint r.splits
    ∙ varint_complete r.front r.rest r.well_formed (omega (arith, r.value_is))
    ∙ ground (arith, r.value_is, r.length_is)

-- On bytes, `decodeVarint` returns `v` after `n` bytes exactly when the buffer starts with a
-- well-formed varint of `n` bytes whose value is `v`, and `v` is a uint64. Neither the byte count nor
-- the overflow guard refuses a value that fits, and no value wraps.
pub decode_varint_exact :
    (buf : Bytes) (v n : ℕ)
    → All IsByte buf
    → (decode_varint buf ≡ ok (v, n)) ↔ (Reads buf v n × (v < 2 ^ 64))
decode_varint_exact buf v n h = (varint_sound buf v n h, λ r. varint_of_Reads buf v n r.0 r.1)
