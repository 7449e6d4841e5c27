-- ===== src/Reftable/Seek/Index.antt =====
-- The descent through one index block comes to an end.
use go_ls_remote.Base.{
  ℕ, zero, suc, ◌+◌, ◌-◌, ◌/◌, ◌^◌, ◌≤◌, ◌<◌, Bool, true, ◌≡◌, [], arith, ltb, Bytes, length, drop,
  All, IsByte, All-take, All-drop, Result, ok, err, length-take_le, Option, none, some,
}
use go_ls_remote.Base.Words.{u32}
use go_ls_remote.Reftable.{Error}
use go_ls_remote.Reftable.Varint.{decode_varint}
use go_ls_remote.Reftable.Key.{Key, decode_key}
use go_ls_remote.Reftable.Key.Exact.{decode_varint-ReadsWord, ReadsWord-bounds, decode_key_bounds}
use go_ls_remote.Reftable.Block.{Block, restart, records_end}
use go_ls_remote.Reftable.Seek.{
  Fault, panicked, search_from, is_after, is_before, records_from, restart_after, last_position,
  scan_index, scan_start, descend_index,
}
use go_ls_remote.Reftable.Seek.Delivers.{
  Delivers, Any, Delivers-passed_on, Delivers-bind, Delivers-if,
}

search_from-Delivers :
    (test : ℕ → Result Fault Bool) (fuel i j : ℕ)
    → ((n : ℕ) → Delivers Any (test n))
    → Delivers Any (search_from test fuel i j)
unfolding search_from
search_from-Delivers test zero i j h = tt
search_from-Delivers test (suc fuel) i j h =
    Delivers-if Any (ltb i j) _ (ok i)
      (λ _. Delivers-bind Any Any (test ((i + j) / 2)) _ (h ((i + j) / 2)) (λ holds _.
        Delivers-if Any holds (search_from test fuel i ((i + j) / 2))
          (search_from test fuel ((i + j) / 2 + 1) j)
          (λ _. search_from-Delivers test fuel i ((i + j) / 2) h)
          (λ _. search_from-Delivers test fuel ((i + j) / 2 + 1) j h)))
      (λ _. tt)

restart_after-Delivers :
    (b : Block) (probe : Bytes) (i : ℕ) → Delivers Any (restart_after b probe i)
unfolding restart_after
restart_after-Delivers b probe i =
    Delivers-if Any (ltb (records_end b) (restart b i)) (err panicked) _ (λ _. tt)
      (λ _. compared (decode_key (records_from b (restart b i)) []))
  where
    compared :
        (r : Result Error Key)
        → Delivers Any (elim r [ err _ ↦ ok true | ok k ↦ ok (is_after k.key probe) ])
    compared (err e) = tt
    compared (ok k) = tt

last_position-Delivers : (last : Option ℕ) → Delivers Any (last_position last)
last_position-Delivers none = tt
last_position-Delivers (some p) = tt

module _ (b : Block) (hb : All IsByte b.bytes) (small : records_end b < 2 ^ 24) where
  records_from-IsByte : (cur : ℕ) → All IsByte (records_from b cur)
  records_from-IsByte cur =
      All-take IsByte (records_end b - cur) (drop cur b.bytes) (All-drop IsByte cur b.bytes hb)

  records_from-length : (cur : ℕ) → length (records_from b cur) ≤ records_end b - cur
  records_from-length cur = length-take_le (records_end b - cur) (drop cur b.bytes)

  -- An index record takes some bytes of its block, so the position does not wrap.
  pub index_step :
      (cur : ℕ) (prev : Bytes) (k : Key) (p m : ℕ)
      → cur < records_end b
      → decode_key (records_from b cur) prev ≡ ok k
      → decode_varint (records_from b (cur + u32 k.consumed)) ≡ ok (p, m)
      → (u32 (cur + u32 (u32 k.consumed + u32 m)) ≤ records_end b)
        × (cur < u32 (cur + u32 (u32 k.consumed + u32 m)))
  index_step cur prev k p m l e f =
      arithmetic (decode_key_bounds (records_from b cur) prev k (records_from-IsByte cur) e)
        (ReadsWord-bounds (records_from b (cur + u32 k.consumed)) p m (
          (decode_varint-ReadsWord (records_from b (cur + u32 k.consumed)) p m
              (records_from-IsByte (cur + u32 k.consumed))).0
            f))
        (records_from-length cur) (records_from-length (cur + u32 k.consumed))
    where
      arithmetic :
          {x y : ℕ}
          → (1 ≤ k.consumed) × (k.consumed ≤ x)
          → (m ≤ y) × (1 ≤ m)
          → x ≤ records_end b - cur
          → y ≤ records_end b - (cur + u32 k.consumed)
          → (u32 (cur + u32 (u32 k.consumed + u32 m)) ≤ records_end b)
            × (cur < u32 (cur + u32 (u32 k.consumed + u32 m)))
      arithmetic (c1, c2) (m1, m2) r1 r2 = omega (arith, c1, c2, m1, m2, r1, r2, l, small)

  pub scan_index-Delivers :
      (probe : Bytes) (fuel cur : ℕ) (prev : Bytes) (last : Option ℕ)
      → records_end b < fuel + cur
      → 1 ≤ fuel
      → Delivers Any (scan_index b probe fuel cur prev last)
  unfolding scan_index
  scan_index-Delivers probe zero cur prev last enough some_fuel = absurd (omega (arith, some_fuel))
  scan_index-Delivers probe (suc fuel) cur prev last enough some_fuel =
      Delivers-if Any (ltb cur (records_end b)) _ (last_position last)
        (λ inside. Delivers-passed_on Any (decode_key (records_from b cur) prev) _ (λ k e.
          Delivers-passed_on Any (decode_varint (records_from b (cur + u32 k.consumed))) _
            (λ (p, m) f.
              Delivers-if Any (is_before k.key probe) _ (ok p)
                (λ _.
                  let (u, v) = index_step cur prev k p m (ground arith) e f in
                  scan_index-Delivers probe fuel (u32 (cur + u32 (u32 k.consumed + u32 m))) k.key
                    (some p) (omega (arith, enough, v)) (omega (arith, enough, u, v)))
                (λ _. tt))))
        (λ _. last_position-Delivers last)

  pub descend_index-Delivers :
      (probe : Bytes) → records_end b < suc b.block_len → Delivers Any (descend_index b probe)
  unfolding descend_index
  descend_index-Delivers probe l =
      Delivers-bind Any Any (search_from (restart_after b probe) b.restart_count 0 b.restart_count)
        _
        (search_from-Delivers (restart_after b probe) b.restart_count 0 b.restart_count
          (restart_after-Delivers b probe))
        (λ found _.
          scan_index-Delivers probe (suc b.block_len) (scan_start b found) [] none
            (omega (arith, l)) (omega arith))
