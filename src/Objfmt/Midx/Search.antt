-- ===== src/Objfmt/Midx/Search.antt =====
-- The reads of `searchOID` lie in the file, so that it searches the rows of the index.
use go_ls_remote.Base.{
  ℕ, zero, suc, ◌+◌, ◌-◌, ◌*◌, ◌/◌, ◌%◌, ◌^◌, ◌≤◌, ◌<◌, ◌≡◌, inl, inr, refl, ap, ◌∙◌, arith, true,
  false, ◌||◌, not, some, Bytes, length, take, drop, ltb, leb, ◌==◌, Result, ok, Bool-cases,
}
use Prim.Native.Nat.{lt, eq, gt, Ordering}
use go_ls_remote.Base.Compare.{compare_bytes, search_rows}
use go_ls_remote.Objfmt.Hash.{Algo, size, sha1, sha256}
use go_ls_remote.Objfmt.Fanout.{first_byte, low}
use go_ls_remote.Objfmt.Midx.{Failure, Midx, chunk, chunk_oidf, chunk_oidl}
use go_ls_remote.Objfmt.Midx.Chunks.{Within, Positive}
use go_ls_remote.Objfmt.Midx.Exact.{IsOpened}
use go_ls_remote.Objfmt.Midx.Find.{part, slice_from, search_loop, fanout_before, search_oid}
use go_ls_remote.Objfmt.Midx.Opened.{slice_inside}
use go_ls_remote.Objfmt.Midx.Rows.{extent, midx_fanout, midx_name, search_names}

-- A search whose reads give the rows.
search_loop-rows :
    (read : ℕ → Result Failure Bytes) (row : ℕ → Bytes) (want : Bytes) (count : ℕ)
    → ((k : ℕ) → k < count → read k ≡ ok (row k))
    → (fuel lo hi : ℕ) → hi ≤ count
    → search_loop read want fuel lo hi ≡ ok (search_rows row want fuel lo hi)
unfolding search_loop search_rows
search_loop-rows read row want count r zero lo hi h = refl
search_loop-rows read row want count r (suc fuel) lo hi h = elim (Bool-cases (ltb lo hi)) [
  | inr n ↦ rw n refl
  | inl y ↦
      let mid = lo + (hi - lo) / 2 in
      rw (y, r mid (ground (arith, y, h)))
        (step mid (compare_bytes want (row mid))
          (search_loop-rows read row want count r fuel lo mid (ground (arith, y, h)))
          (search_loop-rows read row want count r fuel (mid + 1) hi h))
]
  where
    step :
        (mid : ℕ) (order : Ordering)
        → search_loop read want fuel lo mid ≡ ok (search_rows row want fuel lo mid)
        → search_loop read want fuel (mid + 1) hi ≡ ok (search_rows row want fuel (mid + 1) hi)
        → (elim order [
          | eq ↦ ok (some mid)
          | lt ↦ search_loop read want fuel lo mid
          | gt ↦ search_loop read want fuel (mid + 1) hi
        ])
          ≡ ok (elim order [
            | eq ↦ some mid
            | lt ↦ search_rows row want fuel lo mid
            | gt ↦ search_rows row want fuel (mid + 1) hi
          ])
    step mid lt e f = e
    step mid eq e f = refl
    step mid gt e f = f

pub slice_from_inside :
    (d : Bytes) (from : ℕ) → from < 2 ^ 63 → from ≤ length d → slice_from d from ≡ ok (drop from d)
unfolding slice_from
slice_from_inside d from x y = rw (in_range) refl
  where
    in_range : (leb (2 ^ 63) from || ltb (length d) from) ≡ false
    in_range = ground (arith, x, y)

module _ (hash : Algo) (m : Midx) (small : length m.data_of < 2 ^ 63)
    (inside : (id : Bytes) → Within (length m.data_of) (chunk id m.chunks))
    (positive : (id : Bytes) → Positive (chunk id m.chunks)) where
  pub part_inside :
      (id : Bytes) (from to n : ℕ)
      → to ≡ from + n
      → to ≤ (chunk id m.chunks).len
      → part m (chunk id m.chunks).off from to
        ≡ ok (take n (drop ((chunk id m.chunks).off + from) m.data_of))
  part_inside id from to n w l =
      rw (straight from (omega (arith, w, l)), straight to l)
        (slice_inside m.data_of (off + from) (off + to) (omega (arith, bound, l, w, small))
            (omega (arith, w)) (omega (arith, bound, l))
          ∙ ap (λ (k : ℕ). ok (take k (drop (off + from) m.data_of))) width)
    where
      off : ℕ
      off = (chunk id m.chunks).off

      bound : off + (chunk id m.chunks).len ≤ length m.data_of
      bound = (inside id).1 (positive id)

      width : off + to - (off + from) ≡ n
      width = omega (arith, w)

      straight : (k : ℕ) → k ≤ (chunk id m.chunks).len → (off + k) % 2 ^ 64 ≡ off + k
      straight k h = omega (arith, bound, small, h)

  module _ (o : IsOpened hash m) where
    fanout_inside :
        (n : ℕ)
        → n < 256
        → part m (chunk chunk_oidf m.chunks).off (n * 4) ((n + 1) * 4)
          ≡ ok (take 4 (drop ((extent m chunk_oidf).off + n * 4) m.data_of))
    fanout_inside n h =
        part_inside chunk_oidf (n * 4) ((n + 1) * 4) 4 (omega arith)
          (omega (arith, o.fanout_len, h))

    fanout_before-low :
        (prefix : ℕ) → prefix < 256 → fanout_before m prefix ≡ ok (low (midx_fanout m) prefix)
    fanout_before-low zero h = refl
    fanout_before-low (suc n) h =
        rw
          (
            part_inside chunk_oidf ((suc n - 1) * 4) (suc n * 4) 4 (omega arith)
                (omega (arith, o.fanout_len, h)),
            above,
          )
          refl
      where
        above : ltb 0 (suc n) ≡ true
        above = ground arith

    stride : (h : Algo) (a n : ℕ) → a < n → a * size h + size h ≤ n * size h
    stride sha1 a n l = omega (arith, l)
    stride sha256 a n l = omega (arith, l)

    name_inside :
        (k : ℕ)
        → k < m.count
        → part m (chunk chunk_oidl m.chunks).off (k * size hash) (k * size hash + size hash)
          ≡ ok (midx_name hash m k)
    name_inside k h =
        part_inside chunk_oidl (k * size hash) (k * size hash + size hash) (size hash) refl
          (omega (arith, stride hash k m.count h, o.names_len))

    pub search_oid-search_names :
        (h : Bytes) → first_byte h < 256 → search_oid hash m h ≡ ok (search_names hash m h)
    unfolding search_oid search_names
    search_oid-search_names h b =
        elim (Bool-cases (
          not ((extent m chunk_oidf).len == 256 * 4)
          || not ((extent m chunk_oidl).len == m.count * size hash))) [
            | inl y ↦ rw y refl
            | inr n ↦
                rw (n, fanout_before-low (first_byte h) b, fanout_inside (first_byte h) b)
                  (elim (Bool-cases (ltb m.count (midx_fanout m (first_byte h)))) [
                    | inl y ↦ rw y refl
                    | inr x ↦ rw x (
                        search_loop-rows _ (midx_name hash m) h m.count name_inside
                          (midx_fanout m (first_byte h)) (low (midx_fanout m) (first_byte h))
                          (midx_fanout m (first_byte h)) (o.below (first_byte h) b))
                  ])
          ]
