-- ===== src/Objfmt/Midx/Reads.antt =====
-- The reads of `Find` lie in the file, so that it finds the rows of the index.
use go_ls_remote.Base.{
  ℕ, ◌+◌, ◌-◌, ◌*◌, ◌%◌, ◌^◌, ◌≤◌, ◌<◌, ◌≡◌, ◌≢◌, ◌↔◌, inl, inr, refl, ap, ◌∙◌, sym, arith, Bool,
  true, false, ◌||◌, Option, none, some, Bytes, length, take, drop, length-drop, ltb, ltb-false,
  ◌==◌, if◌then◌else◌, get_or, Result, ok, err, ok_injective, Bool-cases, Option-cases, All, IsByte,
  All-drop,
}
use mathlib.Core.Path.{subst}
use go_ls_remote.Base.BigEndian.{be, be-take_four}
use go_ls_remote.Base.Compare.{search_rows_sound}
use go_ls_remote.Base.Maps.{lookup}
use go_ls_remote.Objfmt.Hash.{Algo}
use go_ls_remote.Objfmt.Fanout.{first_byte, low}
use go_ls_remote.Objfmt.Midx.{
  Failure, panicked, Midx, ChunkExtent, signed_lt, chunk, chunk_ooff, chunk_loff, body_end,
  open_midx,
}
use go_ls_remote.Objfmt.Midx.Chunks.{Within, Positive, toc_offset, chunks-Within, chunks-Positive}
use go_ls_remote.Objfmt.Midx.Exact.{IsOpened, IsCounted, parts, open_midx-IsOpened, find_row_exact}
use go_ls_remote.Objfmt.Midx.Find.{
  part, midx_large_offset, midx_offset, with_pack, located, find_midx,
}
use go_ls_remote.Objfmt.Midx.Opened.{slice_inside}
use go_ls_remote.Objfmt.Midx.Rows.{
  midx_fanout, midx_name, search_names, pack_record, pack_index, large_offset, row_offset,
  row_place, find_row,
}
use go_ls_remote.Objfmt.Midx.Search.{slice_from_inside, part_inside, search_oid-search_names}

module _ (hash : Algo) (m : Midx) (small : length m.data_of < 2 ^ 63)
    (inside : (id : Bytes) → Within (length m.data_of) (chunk id m.chunks))
    (positive : (id : Bytes) → Positive (chunk id m.chunks)) where
  module _ (o : IsOpened hash m) where
    large_inside :
        (slot : Option ChunkExtent) (n : ℕ)
        → lookup chunk_loff m.chunks ≡ slot
        → n < 2 ^ 31
        → midx_large_offset m slot n ≡ ok (large_offset m n)
    large_inside none n e h = rw (e, large_offset) refl
    large_inside (some loff) n e h = elim (Bool-cases (signed_lt loff.len (n * 8 + 8))) [
      | inl y ↦ rw (e, large_offset, y) refl
      | inr x ↦
          rw (e, large_offset, x, read x)
            (chosen (ltb (2 ^ 63 - 1) (be (take 8 (drop (loff.off + n * 8) m.data_of))))
              (be (take 8 (drop (loff.off + n * 8) m.data_of))))
    ]
      where
        chosen :
            (b : Bool) (v : ℕ)
            → Path
                (Result Failure (Option ℕ))
                (if b then ok none else ok (some v))
                (ok (if b then none else some v))
        chosen true v = refl
        chosen false v = refl

        same : chunk chunk_loff m.chunks ≡ loff
        same = rw (e, chunk) refl

        fits : loff.off < 2 ^ 63 → loff.off + loff.len ≤ length m.data_of
        fits = (subst (Within (length m.data_of)) same (inside chunk_loff)).1

        low_off : loff.off < 2 ^ 63
        low_off = subst Positive same (positive chunk_loff)

        bound : (len : ℕ) → len < 2 ^ 63 → signed_lt len (n * 8 + 8) ≡ false → n * 8 + 8 ≤ len
        bound len l x = ground (arith, h, l, x)

        read :
            signed_lt loff.len (n * 8 + 8) ≡ false
            → part m loff.off (n * 8) (n * 8 + 8) ≡ ok (take 8 (drop (loff.off + n * 8) m.data_of))
        read x =
            subst
              (λ (c : ChunkExtent).
                n * 8 + 8 ≤ c.len
                → part m c.off (n * 8) (n * 8 + 8) ≡ ok (take 8 (drop (c.off + n * 8) m.data_of)))
              same (part_inside hash m small inside positive chunk_loff (n * 8) (n * 8 + 8) 8 refl)
              (bound loff.len (omega (arith, fits low_off, small)) x)

    offset_inside :
        (raw : ℕ)
        → raw < 2 ^ 32
        → midx_offset m raw
          ≡ ok (if ltb raw (2 ^ 31) then some raw else large_offset m (raw - 2 ^ 31))
    offset_inside raw h = elim (Bool-cases (ltb raw (2 ^ 31))) [
      | inl y ↦ rw y refl
      | inr x ↦
          rw x (large_inside (lookup chunk_loff m.chunks) (raw - 2 ^ 31) refl (omega (arith, h)))
    ]

    located-row_place :
        (k : ℕ) → All IsByte m.data_of → k < m.count → located m k ≡ ok (row_place m k)
    unfolding located
    located-row_place k b h =
        rw
          (
            straight,
            slice_from_inside m.data_of (off + k * 8) (omega (arith, bound, fits, small))
                (omega (arith, bound, fits)),
            slice_inside (pack_record m k) 0 4 (omega arith) (omega arith) (omega (arith, long)),
            slice_inside (pack_record m k) 4 8 (omega arith) (omega arith) (omega (arith, long)),
            offset_inside (be (take 4 (drop 4 (pack_record m k)))) (
                be-take_four (drop 4 (pack_record m k))
                  (All-drop IsByte 4 _ (All-drop IsByte (off + k * 8) m.data_of b))),
          )
          (placed (row_offset m k))
      where
        off : ℕ
        off = (chunk chunk_ooff m.chunks).off

        fits : k * 8 + 8 ≤ (chunk chunk_ooff m.chunks).len
        fits = omega (arith, h, o.packs_len)

        bound : off + (chunk chunk_ooff m.chunks).len ≤ length m.data_of
        bound = (inside chunk_ooff).1 (positive chunk_ooff)

        straight : (off + k * 8) % 2 ^ 64 ≡ off + k * 8
        straight = omega (arith, bound, fits, small)

        long : 8 ≤ length (pack_record m k)
        long = omega (arith, bound, fits, length-drop (off + k * 8) m.data_of)

        placed :
            (r : Option ℕ)
            → Path
                (Result Failure (Option (ℕ × ℕ)))
                (ok (with_pack (pack_index m k) r))
                (ok (elim r [ none ↦ none | some v ↦ some (pack_index m k, v) ]))
        placed none = refl
        placed (some v) = refl

    search_names-within : (h : Bytes) (k : ℕ) → search_names hash m h ≡ some k → k < m.count
    unfolding search_names
    search_names-within h k e =
        let (_, e1) = none_passed _ _ e in
        let (t, e2) = none_passed (ltb m.count hi) _ e1 in
        let (_, r, _) =
          search_rows_sound (midx_name hash m) h hi (low (midx_fanout m) (first_byte h)) hi k e2 in
        omega (arith, r, ltb-false m.count hi t)
      where
        hi : ℕ
        hi = midx_fanout m (first_byte h)

        none_passed :
            (test : Bool) (r : Option ℕ)
            → (if test then none else r) ≡ some k
            → (test ≡ false) × (r ≡ some k)
        none_passed test r f = ground arith

    find_midx-find_row :
        (h : Bytes)
        → All IsByte m.data_of
        → first_byte h < 256
        → find_midx hash m h ≡ ok (find_row hash m h)
    unfolding find_midx find_row
    find_midx-find_row h b small_byte = elim (Bool-cases (m.count == 0 || length m.data_of == 0)) [
      | inl y ↦ rw y refl
      | inr n ↦
          rw (n, search_oid-search_names hash m small inside positive o h small_byte)
            (elim (Option-cases (search_names hash m h)) [
              | inr x ↦ rw x refl
              | inl (k, x) ↦ rw x (located-row_place k b (search_names-within h k x))
            ])
    ]

-- In a multi-pack-index that `OpenMidx` opens from a file of less than 2^63 bytes, of whose chunk lookup table no
-- offset is 2^63 or more, and whose fan-out table counts its names, `Find` does not panic, and gives a pack index
-- and an offset for a name exactly when some row has that name, that pack index and that offset: no row is
-- missed, and no other is hit.
pub find_midx_exact :
    (hash algo : Algo) (d : Bytes) (m : Midx) (h : Bytes) (place : ℕ × ℕ)
    → All IsByte d
    → length d < 2 ^ 63
    → ((k : ℕ) → k ≤ get_or d 6 0 → toc_offset d k < 2 ^ 63)
    → open_midx hash algo (some d) ≡ ok m
    → IsCounted hash m
    → first_byte h < 256
    → (find_midx hash m h ≢ err panicked)
      × ((find_midx hash m h ≡ ok (some place))
          ↔ ((k : ℕ) × ((k < m.count) × (midx_name hash m k ≡ h)) × (row_place m k ≡ some place)))
find_midx_exact hash algo d m h place b l p e c small =
    let o = open_midx-IsOpened hash algo d m b l e in
    let (_, (same, table, _, _, _)) = parts hash algo d m e in
    let back = sym same in
    let whole : find_midx hash m h ≡ ok (find_row hash m h) =
      find_midx-find_row hash m (subst (λ x. length x < 2 ^ 63) back l)
        (λ id.
          subst (λ x. Within (length x) (chunk id m.chunks)) back
            (wider (chunk id m.chunks) (chunks-Within hash d (get_or d 6 0) m.chunks id b l table)))
        (λ id. chunks-Positive hash d (get_or d 6 0) m.chunks id p table) o h
        (subst (All IsByte) back b) small in
    let (sound, complete) = find_row_exact hash m h place o c small in
    (
      λ x. absurd (clash (sym whole ∙ x)),
      (λ x. sound (ok_injective {E = Failure} (sym whole ∙ x)), λ x. whole ∙ ap ok (complete x)),
    )
  where
    wider : (x : ChunkExtent) → Within (body_end hash d) x → Within (length d) x
    wider x w = (w.0, λ q. omega (arith, w.1 q))

    clash : Path (Result Failure (Option (ℕ × ℕ))) (ok (find_row hash m h)) (err panicked) → ⊥
    clash x = absurd (cc)
