-- ===== src/Objfmt/Midx/Panics.antt =====
-- When `OpenMidx` panics.
use go_ls_remote.Base.{
  ℕ, zero, suc, ◌+◌, ◌-◌, ◌*◌, ◌^◌, ◌%◌, ◌≤◌, ◌<◌, ◌≡◌, ◌≢◌, equal, ◌&&◌, inl, inr, refl, ap, ◌∙◌,
  sym, ok, length-take, length-drop, arith, false, not, some, Bytes, length, drop, ltb, leb, ◌==◌,
  err, get_or, Bool-cases, All, IsByte,
}
use go_ls_remote.Base.BigEndian.{be}
use go_ls_remote.Base.Maps.{Map}
use go_ls_remote.Objfmt.Hash.{Algo, size}
use go_ls_remote.Objfmt.Midx.{
  short_file, bad_magic, unsupported_version, algo_mismatch, corrupt, panicked, slice, ChunkExtent,
  chunk, chunk_body, chunk_oidf, chunk_oidl, chunk_ooff, parse_fanout, validate_oid_lookup,
  parse_chunk_table, parse_pack_names, parsed_midx, byte_at, midx_magic, midx_header_size,
  midx_hash_version, open_midx, body_end, collect_names, chunk_pnam, fanout_from, packs_from,
}
use go_ls_remote.Objfmt.Midx.Chunks.{toc_offset, Within, Positive, chunks-Within, chunks-Positive}
use go_ls_remote.Objfmt.Midx.Parts
use go_ls_remote.Objfmt.Midx.Opened.{slice_passed, byte_at_passed}
use go_ls_remote.Objfmt.Midx.Calm.{
  byte_at-IsCalm, refused_panicked, IsCalm, bind_panicked, guard_panicked, ok-IsCalm, slice-IsCalm,
  corrupt-IsCalm, collect_names-IsCalm, fanout_from-IsCalm, ascending_from-IsCalm,
  parse_chunk_table-IsCalm,
}

-- The body of a chunk that lies in the file.
module _ (d : Bytes) (small : length d < 2 ^ 63) (b : ℕ) (inside : b ≤ length d) where
  chunk_body-IsCalm : (x : ChunkExtent) → Within b x → Positive x → IsCalm (chunk_body d x)
  chunk_body-IsCalm x w p =
      slice-IsCalm d x.off ((x.off + x.len) % 2 ^ 64) p (omega (arith, small, inside, w.1 p))
        (omega (arith, small, inside, w.1 p))

  -- The length of a chunk's body.
  length-chunk_body :
      (x : ChunkExtent) (body : Bytes)
      → Within b x
      → Positive x
      → chunk_body d x ≡ ok body
      → length body ≡ x.len
  length-chunk_body x body w p e =
      let to = (x.off + x.len) % 2 ^ 64 in
      let (_, _, l, r) = slice_passed d x.off to body e in
      ap length (sym r)
      ∙ length-take (to - x.off) (drop x.off d) (omega (arith, l, length-drop x.off d))
      ∙ width to refl
    where
      width : (to : ℕ) → to ≡ (x.off + x.len) % 2 ^ 64 → to - x.off ≡ x.len
      width to f = omega (arith, f, small, inside, w.1 p)

  parse_pack_names-IsCalm :
      (ver packs : ℕ) (chunks : Map ChunkExtent)
      → Within b (chunk chunk_pnam chunks)
      → Positive (chunk chunk_pnam chunks)
      → IsCalm (parse_pack_names d ver packs chunks)
  unfolding parse_pack_names
  parse_pack_names-IsCalm ver packs chunks w p h =
      let (body, _, h1) =
        bind_panicked (chunk_body d (chunk chunk_pnam chunks)) _
          (chunk_body-IsCalm (chunk chunk_pnam chunks) w p) h in
      let (names, _, h2) =
        bind_panicked (collect_names packs body) _ (collect_names-IsCalm packs body) h1 in
      let (_, h3) = guard_panicked _ corrupt _ corrupt-IsCalm h2 in
      let (_, h4) = guard_panicked _ corrupt _ corrupt-IsCalm h3 in ok-IsCalm names h4

  packs_from-IsCalm :
      (off packs count k : ℕ) → off + (k + count) * 8 ≤ b → IsCalm (packs_from d off packs count k)
  unfolding packs_from
  packs_from-IsCalm off packs zero k l h = ok-IsCalm tt h
  packs_from-IsCalm off packs (suc count) k l h =
      let base = (off + k * 8) % 2 ^ 64 in
      let (field, _, h1) =
        bind_panicked (slice d base (base + 4)) _
          (slice-IsCalm d base (base + 4) (low base refl) (omega arith) (high base refl)) h in
      let (_, h2) = guard_panicked (leb packs (be field)) corrupt _ corrupt-IsCalm h1 in
      packs_from-IsCalm off packs count (k + 1) (omega (arith, l)) h2
    where
      low : (base : ℕ) → base ≡ (off + k * 8) % 2 ^ 64 → base < 2 ^ 63
      low base f = omega (arith, f, l, small, inside)

      high : (base : ℕ) → base ≡ (off + k * 8) % 2 ^ 64 → base + 4 ≤ length d
      high base f = omega (arith, f, l, small, inside)

  parse_fanout-IsCalm :
      (hash : Algo) (packs : ℕ) (chunks : Map ChunkExtent)
      → ((id : Bytes) → Within b (chunk id chunks))
      → ((id : Bytes) → Positive (chunk id chunks))
      → IsCalm (parse_fanout hash d packs chunks)
  unfolding parse_fanout
  parse_fanout-IsCalm hash packs chunks w p h =
      let (t1, h1) = guard_panicked (not (oidf.len == 256 * 4)) corrupt _ corrupt-IsCalm h in
      let (fanout, e, h2) =
        bind_panicked (chunk_body d oidf) _ (chunk_body-IsCalm oidf (w chunk_oidf) (p chunk_oidf))
          h1 in
      let (last, _, h3) =
        bind_panicked (fanout_from fanout 256 0 0) _
          (fanout_from-IsCalm fanout 256 0 0 (short fanout e t1) (whole fanout e t1)) h2 in
      let (_, h4) =
        guard_panicked (not (oidl.len == last * size hash)) corrupt _ corrupt-IsCalm h3 in
      let (t, h5) = guard_panicked (not (ooff.len == last * 8)) corrupt _ corrupt-IsCalm h4 in
      let (_, _, h6) =
        bind_panicked (packs_from d ooff.off packs last 0) _
          (packs_from-IsCalm ooff.off packs last 0 (fits last t)) h5 in
      ok-IsCalm last h6
    where
      oidf : ChunkExtent
      oidf = chunk chunk_oidf chunks

      oidl : ChunkExtent
      oidl = chunk chunk_oidl chunks

      ooff : ChunkExtent
      ooff = chunk chunk_ooff chunks

      is_same : (x y : ℕ) → not (x == y) ≡ false → x ≡ y
      is_same x y t = ground arith

      whole :
          (f : Bytes)
          → chunk_body d oidf ≡ ok f
          → not (oidf.len == 256 * 4) ≡ false
          → (0 + 256) * 4 ≤ length f
      whole f e t = omega (
        arith,
        is_same oidf.len (256 * 4) t,
        length-chunk_body oidf f (w chunk_oidf) (p chunk_oidf) e,
      )

      short :
          (f : Bytes)
          → chunk_body d oidf ≡ ok f
          → not (oidf.len == 256 * 4) ≡ false
          → length f < 2 ^ 63
      short f e t = omega (
        arith,
        is_same oidf.len (256 * 4) t,
        length-chunk_body oidf f (w chunk_oidf) (p chunk_oidf) e,
      )

      fits : (last : ℕ) → not (ooff.len == last * 8) ≡ false → ooff.off + (0 + last) * 8 ≤ b
      fits last t = omega (arith, is_same ooff.len (last * 8) t, (w chunk_ooff).1 (p chunk_ooff))

  validate_oid_lookup-IsCalm :
      (hash : Algo) (count : ℕ) (chunks : Map ChunkExtent)
      → Within b (chunk chunk_oidl chunks)
      → Positive (chunk chunk_oidl chunks)
      → (chunk chunk_oidl chunks).len ≡ count * size hash
      → IsCalm (validate_oid_lookup hash d count chunks)
  unfolding validate_oid_lookup
  validate_oid_lookup-IsCalm hash count chunks w p same h = elim (Bool-cases (ltb count 2)) [
    | inl y ↦ ok-IsCalm tt (rw y at h)
    | inr n ↦
        let (body, e, h1) =
          bind_panicked (chunk_body d oidl) _ (chunk_body-IsCalm oidl w p) (rw n at h) in
        let long = length-chunk_body oidl body w p e in
        ascending_from-IsCalm hash body (count - 1) 1 (omega (arith, long, w.1 p, small, inside))
          (omega (arith, long, same, ap (λ (x : ℕ). x * size hash) (rows count n))) h1
  ]
    where
      oidl : ChunkExtent
      oidl = chunk chunk_oidl chunks

      rows : (c : ℕ) → ltb c 2 ≡ false → 1 + (c - 1) ≡ c
      rows c t = ground (arith, t)

  parsed_midx-IsCalm :
      (hash algo : Algo) (ver n packs : ℕ)
      → parse_chunk_table hash d n ≢ err panicked
      → ((chunks : Map ChunkExtent)
          → parse_chunk_table hash d n ≡ ok chunks
          → (id : Bytes) → Within b (chunk id chunks))
      → ((chunks : Map ChunkExtent)
          → parse_chunk_table hash d n ≡ ok chunks
          → (id : Bytes) → Positive (chunk id chunks))
      → parsed_midx hash algo d ver n packs ≢ err panicked
  parsed_midx-IsCalm hash algo ver n packs calm within positive h =
      let (chunks, c, h6) = bind_panicked (parse_chunk_table hash d n) _ calm h in
      let w = within chunks c in
      let p = positive chunks c in
      let (names, _, h7) =
        bind_panicked (parse_pack_names d ver packs chunks) _
          (parse_pack_names-IsCalm ver packs chunks (w chunk_pnam) (p chunk_pnam)) h6 in
      let (count, f, h8) =
        bind_panicked (parse_fanout hash d packs chunks) _
          (parse_fanout-IsCalm hash packs chunks w p) h7 in
      let (_, _, h9) =
        bind_panicked (validate_oid_lookup hash d count chunks) _
          (validate_oid_lookup-IsCalm hash count chunks (w chunk_oidl) (p chunk_oidl)
            (Parts.parse_fanout_passed hash d small packs count chunks f).1)
          h8 in
      ok-IsCalm _ h9

-- `OpenMidx` does not panic, neither at a slice nor at an index, on a file of less than 2^63 bytes of whose chunk
-- lookup table no offset is 2^63 or more.
pub open_midx-IsCalm :
    (hash algo : Algo) (d : Bytes)
    → All IsByte d
    → length d < 2 ^ 63
    → ((k : ℕ) → k ≤ get_or d 6 0 → toc_offset d k < 2 ^ 63)
    → open_midx hash algo (some d) ≢ err panicked
unfolding open_midx
open_midx-IsCalm hash algo d b l p h =
    let (t, h1) =
      refused_panicked (ltb (length d) (midx_header_size + size algo)) short_file _
        (λ e. absurd (cc)) h in
    let long = at_least (size algo) t in
    let (magic, _, h2) =
      bind_panicked (slice d 0 4) _
        (slice-IsCalm d 0 4 (omega arith) (omega arith) (omega (arith, long))) h1 in
    let (_, h3) =
      refused_panicked (not (equal magic midx_magic)) bad_magic _ (λ e. absurd (cc)) h2 in
    let (ver, _, h4) =
      bind_panicked (byte_at d 4) _ (byte_at-IsCalm d 4 (omega (arith, long))) h3 in
    let (_, h5) =
      refused_panicked (not (ver == 1) && not (ver == 2)) unsupported_version _ (λ e. absurd (cc))
        h4 in
    let (hash_ver, _, h6) =
      bind_panicked (byte_at d 5) _ (byte_at-IsCalm d 5 (omega (arith, long))) h5 in
    let (_, h7) =
      refused_panicked (not (hash_ver == midx_hash_version algo)) algo_mismatch _ (λ e. absurd (cc))
        h6 in
    let (n, e, h8) = bind_panicked (byte_at d 6) _ (byte_at-IsCalm d 6 (omega (arith, long))) h7 in
    let (reserved, _, h9) =
      bind_panicked (byte_at d 7) _ (byte_at-IsCalm d 7 (omega (arith, long))) h8 in
    let (_, h10) = refused_panicked (not (reserved == 0)) corrupt _ corrupt-IsCalm h9 in
    let (packs, _, h11) =
      bind_panicked (slice d 8 12) _
        (slice-IsCalm d 8 12 (omega arith) (omega arith) (omega (arith, long))) h10 in
    parsed_midx-IsCalm d l (body_end hash d) (omega arith) hash algo ver n (be packs)
      (parse_chunk_table-IsCalm hash d n l) (λ chunks c id. chunks-Within hash d n chunks id b l c)
      (λ chunks c id.
        chunks-Positive hash d n chunks id (λ k m. p k (omega (arith, m, byte_at_passed d 6 n e)))
          c)
      h11
  where
    at_least : (s : ℕ) → ltb (length d) (12 + s) ≡ false → 12 ≤ length d
    at_least s t = ground (arith, t)
