-- ===== src/Objfmt/Midx/Parts.antt =====
-- What the parts of `OpenMidx` have checked where they do not fail.
use go_ls_remote.Base.{
  ℕ, zero, suc, ◌+◌, ◌-◌, ◌*◌, ◌^◌, ◌%◌, ◌≤◌, ◌<◌, ◌≡◌, inl, inr, refl, ap, ◌∙◌, sym, arith, true,
  false, not, Bytes, length, take, drop, ltb, ◌==◌, ok, err, ok_injective, bind_passed, ◌>>=◌,
  guard_passed, Bool-cases, if◌then◌else◌,
}
use Prim.Native.Nat.{lt}
use go_ls_remote.Base.BigEndian.{be}
use go_ls_remote.Base.Compare.{compare_bytes, Ascends}
use go_ls_remote.Base.Adjacent.{adjacent-Ascends}
use go_ls_remote.Base.Maps.{Map}
use go_ls_remote.Objfmt.Hash.{Algo, size, sha1, sha256}
use go_ls_remote.Objfmt.Midx.{
  corrupt, slice, ChunkExtent, chunk, chunk_body, chunk_oidf, chunk_oidl, chunk_ooff, fanout_from,
  packs_from, ascending_from, parse_fanout, validate_oid_lookup, body_end,
}
use go_ls_remote.Objfmt.Midx.Chunks.{Within}
use go_ls_remote.Objfmt.Midx.Opened.{
  slice_passed, take-drop_slice, fanout_from-bound, packs_from-bound, ascending_from-next,
}

inside : (hash : Algo) (a n : ℕ) → suc a ≤ n → a * size hash + size hash ≤ n * size hash
inside sha1 a n h = omega (arith, h)
inside sha256 a n h = omega (arith, h)

module _ (hash : Algo) (d : Bytes) (small : length d < 2 ^ 63) where
  body_of :
      (x : ChunkExtent) (b : Bytes)
      → Within (body_end hash d) x
      → chunk_body d x ≡ ok b
      → (x.off < 2 ^ 63) × (take x.len (drop x.off d) ≡ b)
  body_of x b w e =
      let (p, _, _, r) = slice_passed d x.off ((x.off + x.len) % 2 ^ 64) b e in
      (p, ap (λ n. take n (drop x.off d)) (width ((x.off + x.len) % 2 ^ 64) refl (w.1 p)) ∙ r)
    where
      width :
          (t : ℕ)
          → t ≡ (x.off + x.len) % 2 ^ 64
          → x.off + x.len ≤ body_end hash d
          → x.len ≡ t - x.off
      width t f l = omega (arith, f, l, small)

  is_same : (x y : ℕ) → not (x == y) ≡ false → x ≡ y
  is_same x y t = ground arith

  -- What `parseFanout` has read where it does not fail.
  pub parse_fanout_passed :
      (packs count : ℕ) (chunks : Map ChunkExtent)
      → parse_fanout hash d packs chunks ≡ ok count
      → ((chunk chunk_oidf chunks).len ≡ 256 * 4)
        × ((chunk chunk_oidl chunks).len ≡ count * size hash)
        × ((chunk chunk_ooff chunks).len ≡ count * 8)
        × (packs_from d (chunk chunk_ooff chunks).off packs count 0 ≡ ok tt)
        × ((fanout : Bytes) × (chunk_body d (chunk chunk_oidf chunks) ≡ ok fanout)
            × (fanout_from fanout 256 0 0 ≡ ok count))
  unfolding parse_fanout
  parse_fanout_passed packs count chunks e =
      let (t1, e1) = guard_passed (not (oidf.len == 256 * 4)) corrupt _ count e in
      let (fanout, e2, e3) = bind_passed (chunk_body d oidf) _ count e1 in
      let (last, e4, e5) = bind_passed (fanout_from fanout 256 0 0) _ count e3 in
      behind fanout last e2 e4 (is_same oidf.len (256 * 4) t1) e5
    where
      oidf : ChunkExtent
      oidf = chunk chunk_oidf chunks

      oidl : ChunkExtent
      oidl = chunk chunk_oidl chunks

      ooff : ChunkExtent
      ooff = chunk chunk_ooff chunks

      behind :
          (fanout : Bytes) (last : ℕ)
          → chunk_body d oidf ≡ ok fanout
          → fanout_from fanout 256 0 0 ≡ ok last
          → oidf.len ≡ 256 * 4
          → (if not (oidl.len == last * size hash)
              then err corrupt
              else if not (ooff.len == last * 8)
              then err corrupt
              else (do _ ← packs_from d ooff.off packs last 0; ok last))
            ≡ ok count
          → (oidf.len ≡ 256 * 4)
            × (oidl.len ≡ count * size hash)
            × (ooff.len ≡ count * 8)
            × (packs_from d ooff.off packs count 0 ≡ ok tt)
            × ((f : Bytes) × (chunk_body d oidf ≡ ok f) × (fanout_from f 256 0 0 ≡ ok count))
      behind fanout last e2 e4 l e5 =
          let (t2, e6) = guard_passed (not (oidl.len == last * size hash)) corrupt _ count e5 in
          let (t3, e7) = guard_passed (not (ooff.len == last * 8)) corrupt _ count e6 in
          let (_, e8, e9) = bind_passed (packs_from d ooff.off packs last 0) _ count e7 in
          let same : last ≡ count = ok_injective e9 in
          (
            l,
            is_same oidl.len (last * size hash) t2 ∙ ap (λ (n : ℕ). n * size hash) same,
            is_same ooff.len (last * 8) t3 ∙ ap (λ (n : ℕ). n * 8) same,
            ap (λ n. packs_from d ooff.off packs n 0) (sym same) ∙ e8,
            (fanout, e2, e4 ∙ ap ok same),
          )

  pub fanout_below :
      (x : ChunkExtent) (fanout : Bytes) (count : ℕ)
      → Within (body_end hash d) x
      → x.len ≡ 256 * 4
      → chunk_body d x ≡ ok fanout
      → fanout_from fanout 256 0 0 ≡ ok count
      → (n : ℕ) → n < 256
      → be (take 4 (drop (x.off + n * 4) d)) ≤ count
  fanout_below x fanout count w l e f n h =
      let (_, r) = body_of x fanout w e in
      rw (sym (take-drop_slice 4 (n * 4) x.off x.len d (omega (arith, l, h))), r)
        ((fanout_from-bound fanout 256 0 0 count f).1 n (omega arith) (omega (arith, h)))

  pub packs_below :
      (x : ChunkExtent) (packs count : ℕ)
      → Within (body_end hash d) x
      → x.len ≡ count * 8
      → packs_from d x.off packs count 0 ≡ ok tt
      → (k : ℕ) → k < count
      → be (take 4 (drop (x.off + k * 8) d)) < packs
  unfolding packs_from
  packs_below x packs zero w l e k h = absurd (omega (arith, h))
  packs_below x packs (suc count) w l e k h =
      packs_from-bound d x.off packs (suc count) 0 (omega (arith, l, small, w.1 (first count e))) e
        k (omega arith) (omega (arith, h))
    where
      first : (c : ℕ) → packs_from d x.off packs (suc c) 0 ≡ ok tt → x.off < 2 ^ 63
      first c e =
          let base = (x.off + 0 * 8) % 2 ^ 64 in
          let (field, e1, _) = bind_passed (slice d base (base + 4)) _ tt e in
          straight base refl (slice_passed d base (base + 4) field e1).0
        where
          straight : (base : ℕ) → base ≡ (x.off + 0 * 8) % 2 ^ 64 → base < 2 ^ 63 → x.off < 2 ^ 63
          straight base f l = omega (arith, f, l, w.0)

  pub names_ascend :
      (count : ℕ) (chunks : Map ChunkExtent)
      → Within (body_end hash d) (chunk chunk_oidl chunks)
      → (chunk chunk_oidl chunks).len ≡ count * size hash
      → validate_oid_lookup hash d count chunks ≡ ok tt
      → Ascends
          (λ k. take (size hash) (drop ((chunk chunk_oidl chunks).off + k * size hash) d))
          count
  unfolding validate_oid_lookup
  names_ascend count chunks w l e = elim (Bool-cases (ltb count 2)) [
    | inl y ↦ λ a b p q. absurd (few a b y p q)
    | inr n ↦
        let (body, e1, e2) = bind_passed (chunk_body d oidl) _ tt (rw n at e) in
        let (_, r) = body_of oidl body w e1 in
        adjacent-Ascends row count (λ a p. next body e2 r a p)
  ]
    where
      oidl : ChunkExtent
      oidl = chunk chunk_oidl chunks

      row : ℕ → Bytes
      row k = take (size hash) (drop (oidl.off + k * size hash) d)

      few : (a b : ℕ) → ltb count 2 ≡ true → a < b → b < count → ⊥
      few a b y p q = ground arith

      next :
          (body : Bytes)
          → ascending_from hash body (count - 1) 1 ≡ ok tt
          → take oidl.len (drop oidl.off d) ≡ body
          → (a : ℕ) → suc a < count
          → compare_bytes (row a) (row (suc a)) ≡ lt
      next body f r a p =
          rw
            (
              sym (
                  take-drop_slice (size hash) (a * size hash) oidl.off oidl.len d
                    (omega (arith, l, inside hash a count (omega (arith, p))))),
              sym (
                  take-drop_slice (size hash) (suc a * size hash) oidl.off oidl.len d
                    (omega (arith, l, inside hash (suc a) count (omega (arith, p))))),
              r,
            )
            (ascending_from-next hash body (count - 1) 1 f a (omega arith) (omega (arith, p)))
