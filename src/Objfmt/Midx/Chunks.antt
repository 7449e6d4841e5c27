-- ===== src/Objfmt/Midx/Chunks.antt =====
-- What the chunk table of a multi-pack-index gives for each chunk.
use go_ls_remote.Base.{
  ℕ, zero, suc, ◌+◌, ◌*◌, ◌^◌, ◌%◌, ◌≤◌, ◌<◌, ◌≡◌, inl, inr, refl, ap, ◌∙◌, sym, arith, Bool, false,
  ◌||◌, not, some, List, [], ◌∷◌, Bytes, length, take, drop, equal, ◌==◌, Result, ok, err, All,
  IsByte, All-drop, Bool-cases, Option-cases, ok_injective, some_injective, none-some, guard_passed,
  bind_passed, if◌then◌else◌,
}
use mathlib.Core.Path.{subst}
use go_ls_remote.Base.BigEndian.{be, be-take_eight}
use go_ls_remote.Base.Maps.{Map, lookup, put, lookup-delete, lookup_empty}
use go_ls_remote.Objfmt.Hash.{Algo}
use go_ls_remote.Objfmt.Midx.{
  Failure, truncated, corrupt, ChunkExtent, Entry, signed_lt, signed_sub, no_chunk,
  midx_chunk_alignment, record_chunk, record_chunks, read_entries, parse_chunk_table, body_end,
  has_required, chunk, slice, midx_header_size, midx_chunk_toc_entry,
}
use go_ls_remote.Objfmt.Midx.Opened.{slice_field}

module _ (Q : ChunkExtent → Type 0) where
  -- Each chunk of a table has the property.
  abbrev pub Every : Map ChunkExtent → Type 0
  Every chunks = (id : Bytes) (x : ChunkExtent) → lookup id chunks ≡ some x → Q x

  put-Every :
      (k : Bytes) (v : ChunkExtent) (m : Map ChunkExtent) → Q v → Every m → Every (put k v m)
  unfolding lookup
  put-Every k v m q h id x e = elim (Bool-cases (equal k id)) [
    | inl y ↦ subst Q (some_injective (rw y at e)) q
    | inr n ↦ h id x (sym (lookup-delete k id m n) ∙ (rw n at e))
  ]

  pub chunk-Every :
      (id : Bytes) (m : Map ChunkExtent)
      → Q (record { off = 0; len = 0 })
      → Every m
      → Q (chunk id m)
  chunk-Every id m q h = elim (Option-cases (lookup id m)) [
    | inr n ↦ rw (n, chunk) q
    | inl (x, e) ↦ rw (e, chunk) (h id x e)
  ]

  module _ (P : Entry → Type 0) (b : ℕ)
      (bounds : (e next : Entry)
        → P e
        → P next
        → signed_lt next.off e.off ≡ false
        → signed_lt b next.off ≡ false
        → Q (record { off = e.off; len = signed_sub next.off e.off })) where
    or_false : (x y : Bool) → (x || y) ≡ false → (x ≡ false) × (y ≡ false)
    or_false x y h = ground arith

    record_chunk-Every :
        (e next : Entry) (m more : Map ChunkExtent)
        → P e
        → P next
        → Every m
        → record_chunk b e next m ≡ ok more
        → Every more
    record_chunk-Every e next m more p q h r =
        let (_, r1) = guard_passed (equal e.id no_chunk) corrupt _ more r in
        let (_, r2) = guard_passed (not (e.off % midx_chunk_alignment == 0)) corrupt _ more r1 in
        let (t, r3) =
          guard_passed (signed_lt next.off e.off || signed_lt b next.off) corrupt _ more r2 in
        let (t1, t2) = or_false (signed_lt next.off e.off) (signed_lt b next.off) t in
        elim (Option-cases (lookup e.id m)) [
          | inl (x, f) ↦ absurd (failed (rw f at r3))
          | inr f ↦
              subst Every (ok_injective (rw f at r3))
                (put-Every e.id _ m (bounds e next p q t1 t2) h)
        ]
      where
        failed : Path (Result Failure (Map ChunkExtent)) (err corrupt) (ok more) → ⊥
        failed f = absurd (cc)

    record_chunks-Every :
        (entries : List Entry) (m more : Map ChunkExtent)
        → All P entries
        → Every m
        → record_chunks b entries m ≡ ok more
        → Every more
    unfolding record_chunks
    record_chunks-Every [] m more p h r = subst Every (ok_injective r) h
    record_chunks-Every (e ∷ []) m more p h r = subst Every (ok_injective r) h
    record_chunks-Every (e ∷ next ∷ rest) m more p h r =
        let (n, r1, r2) =
          bind_passed (record_chunk b e next m) (record_chunks b (next ∷ rest)) more r in
        record_chunks-Every (next ∷ rest) n more p.1 (record_chunk-Every e next m n p.0 p.1.0 h r1)
          r2

    pub parse_chunk_table-Every :
        (hash : Algo) (d : Bytes) (n : ℕ) (m : Map ChunkExtent)
        → body_end hash d ≡ b
        → ((entries : List Entry) → read_entries d (n + 1) 0 ≡ ok entries → All P entries)
        → parse_chunk_table hash d n ≡ ok m
        → Every m
    unfolding parse_chunk_table
    parse_chunk_table-Every hash d n m e p r =
        let (_, r0) = guard_passed _ truncated _ m r in
        let (entries, read, r1) = bind_passed (read_entries d (n + 1) 0) _ m r0 in
        let (_, r2) = guard_passed _ corrupt _ m r1 in
        let (_, r3) = guard_passed _ truncated _ m r2 in
        let (chunks, r4, r5) = bind_passed (record_chunks (body_end hash d) entries []) _ m r3 in
        subst Every (required chunks r5) (
          record_chunks-Every entries [] chunks (p entries read)
            (λ id x f. absurd (none-some x (sym (lookup_empty id) ∙ f)))
            (ap (λ k. record_chunks k entries []) (sym e) ∙ r4))
      where
        required :
            (chunks : Map ChunkExtent)
            → (if has_required chunks then ok chunks else err corrupt) ≡ ok m
            → chunks ≡ m
        required chunks f = elim (Bool-cases (has_required chunks)) [
          | inl y ↦ ok_injective (rw y at f)
          | inr x ↦ absurd (failed (rw x at f))
        ]
          where
            failed : Path (Result Failure (Map ChunkExtent)) (err corrupt) (ok m) → ⊥
            failed f = absurd (cc)

-- An extent whose offset is not negative ends by `b`.
abbrev pub Within : ℕ → ChunkExtent → Type 0
Within b x = (x.off < 2 ^ 64) × (x.off < 2 ^ 63 → x.off + x.len ≤ b)

-- An offset that is not negative.
abbrev pub Positive : ChunkExtent → Type 0
Positive x = x.off < 2 ^ 63

signed_bounds :
    (b from to : ℕ)
    → b < 2 ^ 63
    → from < 2 ^ 64
    → to < 2 ^ 64
    → signed_lt to from ≡ false
    → signed_lt b to ≡ false
    → from < 2 ^ 63
    → from + signed_sub to from ≤ b
signed_bounds b from to hb hf ht l m p = ground arith

-- The offset of entry `k` of the chunk lookup table.
abbrev pub toc_offset : Bytes → ℕ → ℕ
toc_offset d k = be (take 8 (drop (midx_header_size + k * midx_chunk_toc_entry + 4) d))

read_entries-All :
    (R : ℕ → Type 0) (d : Bytes) (n i : ℕ) (entries : List Entry)
    → ((k : ℕ) → i ≤ k → k < i + n → R (toc_offset d k))
    → read_entries d n i ≡ ok entries
    → All (λ e. R e.off) entries
unfolding read_entries
read_entries-All R d zero i entries h e = subst (All (λ e. R e.off)) (ok_injective e) tt
read_entries-All R d (suc n) i entries h e =
    let base = midx_header_size + i * midx_chunk_toc_entry in
    let (id, _, e1) = bind_passed (slice d base (base + 4)) _ entries e in
    let (off, s, e2) = bind_passed (slice d (base + 4) (base + 12)) _ entries e1 in
    let (rest, r, e3) = bind_passed (read_entries d n (i + 1)) _ entries e2 in
    subst (All (λ e. R e.off)) (ok_injective e3) (
      subst (λ b. R (be b)) (slice_field d (base + 4) (base + 12) 8 off (omega arith) s).1
          (h i (omega arith) (omega arith)),
      read_entries-All R d n (i + 1) rest (λ k l m. h k (omega (arith, l)) (omega (arith, m))) r,
    )

toc_offset-below : (d : Bytes) (k : ℕ) → All IsByte d → toc_offset d k < 2 ^ 64
toc_offset-below d k h =
    be-take_eight (drop (12 + k * 12 + 4) d) (All-drop IsByte (12 + k * 12 + 4) d h)

-- The chunks of a file that `parseChunkTable` takes lie in its body, unless their offset is negative.
pub chunks-Within :
    (hash : Algo) (d : Bytes) (n : ℕ) (m : Map ChunkExtent) (id : Bytes)
    → All IsByte d
    → length d < 2 ^ 63
    → parse_chunk_table hash d n ≡ ok m
    → Within (body_end hash d) (chunk id m)
chunks-Within hash d n m id h l r =
    chunk-Every (Within (body_end hash d)) id m (omega arith, λ _. omega arith)
      (parse_chunk_table-Every (Within (body_end hash d)) (λ e. e.off < 2 ^ 64) (body_end hash d)
        (λ e next p q s t.
          (p, signed_bounds (body_end hash d) e.off next.off (omega (arith, l)) p q s t))
        hash d n m refl
        (λ entries e.
          read_entries-All (λ o. o < 2 ^ 64) d (n + 1) 0 entries (λ k _ _. toc_offset-below d k h)
            e)
        r)

-- Where no offset of the lookup table is negative, none of a chunk is.
pub chunks-Positive :
    (hash : Algo) (d : Bytes) (n : ℕ) (m : Map ChunkExtent) (id : Bytes)
    → ((k : ℕ) → k ≤ n → toc_offset d k < 2 ^ 63)
    → parse_chunk_table hash d n ≡ ok m
    → Positive (chunk id m)
chunks-Positive hash d n m id p r = chunk-Every Positive id m (omega arith) (
    parse_chunk_table-Every Positive (λ e. e.off < 2 ^ 63) (body_end hash d) (λ e next q _ _ _. q)
      hash d n m refl
      (λ entries e.
        read_entries-All (λ o. o < 2 ^ 63) d (n + 1) 0 entries (λ k _ l. p k (omega (arith, l))) e)
      r)
