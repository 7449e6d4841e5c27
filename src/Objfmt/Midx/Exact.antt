-- ===== src/Objfmt/Midx/Exact.antt =====
-- What a multi-pack-index that `OpenMidx` opens holds, and that its lookup is exact.
use go_ls_remote.Base.{
  ℕ, ◌+◌, ◌*◌, ◌^◌, ◌≤◌, ◌<◌, ◌≡◌, ◌↔◌, inl, inr, refl, ap, ◌∙◌, sym, arith, Bool, false, ◌||◌,
  ◌&&◌, true, not, some, List, Bytes, length, ltb, ◌==◌, ==_iff, ok, ok_injective, get_or, equal,
  bind_passed, guard_passed, Bool-cases, ltb_at_least, All, IsByte, Result, ◌>>=◌,
}
use go_ls_remote.Base.BigEndian.{be}
use go_ls_remote.Base.Compare.{Ascends}
use go_ls_remote.Base.Maps.{Map}
use go_ls_remote.Objfmt.Hash.{Algo, size}
use go_ls_remote.Objfmt.Fanout
use go_ls_remote.Objfmt.Fanout.{first_byte, low, looked_up_iff, no_rows}
use go_ls_remote.Objfmt.Midx.{
  Failure, refuse_if, parsed_midx, slice, byte_at, short_file, bad_magic, unsupported_version,
  algo_mismatch, corrupt, Midx, ChunkExtent, chunk, chunk_oidf, chunk_oidl, chunk_ooff, midx_magic,
  midx_header_size, midx_hash_version, parse_fanout, validate_oid_lookup, parse_chunk_table,
  parse_pack_names, open_midx, body_end, names_ascend, collect_names, chunk_body, chunk_pnam,
}
use go_ls_remote.Objfmt.Midx.Rows.{
  extent, midx_fanout, midx_name, pack_index, search_names, row_place, find_row,
}
use go_ls_remote.Objfmt.Midx.Chunks.{Within, chunks-Within}
use go_ls_remote.Objfmt.Midx.Opened.{byte_at_passed}
use go_ls_remote.Objfmt.Midx.Parts

-- A multi-pack-index with one pack index and one name for each object, whose names ascend.
pub record IsOpened (hash : Algo) (m : Midx) : Type 0 where
  pub not_empty : (length m.data_of == 0) ≡ false
  pub fanout_len : (extent m chunk_oidf).len ≡ 256 * 4
  pub packs_len : (extent m chunk_ooff).len ≡ m.count * 8
  pub names_len : (extent m chunk_oidl).len ≡ m.count * size hash
  pub below : (n : ℕ) → n < 256 → midx_fanout m n ≤ m.count
  pub ascends : Ascends (midx_name hash m) m.count
  pub packs : (k : ℕ) → k < m.count → pack_index m k < m.num_packs
  pub named : length m.pack_names ≡ m.num_packs

names_counted :
    (d : Bytes) (ver packs : ℕ) (chunks : Map ChunkExtent) (names : List Bytes)
    → parse_pack_names d ver packs chunks ≡ ok names
    → length names ≡ packs
unfolding parse_pack_names
names_counted d ver packs chunks names e =
    let (body, _, e1) = bind_passed (chunk_body d (chunk chunk_pnam chunks)) _ names e in
    let (read, _, e2) = bind_passed (collect_names packs body) _ names e1 in
    let (t, e3) = guard_passed (not (length read == packs)) corrupt _ names e2 in
    let (_, e4) = guard_passed (ver == 1 && not (names_ascend read)) corrupt _ names e3 in
    ap length (sym (ok_injective e4)) ∙ is_same (length read) t
  where
    is_same : (x : ℕ) → not (x == packs) ≡ false → x ≡ packs
    is_same x t = ground arith

-- A guard that has let its code pass.
refuse_if_passed :
    {A : Type 0} (test : Bool) (e : Failure) (k : Unit {0} → Result Failure A) (a : A)
    → (refuse_if test e >>= k) ≡ ok a
    → (test ≡ false) × (k tt ≡ ok a)
refuse_if_passed true e k a h = absurd (cc)
refuse_if_passed false e k a h = (refl, h)

-- What `OpenMidx` has done behind the header where it does not fail.
abbrev pub IsParsed : Algo → Bytes → Midx → Type 0
IsParsed hash d m =
    (m.data_of ≡ d)
    × (parse_chunk_table hash d (get_or d 6 0) ≡ ok m.chunks)
    × (length m.pack_names ≡ m.num_packs)
    × (parse_fanout hash d m.num_packs m.chunks ≡ ok m.count)
    × (validate_oid_lookup hash d m.count m.chunks ≡ ok tt)

parsed_midx_lem :
    (hash algo : Algo) (d : Bytes) (ver n packs : ℕ) (m : Midx)
    → get_or d 6 0 ≡ n
    → parsed_midx hash algo d ver n packs ≡ ok m
    → IsParsed hash d m
parsed_midx_lem hash algo d ver n packs m same e =
    let (chunks, c, e6) = bind_passed (parse_chunk_table hash d n) _ m e in
    let (names, p, e7) = bind_passed (parse_pack_names d ver packs chunks) _ m e6 in
    let (count, f, e8) = bind_passed (parse_fanout hash d packs chunks) _ m e7 in
    let (_, v, e9) = bind_passed (validate_oid_lookup hash d count chunks) _ m e8 in
    rw (sym (ok_injective e9)) (refl, rw same c, names_counted d ver packs chunks names p, f, v)

-- What `OpenMidx` has done where it does not fail.
pub parts :
    (hash algo : Algo) (d : Bytes) (m : Midx)
    → open_midx hash algo (some d) ≡ ok m
    → ((length d == 0) ≡ false) × IsParsed hash d m
unfolding open_midx
parts hash algo d m e =
    let (t, e1) =
      refuse_if_passed (ltb (length d) (midx_header_size + size algo)) short_file _ m e in
    let (magic, _, e2) = bind_passed (slice d 0 4) _ m e1 in
    let (_, e3) = refuse_if_passed (not (equal magic midx_magic)) bad_magic _ m e2 in
    let (ver, _, e4) = bind_passed (byte_at d 4) _ m e3 in
    let (_, e5) = refuse_if_passed (not (ver == 1) && not (ver == 2)) unsupported_version _ m e4 in
    let (hash_ver, _, e6) = bind_passed (byte_at d 5) _ m e5 in
    let (_, e7) =
      refuse_if_passed (not (hash_ver == midx_hash_version algo)) algo_mismatch _ m e6 in
    let (n, six, e8) = bind_passed (byte_at d 6) _ m e7 in
    let (reserved, _, e9) = bind_passed (byte_at d 7) _ m e8 in
    let (_, e10) = refuse_if_passed (not (reserved == 0)) corrupt _ m e9 in
    let (packs, _, e11) = bind_passed (slice d 8 12) _ m e10 in
    (not_empty t, parsed_midx_lem hash algo d ver n (be packs) m (byte_at_passed d 6 n six) e11)
  where
    not_empty : ltb (length d) (midx_header_size + size algo) ≡ false → (length d == 0) ≡ false
    not_empty t = ground (arith, t)

-- A multi-pack-index that `OpenMidx` opens from a file of less than 2^63 bytes has as many pack names as its
-- header says, and for each name a pack index among them; no entry of the fan-out table is beyond the number of
-- names, and the names ascend.
pub open_midx-IsOpened :
    (hash algo : Algo) (d : Bytes) (m : Midx)
    → All IsByte d
    → length d < 2 ^ 63
    → open_midx hash algo (some d) ≡ ok m
    → IsOpened hash m
open_midx-IsOpened hash algo d m b l e =
    let (t, (same, c, names, f, v)) = parts hash algo d m e in
    let within : (id : Bytes) → Within (body_end hash d) (chunk id m.chunks) =
      λ id. chunks-Within hash d (get_or d 6 0) m.chunks id b l c in
    let (fl, nl, pl, p, (fanout, fb, ff)) =
      Parts.parse_fanout_passed hash d l m.num_packs m.count m.chunks f in
    record {
      not_empty = rw same t;
      fanout_len = fl;
      names_len = nl;
      packs_len = pl;
      below = rw same (
          Parts.fanout_below hash d l (chunk chunk_oidf m.chunks) fanout m.count (within chunk_oidf)
            fl fb ff);
      ascends = rw same (Parts.names_ascend hash d l m.count m.chunks (within chunk_oidl) nl v);
      packs = rw same (
          Parts.packs_below hash d l (chunk chunk_ooff m.chunks) m.num_packs m.count
            (within chunk_ooff) pl p);
      named = names;
    }

-- Entry `n` of the fan-out table is the number of names whose first byte is at most `n`.
abbrev pub IsCounted : Algo → Midx → Type 0
IsCounted hash m =
    (n k : ℕ)
    → n < 256
    → k < m.count
    → (k < midx_fanout m n) ↔ (first_byte (midx_name hash m k) ≤ n)

search_names_exact :
    (hash : Algo) (m : Midx) (h : Bytes) (k : ℕ)
    → IsOpened hash m
    → IsCounted hash m
    → first_byte h < 256
    → (search_names hash m h ≡ some k) ↔ ((k < m.count) × (midx_name hash m k ≡ h))
unfolding search_names
search_names_exact hash m h k o c small =
    rw (tables, ltb_at_least m.count (midx_fanout m (first_byte h)) bound)
      (Fanout.rows_exact (midx_fanout m) m.count (midx_name hash m) h k
        (record { ascends = o.ascends; counted = c }) small bound)
  where
    bound : midx_fanout m (first_byte h) ≤ m.count
    bound = o.below (first_byte h) small

    tables :
        (not ((extent m chunk_oidf).len == 256 * 4)
          || not ((extent m chunk_oidl).len == m.count * size hash))
        ≡ false
    tables =
        equal_lengths (extent m chunk_oidf).len (256 * 4) (extent m chunk_oidl).len
          (m.count * size hash) o.fanout_len o.names_len
      where
        equal_lengths : (x y v w : ℕ) → x ≡ y → v ≡ w → (not (x == y) || not (v == w)) ≡ false
        equal_lengths x y v w p q = ground arith

-- The search over the rows finds each, and no other.
pub find_row_exact :
    (hash : Algo) (m : Midx) (h : Bytes) (place : ℕ × ℕ)
    → IsOpened hash m
    → IsCounted hash m
    → first_byte h < 256
    → (find_row hash m h ≡ some place)
      ↔ ((k : ℕ) × ((k < m.count) × (midx_name hash m k ≡ h)) × (row_place m k ≡ some place))
unfolding find_row
find_row_exact hash m h place o c small = elim (Bool-cases (m.count == 0)) [
  | inl y ↦ rw y (no_rows m.count place ((==_iff m.count 0).0 y))
  | inr n ↦
      rw (n, o.not_empty)
        (looked_up_iff {Q = λ k. (k < m.count) × (midx_name hash m k ≡ h)} (search_names hash m h)
          (row_place m) place (λ k. search_names_exact hash m h k o c small))
]
