-- ===== src/Objfmt/Idx/Search.antt =====
-- The lookup of a name in an index is exact.
use go_ls_remote.Base.{
  ℕ, ◌+◌, ◌*◌, ◌≤◌, ◌<◌, ◌≡◌, ◌↔◌, inl, inr, arith, Bool, true, false, Option, none, some, Bytes,
  length, ltb, ◌==◌, if◌then◌else◌, ok, Bool-cases, ltb_at_least, ==_iff,
}
use mathlib.Core.Path.{subst}
use go_ls_remote.Objfmt.Fanout
use go_ls_remote.Objfmt.Fanout.{looked_up_iff, no_rows}
use go_ls_remote.Base.Compare.{search_rows}
use go_ls_remote.Objfmt.Hash.{Algo, size}
use go_ls_remote.Objfmt.Idx.{
  Idx, fanout_size, fanout, fanout_low, v1_name, v1_offset, first_byte, is_sha1, find_offset_v1,
  name_table, v2_name, search_v2, offset_of, overflow_table, find_offset_v2, find_offset, open_idx,
  least_length,
}
use go_ls_remote.Objfmt.Idx.Opened.{IsOpened, open_idx-IsOpened}

abbrev pub IsTable : Idx → (ℕ → Bytes) → Type 0
IsTable i name = Fanout.IsTable (fanout i) i.count name

rows_exact :
    (hash : Algo) (i : Idx) (name : ℕ → Bytes) (h : Bytes) (k : ℕ)
    → IsOpened hash i
    → IsTable i name
    → first_byte h < 256
    → (search_rows name h
          (fanout i (first_byte h))
          (fanout_low i (first_byte h))
          (fanout i (first_byte h))
        ≡ some k)
      ↔ ((k < i.count) × (name k ≡ h))
rows_exact hash i name h k o t small =
    Fanout.rows_exact (fanout i) i.count name h k t small
      (omega (arith, o.rises (first_byte h) 255 (omega arith) (omega arith), o.ends))

fanout_within :
    (hash : Algo) (i : Idx) (n : ℕ) → IsOpened hash i → n < 256 → ltb i.count (fanout i n) ≡ false
fanout_within hash i n o h =
    ltb_at_least i.count (fanout i n)
      (omega (arith, o.rises n 255 (omega arith) (omega arith), o.ends))

find_offset_v1_exact :
    (hash : Algo) (i : Idx) (h : Bytes) (off : ℕ)
    → IsOpened hash i
    → i.ver ≡ 1
    → is_sha1 i.algo ≡ true
    → IsTable i (v1_name i)
    → first_byte h < 256
    → (find_offset_v1 i h ≡ some off)
      ↔ ((k : ℕ) × ((k < i.count) × (v1_name i k ≡ h)) × (some (v1_offset i k) ≡ some off))
unfolding find_offset_v1
find_offset_v1_exact hash i h off o v a t small = elim (Bool-cases (i.count == 0)) [
  | inl y ↦ rw (a, y) (no_rows i.count off ((==_iff i.count 0).0 y))
  | inr n ↦
      rw (a, n, long, below)
        (looked_up_iff (search_rows (v1_name i) h hi (fanout_low i (first_byte h)) hi)
          (λ k. some (v1_offset i k)) off (λ k. rows_exact hash i (v1_name i) h k o t small))
]
  where
    hi : ℕ
    hi = fanout i (first_byte h)

    long : ltb (length i.data_of) fanout_size ≡ false
    long = ltb_at_least (length i.data_of) fanout_size (omega (arith, rw v at o.long_enough))

    below : ltb i.count hi ≡ false
    below = fanout_within hash i (first_byte h) o small

search_v2_exact :
    (hash : Algo) (i : Idx) (h : Bytes) (k : ℕ)
    → IsOpened hash i
    → i.ver ≡ 2
    → IsTable i (v2_name hash i)
    → first_byte h < 256
    → (i.count == 0) ≡ false
    → (search_v2 hash i h ≡ some k) ↔ ((k < i.count) × (v2_name hash i k ≡ h))
unfolding search_v2
search_v2_exact hash i h k o v t small n =
    rw (n, header, fanout_within hash i (first_byte h) o small, names)
      (rows_exact hash i (v2_name hash i) h k o t small)
  where
    long : least_length hash 2 i.count ≤ length i.data_of
    long = rw v at o.long_enough

    header : ltb (length i.data_of) name_table ≡ false
    header = ltb_at_least (length i.data_of) name_table (omega (arith, long))

    names : ltb (length i.data_of) (name_table + i.count * size hash) ≡ false
    names = ltb_at_least (length i.data_of) (name_table + i.count * size hash) (omega (arith, long))

find_offset_v2_exact :
    (hash : Algo) (i : Idx) (h : Bytes) (off : ℕ)
    → IsOpened hash i
    → i.ver ≡ 2
    → IsTable i (v2_name hash i)
    → first_byte h < 256
    → (find_offset_v2 hash i h ≡ some off)
      ↔ ((k : ℕ) × ((k < i.count) × (v2_name hash i k ≡ h)) × (offset_of hash i k ≡ some off))
unfolding find_offset_v2
find_offset_v2_exact hash i h off o v t small = elim (Bool-cases (i.count == 0)) [
  | inl y ↦ rw y (no_rows i.count off ((==_iff i.count 0).0 y))
  | inr n ↦
      let exact =
        looked_up_iff {Q = λ k. (k < i.count) × (v2_name hash i k ≡ h)} (search_v2 hash i h)
          (λ k. if ltb (length i.data_of) (overflow_table hash i) then none else offset_of hash i k)
          off (λ k. search_v2_exact hash i h k o v t small n) in
      rw n (rw tables at exact)
]
  where
    tables : ltb (length i.data_of) (overflow_table hash i) ≡ false
    tables =
        ltb_at_least (length i.data_of) (overflow_table hash i)
          (omega (arith, rw v at o.long_enough))

-- The name and the offset of row `k`, by the version of the index.
abbrev pub row_name : Algo → Idx → ℕ → Bytes
row_name hash i k = if i.ver == 1 then v1_name i k else v2_name hash i k

abbrev pub row_offset : Algo → Idx → ℕ → Option ℕ
row_offset hash i k = if i.ver == 1 then some (v1_offset i k) else offset_of hash i k

-- On an index that `OpenIdx` has opened, of SHA-1 if it is of version 1, whose names ascend and whose
-- fan-out table counts them, `FindOffset` gives an offset for a name exactly when a row has that name and
-- that offset: no row is missed, and no other is hit.
pub find_offset_exact :
    (hash algo : Algo) (d : Bytes) (i : Idx) (h : Bytes) (off : ℕ)
    → open_idx hash algo (some d) ≡ ok i
    → (i.ver ≡ 1 → is_sha1 i.algo ≡ true)
    → IsTable i (row_name hash i)
    → first_byte h < 256
    → (find_offset hash i h ≡ some off)
      ↔ ((k : ℕ) × ((k < i.count) × (row_name hash i k ≡ h)) × (row_offset hash i k ≡ some off))
unfolding find_offset
find_offset_exact hash algo d i h off e a t small =
    let o = open_idx-IsOpened hash algo d i e in
    elim o.known [
      | inl v ↦
          let one : (i.ver == 1) ≡ true = ground arith in
          rw one (find_offset_v1_exact hash i h off o v (a v) (subst by_version one t) small)
      | inr v ↦
          let other : (i.ver == 1) ≡ false = ground arith in
          let two : (i.ver == 2) ≡ true = ground arith in
          rw (other, two) (find_offset_v2_exact hash i h off o v (subst by_version other t) small)
    ]
  where
    by_version : Bool → Type 0
    by_version first = IsTable i (λ k. if first then v1_name i k else v2_name hash i k)
