-- ===== src/Objfmt/Midx/Rows.antt =====
-- The rows of a multi-pack-index, described without the reads of `Find` and their order.
use go_ls_remote.Base.{
  ℕ, ◌+◌, ◌-◌, ◌*◌, ◌^◌, ◌||◌, not, Option, none, some, ltb, ◌==◌, if◌then◌else◌, Bytes, length,
  take, drop,
}
use go_ls_remote.Base.BigEndian.{be}
use go_ls_remote.Base.Compare.{search_rows}
use go_ls_remote.Base.Maps.{lookup}
use go_ls_remote.Objfmt.Hash.{Algo, size}
use go_ls_remote.Objfmt.Fanout.{first_byte, low}
use go_ls_remote.Objfmt.Midx.{
  Midx, ChunkExtent, signed_lt, chunk, chunk_oidf, chunk_oidl, chunk_ooff, chunk_loff,
  midx_ooff_record_size,
}

-- The chunk of a file.
abbrev pub extent : Midx → Bytes → ChunkExtent
extent m id = chunk id m.chunks

-- Entry `n` of the fan-out table.
abbrev pub midx_fanout : Midx → ℕ → ℕ
midx_fanout m n = be (take 4 (drop ((extent m chunk_oidf).off + n * 4) m.data_of))

-- Name `k` of the table of names.
abbrev pub midx_name : Algo → Midx → ℕ → Bytes
midx_name hash m k = take (size hash) (drop ((extent m chunk_oidl).off + k * size hash) m.data_of)

-- The search over the rows.
unfoldable pub search_names : Algo → Midx → Bytes → Option ℕ
search_names hash m h =
    let hi = midx_fanout m (first_byte h) in
    if not ((extent m chunk_oidf).len == 256 * 4)
      || not ((extent m chunk_oidl).len == m.count * size hash)
    then none
    else if ltb m.count hi
    then none
    else search_rows (midx_name hash m) h hi (low (midx_fanout m) (first_byte h)) hi

-- The record of name `k`.
abbrev pub pack_record : Midx → ℕ → Bytes
pack_record m k = drop ((extent m chunk_ooff).off + k * midx_ooff_record_size) m.data_of

abbrev pub pack_index : Midx → ℕ → ℕ
pack_index m k = be (take 4 (pack_record m k))

-- The entry of `LOFF`, where the file has one and it is an int64.
abbrev pub large_offset : Midx → ℕ → Option ℕ
large_offset m n = elim (lookup chunk_loff m.chunks) [
  | none ↦ none
  | some loff ↦
      let off = be (take 8 (drop (loff.off + n * 8) m.data_of)) in
      if signed_lt loff.len (n * 8 + 8)
      then none
      else if ltb (2 ^ 63 - 1) off
      then none
      else some off
]

-- The offset of name `k` in its pack: a slot with the top bit set names an entry of `LOFF`.
abbrev pub row_offset : Midx → ℕ → Option ℕ
row_offset m k =
    let raw = be (take 4 (drop 4 (pack_record m k))) in
    if ltb raw (2 ^ 31) then some raw else large_offset m (raw - 2 ^ 31)

-- The pack index and the offset of name `k`.
abbrev pub row_place : Midx → ℕ → Option (ℕ × ℕ)
row_place m k = elim (row_offset m k) [ none ↦ none | some off ↦ some (pack_index m k, off) ]

-- The place of a name.
unfoldable pub find_row : Algo → Midx → Bytes → Option (ℕ × ℕ)
find_row hash m h =
    if m.count == 0 || length m.data_of == 0
    then none
    else elim (search_names hash m h) [ none ↦ none | some k ↦ row_place m k ]
