-- ===== src/Objfmt/Midx/Find.antt =====
-- internal/objfmt/midx_find.go: the lookup of a name. Offsets are int64 and wrap; a slice out of range is
-- `panicked`.
use go_ls_remote.Base.{
  ℕ, zero, suc, ◌+◌, ◌-◌, ◌*◌, ◌/◌, ◌%◌, ◌^◌, ◌||◌, not, Option, none, some, ltb, leb, ◌==◌,
  if◌then◌else◌, Bytes, length, drop, Result, ok, err, ◌>>=◌,
}
use Prim.Native.Nat.{lt, eq, gt}
use go_ls_remote.Base.BigEndian.{be}
use go_ls_remote.Base.Compare.{compare_bytes}
use go_ls_remote.Base.Maps.{lookup}
use go_ls_remote.Objfmt.Hash.{Algo, size}
use go_ls_remote.Objfmt.Fanout.{first_byte}
use go_ls_remote.Objfmt.Midx.{
  Failure, panicked, Midx, ChunkExtent, signed_lt, slice, chunk, chunk_oidf, chunk_oidl, chunk_ooff,
  chunk_loff, midx_ooff_record_size,
}

-- `m.data[off+from : off+to]`.
abbrev pub part : Midx → ℕ → ℕ → ℕ → Result Failure Bytes
part m off from to = slice m.data_of ((off + from) % 2 ^ 64) ((off + to) % 2 ^ 64)

-- `d[from:]`.
unfoldable pub slice_from : Bytes → ℕ → Result Failure Bytes
slice_from d from =
    if leb (2 ^ 63) from || ltb (length d) from then err panicked else ok (drop from d)

-- The loop of `searchOID`, on fuel; `read` gives the name of a row.
unfoldable pub search_loop :
    (ℕ → Result Failure Bytes) → Bytes → ℕ → ℕ → ℕ → Result Failure (Option ℕ)
search_loop read want zero lo hi = ok none
search_loop read want (suc fuel) lo hi =
    let mid = lo + (hi - lo) / 2 in
    if ltb lo hi
    then (do
      got ← read mid
      elim (compare_bytes want got) [
        | eq ↦ ok (some mid)
        | lt ↦ search_loop read want fuel lo mid
        | gt ↦ search_loop read want fuel (mid + 1) hi
      ])
    else ok none

-- `lo` of `searchOID`.
abbrev pub fanout_before : Midx → ℕ → Result Failure ℕ
fanout_before m prefix =
    if ltb 0 prefix
    then (do
      field ← part m (chunk chunk_oidf m.chunks).off ((prefix - 1) * 4) (prefix * 4)
      ok (be field))
    else ok 0

-- `searchOID`. The range has at most `hi` rows, and the loop ends within as many rounds.
unfoldable pub search_oid : Algo → Midx → Bytes → Result Failure (Option ℕ)
search_oid hash m h =
    let oidf = chunk chunk_oidf m.chunks in
    let oidl = chunk chunk_oidl m.chunks in
    let prefix = first_byte h in
    if not (oidf.len == 256 * 4) || not (oidl.len == m.count * size hash) then ok none else (do
      lo ← fanout_before m prefix
      field ← part m oidf.off (prefix * 4) ((prefix + 1) * 4)
      if ltb m.count (be field)
          then ok none
          else search_loop (λ k. part m oidl.off (k * size hash) (k * size hash + size hash)) h
              (be field) lo (be field))

-- The entry of `LOFF` that a slot names.
abbrev pub midx_large_offset : Midx → Option ChunkExtent → ℕ → Result Failure (Option ℕ)
midx_large_offset m none n = ok none
midx_large_offset m (some loff) n = if signed_lt loff.len (n * 8 + 8) then ok none else (do
  field ← part m loff.off (n * 8) (n * 8 + 8)
  if ltb (2 ^ 63 - 1) (be field) then ok none else ok (some (be field)))

-- The offset in the slot `raw`: one with the top bit set names an entry of `LOFF`.
abbrev pub midx_offset : Midx → ℕ → Result Failure (Option ℕ)
midx_offset m raw =
    if ltb raw (2 ^ 31)
    then ok (some raw)
    else midx_large_offset m (lookup chunk_loff m.chunks) (raw - 2 ^ 31)

abbrev pub with_pack : ℕ → Option ℕ → Option (ℕ × ℕ)
with_pack pack none = none
with_pack pack (some off) = some (pack, off)

-- `Find` behind the search: the pack index and the offset of name `k`.
unfoldable pub located : Midx → ℕ → Result Failure (Option (ℕ × ℕ))
located m k = do
  rec ←
      slice_from m.data_of (((chunk chunk_ooff m.chunks).off + k * midx_ooff_record_size) % 2 ^ 64)
  pack ← slice rec 0 4
  raw ← slice rec 4 8
  off ← midx_offset m (be raw)
  ok (with_pack (be pack) off)

abbrev pub found : Midx → Option ℕ → Result Failure (Option (ℕ × ℕ))
found m none = ok none
found m (some k) = located m k

-- `Find`; `none` is `ok == false`.
unfoldable pub find_midx : Algo → Midx → Bytes → Result Failure (Option (ℕ × ℕ))
find_midx hash m h =
    if m.count == 0 || length m.data_of == 0
    then ok none
    else (do idx ← search_oid hash m h; found m idx)
