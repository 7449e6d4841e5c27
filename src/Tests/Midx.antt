-- ===== src/Tests/Midx.antt =====
-- Multi-pack-indexes with one pack and one name, at concrete bytes.
use go_ls_remote.Base.{
  Bool, true, false, if◌then◌else◌, ltb, ◌==◌, ==_iff, ℕ, zero, suc, ◌^◌, ◌≡◌, ◌≢◌, ◌↔◌, ◌<◌, ◌≤◌,
  refl, [], ◌∷◌, ◌++◌, some, Bytes, ok, err, arith, All, IsByte, equal,
}
use go_ls_remote.Base.BigEndian.{be, be_bytes}
use go_ls_remote.Base.Compare.{compare_bytes}
use go_ls_remote.Base.Maps.{lookup, delete}
use go_ls_remote.Base.Table.{holds_below, holds_below_sound}
use go_ls_remote.Base.Text.{bytes, cut}
use go_ls_remote.Objfmt.Hash.{sha1, zeros}
use go_ls_remote.Objfmt.Midx.{
  Midx, panicked, open_midx, parse_chunk_table, parse_pack_names, parse_fanout, validate_oid_lookup,
  read_entries, record_chunks, slice, byte_at, collect_names, names_ascend, fanout_from, packs_from,
}
use go_ls_remote.Objfmt.Midx.Find.{located, search_oid, search_loop, slice_from, find_midx}
use go_ls_remote.Objfmt.Midx.Rows.{midx_fanout, midx_name, row_place}
use go_ls_remote.Objfmt.Midx.Chunks.{toc_offset}
use go_ls_remote.Objfmt.Midx.Reads.{find_midx_exact}
use go_ls_remote.Objfmt.Midx.Exact.{IsOpened, IsCounted, open_midx-IsOpened}
use go_ls_remote.Objfmt.Midx.Panics.{open_midx-IsCalm}

abbrev ones : ℕ → Bytes
ones zero = []
ones (suc n) = 0 ∷ 0 ∷ 0 ∷ 1 ∷ ones n

abbrev name : Bytes
name = 0 ∷ 7 ∷ zeros 18

abbrev place : ℕ → Bytes
place n = be_bytes 8 n

-- A file whose first chunk starts at a given offset.
abbrev file : Bytes → Bytes
file first =
    bytes "MIDX"
    ++ (1 ∷ 1 ∷ 4 ∷ 0 ∷ 0 ∷ 0 ∷ 0 ∷ 1 ∷ [])
    ++ (bytes "PNAM" ++ first)
    ++ (bytes "OIDF" ++ (0 ∷ 0 ∷ 0 ∷ 0 ∷ 0 ∷ 0 ∷ 0 ∷ 76 ∷ []))
    ++ (bytes "OIDL" ++ (0 ∷ 0 ∷ 0 ∷ 0 ∷ 0 ∷ 0 ∷ 4 ∷ 76 ∷ []))
    ++ (bytes "OOFF" ++ (0 ∷ 0 ∷ 0 ∷ 0 ∷ 0 ∷ 0 ∷ 4 ∷ 96 ∷ []))
    ++ (0 ∷ 0 ∷ 0 ∷ 0 ∷ 0 ∷ 0 ∷ 0 ∷ 0 ∷ 0 ∷ 0 ∷ 4 ∷ 104 ∷ [])
    ++ (b'a' ∷ 0 ∷ 0 ∷ 0 ∷ [])
    ++ ones 256
    ++ name
    ++ (0 ∷ 0 ∷ 0 ∷ 0 ∷ 0 ∷ 0 ∷ 0 ∷ 12 ∷ [])
    ++ zeros 20

abbrev midx : Bytes
midx = file (0 ∷ 0 ∷ 0 ∷ 0 ∷ 0 ∷ 0 ∷ 0 ∷ 72 ∷ [])

abbrev opened : Midx
opened = record {
  algo = sha1;
  ver = 1;
  count = 1;
  num_packs = 1;
  data_of = midx;
  chunks =
      (bytes "OOFF", record { off = 1120; len = 8 })
      ∷ (bytes "OIDL", record { off = 1100; len = 20 })
      ∷ (bytes "OIDF", record { off = 76; len = 1024 })
      ∷ (bytes "PNAM", record { off = 72; len = 4 })
      ∷ [];
  pack_names = (b'a' ∷ []) ∷ [];
}

midx-opened : open_midx sha1 sha1 (some midx) ≡ ok opened
unfolding open_midx parse_chunk_table parse_pack_names parse_fanout validate_oid_lookup read_entries
    record_chunks slice byte_at collect_names names_ascend fanout_from packs_from be compare_bytes
    lookup delete cut equal
midx-opened = refl

-- A chunk whose offset is -8 as an int64: the slice of its body panics.
midx-panicked :
    open_midx sha1 sha1 (some (file (255 ∷ 255 ∷ 255 ∷ 255 ∷ 255 ∷ 255 ∷ 255 ∷ 248 ∷ [])))
    ≡ err panicked
unfolding open_midx parse_chunk_table parse_pack_names parse_fanout validate_oid_lookup read_entries
    record_chunks slice byte_at collect_names names_ascend fanout_from packs_from be compare_bytes
    lookup delete cut equal
midx-panicked = refl

are_bytes : Bytes → Bool
are_bytes [] = true
are_bytes (c ∷ s) = if ltb c 256 then are_bytes s else false

are_bytes-IsByte : (s : Bytes) → are_bytes s ≡ true → All IsByte s
unfolding are_bytes
are_bytes-IsByte [] h = tt
are_bytes-IsByte (c ∷ s) h = ground (arith, are_bytes-IsByte s)

midx-IsByte : All IsByte midx
unfolding are_bytes
midx-IsByte = are_bytes-IsByte midx refl

entries_one : (n : ℕ) → n < 256 → midx_fanout opened n ≡ 1
unfolding holds_below be lookup equal
entries_one n h =
    (==_iff (midx_fanout opened n) 1).0
      (holds_below_sound 256 (λ k. midx_fanout opened k == 1) refl n h)

midx-IsCounted : IsCounted sha1 opened
unfolding lookup equal
midx-IsCounted n zero s l = (λ _. omega arith, λ _. omega (arith, entries_one n s))
midx-IsCounted n (suc k) s l = absurd (omega arith)

opened_example : IsOpened sha1 opened
opened_example = open_midx-IsOpened sha1 sha1 midx opened midx-IsByte (omega arith) midx-opened

no_negative : (k : ℕ) → k ≤ 4 → toc_offset midx k < 2 ^ 63
unfolding holds_below be
no_negative k l =
    below (toc_offset midx k)
      (holds_below_sound 5 (λ n. ltb (toc_offset midx n) (2 ^ 63)) refl k (omega (arith, l)))
  where
    below : (x : ℕ) → ltb x (2 ^ 63) ≡ true → x < 2 ^ 63
    below x t = ground (arith, t)

find_midx_example :
    (find_midx sha1 opened name ≢ err panicked)
    × ((find_midx sha1 opened name ≡ ok (some (0, 12))) ↔ (
        (k : ℕ) × ((k < 1) × (midx_name sha1 opened k ≡ name))
        × (row_place opened k ≡ some (0, 12))))
find_midx_example =
    find_midx_exact sha1 sha1 midx opened name (0, 12) midx-IsByte (omega arith) no_negative
      midx-opened midx-IsCounted (omega arith)

found_name : find_midx sha1 opened name ≡ ok (some (0, 12))
found_name =
    unfold find_midx search_oid search_loop compare_bytes located slice slice_from lookup equal
      be in
    refl

calm_example : open_midx sha1 sha1 (some midx) ≢ err panicked
calm_example = open_midx-IsCalm sha1 sha1 midx midx-IsByte (omega arith) no_negative
