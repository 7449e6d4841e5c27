-- ===== src/Reftable/Seek/Total.antt =====
-- The lookup of one name comes to an end: the fuel is enough for every file.
use go_ls_remote.Base.{
  ℕ, zero, suc, ◌+◌, ◌-◌, ◌^◌, ◌≤◌, ◌<◌, Bool, true, false, ◌&&◌, ◌≢◌, [], arith, ltb, leb, ◌==◌,
  not, if◌then◌else◌, Bytes, length, drop, get_or, All, IsByte, All-take, All-drop, Result, ok, err,
  length-take_le, Option, none, some,
}
use Prim.Native.Nat.{Ordering, lt, eq, gt}
use go_ls_remote.Base.Compare.{compare_bytes}
use go_ls_remote.Base.Words.{u32}
use go_ls_remote.Objfmt.Hash.{Algo}
use go_ls_remote.Reftable.{truncated_block, bad_block_type}
use go_ls_remote.Reftable.Header.{Header, header_size}
use go_ls_remote.Reftable.Key.{decode_key}
use go_ls_remote.Reftable.RefRecord.{RefRecord, decode_ref_record}
use go_ls_remote.Reftable.RefRecord.Exact.{decode_ref_record_bounds}
use go_ls_remote.Reftable.Block.{Block, parse_block, records_end}
use go_ls_remote.Reftable.Block.Sound.{IsBlock, parse_block-IsBlock, records_end-IsBlock}
use go_ls_remote.Reftable.Walk.{next_position}
use go_ls_remote.Reftable.Reader.{Reader, Ref}
use go_ls_remote.Reftable.Seek.{
  Fault, failed, starved, read_ref_index_position, is_after, records_from, descend_index, Leaf,
  seek_levels, last_leaf, linear_from, seek_to_leaf, found_record, scan_leaf, find_in_reader,
}
use go_ls_remote.Reftable.Seek.Delivers.{
  Delivers, Any, Delivers-passed_on, Delivers-bind, Delivers-if, Delivers-never_starved,
}
use go_ls_remote.Reftable.Seek.Index.{descend_index-Delivers}

-- A leaf whose bytes are bytes, and that `parseBlock` can read.
abbrev IsLeaf : Leaf → Type 0
IsLeaf (bytes, first) = All IsByte bytes × (first < 2 ^ 24)

module _ (file : Bytes) (h : Header) (probe : Bytes) (file_bytes : All IsByte file) where
  start-bound : (first : Bool) → (if first then u32 (header_size h) else 0) < 2 ^ 24
  start-bound true = ground arith
  start-bound false = omega arith

  block-IsByte :
      (slice : Bytes) (first : ℕ) (b : Block)
      → All IsByte slice
      → IsBlock slice first b
      → All IsByte b.bytes
  block-IsByte slice first b hs w = rw w.bytes_are (All-take IsByte b.block_len slice hs)

  seek_levels-Delivers : (levels pos : ℕ) → Delivers IsLeaf (seek_levels file h probe levels pos)
  unfolding seek_levels
  seek_levels-Delivers zero pos = tt
  seek_levels-Delivers (suc levels) pos =
      Delivers-if IsLeaf (leb (length file) pos) (err (failed truncated_block)) _ (λ _. tt)
        (λ _. Delivers-passed_on IsLeaf (parse_block slice first) _ (λ b e.
          let w = parse_block-IsBlock slice first b slice_bytes (start-bound (pos == 0)) e in
          let hb = block-IsByte slice first b slice_bytes w in
          Delivers-if IsLeaf (b.block_type == b'r') (ok (b.bytes, first)) _
            (λ _. (hb, start-bound (pos == 0)))
            (λ _.
              Delivers-if IsLeaf (b.block_type == b'i') _ (err (failed bad_block_type))
                (λ _.
                  Delivers-bind IsLeaf Any (descend_index b probe) _
                    (descend_index-Delivers b hb
                      (omega (arith, records_end-IsBlock slice first b w, w.tiles, w.small)) probe
                      (omega (arith, records_end-IsBlock slice first b w, w.tiles, w.small)))
                    (λ next _.
                      Delivers-if IsLeaf (next == pos) (err (failed truncated_block))
                        (seek_levels file h probe levels next) (λ _. tt)
                        (λ _. seek_levels-Delivers levels next)))
                (λ _. tt))))
    where
      slice : Bytes
      slice = drop pos file

      slice_bytes : All IsByte slice
      slice_bytes = All-drop IsByte pos file file_bytes

      first : ℕ
      first = if pos == 0 then u32 (header_size h) else 0

  slice-IsByte : (first : Bool) (pos : ℕ) → All IsByte (if first then file else drop pos file)
  slice-IsByte true pos = file_bytes
  slice-IsByte false pos = All-drop IsByte pos file file_bytes

  -- The leaf that the loop keeps, if there is one.
  abbrev IsKept : Option Leaf → Type 0
  IsKept none = Unit {0}
  IsKept (some leaf) = IsLeaf leaf

  last_leaf-Delivers :
      (last : Option Leaf) → IsKept last → Delivers IsLeaf (last_leaf file h probe last)
  last_leaf-Delivers none k = tt
  last_leaf-Delivers (some leaf) k = k

  linear_from-Delivers :
      (fuel pos : ℕ) (first : Bool) (last : Option Leaf)
      → length file < fuel + pos
      → 1 ≤ fuel
      → IsKept last
      → Delivers IsLeaf (linear_from file h probe fuel pos first last)
  unfolding linear_from
  linear_from-Delivers zero pos first last enough some_fuel kept = absurd (omega (arith, some_fuel))
  linear_from-Delivers (suc fuel) pos first last enough some_fuel kept =
      Delivers-if IsLeaf (not (ltb pos (u32 (length file)))) (last_leaf file h probe last) _
        (λ _. done)
        (λ inside.
          Delivers-if IsLeaf (leb (u32 (length slice)) start) (last_leaf file h probe last) _
            (λ _. done)
            (λ _.
              Delivers-if IsLeaf (not (get_or slice start 0 == b'r')) (last_leaf file h probe last)
                _ (λ _. done)
                (λ _. Delivers-passed_on IsLeaf (parse_block slice start) _ (λ b e.
                  let w = parse_block-IsBlock slice start b slice_bytes (start-bound first) e in
                  Delivers-passed_on IsLeaf (decode_key (drop (u32 (start + 4)) b.bytes) []) _
                    (λ k _.
                      Delivers-if IsLeaf (not first && is_after k.key probe)
                        (last_leaf file h probe last) _ (λ _. done)
                        (λ _.
                          Delivers-if IsLeaf (leb (next_position h pos b.block_len) pos)
                            (err (failed truncated_block)) _ (λ _. tt)
                            (λ later.
                              linear_from-Delivers fuel (next_position h pos b.block_len) false
                                (some (b.bytes, start)) (ground arith) (ground arith)
                                (block-IsByte slice start b slice_bytes w, start-bound first))))))))
    where
      start : ℕ
      start = if first then u32 (header_size h) else 0

      slice : Bytes
      slice = if first then file else drop pos file

      slice_bytes : All IsByte slice
      slice_bytes = slice-IsByte first pos

      done : Delivers IsLeaf (last_leaf file h probe last)
      done = last_leaf-Delivers last kept

  seek_to_leaf-Delivers : (index_root : ℕ) → Delivers IsLeaf (seek_to_leaf file h probe index_root)
  unfolding seek_to_leaf
  seek_to_leaf-Delivers index_root =
      Delivers-if IsLeaf (index_root == 0) _ _
        (λ _. linear_from-Delivers (suc (length file)) 0 true none (omega arith) (omega arith) tt)
        (λ _. seek_levels-Delivers 64 index_root)

module _ (algo : Algo) (min : ℕ) (probe : Bytes) (min_fits : min < 2 ^ 64) where
  found-Delivers :
      (o : Ordering) (r : RefRecord) (rest : Result Fault (Option Ref))
      → Delivers Any rest
      → Delivers Any (elim o [ eq ↦ ok (found_record algo r) | gt ↦ ok none | lt ↦ rest ])
  found-Delivers lt r rest d = d
  found-Delivers eq r rest d = tt
  found-Delivers gt r rest d = tt

  scan_leaf-Delivers :
      (b : Block) (fuel cur : ℕ) (prev : Bytes)
      → All IsByte b.bytes
      → records_end b < 2 ^ 24
      → records_end b < fuel + cur
      → 1 ≤ fuel
      → Delivers Any (scan_leaf algo b min probe fuel cur prev)
  unfolding scan_leaf
  scan_leaf-Delivers b zero cur prev hb small enough some_fuel = absurd (omega (arith, some_fuel))
  scan_leaf-Delivers b (suc fuel) cur prev hb small enough some_fuel =
      Delivers-if Any (ltb cur (records_end b)) _ (ok none)
        (λ inside. Delivers-passed_on Any (decode_ref_record algo left prev min) _ (λ (r, n) e.
          let (u, v) =
            moved n (ground arith)
              (decode_ref_record_bounds algo left prev min r n left_bytes min_fits e) in
          found-Delivers (compare_bytes r.name probe) r _ (
            scan_leaf-Delivers b fuel (u32 (cur + u32 n)) r.name hb small (omega (arith, enough, v))
              (omega (arith, enough, u, v)))))
        (λ _. tt)
    where
      left : Bytes
      left = records_from b cur

      left_bytes : All IsByte left
      left_bytes =
          All-take IsByte (records_end b - cur) (drop cur b.bytes) (All-drop IsByte cur b.bytes hb)

      left_length : length left ≤ records_end b - cur
      left_length = length-take_le (records_end b - cur) (drop cur b.bytes)

      moved :
          (n : ℕ)
          → cur < records_end b
          → (1 ≤ n) × (n ≤ length left)
          → (u32 (cur + u32 n) ≤ records_end b) × (cur < u32 (cur + u32 n))
      moved n l (x, y) = omega (arith, l, x, y, left_length, small)

-- `FindRef` comes to an end on every file of bytes whose smallest update index is a uint64: it returns, with a
-- record, nothing or an error, or it panics, within the fuel of its loops. A record takes a byte of its block, a block
-- moves the position on, and an index is at most 64 levels deep.
pub find_in_reader-ends :
    (algo : Algo) (r : Reader) (name : Bytes)
    → All IsByte r.file
    → r.header.min_update_index < 2 ^ 64
    → find_in_reader algo r name ≢ err starved
unfolding find_in_reader
find_in_reader-ends algo r name hb min_fits = Delivers-never_starved Any _ (
    Delivers-bind Any IsLeaf (seek_to_leaf r.file r.header name root) _
      (seek_to_leaf-Delivers r.file r.header name hb root)
      (λ (leaf, first) (hl, hf). Delivers-passed_on Any (parse_block leaf first) _ (λ b e.
        let w = parse_block-IsBlock leaf first b hl hf e in
        Delivers-if Any (b.block_type == b'r') _ (err (failed bad_block_type))
          (λ _.
            scan_leaf-Delivers algo r.header.min_update_index name min_fits b (suc b.block_len)
              (u32 (first + 4)) [] (block-IsByte r.file r.header name hb leaf first b hl w)
              (omega (arith, records_end-IsBlock leaf first b w, w.tiles, w.small))
              (omega (arith, records_end-IsBlock leaf first b w, w.tiles, w.small)) (omega arith))
          (λ _. tt))))
  where
    root : ℕ
    root = read_ref_index_position r.file r.header
