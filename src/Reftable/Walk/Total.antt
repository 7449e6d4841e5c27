-- ===== src/Reftable/Walk/Total.antt =====
-- The walk over a file comes to its end: the fuel is enough for every file.
use go_ls_remote.Base.{
  length-take_le, ℕ, zero, suc, ◌+◌, ◌-◌, ◌^◌, ◌≤◌, ◌<◌, Bool, true, false, ◌≡◌, inl, inr, refl, [],
  arith, ltb, leb, ◌==◌, not, if◌then◌else◌, Bytes, length, take, drop, get_or, All, IsByte,
  All-take, All-drop, Result, ok, err, Bool-cases,
}
use go_ls_remote.Base.Words.{u32}
use go_ls_remote.Objfmt.Hash.{Algo}
use go_ls_remote.Reftable.{Error, truncated_block}
use go_ls_remote.Reftable.Header.{Header, header_size}
use go_ls_remote.Reftable.RefRecord.{RefRecord, decode_ref_record}
use go_ls_remote.Reftable.RefRecord.Exact.{decode_ref_record_bounds}
use go_ls_remote.Reftable.Block.{Block, parse_block, records_end}
use go_ls_remote.Reftable.Block.Sound.{IsBlock, parse_block-IsBlock, records_end-IsBlock}
use go_ls_remote.Reftable.Walk.{
  Walk, walk_end, walk_failed, walk_starved, walk_next, next_position, walk_records, walk_blocks,
  iter_all_refs,
}

-- The walk ends, or fails, and has not run out of fuel.
abbrev pub Finishes : Walk → Type 0
Finishes walk_end = Unit {0}
Finishes (walk_failed e) = Unit {0}
Finishes walk_starved = ⊥
Finishes (walk_next r rest) = Finishes rest

Finishes-branch :
    (test : Bool) (v w : Walk)
    → Finishes v
    → (test ≡ false → Finishes w)
    → Finishes (if test then v else w)
Finishes-branch true v w hv hw = hv
Finishes-branch false v w hv hw = hw refl

Finishes-record :
    (found : Result Error (RefRecord × ℕ)) (k : RefRecord → ℕ → Walk)
    → ((r : RefRecord) (n : ℕ) → found ≡ ok (r, n) → Finishes (k r n))
    → Finishes (elim found [ err e ↦ walk_failed e | ok (r, n) ↦ walk_next r (k r n) ])
Finishes-record (err e) k h = tt
Finishes-record (ok (r, n)) k h = h r n refl

Finishes-block :
    (found : Result Error Block) (k : Block → Walk)
    → ((b : Block) → found ≡ ok b → Finishes (k b))
    → Finishes (elim found [ err e ↦ walk_failed e | ok b ↦ k b ])
Finishes-block (err e) k h = tt
Finishes-block (ok b) k h = h b refl

module _ (algo : Algo) (file : Bytes) (h : Header) (file_bytes : All IsByte file)
    (min_fits : h.min_update_index < 2 ^ 64) where
  walk_records-Finishes :
      (fuel : ℕ) (buf : Bytes) (first : ℕ) (b : Block) (cur : ℕ) (prev : Bytes) (k : Bytes → Walk)
      → All IsByte buf
      → IsBlock buf first b
      → cur ≤ b.table_start
      → b.table_start < fuel + cur
      → ((last : Bytes) → Finishes (k last))
      → Finishes (walk_records algo file h fuel b cur prev k)
  unfolding walk_records
  walk_records-Finishes zero buf first b cur prev k hb w l enough end = absurd (omega arith)
  walk_records-Finishes (suc fuel) buf first b cur prev k hb w l enough end =
      elim (Bool-cases (ltb cur (records_end b))) [
        | inr n ↦ rw n (end prev)
        | inl y ↦ rw y (
            Finishes-record (decode_ref_record algo left prev h.min_update_index)
              (λ r n. walk_records algo file h fuel b (u32 (cur + u32 n)) r.name k)
              (λ r n e.
                let (some, fits) =
                  decode_ref_record_bounds algo left prev h.min_update_index r n left_bytes min_fits
                    e in
                walk_records-Finishes fuel buf first b (u32 (cur + u32 n)) r.name k hb w
                  (omega (arith, left_length, w.tiles, w.small, records_end-IsBlock buf first b w))
                  (omega (arith, left_length, w.tiles, w.small, records_end-IsBlock buf first b w))
                  end))
      ]
    where
      left : Bytes
      left = take (records_end b - cur) (drop cur b.bytes)

      left_bytes : All IsByte left
      left_bytes =
          All-take IsByte (records_end b - cur) (drop cur b.bytes)
            (All-drop IsByte cur b.bytes (rw w.bytes_are (All-take IsByte b.block_len buf hb)))

      left_length : length left ≤ records_end b - cur
      left_length = length-take_le (records_end b - cur) (drop cur b.bytes)

  start-bound : (first : Bool) → (if first then u32 (header_size h) else 0) < 2 ^ 24
  start-bound true = ground arith
  start-bound false = omega arith

  slice-IsByte : (first : Bool) (pos : ℕ) → All IsByte (if first then file else drop pos file)
  slice-IsByte true pos = file_bytes
  slice-IsByte false pos = All-drop IsByte pos file file_bytes

  walk_blocks-Finishes :
      (fuel pos : ℕ) (first : Bool) (prev : Bytes)
      → length file < fuel + pos
      → 1 ≤ fuel
      → Finishes (walk_blocks algo file h fuel pos first prev)
  unfolding walk_blocks
  walk_blocks-Finishes zero pos first prev enough some = absurd (omega arith)
  walk_blocks-Finishes (suc fuel) pos first prev enough some =
      Finishes-branch (not (ltb pos (u32 (length file)))) walk_end typed tt (λ inside.
        Finishes-branch (leb (u32 (length slice)) start) walk_end read tt (λ _.
          Finishes-branch (not (get_or slice start 0 == b'r')) walk_end parsed tt (λ _.
            Finishes-block (parse_block slice start) records (λ b e.
              let w = parse_block-IsBlock slice start b slice_bytes (start-bound first) e in
              walk_records-Finishes (suc b.block_len) slice start b (u32 (start + 4)) prev
                (behind b) slice_bytes w (omega (arith, w.room, w.tiles, w.small))
                (omega (arith, w.tiles))
                (λ last.
                  Finishes-branch (leb (next_position h pos b.block_len) pos)
                    (walk_failed truncated_block)
                    (walk_blocks algo file h fuel (next_position h pos b.block_len) false last) tt
                    (λ later.
                      walk_blocks-Finishes fuel (next_position h pos b.block_len) false last
                        (ground arith) (ground arith)))))))
    where
      start : ℕ
      start = if first then u32 (header_size h) else 0

      slice : Bytes
      slice = if first then file else drop pos file

      behind : Block → Bytes → Walk
      behind b last =
          if leb (next_position h pos b.block_len) pos
          then walk_failed truncated_block
          else walk_blocks algo file h fuel (next_position h pos b.block_len) false last

      records : Block → Walk
      records b = walk_records algo file h (suc b.block_len) b (u32 (start + 4)) prev (behind b)

      parsed : Walk
      parsed = elim (parse_block slice start) [ err e ↦ walk_failed e | ok b ↦ records b ]

      read : Walk
      read = if not (get_or slice start 0 == b'r') then walk_end else parsed

      typed : Walk
      typed = if leb (u32 (length slice)) start then walk_end else read

      slice_bytes : All IsByte slice
      slice_bytes = slice-IsByte first pos

  -- The walk over the records of a file of bytes, whose smallest update index is a uint64, comes to an
  -- end, after its last record or at an error, within the fuel that `iter_all_refs` starts with: every record takes a byte of its block, and every
  -- block moves the position on, though the position is a uint32 that can wrap.
  pub iter_all_refs-Finishes : Finishes (iter_all_refs algo file h)
  unfolding iter_all_refs
  iter_all_refs-Finishes =
      walk_blocks-Finishes (suc (length file)) 0 true [] (omega arith) (omega arith)
