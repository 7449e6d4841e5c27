-- ===== src/Reftable/Walk.antt =====
-- internal/reftable/reader.go: the walk over the ref blocks of a file.
pub mod Total
use go_ls_remote.Base.{
  ℕ, zero, suc, ◌+◌, ◌-◌, ◌*◌, ◌/◌, ◌^◌, Bool, true, false, [], ltb, leb, ◌==◌, not, if◌then◌else◌,
  Bytes, length, take, drop, get_or, Result, ok, err,
}
use go_ls_remote.Base.Words.{u32}
use go_ls_remote.Objfmt.Hash.{Algo}
use go_ls_remote.Reftable.{Error, truncated_block}
use go_ls_remote.Reftable.Header.{Header, header_size}
use go_ls_remote.Reftable.RefRecord.{RefRecord, decode_ref_record}
use go_ls_remote.Reftable.Block.{Block, parse_block, records_end}

-- What an iterator over records yields, up to its end. `walk_starved` is the end of the fuel.
pub data Walk : Type 0 where
  walk_end : Walk
  walk_failed : Error → Walk
  walk_starved : Walk
  walk_next : RefRecord → Walk → Walk

-- `roundUp` on uint32; the callers' `m` is not 0.
abbrev pub round_up : ℕ → ℕ → ℕ
round_up v m = u32 (u32 (v + m + (2 ^ 32 - 1)) / m * m)

-- `nextPos` of a block at `pos`.
abbrev pub next_position : Header → ℕ → ℕ → ℕ
next_position h pos len =
    if ltb 0 h.block_size then round_up (u32 (pos + len)) h.block_size else u32 (pos + len)

module _ (algo : Algo) (file : Bytes) (h : Header) where
  -- The loop over the records of a block; `k` goes on behind it, with the last name.
  unfoldable pub walk_records : ℕ → Block → ℕ → Bytes → (Bytes → Walk) → Walk
  walk_records zero b cur prev k = walk_starved
  walk_records (suc fuel) b cur prev k =
      if ltb cur (records_end b)
      then elim (decode_ref_record algo (take (records_end b - cur) (drop cur b.bytes)) prev
          h.min_update_index) [
            | err e ↦ walk_failed e
            | ok (r, n) ↦ walk_next r (walk_records fuel b (u32 (cur + u32 n)) r.name k)
          ]
      else k prev

  -- The loop over the blocks of `iterAllRefs`.
  unfoldable pub walk_blocks : ℕ → ℕ → Bool → Bytes → Walk
  walk_blocks zero pos first prev = walk_starved
  walk_blocks (suc fuel) pos first prev =
      let start = if first then u32 (header_size h) else 0 in
      let slice = if first then file else drop pos file in
      if not (ltb pos (u32 (length file)))
      then walk_end
      else if leb (u32 (length slice)) start
      then walk_end
      else if not (get_or slice start 0 == b'r')
      then walk_end
      else elim (parse_block slice start) [
        | err e ↦ walk_failed e
        | ok b ↦ walk_records (suc b.block_len) b (u32 (start + 4)) prev (λ last.
            if leb (next_position h pos b.block_len) pos
            then walk_failed truncated_block
            else walk_blocks fuel (next_position h pos b.block_len) false last)
      ]

  -- `iterAllRefs`.
  unfoldable pub iter_all_refs : Walk
  iter_all_refs = walk_blocks (suc (length file)) 0 true []
