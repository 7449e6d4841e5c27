-- ===== src/Reftable/Block.antt =====
-- internal/reftable/block.go: the frame of a block and its restart table.
pub mod Sound
use go_ls_remote.Base.{
  ℕ, zero, suc, ◌+◌, ◌-◌, ◌*◌, Bool, true, false, ltb, ◌==◌, ◌||◌, not, if◌then◌else◌, Bytes,
  length, take, drop, get_or, Result, ok, err,
}
use go_ls_remote.Base.BigEndian.{be}
use go_ls_remote.Base.Words.{u32, sub32}
use go_ls_remote.Reftable.{Error, truncated_block, bad_block_type, log_block_unsupported}

-- `block`, with the fields of `blockHeader`.
pub record Block : Type 0 where
  pub block_type : ℕ
  pub block_len : ℕ
  pub restart_count : ℕ
  pub bytes : Bytes
  pub first_byte_offset : ℕ
  pub table_start : ℕ

abbrev pub be24 : Bytes → ℕ
be24 buf = be (take 3 buf)

-- The loop over the restart table: no offset lies before the first byte of the block.
unfoldable pub restarts_fit : Bytes → ℕ → ℕ → ℕ → Bool
restarts_fit bytes first off zero = true
restarts_fit bytes first off (suc count) =
    let rest = restarts_fit bytes first (off + 3) count in
    if ltb (be24 (drop off bytes)) first then false else rest

-- `parseBlock` behind the check of the length. `tableStart` is an int64, which is negative where the
-- block is shorter than its table.
abbrev pub framed : Bytes → ℕ → ℕ → ℕ → Result Error Block
framed buf first block_type block_len =
    let bytes = take block_len buf in
    let count = be (drop (block_len - 2) bytes) in
    let start = block_len - 2 - 3 * count in
    if count == 0
    then err truncated_block
    else if ltb block_len (first + 4 + 2 + 3 * count)
    then err truncated_block
    else if not (restarts_fit bytes first start count)
    then err truncated_block
    else ok (record {
      block_type = block_type;
      block_len = block_len;
      restart_count = count;
      bytes = bytes;
      first_byte_offset = first;
      table_start = u32 start;
    })

abbrev pub is_known_type : ℕ → Bool
is_known_type t = t == b'r' || (t == b'i' || t == b'o')

-- `parseBlock`. A slice's length is an int that is cut to a uint32.
unfoldable pub parse_block : Bytes → ℕ → Result Error Block
parse_block buf first =
    let block_type = get_or buf first 0 in
    let block_len = be24 (drop (first + 1) buf) in
    if ltb (u32 (length buf)) (u32 (first + 4))
    then err truncated_block
    else if not (is_known_type block_type)
    then err (if block_type == b'g' then log_block_unsupported else bad_block_type)
    else if ltb (u32 (length buf)) block_len
    then err truncated_block
    else if ltb block_len (u32 (first + 9))
    then err truncated_block
    else framed buf first block_type block_len

-- `block.restart`.
unfoldable pub restart : Block → ℕ → ℕ
restart b i = sub32 (be24 (drop (u32 (b.table_start + u32 (3 * i))) b.bytes)) b.first_byte_offset

-- `blk.header.blockLen - 2 - 3*uint32(blk.header.restartCount)`, as the walks over a block compute it.
abbrev pub records_end : Block → ℕ
records_end b = sub32 (sub32 b.block_len 2) (u32 (3 * b.restart_count))
