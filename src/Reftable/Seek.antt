-- ===== src/Reftable/Seek.antt =====
-- internal/reftable/seek.go, seekRestart of block.go and FindRef of reader.go: the lookup of one name in one
-- table. The scratch buffer and the counter of probes are left out; they change no result.
mod Delivers
mod Index
pub mod Scan
pub mod Total
pub mod Restarts
use go_ls_remote.Base.{
  ℕ, zero, suc, ◌+◌, ◌-◌, ◌/◌, Bool, true, false, ◌&&◌, Option, none, some, [], ltb, leb, ◌==◌, not,
  if◌then◌else◌, Bytes, length, take, drop, get_or, Result, ok, err, ◌>>=◌,
}
use Prim.Native.Nat.{lt, eq, gt}
use go_ls_remote.Base.BigEndian.{be}
use go_ls_remote.Base.Compare.{compare_bytes}
use go_ls_remote.Base.Words.{u32}
use go_ls_remote.Objfmt.Hash.{Algo}
use go_ls_remote.Reftable.{Error, truncated_block, bad_block_type}
use go_ls_remote.Reftable.Header.{Header, header_size, footer_size}
use go_ls_remote.Reftable.Varint.{decode_varint}
use go_ls_remote.Reftable.Key.{Key, decode_key}
use go_ls_remote.Reftable.RefRecord.{RefRecord, decode_ref_record, ref_value_deletion}
use go_ls_remote.Reftable.Block.{Block, parse_block, restart, records_end}
use go_ls_remote.Reftable.Walk.{next_position}
use go_ls_remote.Reftable.Reader.{Reader, Ref, lift_ref_record}

-- An error of the package, the error of a file without ref blocks, a slice out of range, and the end of the
-- fuel.
pub data Fault : Type 0 where
  failed : Error → Fault
  no_ref_blocks panicked starved : Fault

-- A call whose error is passed on.
abbrev pub passed_on {ℓ κ} :
    {A : Type ℓ} {B : Type κ} → Result Error A → (A → Result Fault B) → Result Fault B
passed_on (err e) k = err (failed e)
passed_on (ok a) k = k a

-- `readRefIndexPosition`.
unfoldable pub read_ref_index_position : Bytes → Header → ℕ
read_ref_index_position file h =
    be (take 8 (drop (header_size h) (drop (length file - footer_size h) file)))

-- The loop of Go's `sort.Search`, on fuel, for a test that may panic.
unfoldable pub search_from : (ℕ → Result Fault Bool) → ℕ → ℕ → ℕ → Result Fault ℕ
search_from test zero i j = ok i
search_from test (suc fuel) i j =
    if ltb i j
    then (test ((i + j) / 2) >>= λ holds.
        if holds
        then search_from test fuel i ((i + j) / 2)
        else search_from test fuel ((i + j) / 2 + 1) j)
    else ok i

abbrev pub is_after : Bytes → Bytes → Bool
is_after a b = elim (compare_bytes a b) [ gt ↦ true | _ ↦ false ]

abbrev pub is_before : Bytes → Bytes → Bool
is_before a b = elim (compare_bytes a b) [ lt ↦ true | _ ↦ false ]

-- `blk.bytes[off:restartOff]`.
abbrev pub records_from : Block → ℕ → Bytes
records_from b off = take (records_end b - off) (drop off b.bytes)

-- `cmp(i) > 0`, with the function that `descendIndex` gives to `seekRestart`.
unfoldable pub restart_after : Block → Bytes → ℕ → Result Fault Bool
restart_after b probe i =
    if ltb (records_end b) (restart b i)
    then err panicked
    else elim (decode_key (records_from b (restart b i)) []) [
      | err _ ↦ ok true
      | ok k ↦ ok (is_after k.key probe)
    ]

-- `seekRestart`, with 1 added to its result.
abbrev pub seek_restart : Block → Bytes → Result Fault ℕ
seek_restart b probe = search_from (restart_after b probe) b.restart_count 0 b.restart_count

-- The result behind the last record.
abbrev pub last_position : Option ℕ → Result Fault ℕ
last_position (some p) = ok p
last_position none = err (failed truncated_block)

-- The scan of `descendIndex` from `cur` on; `last` is `lastBlockPos` where `haveLast` holds.
unfoldable pub scan_index : Block → Bytes → ℕ → ℕ → Bytes → Option ℕ → Result Fault ℕ
scan_index b probe zero cur prev last = err starved
scan_index b probe (suc fuel) cur prev last =
    if ltb cur (records_end b)
    then passed_on (decode_key (records_from b cur) prev) (λ k.
      passed_on (decode_varint (records_from b (cur + u32 k.consumed))) (λ (position, m).
        if is_before k.key probe
        then scan_index b probe fuel (u32 (cur + u32 (u32 k.consumed + u32 m))) k.key
            (some position)
        else ok position))
    else last_position last

-- `scanFrom`.
abbrev pub scan_start : Block → ℕ → ℕ
scan_start b found = if found == 0 then 4 else restart b (found - 1)

-- `descendIndex`.
unfoldable pub descend_index : Block → Bytes → Result Fault ℕ
descend_index b probe = do
  found ← seek_restart b probe
  scan_index b probe (suc b.block_len) (scan_start b found) [] none

-- A leaf block: its bytes, and `firstByteOffset`.
abbrev pub Leaf : Type 0
Leaf = Bytes × ℕ

module _ (file : Bytes) (h : Header) (probe : Bytes) where
  -- The loop of `seekIndexed`, with a number of levels left.
  unfoldable pub seek_levels : ℕ → ℕ → Result Fault Leaf
  seek_levels zero pos = err (failed truncated_block)
  seek_levels (suc levels) pos =
      let first = if pos == 0 then u32 (header_size h) else 0 in
      if leb (length file) pos
      then err (failed truncated_block)
      else passed_on (parse_block (drop pos file) first) (λ b.
        if b.block_type == b'r'
        then ok (b.bytes, first)
        else if b.block_type == b'i'
        then (do
          next ← descend_index b probe
          if next == pos then err (failed truncated_block) else seek_levels levels next)
        else err (failed bad_block_type))

  abbrev pub max_depth : ℕ
  max_depth = 64

  -- `seekIndexed`.
  abbrev pub seek_indexed : ℕ → Result Fault Leaf
  seek_indexed index_root = seek_levels max_depth index_root

  -- The result behind the last block.
  abbrev pub last_leaf : Option Leaf → Result Fault Leaf
  last_leaf (some leaf) = ok leaf
  last_leaf none = err no_ref_blocks

  -- The loop of `seekLinear`; `last` is the block before, if there is one.
  unfoldable pub linear_from : ℕ → ℕ → Bool → Option Leaf → Result Fault Leaf
  linear_from zero pos first last = err starved
  linear_from (suc fuel) pos first last =
      let start = if first then u32 (header_size h) else 0 in
      let slice = if first then file else drop pos file in
      if not (ltb pos (u32 (length file)))
      then last_leaf last
      else if leb (u32 (length slice)) start
      then last_leaf last
      else if not (get_or slice start 0 == b'r')
      then last_leaf last
      else passed_on (parse_block slice start) (λ b.
        passed_on (decode_key (drop (u32 (start + 4)) b.bytes) []) (λ k.
          if not first && is_after k.key probe
          then last_leaf last
          else if leb (next_position h pos b.block_len) pos
          then err (failed truncated_block)
          else linear_from fuel (next_position h pos b.block_len) false (some (b.bytes, start))))

  -- `seekLinear`.
  abbrev pub seek_linear : Result Fault Leaf
  seek_linear = linear_from (suc (length file)) 0 true none

  -- `seekToLeaf`.
  unfoldable pub seek_to_leaf : ℕ → Result Fault Leaf
  seek_to_leaf index_root = if index_root == 0 then seek_linear else seek_indexed index_root

module _ (algo : Algo) where
  -- A record of the probe, as `FindRef` returns it.
  abbrev pub found_record : RefRecord → Option Ref
  found_record r = if r.value_type == ref_value_deletion then none else some (lift_ref_record r)

  -- The loop of `FindRef` over the records of the leaf.
  unfoldable pub scan_leaf : Block → ℕ → Bytes → ℕ → ℕ → Bytes → Result Fault (Option Ref)
  scan_leaf b min probe zero cur prev = err starved
  scan_leaf b min probe (suc fuel) cur prev =
      if ltb cur (records_end b)
      then passed_on (decode_ref_record algo (records_from b cur) prev min) (λ (r, n).
        elim (compare_bytes r.name probe) [
          | eq ↦ ok (found_record r)
          | gt ↦ ok none
          | lt ↦ scan_leaf b min probe fuel (u32 (cur + u32 n)) r.name
        ])
      else ok none

  -- `Reader.FindRef`.
  unfoldable pub find_in_reader : Reader → Bytes → Result Fault (Option Ref)
  find_in_reader r name = do
    (leaf, first) ← seek_to_leaf r.file r.header name (read_ref_index_position r.file r.header)
    passed_on (parse_block leaf first) (λ b.
        if b.block_type == b'r'
        then scan_leaf b r.header.min_update_index name (suc b.block_len) (u32 (first + 4)) []
        else err (failed bad_block_type))
