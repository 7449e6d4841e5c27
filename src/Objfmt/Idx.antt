-- ===== src/Objfmt/Idx.antt =====
-- internal/objfmt/idx.go, idx_v1.go and idx_v2.go: the index of a pack. What `os.ReadFile` gives is a
-- parameter of `open_idx`, and `idx.path` is left out.
pub mod Search
pub mod Opened
pub mod After
use go_ls_remote.Base.{
  ℕ, zero, suc, ◌+◌, ◌-◌, ◌*◌, ◌^◌, Bool, true, false, ◌&&◌, ◌||◌, not, Option, none, some, [], ◌∷◌,
  ltb, leb, ◌==◌, if◌then◌else◌, Bytes, length, take, drop, get_or, Result, ok, err, ◌>>=◌,
}
use go_ls_remote.Base.BigEndian.{be}
use go_ls_remote.Base.Compare.{search_rows}
pub use go_ls_remote.Objfmt.Fanout.{first_byte}
use go_ls_remote.Objfmt.Fanout.{low}
use go_ls_remote.Objfmt.{Error, unsupported_version, truncated, corrupt, unreadable}
use go_ls_remote.Objfmt.Hash.{Algo, size, sha1, sha256}

-- `Idx`. The hash type is a parameter of the functions that follow.
pub record Idx : Type 0 where
  pub algo : Algo
  pub ver : ℕ
  pub count : ℕ
  pub data_of : Bytes

-- `binary.BigEndian.Uint32(b[at : at+4])`.
abbrev pub uint32_at : Bytes → ℕ → ℕ
uint32_at b at = be (take 4 (drop at b))

abbrev pub uint64_at : Bytes → ℕ → ℕ
uint64_at b at = be (take 8 (drop at b))

abbrev pub idx_v2_header_len : ℕ
idx_v2_header_len = 8

abbrev pub fanout_size : ℕ
fanout_size = 1024

-- The loop of `validateIdxFanout` from entry `k` on, with `count` entries left.
unfoldable pub validate_from : Bytes → ℕ → ℕ → ℕ → Result Error (Unit {0})
validate_from fanout zero k prev = ok tt
validate_from fanout (suc count) k prev =
    let rest = validate_from fanout count (k + 1) (uint32_at fanout (k * 4)) in
    if ltb (uint32_at fanout (k * 4)) prev then err corrupt else rest

-- `validateIdxFanout`.
abbrev pub validate_idx_fanout : Bytes → Result Error (Unit {0})
validate_idx_fanout fanout = validate_from fanout 256 0 0

-- `hasIdxV2MagicPrefix`.
abbrev pub has_idx_v2_magic_prefix : Bytes → Bool
has_idx_v2_magic_prefix d =
    leb 4 (length d)
    && (get_or d 0 0 == 255
        && (get_or d 1 0 == b't' && (get_or d 2 0 == b'O' && get_or d 3 0 == b'c')))

-- The bytes behind which the fan-out table starts.
abbrev pub fanout_at : ℕ → ℕ
fanout_at ver = if ver == 2 then idx_v2_header_len else 0

module _ (hash : Algo) where
  -- `want` of `parseHeader`: the least length of a file with `count` names.
  abbrev pub least_length : ℕ → ℕ → ℕ
  least_length ver count =
      if ver == 2
      then idx_v2_header_len
        + fanout_size
        + count * size hash
        + count * 4
        + count * 4
        + 2 * size hash
      else fanout_size + count * (4 + 20) + 20 + 20

  -- `parseHeader`, on an index of version 1 or 2.
  unfoldable pub parse_header : Algo → ℕ → Bytes → Result Error Idx
  parse_header algo ver d =
      let count = uint32_at d (fanout_at ver + 255 * 4) in
      if ltb (length d) (fanout_at ver + fanout_size) then err truncated else (do
        _ ← validate_idx_fanout (take fanout_size (drop (fanout_at ver) d))
        if ltb (length d) (least_length ver count)
            then err truncated
            else ok (record { algo = algo; ver = ver; count = count; data_of = d }))

  -- `OpenIdx`, on what `os.ReadFile` gives.
  unfoldable pub open_idx : Algo → Option Bytes → Result Error Idx
  open_idx algo none = err unreadable
  open_idx algo (some d) =
      if has_idx_v2_magic_prefix d
      then (if ltb (length d) idx_v2_header_len
          then err truncated
          else if not (uint32_at d 4 == 2)
          then err unsupported_version
          else parse_header algo 2 d)
      else parse_header algo 1 d

-- `fanout[n]`.
abbrev pub fanout : Idx → ℕ → ℕ
fanout i n = uint32_at i.data_of (fanout_at i.ver + n * 4)

-- The first `lo` of a search for a name whose first byte is `prefix`.
abbrev pub fanout_low : Idx → ℕ → ℕ
fanout_low i prefix = low (fanout i) prefix

abbrev pub v1_record : ℕ
v1_record = 4 + 20

-- The name of row `k` of a version 1 index, and its offset.
abbrev pub v1_name : Idx → ℕ → Bytes
v1_name i k = take 20 (drop 4 (drop (fanout_size + k * v1_record) i.data_of))

abbrev pub v1_offset : Idx → ℕ → ℕ
v1_offset i k = uint32_at i.data_of (fanout_size + k * v1_record)

abbrev pub is_sha1 : Algo → Bool
is_sha1 sha1 = true
is_sha1 sha256 = false

-- `findOffsetV1`; `none` is `(-1, false)`.
unfoldable pub find_offset_v1 : Idx → Bytes → Option ℕ
find_offset_v1 i h =
    let hi = fanout i (first_byte h) in
    if not (is_sha1 i.algo) || (i.count == 0 || ltb (length i.data_of) fanout_size)
    then none
    else if ltb i.count hi
    then none
    else elim (search_rows (v1_name i) h hi (fanout_low i (first_byte h)) hi) [
      | none ↦ none
      | some k ↦ some (v1_offset i k)
    ]

abbrev pub name_table : ℕ
name_table = idx_v2_header_len + fanout_size

module _ (hash : Algo) where
  -- The name of row `k` of a version 2 index.
  abbrev pub v2_name : Idx → ℕ → Bytes
  v2_name i k = take (size hash) (drop (name_table + k * size hash) i.data_of)

  -- `searchV2`.
  unfoldable pub search_v2 : Idx → Bytes → Option ℕ
  search_v2 i h =
      let hi = fanout i (first_byte h) in
      if i.count == 0
      then none
      else if ltb (length i.data_of) name_table
      then none
      else if ltb i.count hi
      then none
      else if ltb (length i.data_of) (name_table + i.count * size hash)
      then none
      else search_rows (v2_name i) h hi (fanout_low i (first_byte h)) hi

  abbrev pub crc_table : Idx → ℕ
  crc_table i = name_table + i.count * size hash

  abbrev pub offset_table : Idx → ℕ
  offset_table i = name_table + i.count * size hash + i.count * 4

  abbrev pub overflow_table : Idx → ℕ
  overflow_table i = offset_table i + i.count * 4

  -- The entry of the table of 64-bit offsets, where it lies in the file and is an int64.
  abbrev pub large_offset : Idx → ℕ → Option ℕ
  large_offset i n =
      if ltb (length i.data_of) (overflow_table i + n * 8 + 8)
      then none
      else if ltb (2 ^ 63 - 1) (uint64_at i.data_of (overflow_table i + n * 8))
      then none
      else some (uint64_at i.data_of (overflow_table i + n * 8))

  -- The offset of row `k`: a slot with the top bit set names an entry of the 64-bit table.
  abbrev pub offset_of : Idx → ℕ → Option ℕ
  offset_of i k =
      let off = uint32_at i.data_of (offset_table i + k * 4) in
      if ltb off (2 ^ 31) then some off else large_offset i (off - 2 ^ 31)

  -- `findOffsetV2`.
  unfoldable pub find_offset_v2 : Idx → Bytes → Option ℕ
  find_offset_v2 i h = if i.count == 0 then none else elim (search_v2 i h) [
    | none ↦ none
    | some k ↦ if ltb (length i.data_of) (overflow_table i) then none else offset_of i k
  ]

  -- `FindOffset`.
  unfoldable pub find_offset : Idx → Bytes → Option ℕ
  find_offset i h =
      if i.ver == 1 then find_offset_v1 i h else if i.ver == 2 then find_offset_v2 i h else none

  -- `FindCRC32`.
  unfoldable pub find_crc32 : Idx → Bytes → Option ℕ
  find_crc32 i h = if not (i.ver == 2) || i.count == 0 then none else elim (search_v2 i h) [
    | none ↦ none
    | some k ↦
        if ltb (length i.data_of) (crc_table i + i.count * 4)
        then none
        else some (uint32_at i.data_of (crc_table i + k * 4))
  ]

-- The body of the loops of `OffsetAfter`: the least offset beyond `off` so far, `none` for -1. An offset that
-- is no int64 is negative there, so it is beyond no `off`.
abbrev pub nearer : ℕ → Option ℕ → Option ℕ → Option ℕ
nearer off want none = want
nearer off none (some c) = if ltb off c then some c else none
nearer off (some w) (some c) = if ltb off c && ltb c w then some c else some w

-- The loop over rows `k`, `k + 1`, ... of a table.
unfoldable pub least_after : (ℕ → Option ℕ) → ℕ → ℕ → ℕ → Option ℕ → Option ℕ
least_after row off zero k want = want
least_after row off (suc rows) k want = least_after row off rows (k + 1) (nearer off want (row k))

-- `OffsetAfter`, for an offset that is not negative.
unfoldable pub offset_after : Algo → Idx → ℕ → Option ℕ
offset_after hash i off =
    if i.ver == 1
    then (if not (is_sha1 i.algo) || (i.count == 0 || ltb (length i.data_of) fanout_size)
        then none
        else least_after (λ k. some (v1_offset i k)) off i.count 0 none)
    else if i.ver == 2
    then (if i.count == 0 || ltb (length i.data_of) (overflow_table hash i)
        then none
        else least_after (offset_of hash i) off i.count 0 none)
    else none
