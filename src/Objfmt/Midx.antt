-- ===== src/Objfmt/Midx.antt =====
-- internal/objfmt/midx.go: the multi-pack-index. What `os.ReadFile` gives is a parameter of `open_midx`,
-- and `midx.path` is left out. An int64 is kept as the uint64 of the same bits.
pub mod Find
pub mod Rows
mod Search
pub mod Reads
pub mod Chunks
pub mod Opened
mod Parts
pub mod Exact
mod Calm
pub mod Panics
use go_ls_remote.Base.{
  ℕ, zero, suc, ◌+◌, ◌-◌, ◌*◌, ◌%◌, ◌^◌, Bool, true, false, ◌&&◌, ◌||◌, not, Option, none, some,
  List, [], ◌∷◌, ltb, leb, ◌==◌, if◌then◌else◌, Bytes, length, take, drop, get_or, equal, Result,
  ok, err, ◌>>=◌,
}
use go_ls_remote.Base.BigEndian.{be}
use go_ls_remote.Base.Compare.{compare_bytes}
use Prim.Native.Nat.{lt}
use go_ls_remote.Base.Maps.{Map, lookup, put}
use go_ls_remote.Base.Text.{bytes, cut}
use go_ls_remote.Objfmt.Hash.{Algo, size, sha1, sha256}

-- The errors of `OpenMidx`. `unreadable` stands for those of the operating system, and `panicked` for a
-- slice or an index out of range.
pub data Failure : Type 0 where
  unreadable short_file bad_magic unsupported_version algo_mismatch truncated corrupt panicked :
      Failure

-- `chunkExtent`.
pub record ChunkExtent : Type 0 where
  pub off : ℕ
  pub len : ℕ

-- `Midx`. The hash type is a parameter of the functions that follow.
pub record Midx : Type 0 where
  pub algo : Algo
  pub ver : ℕ
  pub count : ℕ
  pub num_packs : ℕ
  pub data_of : Bytes
  pub chunks : Map ChunkExtent
  pub pack_names : List Bytes

-- `<` on int64.
abbrev pub signed_lt : ℕ → ℕ → Bool
signed_lt a b = ltb ((a + 2 ^ 63) % 2 ^ 64) ((b + 2 ^ 63) % 2 ^ 64)

-- `-` on int64.
abbrev pub signed_sub : ℕ → ℕ → ℕ
signed_sub a b = (a + (2 ^ 64 - b)) % 2 ^ 64

-- `d[from : to]` with bounds of type int64.
unfoldable pub slice : Bytes → ℕ → ℕ → Result Failure Bytes
slice d from to =
    if leb (2 ^ 63) from || (ltb to from || ltb (length d) to)
    then err panicked
    else ok (take (to - from) (drop from d))

-- `d[i]`.
unfoldable pub byte_at : Bytes → ℕ → Result Failure ℕ
byte_at d i = if leb (length d) i then err panicked else ok (get_or d i 0)

-- `m.data[ext.off : ext.off+ext.len]`.
abbrev pub chunk_body : Bytes → ChunkExtent → Result Failure Bytes
chunk_body d ext = slice d ext.off ((ext.off + ext.len) % 2 ^ 64)

abbrev pub midx_header_size : ℕ
midx_header_size = 12

abbrev pub midx_chunk_toc_entry : ℕ
midx_chunk_toc_entry = 4 + 8

abbrev pub midx_chunk_alignment : ℕ
midx_chunk_alignment = 4

abbrev pub midx_ooff_record_size : ℕ
midx_ooff_record_size = 8

abbrev pub midx_magic : Bytes
midx_magic = bytes "MIDX"

abbrev pub chunk_pnam : Bytes
chunk_pnam = bytes "PNAM"

abbrev pub chunk_oidf : Bytes
chunk_oidf = bytes "OIDF"

abbrev pub chunk_oidl : Bytes
chunk_oidl = bytes "OIDL"

abbrev pub chunk_ooff : Bytes
chunk_ooff = bytes "OOFF"

abbrev pub chunk_loff : Bytes
chunk_loff = bytes "LOFF"

-- `chunkID{}`.
abbrev pub no_chunk : Bytes
no_chunk = 0 ∷ 0 ∷ 0 ∷ 0 ∷ []

-- `midxHashVersion`.
abbrev pub midx_hash_version : Algo → ℕ
midx_hash_version sha1 = 1
midx_hash_version sha256 = 2

-- `entry` of `parseChunkTable`.
pub record Entry : Type 0 where
  pub id : Bytes
  pub off : ℕ

-- The entries `i`, `i + 1`, ... of the chunk lookup table.
unfoldable pub read_entries : Bytes → ℕ → ℕ → Result Failure (List Entry)
read_entries d zero i = ok []
read_entries d (suc more) i = do
  let base = midx_header_size + i * midx_chunk_toc_entry
  id ← slice d base (base + 4)
  off ← slice d (base + 4) (base + 12)
  entries ← read_entries d more (i + 1)
  ok (record { id = id; off = be off } ∷ entries)

abbrev pub no_entry : Entry
no_entry = record { id = no_chunk; off = 0 }

-- The extent that an entry and its successor bound, put into `m.chunks`.
abbrev pub record_chunk : ℕ → Entry → Entry → Map ChunkExtent → Result Failure (Map ChunkExtent)
record_chunk body_end e next chunks =
    if equal e.id no_chunk
    then err corrupt
    else if not (e.off % midx_chunk_alignment == 0)
    then err corrupt
    else if signed_lt next.off e.off || signed_lt body_end next.off
    then err corrupt
    else elim (lookup e.id chunks) [
      | some _ ↦ err corrupt
      | none ↦ ok (put e.id (record { off = e.off; len = signed_sub next.off e.off }) chunks)
    ]

-- The loop over the entries before the last.
unfoldable pub record_chunks : ℕ → List Entry → Map ChunkExtent → Result Failure (Map ChunkExtent)
record_chunks body_end [] chunks = ok chunks
record_chunks body_end (e ∷ []) chunks = ok chunks
record_chunks body_end (e ∷ next ∷ rest) chunks = do
  more ← record_chunk body_end e next chunks
  record_chunks body_end (next ∷ rest) more

-- `_, ok := m.chunks[id]`.
abbrev pub has_chunk : Bytes → Map ChunkExtent → Bool
has_chunk id chunks = elim (lookup id chunks) [ some _ ↦ true | none ↦ false ]

-- `m.chunks[id]`.
abbrev pub chunk : Bytes → Map ChunkExtent → ChunkExtent
chunk id chunks = elim (lookup id chunks) [ some x ↦ x | none ↦ record { off = 0; len = 0 } ]

-- The loop over the required chunks.
abbrev pub has_required : Map ChunkExtent → Bool
has_required chunks =
    has_chunk chunk_pnam chunks
    && (has_chunk chunk_oidf chunks && (has_chunk chunk_oidl chunks && has_chunk chunk_ooff chunks))

-- `bodyEnd`.
abbrev pub body_end : Algo → Bytes → ℕ
body_end hash d = length d - size hash

-- `parseChunkTable` behind the entries, of which `last` is the terminator.
abbrev pub checked_table : Algo → Bytes → List Entry → Entry → Result Failure (Map ChunkExtent)
checked_table hash d entries last =
    if not (equal last.id no_chunk)
    then err corrupt
    else if signed_lt (body_end hash d) last.off
    then err truncated
    else (do
      chunks ← record_chunks (body_end hash d) entries []
      if has_required chunks then ok chunks else err corrupt)

-- `parseChunkTable`, for a number of chunks that stands in a byte.
unfoldable pub parse_chunk_table : Algo → Bytes → ℕ → Result Failure (Map ChunkExtent)
parse_chunk_table hash d num_chunks =
    if ltb (length d - size hash) (midx_header_size + (num_chunks + 1) * midx_chunk_toc_entry)
    then err truncated
    else (do
      entries ← read_entries d (num_chunks + 1) 0
      checked_table hash d entries (get_or entries num_chunks no_entry))

-- A name and what follows it.
abbrev with_name :
    Option (Bytes × Bytes) → (Bytes → Result Failure (List Bytes)) → Result Failure (List Bytes)
with_name none more = err corrupt
with_name (some (name, rest)) more = do names ← more rest; ok (name ∷ names)

-- The loop of `parsePackNames`, with `wanted` names left to read.
unfoldable pub collect_names : ℕ → Bytes → Result Failure (List Bytes)
collect_names zero body = ok []
collect_names (suc wanted) [] = ok []
collect_names (suc wanted) (c ∷ body) = with_name (cut 0 (c ∷ body)) (collect_names wanted)

abbrev pub is_less : Bytes → Bytes → Bool
is_less a b = elim (compare_bytes a b) [ lt ↦ true | _ ↦ false ]

-- `names[i-1] < names[i]` for each `i`.
unfoldable pub names_ascend : List Bytes → Bool
names_ascend [] = true
names_ascend (a ∷ []) = true
names_ascend (a ∷ b ∷ names) = is_less a b && names_ascend (b ∷ names)

-- `parsePackNames`.
unfoldable pub parse_pack_names : Bytes → ℕ → ℕ → Map ChunkExtent → Result Failure (List Bytes)
parse_pack_names d ver num_packs chunks = do
  body ← chunk_body d (chunk chunk_pnam chunks)
  names ← collect_names num_packs body
  if not (length names == num_packs)
      then err corrupt
      else if ver == 1 && not (names_ascend names)
      then err corrupt
      else ok names

-- The loop of `parseFanout` from entry `k` on; the last entry is left in `prev`.
unfoldable pub fanout_from : Bytes → ℕ → ℕ → ℕ → Result Failure ℕ
fanout_from fanout zero k prev = ok prev
fanout_from fanout (suc count) k prev = do
  field ← slice fanout (k * 4) ((k + 1) * 4)
  let n = be field
  if ltb n prev then err corrupt else fanout_from fanout count (k + 1) n

-- The loop over the pack indices of `OOFF`, from record `k` on.
unfoldable pub packs_from : Bytes → ℕ → ℕ → ℕ → ℕ → Result Failure (Unit {0})
packs_from d off num_packs zero k = ok tt
packs_from d off num_packs (suc count) k = do
  let base = (off + k * midx_ooff_record_size) % 2 ^ 64
  field ← slice d base (base + 4)
  if leb num_packs (be field) then err corrupt else packs_from d off num_packs count (k + 1)

-- `parseFanout`, which gives `m.count`.
unfoldable pub parse_fanout : Algo → Bytes → ℕ → Map ChunkExtent → Result Failure ℕ
parse_fanout hash d num_packs chunks =
    if not ((chunk chunk_oidf chunks).len == 256 * 4) then err corrupt else (do
      fanout ← chunk_body d (chunk chunk_oidf chunks)
      count ← fanout_from fanout 256 0 0
      if not ((chunk chunk_oidl chunks).len == count * size hash)
          then err corrupt
          else if not ((chunk chunk_ooff chunks).len == count * 8)
          then err corrupt
          else (do _ ← packs_from d (chunk chunk_ooff chunks).off num_packs count 0; ok count))

-- The loop of `validateOIDLookup` from `i` on.
unfoldable pub ascending_from : Algo → Bytes → ℕ → ℕ → Result Failure (Unit {0})
ascending_from hash body zero i = ok tt
ascending_from hash body (suc left) i = do
  prev ← slice body ((i - 1) * size hash) (i * size hash)
  cur ← slice body (i * size hash) ((i + 1) * size hash)
  if is_less prev cur then ascending_from hash body left (i + 1) else err corrupt

-- `validateOIDLookup`.
unfoldable pub validate_oid_lookup : Algo → Bytes → ℕ → Map ChunkExtent → Result Failure (Unit {0})
validate_oid_lookup hash d count chunks =
    if ltb count 2
    then ok tt
    else (do body ← chunk_body d (chunk chunk_oidl chunks); ascending_from hash body (count - 1) 1)

-- `OpenMidx` behind the header.
abbrev pub parsed_midx : Algo → Algo → Bytes → ℕ → ℕ → ℕ → Result Failure Midx
parsed_midx hash algo d ver num_chunks num_packs = do
  chunks ← parse_chunk_table hash d num_chunks
  names ← parse_pack_names d ver num_packs chunks
  count ← parse_fanout hash d num_packs chunks
  _ ← validate_oid_lookup hash d count chunks
  ok (record {
    algo = algo;
    ver = ver;
    count = count;
    num_packs = num_packs;
    data_of = d;
    chunks = chunks;
    pack_names = names;
  })

-- `if test { return ..., e }` on the way.
abbrev pub refuse_if : Bool → Failure → Result Failure (Unit {0})
refuse_if true e = err e
refuse_if false e = ok tt

-- `OpenMidx`, on what `os.ReadFile` gives.
unfoldable pub open_midx : Algo → Algo → Option Bytes → Result Failure Midx
open_midx hash algo none = err unreadable
open_midx hash algo (some d) = do
  _ ← refuse_if (ltb (length d) (midx_header_size + size algo)) short_file
  magic ← slice d 0 4
  _ ← refuse_if (not (equal magic midx_magic)) bad_magic
  ver ← byte_at d 4
  _ ← refuse_if (not (ver == 1) && not (ver == 2)) unsupported_version
  hash_ver ← byte_at d 5
  _ ← refuse_if (not (hash_ver == midx_hash_version algo)) algo_mismatch
  num_chunks ← byte_at d 6
  reserved ← byte_at d 7
  _ ← refuse_if (not (reserved == 0)) corrupt
  packs ← slice d 8 12
  parsed_midx hash algo d ver num_chunks (be packs)

-- `Close`.
abbrev pub close_midx : Midx → Midx
close_midx m = record m { data_of = []; chunks = []; pack_names = []; count = 0; num_packs = 0 }
