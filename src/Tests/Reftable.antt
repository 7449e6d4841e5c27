-- ===== src/Tests/Reftable.antt =====
-- A stack of two tables, at concrete bytes: the second table hides `HEAD` of the first.
use go_ls_remote.Base.{
  ℕ, ◌≡◌, ◌≢◌, ◌<◌, ◌+◌, ◌*◌, refl, [], ◌∷◌, ◌++◌, List, Option, none, some, map, Bytes, ok, err,
  All, IsByte, arith, if◌then◌else◌, equal, true, false, drop, Bool-cases, some_injective,
  none-some, ◌⊎◌, inl, inr, ◌↔◌,
}
use go_ls_remote.Base.BigEndian.{be}
use go_ls_remote.Base.Maps.{found, lookup, delete}
use go_ls_remote.Base.Sort.{Ascending, occurrences, sort_names, insert_name, bytes_le}
use go_ls_remote.Base.Split.{split}
use go_ls_remote.Base.Text.{bytes, trim_suffix}
use go_ls_remote.Objfmt.Hash.{sha1, zero_id}
use go_ls_remote.Reftable.Header.{parse_header, verify_trailer}
use go_ls_remote.Reftable.Header.RoundTrip.{
  first, header_bytes, header_of, parse_header-header_bytes,
}
use go_ls_remote.Reftable.Block.{Block, be24, restart, restarts_fit, parse_block, records_end}
use go_ls_remote.Reftable.Block.Sound.{IsBlock, parse_block_bounds}
use go_ls_remote.Reftable.RefRecord.{RefRecord, decode_ref_record, decode_value}
use go_ls_remote.Reftable.RefRecord.Exact.{IsRefRecord, decode_ref_record_exact}
use go_ls_remote.Reftable.Key.Exact.{IsKey, decode_key_exact}
use go_ls_remote.Reftable.Key.{Key, decode_key, key_parts}
use go_ls_remote.Reftable.Varint.{decode_varint, varint_loop, guarded}
use go_ls_remote.Reftable.Walk.{walk_records, walk_blocks, iter_all_refs}
use go_ls_remote.Reftable.Walk.Total.{Finishes, iter_all_refs-Finishes}
use go_ls_remote.Reftable.Reader.{Reader, Ref, open_reader}
use go_ls_remote.Reftable.Seek
use go_ls_remote.Reftable.Seek.{find_in_reader}
use go_ls_remote.Reftable.Seek.Total.{find_in_reader-ends}
use go_ls_remote.Reftable.Stack.{
  Stack, starved, open_readers, merge_walk, merge_tables, open_stack, find_ref, iter_stack,
  parse_tables_list, table_names,
}
use go_ls_remote.Reftable.Stack.Merged.{newest, seen, all_records, open_stack-find_ref}
use go_ls_remote.Reftable.Stack.Listing.{open_stack-iter_stack}
use go_ls_remote.Reftable.Stack.Total.{open_stack-Total}

abbrev start : Bytes
start =
    bytes "REFT"
    ++ (1 ∷ 0 ∷ 0 ∷ 0 ∷ 0 ∷ 0 ∷ 0 ∷ 0 ∷ 0 ∷ 0 ∷ 0 ∷ 0 ∷ 0 ∷ 0 ∷ 0 ∷ 0 ∷ 0 ∷ 0 ∷ 0 ∷ 1 ∷ [])

abbrev trailer : Bytes
trailer =
    start
    ++ (0 ∷ 0 ∷ 0 ∷ 0 ∷ 0 ∷ 0 ∷ 0 ∷ 0 ∷ 0 ∷ 0 ∷ 0 ∷ 0 ∷ 0 ∷ 0 ∷ 0 ∷ 0 ∷ 0 ∷ 0 ∷ 0 ∷ 0 ∷ 0 ∷ 0 ∷ 0
        ∷ 0 ∷ 0 ∷ 0 ∷ 0 ∷ 0 ∷ 0 ∷ 0 ∷ 0 ∷ 0 ∷ 0 ∷ 0 ∷ 0 ∷ 0 ∷ 0 ∷ 0 ∷ 0 ∷ 0 ∷ 0 ∷ 0 ∷ 0 ∷ 0 ∷ [])

-- `HEAD`, a symref to `refs/m`, with the restart table.
abbrev head_block : Bytes
head_block =
    b'r'
    ∷ 0
    ∷ 0
    ∷ 47
    ∷ 0
    ∷ 35
    ∷ (bytes "HEAD" ++ (0 ∷ 6 ∷ (bytes "refs/m" ++ (0 ∷ 0 ∷ 28 ∷ 0 ∷ 1 ∷ []))))

-- The deletion of `HEAD`, and `a`, a symref to `b`.
abbrev later_block : Bytes
later_block =
    b'r'
    ∷ 0
    ∷ 0
    ∷ 46
    ∷ 0
    ∷ 32
    ∷ (bytes "HEAD" ++ (0 ∷ 0 ∷ 11 ∷ b'a' ∷ 0 ∷ 1 ∷ b'b' ∷ 0 ∷ 0 ∷ 28 ∷ 0 ∷ 1 ∷ []))

abbrev head_file : Bytes
head_file = start ++ (head_block ++ trailer)

abbrev later_file : Bytes
later_file = start ++ (later_block ++ trailer)

abbrev disk : Bytes → Option Bytes
disk path =
    if equal path (bytes "1")
    then some head_file
    else if equal path (bytes "2")
    then some later_file
    else none

abbrev crc32 : Bytes → ℕ
crc32 covered = 0

abbrev manifest : Bytes
manifest = bytes "1" ++ (b'\n' ∷ (bytes "2" ++ (b'\n' ∷ [])))

header_example : parse_header (header_bytes first 0 0 1 ++ head_block) ≡ ok (header_of first 0 0 1)
header_example =
    parse_header-header_bytes first 0 0 1 head_block (omega arith) (omega arith) (omega arith)

abbrev head_reader : Reader
head_reader = record { mapped = true; file = head_file; header = header_of first 0 0 1 }

head_parsed : parse_header head_file ≡ ok (header_of first 0 0 1)
head_parsed = unfold parse_header equal be in refl

head_verified : verify_trailer crc32 head_file (header_of first 0 0 1) ≡ ok tt
head_verified = unfold verify_trailer equal be in refl

abbrev framed_head : Block
framed_head = record {
  block_type = b'r';
  block_len = 47;
  restart_count = 1;
  bytes = start ++ head_block;
  first_byte_offset = 24;
  table_start = 42;
}

head_framed : parse_block head_file 24 ≡ ok framed_head
head_framed = unfold parse_block be restarts_fit in refl

abbrev later_reader : Reader
later_reader = record { mapped = true; file = later_file; header = header_of first 0 0 1 }

abbrev shown : Ref
shown = record { name = bytes "a"; target = bytes "b"; value = zero_id sha1; peeled = zero_id sha1 }

abbrev both : Stack
both = record {
  readers = head_reader ∷ later_reader ∷ [];
  merged = (bytes "a", shown) ∷ [];
  sorted = bytes "a" ∷ [];
  algo = some sha1;
}

both_opened : open_stack sha1 crc32 disk (some manifest) ≡ ok both
both_opened =
    unfold open_stack parse_tables_list table_names split trim_suffix open_readers open_reader
      parse_header equal be verify_trailer merge_tables merge_walk iter_all_refs walk_blocks
      walk_records parse_block restarts_fit decode_ref_record decode_value decode_key key_parts
      decode_varint varint_loop guarded lookup delete sort_names insert_name bytes_le in
    refl

find_ref_example :
    (names : List Bytes) × (parse_tables_list manifest ≡ ok names)
    × (open_readers sha1 crc32 disk names ≡ ok both.readers)
    × ((name : Bytes) → find_ref both name ≡ seen (newest name (all_records sha1 both.readers)))
find_ref_example = open_stack-find_ref sha1 crc32 disk manifest both both_opened

iter_stack_example :
    Ascending (map (λ r. r.name) (iter_stack both))
    × ((name : Bytes)
        → occurrences name (map (λ r. r.name) (iter_stack both)) ≡ found (find_ref both name))
iter_stack_example = open_stack-iter_stack sha1 crc32 disk manifest both both_opened

head-IsByte : All IsByte head_file
head-IsByte = omega arith

later-IsByte : All IsByte later_file
later-IsByte = omega arith

moved : {a b : Bytes} → All IsByte a → some a ≡ some b → All IsByte b
moved h e = rw (some_injective e) at h

disk-IsByte : (path file : Bytes) → disk path ≡ some file → All IsByte file
disk-IsByte path file e =
    by_name (Bool-cases (equal path (bytes "1"))) (Bool-cases (equal path (bytes "2")))
  where
    by_name :
        (equal path (bytes "1") ≡ true) ⊎ (equal path (bytes "1") ≡ false)
        → (equal path (bytes "2") ≡ true) ⊎ (equal path (bytes "2") ≡ false)
        → All IsByte file
    by_name (inl y) _ = moved head-IsByte (rw y at e)
    by_name (inr n) (inl y) = moved later-IsByte (rw (n, y) at e)
    by_name (inr n) (inr m) = absurd (none-some file (rw (n, m) at e))

open_stack_example : open_stack sha1 crc32 disk (some manifest) ≢ err starved
open_stack_example = open_stack-Total sha1 crc32 disk (some manifest) disk-IsByte

walk_example : Finishes (iter_all_refs sha1 head_file (header_of first 0 0 1))
walk_example =
    iter_all_refs-Finishes sha1 head_file (header_of first 0 0 1) head-IsByte (omega arith)

IsBlock-example :
    IsBlock head_file 24 framed_head
    × (records_end framed_head ≡ framed_head.table_start)
    × ((i : ℕ) → i < 1 → restart framed_head i + 24 ≡ be24 (drop (42 + 3 * i) framed_head.bytes))
IsBlock-example = parse_block_bounds head_file 24 framed_head head-IsByte (omega arith) head_framed

-- The record of `HEAD`, and the key in it.
abbrev head_record : Bytes
head_record = 0 ∷ 35 ∷ (bytes "HEAD" ++ (0 ∷ 6 ∷ bytes "refs/m"))

abbrev head_key : Key
head_key = record { key = bytes "HEAD"; extra = 3; consumed = 6 }

key_example : (decode_key head_record [] ≡ ok head_key) ↔ IsKey head_record [] head_key
key_example = decode_key_exact head_record [] head_key (omega arith)

abbrev head_ref : RefRecord
head_ref = record {
  name = bytes "HEAD";
  target = bytes "refs/m";
  value = zero_id sha1;
  peeled = zero_id sha1;
  value_type = 3;
}

record_example :
    (decode_ref_record sha1 head_record [] 0 ≡ ok (head_ref, 14))
    ↔ IsRefRecord sha1 head_record [] 0 head_ref 14
record_example =
    decode_ref_record_exact sha1 head_record [] 0 head_ref 14 (omega arith) (omega arith)

find_in_reader_example : find_in_reader sha1 head_reader (bytes "HEAD") ≢ err Seek.starved
find_in_reader_example =
    find_in_reader-ends sha1 head_reader (bytes "HEAD") head-IsByte (omega arith)
