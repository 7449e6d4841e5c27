-- ===== src/Reftable/Reader.antt =====
-- internal/reftable/reader.go: `Reader`, one open file. What `mmap` does is a parameter: the bytes of
-- the file of a name, if it can be opened, and the error of closing a mapping.
use go_ls_remote.Base.{
  ℕ, Bool, true, false, Option, none, some, [], ltb, ◌==◌, not, if◌then◌else◌, Bytes, length,
  Result, ok, err, ◌>>=◌,
}
use go_ls_remote.Objfmt.Hash.{Algo, size}
use go_ls_remote.Reftable.{Error, short_file, open_failed, mixed_hash_algo}
use go_ls_remote.Reftable.Header.{Header, header_size_v1, parse_header, verify_trailer}
use go_ls_remote.Reftable.RefRecord.{RefRecord, ref_value_deletion}
use go_ls_remote.Reftable.Walk.{Walk, walk_end, walk_failed, walk_starved, walk_next}

-- `Reader`; `mapped` is `mmap != nil`.
pub record Reader : Type 0 where
  pub mapped : Bool
  pub file : Bytes
  pub header : Header

-- The exported `RefRecord`.
pub record Ref : Type 0 where
  pub name : Bytes
  pub target : Bytes
  pub value : Bytes
  pub peeled : Bytes

-- `liftRefRecord`.
abbrev pub lift_ref_record : RefRecord → Ref
lift_ref_record r = record { name = r.name; target = r.target; value = r.value; peeled = r.peeled }

-- `OpenReader` behind the opening of the file.
abbrev pub read_file : Algo → (Bytes → ℕ) → Bytes → Result Error Reader
read_file algo crc32 file = if ltb (length file) header_size_v1 then err short_file else (do
  h ← parse_header file
  if not (size h.algo == size algo) then err mixed_hash_algo else (do
    _ ← verify_trailer crc32 file h
    ok (record { mapped = true; file = file; header = h })))

-- `OpenReader`.
unfoldable pub open_reader :
    Algo → (Bytes → ℕ) → (Bytes → Option Bytes) → Bytes → Result Error Reader
open_reader algo crc32 mmap_open path = elim (mmap_open path) [
  | none ↦ err open_failed
  | some file ↦ read_file algo crc32 file
]

-- `Reader.Close`: the error, and the reader behind the call.
unfoldable pub close_reader : {E : Type 0} → (Bytes → Option E) → Reader → Option E × Reader
close_reader unmap r =
    if r.mapped then (unmap r.file, record r { mapped = false; file = [] }) else (none, r)

-- What `IterRefs` yields: the records that are no deletions.
pub data Refs : Type 0 where
  refs_end : Refs
  refs_failed : Error → Refs
  refs_starved : Refs
  refs_next : Ref → Refs → Refs

-- `Reader.IterRefs`, on what `iterAllRefs` yields.
unfoldable pub iter_refs : Walk → Refs
iter_refs walk_end = refs_end
iter_refs (walk_failed e) = refs_failed e
iter_refs walk_starved = refs_starved
iter_refs (walk_next r rest) =
    let later = iter_refs rest in
    if r.value_type == ref_value_deletion then later else refs_next (lift_ref_record r) later
