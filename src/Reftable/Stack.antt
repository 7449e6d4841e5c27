-- ===== src/Reftable/Stack.antt =====
-- internal/reftable/stack.go: the merged view over the tables of `tables.list`.
pub mod Merged
pub mod Listing
pub mod Total
pub mod TablesList
use go_ls_remote.Base.{
  ℕ, Bool, true, false, Option, none, some, [], ◌∷◌, List, map, ◌==◌, if◌then◌else◌, Bytes, length,
  Result, ok, err, ◌>>=◌, equal,
}
use go_ls_remote.Base.Maps.{Map, lookup, delete, put, keys}
use go_ls_remote.Base.Sort.{sort_names}
use go_ls_remote.Base.Split.{split}
use go_ls_remote.Base.Text.{trim_suffix}
use go_ls_remote.Objfmt.Hash.{Algo}
use go_ls_remote.Reftable.{Error, open_failed, invalid_tables_list}
use go_ls_remote.Reftable.RefRecord.{RefRecord, ref_value_deletion}
use go_ls_remote.Reftable.Reader.{Reader, Ref, lift_ref_record, open_reader, close_reader}
use go_ls_remote.Reftable.Walk.{Walk, walk_end, walk_failed, walk_starved, walk_next, iter_all_refs}

-- `Stack`. The list of readers is empty where the source has nil.
pub record Stack : Type 0 where
  pub readers : List Reader
  pub merged : Map Ref
  pub sorted : List Bytes
  pub algo : Option Algo

-- Why no stack is opened: an error of the source, or the end of the fuel of a walk.
pub data Stop : Type 0 where
  failed : Error → Stop
  starved : Stop

-- The loop of `parseTablesList`.
unfoldable pub table_names : List Bytes → Result Error (List Bytes)
table_names [] = ok []
table_names ([] ∷ parts) = err invalid_tables_list
table_names ((c ∷ part) ∷ parts) = do names ← table_names parts; ok ((c ∷ part) ∷ names)

-- `parseTablesList`.
unfoldable pub parse_tables_list : Bytes → Result Error (List Bytes)
parse_tables_list [] = ok []
parse_tables_list (c ∷ raw) = table_names (split b'\n' (trim_suffix b'\n' (c ∷ raw)))

-- The body of the loop over a table's records.
abbrev pub merge_record : RefRecord → Map Ref → Map Ref
merge_record r m =
    if r.value_type == ref_value_deletion then delete r.name m else put r.name (lift_ref_record r) m

-- The loop over a table's records.
unfoldable pub merge_walk : Walk → Map Ref → Result Stop (Map Ref)
merge_walk walk_end m = ok m
merge_walk (walk_failed e) m = err (failed e)
merge_walk walk_starved m = err starved
merge_walk (walk_next r rest) m = merge_walk rest (merge_record r m)

-- The loop over the tables, oldest first.
unfoldable pub merge_tables : Algo → List Reader → Map Ref → Result Stop (Map Ref)
merge_tables algo [] m = ok m
merge_tables algo (r ∷ readers) m = do
  m' ← merge_walk (iter_all_refs algo r.file r.header) m
  merge_tables algo readers m'

abbrev pub lift_error {ℓ} : {A : Type ℓ} → Result Error A → Result Stop A
lift_error (err e) = err (failed e)
lift_error (ok a) = ok a

module _ (algo : Algo) (crc32 : Bytes → ℕ) (mmap_open : Bytes → Option Bytes) where
  -- The loop that opens the tables.
  unfoldable pub open_readers : List Bytes → Result Error (List Reader)
  open_readers [] = ok []
  open_readers (name ∷ names) = do
    r ← open_reader algo crc32 mmap_open name
    readers ← open_readers names
    ok (r ∷ readers)

  -- `OpenStack` behind `tables.list`.
  abbrev pub merge_stack : List Reader → Result Stop Stack
  merge_stack [] = ok (record { readers = []; merged = []; sorted = []; algo = none })
  merge_stack (r ∷ readers) = do
    merged ← merge_tables algo (r ∷ readers) []
    ok (record {
      readers = r ∷ readers;
      merged = merged;
      sorted = sort_names (keys merged);
      algo = some r.header.algo;
    })

  -- `OpenStack`, on what `os.ReadFile` gives for `tables.list`.
  unfoldable pub open_stack : Option Bytes → Result Stop Stack
  open_stack none = err (failed open_failed)
  open_stack (some raw) = do
    names ← lift_error (parse_tables_list raw)
    readers ← lift_error (open_readers names)
    merge_stack readers

-- `Stack.FindRef`.
abbrev pub find_ref : Stack → Bytes → Option Ref
find_ref s name = lookup name s.merged

-- `Stack.Len`.
abbrev pub len : Stack → ℕ
len s = length s.merged

-- The value of a name of the map, as `s.merged[name]` gives it.
abbrev pub at : Option Ref → Ref
at none = record { name = []; target = []; value = []; peeled = [] }
at (some r) = r

-- `Stack.IterRefs`.
abbrev pub iter_stack : Stack → List Ref
iter_stack s = map (λ name. at (lookup name s.merged)) s.sorted

abbrev pub first_error : {E : Type 0} → Option E → Option E → Option E
first_error none later = later
first_error (some e) later = some e

-- The loop of `Stack.Close`: every reader is closed, and the first error is kept.
unfoldable pub close_readers : {E : Type 0} → (Bytes → Option E) → List Reader → Option E
close_readers unmap [] = none
close_readers unmap (r ∷ readers) =
    first_error ((close_reader unmap r).0) (close_readers unmap readers)

-- `Stack.Close`: the error, and the stack behind the call.
unfoldable pub close_stack : {E : Type 0} → (Bytes → Option E) → Stack → Option E × Stack
close_stack unmap s = elim s.readers [
  | [] ↦ (none, s)
  | _ ∷ _ ↦ (close_readers unmap s.readers, record s { readers = []; merged = []; sorted = [] })
]
