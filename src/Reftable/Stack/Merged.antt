-- ===== src/Reftable/Stack/Merged.antt =====
-- The merged view: what the stack holds for a name is the newest record of that name.
use go_ls_remote.Base.{
  ℕ, ◌≡◌, refl, ap, ◌∙◌, sym, inl, inr, Option, none, some, [], ◌∷◌, List, ◌++◌, ◌==◌,
  if◌then◌else◌, Bytes, Result, ok, err, equal, equal_iff, Bool-cases, ok_injective, bind_passed,
}
use go_ls_remote.Base.Maps.{Map, lookup, delete, lookup-delete, lookup-delete_same, lookup_empty}
use go_ls_remote.Objfmt.Hash.{Algo}
use go_ls_remote.Reftable.{Error}
use go_ls_remote.Reftable.RefRecord.{RefRecord, ref_value_deletion}
use go_ls_remote.Reftable.Reader.{Reader, Ref, lift_ref_record}
use go_ls_remote.Reftable.Walk.{Walk, walk_end, walk_failed, walk_starved, walk_next, iter_all_refs}
use go_ls_remote.Reftable.Stack.{
  Stack, merge_record, merge_walk, merge_tables, parse_tables_list, lift_error, open_readers,
  merge_stack, open_stack, find_ref,
}

-- The records that a walk yields.
abbrev pub yielded : Walk → List RefRecord
yielded walk_end = []
yielded (walk_failed e) = []
yielded walk_starved = []
yielded (walk_next r rest) = r ∷ yielded rest

-- The records of the tables, oldest first.
abbrev pub all_records : Algo → List Reader → List RefRecord
all_records algo [] = []
all_records algo (r ∷ readers) =
    yielded (iter_all_refs algo r.file r.header) ++ all_records algo readers

abbrev pub otherwise {ℓ} : {A : Type ℓ} → Option A → Option A → Option A
otherwise (some a) b = some a
otherwise none b = b

-- The last record of a name.
abbrev pub newest : Bytes → List RefRecord → Option RefRecord
newest name [] = none
newest name (r ∷ rs) = otherwise (newest name rs) (if equal r.name name then some r else none)

-- A deletion hides the name.
abbrev pub seen : Option RefRecord → Option Ref
seen none = none
seen (some r) = if r.value_type == ref_value_deletion then none else some (lift_ref_record r)

-- What a record leaves of the view below it.
abbrev over : Option RefRecord → Option Ref → Option Ref
over none below = below
over (some r) below = seen (some r)

over-otherwise :
    (later earlier : Option RefRecord) (below : Option Ref)
    → over later (over earlier below) ≡ over (otherwise later earlier) below
over-otherwise none earlier below = refl
over-otherwise (some r) earlier below = refl

otherwise_assoc :
    (a b c : Option RefRecord) → otherwise a (otherwise b c) ≡ otherwise (otherwise a b) c
otherwise_assoc none b c = refl
otherwise_assoc (some r) b c = refl

otherwise-none : (a : Option RefRecord) → otherwise a none ≡ a
otherwise-none none = refl
otherwise-none (some r) = refl

newest-append :
    (name : Bytes) (rs qs : List RefRecord)
    → newest name (rs ++ qs) ≡ otherwise (newest name qs) (newest name rs)
newest-append name [] qs = sym (otherwise-none (newest name qs))
newest-append name (r ∷ rs) qs =
    ap (λ x. otherwise x (if equal r.name name then some r else none)) (newest-append name rs qs)
    ∙ sym (
        otherwise_assoc (newest name qs) (newest name rs)
          (if equal r.name name then some r else none))

lookup-merge_record :
    (name : Bytes) (r : RefRecord) (m : Map Ref)
    → lookup name (merge_record r m)
      ≡ over (if equal r.name name then some r else none) (lookup name m)
lookup-merge_record name r m = elim (Bool-cases (equal r.name name)) [
  | inl y ↦ elim (Bool-cases (r.value_type == ref_value_deletion)) [
    | inl d ↦
        rw (y, d)
          (ap (λ k. lookup k (delete r.name m)) (sym ((equal_iff r.name name).0 y))
            ∙ lookup-delete_same r.name m)
    | inr d ↦ unfold lookup in rw (y, d, y) refl
  ]
  | inr n ↦ elim (Bool-cases (r.value_type == ref_value_deletion)) [
    | inl d ↦ rw (n, d) (lookup-delete r.name name m n)
    | inr d ↦ unfold lookup in rw (n, d, n) (lookup-delete r.name name m n)
  ]
]

lookup-merge_walk :
    (name : Bytes) (w : Walk) (m view : Map Ref)
    → merge_walk w m ≡ ok view
    → lookup name view ≡ over (newest name (yielded w)) (lookup name m)
unfolding merge_walk
lookup-merge_walk name walk_end m view e = ap (lookup name) (sym (ok_injective e))
lookup-merge_walk name (walk_failed x) m view e = absurd (cc)
lookup-merge_walk name walk_starved m view e = absurd (cc)
lookup-merge_walk name (walk_next r rest) m view e =
    lookup-merge_walk name rest (merge_record r m) view e
    ∙ ap (over (newest name (yielded rest))) (lookup-merge_record name r m)
    ∙ over-otherwise (newest name (yielded rest)) (if equal r.name name then some r else none)
        (lookup name m)

lookup-merge_tables :
    (algo : Algo) (name : Bytes) (readers : List Reader) (m view : Map Ref)
    → merge_tables algo readers m ≡ ok view
    → lookup name view ≡ over (newest name (all_records algo readers)) (lookup name m)
unfolding merge_tables
lookup-merge_tables algo name [] m view e = ap (lookup name) (sym (ok_injective e))
lookup-merge_tables algo name (r ∷ readers) m view e =
    let w = iter_all_refs algo r.file r.header in
    let (below, y, z) = bind_passed (merge_walk w m) (merge_tables algo readers) view e in
    lookup-merge_tables algo name readers below view z
    ∙ ap (over (newest name (all_records algo readers))) (lookup-merge_walk name w m below y)
    ∙ over-otherwise (newest name (all_records algo readers)) (newest name (yielded w))
        (lookup name m)
    ∙ ap (λ x. over x (lookup name m))
        (sym (newest-append name (yielded w) (all_records algo readers)))

over_nothing : (found : Option RefRecord) → over found none ≡ seen found
over_nothing none = refl
over_nothing (some r) = refl

lift_error-ok {ℓ} : {A : Type ℓ} (r : Result Error A) (a : A) → lift_error r ≡ ok a → r ≡ ok a
lift_error-ok (err x) a h = absurd (cc)
lift_error-ok (ok b) a h = ap ok (ok_injective h)

pub merge_stack_find :
    (algo : Algo) (crc32 : Bytes → ℕ) (mmap_open : Bytes → Option Bytes) (readers : List Reader)
    (s : Stack)
    → merge_stack algo crc32 mmap_open readers ≡ ok s
    → (s.readers ≡ readers)
      × ((name : Bytes) → find_ref s name ≡ seen (newest name (all_records algo readers)))
merge_stack_find algo crc32 mmap_open [] s e = (
  ap (λ t. t.readers) (sym (ok_injective e)),
  λ name. ap (λ t. find_ref t name) (sym (ok_injective e)) ∙ lookup_empty name,
)
merge_stack_find algo crc32 mmap_open (r ∷ readers) s e =
    let (view, y, z) = bind_passed (merge_tables algo (r ∷ readers) []) _ s e in
    (
      ap (λ t. t.readers) (sym (ok_injective z)),
      λ name.
          ap (λ t. find_ref t name) (sym (ok_injective z))
          ∙ lookup-merge_tables algo name (r ∷ readers) [] view y
          ∙ ap (over (newest name (all_records algo (r ∷ readers)))) (lookup_empty name)
          ∙ over_nothing (newest name (all_records algo (r ∷ readers))),
    )

-- Where a stack is opened, its readers are those of the tables that `tables.list` names, in that
-- order, and the lookup of a name gives the last record of the name in the records of all tables,
-- oldest table first, and nothing if there is none or if it is a deletion.
pub open_stack-find_ref :
    (algo : Algo) (crc32 : Bytes → ℕ) (mmap_open : Bytes → Option Bytes) (raw : Bytes) (s : Stack)
    → open_stack algo crc32 mmap_open (some raw) ≡ ok s
    → (names : List Bytes) × (parse_tables_list raw ≡ ok names)
      × (open_readers algo crc32 mmap_open names ≡ ok s.readers)
      × ((name : Bytes) → find_ref s name ≡ seen (newest name (all_records algo s.readers)))
unfolding open_stack
open_stack-find_ref algo crc32 mmap_open raw s e =
    let (names, n1, e1) = bind_passed (lift_error (parse_tables_list raw)) _ s e in
    let (readers, n2, e2) =
      bind_passed (lift_error (open_readers algo crc32 mmap_open names)) _ s e1 in
    let (same, view) = merge_stack_find algo crc32 mmap_open readers s e2 in
    (
      names,
      lift_error-ok (parse_tables_list raw) names n1,
      lift_error-ok (open_readers algo crc32 mmap_open names) readers n2 ∙ ap ok (sym same),
      λ name. view name ∙ ap (λ rs. seen (newest name (all_records algo rs))) (sym same),
    )
