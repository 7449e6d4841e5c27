-- ===== src/Reftable/Stack/Listing.antt =====
-- The listing of a stack against its lookup.
use go_ls_remote.Base.{
  ℕ, ◌≤◌, ◌≡◌, refl, ap, ◌∙◌, sym, Option, none, some, [], ◌∷◌, List, map, arith, inl, inr,
  Bool-cases, equal_iff, Bytes, ok, ok_injective, some_injective, none-some, bind_passed, equal,
  ◌==◌, if◌then◌else◌,
}
use go_ls_remote.Base.Maps.{
  Map, lookup, keys, found, IsMap, delete-IsMap, put-IsMap, occurrences-keys,
}
use go_ls_remote.Base.Sort.{
  sort_names, Ascending, sort_names-Ascending, occurrences, occurrences-sort_names,
}
use go_ls_remote.Objfmt.Hash.{Algo}
use go_ls_remote.Reftable.RefRecord.{RefRecord, ref_value_deletion}
use go_ls_remote.Reftable.Reader.{Reader, Ref, lift_ref_record}
use go_ls_remote.Reftable.Walk.{Walk, walk_end, walk_failed, walk_starved, walk_next, iter_all_refs}
use go_ls_remote.Reftable.Stack.{
  Stack, merge_record, merge_walk, merge_tables, lift_error, open_readers, merge_stack, open_stack,
  find_ref, iter_stack, at, parse_tables_list,
}
use go_ls_remote.Reftable.Stack.Merged.{newest, seen, all_records, otherwise, open_stack-find_ref}

merge_record-IsMap : (r : RefRecord) (m : Map Ref) → IsMap m → IsMap (merge_record r m)
merge_record-IsMap r m h = elim (Bool-cases (r.value_type == ref_value_deletion)) [
  | inl y ↦ rw y (delete-IsMap r.name m h)
  | inr n ↦ rw n (put-IsMap r.name (lift_ref_record r) m h)
]

merge_walk-IsMap : (w : Walk) (m view : Map Ref) → IsMap m → merge_walk w m ≡ ok view → IsMap view
unfolding merge_walk
merge_walk-IsMap walk_end m view h e = rw (ok_injective e) at h
merge_walk-IsMap (walk_failed x) m view h e = absurd (cc)
merge_walk-IsMap walk_starved m view h e = absurd (cc)
merge_walk-IsMap (walk_next r rest) m view h e =
    merge_walk-IsMap rest (merge_record r m) view (merge_record-IsMap r m h) e

merge_tables-IsMap :
    (algo : Algo) (readers : List Reader) (m view : Map Ref)
    → IsMap m
    → merge_tables algo readers m ≡ ok view
    → IsMap view
unfolding merge_tables
merge_tables-IsMap algo [] m view h e = rw (ok_injective e) at h
merge_tables-IsMap algo (r ∷ readers) m view h e =
    let (below, y, z) =
      bind_passed (merge_walk (iter_all_refs algo r.file r.header) m) (merge_tables algo readers)
        view e in
    merge_tables-IsMap algo readers below view
      (merge_walk-IsMap (iter_all_refs algo r.file r.header) m below h y) z

-- The cached order is that of the keys.
abbrev Cached : Stack → Type 0
Cached s = IsMap s.merged × (s.sorted ≡ sort_names (keys s.merged))

merge_stack-Cached :
    (algo : Algo) (crc32 : Bytes → ℕ) (mmap_open : Bytes → Option Bytes) (readers : List Reader)
    (s : Stack)
    → merge_stack algo crc32 mmap_open readers ≡ ok s
    → Cached s
merge_stack-Cached algo crc32 mmap_open [] s e =
    rw (sym (ok_injective e)) (tt, unfold sort_names in refl)
merge_stack-Cached algo crc32 mmap_open (r ∷ readers) s e =
    let (view, y, z) = bind_passed (merge_tables algo (r ∷ readers) []) _ s e in
    rw (sym (ok_injective z)) (merge_tables-IsMap algo (r ∷ readers) [] view tt y, refl)

open_stack-Cached :
    (algo : Algo) (crc32 : Bytes → ℕ) (mmap_open : Bytes → Option Bytes) (raw : Bytes) (s : Stack)
    → open_stack algo crc32 mmap_open (some raw) ≡ ok s
    → Cached s
unfolding open_stack
open_stack-Cached algo crc32 mmap_open raw s e =
    let (names, n1, e1) = bind_passed (lift_error (parse_tables_list raw)) _ s e in
    let (readers, n2, e2) =
      bind_passed (lift_error (open_readers algo crc32 mmap_open names)) _ s e1 in
    merge_stack-Cached algo crc32 mmap_open readers s e2

newest_name :
    (name : Bytes) (rs : List RefRecord) (r : RefRecord) → newest name rs ≡ some r → r.name ≡ name
newest_name name [] r e = absurd (cc)
newest_name name (q ∷ rs) r e = latest (newest name rs) (newest_name name rs r) e
  where
    latest :
        (later : Option RefRecord)
        → (later ≡ some r → r.name ≡ name)
        → otherwise later (if equal q.name name then some q else none) ≡ some r
        → r.name ≡ name
    latest (some p) h k = h k
    latest none h k = elim (Bool-cases (equal q.name name)) [
      | inl y ↦ ap (λ p. p.name) (sym (some_injective (rw y at k))) ∙ (equal_iff q.name name).0 y
      | inr n ↦ absurd (none-some r (rw n at k))
    ]

seen_name :
    (found : Option RefRecord) (r : Ref)
    → seen found ≡ some r
    → (q : RefRecord) × (found ≡ some q) × (r.name ≡ q.name)
seen_name none r e = absurd (cc)
seen_name (some q) r e = elim (Bool-cases (q.value_type == ref_value_deletion)) [
  | inl y ↦ absurd (none-some r (rw y at e))
  | inr n ↦ (q, refl, ap (λ p. p.name) (sym (some_injective (rw n at e))))
]

at_head : (n : Bytes) (names : List Bytes) → 1 ≤ occurrences n (n ∷ names)
at_head n names = rw ((equal_iff n n).1 refl) (omega arith)

further :
    (l n : Bytes) (names : List Bytes) → 1 ≤ occurrences l names → 1 ≤ occurrences l (n ∷ names)
further l n names h = omega arith

relisted :
    (m : Map Ref) (names : List Bytes)
    → ((n : Bytes) → 1 ≤ occurrences n names → (at (lookup n m)).name ≡ n)
    → map (λ r. r.name) (map (λ n. at (lookup n m)) names) ≡ names
relisted m [] h = refl
relisted m (n ∷ names) h =
    ap (λ x. x ∷ map (λ r. r.name) (map (λ n. at (lookup n m)) names)) (h n (at_head n names))
    ∙ ap (◌∷◌ n) (relisted m names (λ l o. h l (further l n names o)))

at_name :
    (name : Bytes) (r : Option Ref)
    → ((q : Ref) → r ≡ some q → q.name ≡ name)
    → 1 ≤ found r
    → (at r).name ≡ name
at_name name none h l = absurd (omega arith)
at_name name (some q) h l = h q refl

-- Where a stack is opened, `IterRefs` yields its refs in the order of their names, and each name as
-- often as `FindRef` finds it: once, or never.
pub open_stack-iter_stack :
    (algo : Algo) (crc32 : Bytes → ℕ) (mmap_open : Bytes → Option Bytes) (raw : Bytes) (s : Stack)
    → open_stack algo crc32 mmap_open (some raw) ≡ ok s
    → Ascending (map (λ r. r.name) (iter_stack s))
      × ((name : Bytes)
          → occurrences name (map (λ r. r.name) (iter_stack s)) ≡ found (find_ref s name))
open_stack-iter_stack algo crc32 mmap_open raw s e =
    let (is_map, cached) = open_stack-Cached algo crc32 mmap_open raw s e in
    let (_, _, _, view) = open_stack-find_ref algo crc32 mmap_open raw s e in
    let o : (n : Bytes) → occurrences n s.sorted ≡ found (find_ref s n) = λ n.
      ap (occurrences n) cached
      ∙ occurrences-sort_names n (keys s.merged)
      ∙ occurrences-keys n s.merged is_map in
    let listed : map (λ r. r.name) (iter_stack s) ≡ s.sorted =
      relisted s.merged s.sorted
        (λ n l. at_name n (find_ref s n) (named s view n) (rw (o n) at l)) in
    rw listed (ordered cached, o)
  where
    ordered : s.sorted ≡ sort_names (keys s.merged) → Ascending s.sorted
    ordered cached = rw cached (sort_names-Ascending (keys s.merged))

    named :
        (s : Stack)
        → ((n : Bytes) → find_ref s n ≡ seen (newest n (all_records algo s.readers)))
        → (n : Bytes) (q : Ref) → find_ref s n ≡ some q
        → q.name ≡ n
    named s view n q g =
        let (p, is_newest, same) =
          seen_name (newest n (all_records algo s.readers)) q (sym (view n) ∙ g) in
        same ∙ newest_name n (all_records algo s.readers) p is_newest
