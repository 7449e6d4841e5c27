-- ===== src/Reftable/Stack/Total.antt =====
-- Opening a stack does not run out of the fuel of a walk.
use go_ls_remote.Base.{
  ℕ, ◌<◌, ◌^◌, ◌≡◌, ◌≢◌, refl, ap, ◌∙◌, sym, Option, none, some, [], ◌∷◌, List, inl, inr, arith,
  Bytes, length, drop, All, IsByte, All-drop, Result, ok, err, ok_injective, bind_passed,
  bind_failed, guard_passed, Result-cases, Option-cases, ltb, not, ◌==◌,
}
use go_ls_remote.Base.BigEndian.{be, be-take_eight}
use go_ls_remote.Base.Maps.{Map}
use go_ls_remote.Objfmt.Hash.{Algo, size}
use go_ls_remote.Reftable.{Error, short_file, open_failed, mixed_hash_algo}
use go_ls_remote.Reftable.Header.{Header, header_size_v1, slice, parse_header, verify_trailer}
use go_ls_remote.Reftable.Reader.{Reader, Ref, read_file, open_reader}
use go_ls_remote.Reftable.Walk.{Walk, walk_end, walk_failed, walk_starved, walk_next, iter_all_refs}
use go_ls_remote.Reftable.Walk.Total.{Finishes, iter_all_refs-Finishes}
use go_ls_remote.Reftable.Stack.{
  starved, merge_record, merge_walk, merge_tables, lift_error, open_readers, merge_stack,
  open_stack, parse_tables_list,
}

parse_header-min_update_index :
    (buf : Bytes) (h : Header) → parse_header buf ≡ ok h → h.min_update_index ≡ be (slice buf 8 16)
unfolding parse_header
parse_header-min_update_index buf h e = ground (arith)

merge_walk-Finishes : (w : Walk) (m : Map Ref) → Finishes w → merge_walk w m ≢ err starved
unfolding merge_walk
merge_walk-Finishes walk_end m h e = cc
merge_walk-Finishes (walk_failed x) m h e = cc
merge_walk-Finishes walk_starved m h e = h
merge_walk-Finishes (walk_next r rest) m h e = merge_walk-Finishes rest (merge_record r m) h e

-- The reader's walk comes to an end.
abbrev IsFinite : Algo → Reader → Type 0
IsFinite algo r = Finishes (iter_all_refs algo r.file r.header)

merge_tables-IsFinite :
    (algo : Algo) (readers : List Reader) (m : Map Ref)
    → All (IsFinite algo) readers
    → merge_tables algo readers m ≢ err starved
unfolding merge_tables
merge_tables-IsFinite algo [] m h e = cc
merge_tables-IsFinite algo (r ∷ readers) m h e =
    elim (Result-cases (merge_walk (iter_all_refs algo r.file r.header) m)) [
      | inl (view, y) ↦ merge_tables-IsFinite algo readers view h.1 (rw y at e)
      | inr (x, y) ↦
          merge_walk-Finishes (iter_all_refs algo r.file r.header) m h.0 (y ∙ (rw y at e))
    ]

read_file-IsFinite :
    (algo : Algo) (crc32 : Bytes → ℕ) (file : Bytes) (r : Reader)
    → All IsByte file
    → read_file algo crc32 file ≡ ok r
    → IsFinite algo r
read_file-IsFinite algo crc32 file r hb e =
    let (_, e1) = guard_passed (ltb (length file) header_size_v1) short_file _ r e in
    let (h, p, e2) = bind_passed (parse_header file) _ r e1 in
    let (_, e3) = guard_passed (not (size h.algo == size algo)) mixed_hash_algo _ r e2 in
    let (_, _, e4) = bind_passed (verify_trailer crc32 file h) _ r e3 in
    rw (sym (ok_injective e4)) (iter_all_refs-Finishes algo file h hb (min_fits h p))
  where
    min_fits : (h : Header) → parse_header file ≡ ok h → h.min_update_index < 2 ^ 64
    min_fits h p =
        rw (parse_header-min_update_index file h p)
          (be-take_eight (drop 8 file) (All-drop IsByte 8 file hb))

open_reader-IsFinite :
    (algo : Algo) (crc32 : Bytes → ℕ) (mmap_open : Bytes → Option Bytes)
    → ((path file : Bytes) → mmap_open path ≡ some file → All IsByte file)
    → (path : Bytes) (r : Reader) → open_reader algo crc32 mmap_open path ≡ ok r
    → IsFinite algo r
unfolding open_reader
open_reader-IsFinite algo crc32 mmap_open hb path r e = elim (Option-cases (mmap_open path)) [
  | inr n ↦ absurd (opens (rw (n, open_reader) at e))
  | inl (file, y) ↦ read_file-IsFinite algo crc32 file r (hb path file y) (rw (y, open_reader) at e)
]
  where
    opens : Path (Result Error Reader) (err open_failed) (ok r) → ⊥
    opens h = absurd (cc)

open_readers-IsFinite :
    (algo : Algo) (crc32 : Bytes → ℕ) (mmap_open : Bytes → Option Bytes)
    → ((path file : Bytes) → mmap_open path ≡ some file → All IsByte file)
    → (names : List Bytes) (readers : List Reader)
    → open_readers algo crc32 mmap_open names ≡ ok readers
    → All (IsFinite algo) readers
unfolding open_readers
open_readers-IsFinite algo crc32 mmap_open hb [] readers e = rw (sym (ok_injective e)) tt
open_readers-IsFinite algo crc32 mmap_open hb (name ∷ names) readers e =
    let (r, p, e1) = bind_passed (open_reader algo crc32 mmap_open name) _ readers e in
    let (rs, q, e2) = bind_passed (open_readers algo crc32 mmap_open names) _ readers e1 in
    rw (sym (ok_injective e2)) (
      open_reader-IsFinite algo crc32 mmap_open hb name r p,
      open_readers-IsFinite algo crc32 mmap_open hb names rs q,
    )

-- Where the files hold bytes, `OpenStack` reaches a result of the source: a stack or an error.
pub open_stack-Total :
    (algo : Algo) (crc32 : Bytes → ℕ) (mmap_open : Bytes → Option Bytes) (manifest : Option Bytes)
    → ((path file : Bytes) → mmap_open path ≡ some file → All IsByte file)
    → open_stack algo crc32 mmap_open manifest ≢ err starved
unfolding open_stack
open_stack-Total algo crc32 mmap_open none hb e = cc
open_stack-Total algo crc32 mmap_open (some raw) hb e =
    elim (bind_failed (lift_error (parse_tables_list raw)) _ starved e) [
      | inl x ↦ lifted (parse_tables_list raw) x
      | inr (names, _, e1) ↦
          elim (bind_failed (lift_error (open_readers algo crc32 mmap_open names)) _ starved e1) [
            | inl x ↦ lifted (open_readers algo crc32 mmap_open names) x
            | inr (readers, p, e2) ↦
                merged readers
                  (opened names readers (open_readers algo crc32 mmap_open names) refl p) e2
          ]
    ]
  where
    lifted : {A : Type 0} (r : Result Error A) → lift_error r ≢ err starved
    lifted (err x) h = absurd (cc)
    lifted (ok a) h = absurd (cc)

    opened :
        (names : List Bytes) (readers : List Reader) (r : Result Error (List Reader))
        → open_readers algo crc32 mmap_open names ≡ r
        → lift_error r ≡ ok readers
        → All (IsFinite algo) readers
    opened names readers (err x) q h = absurd (cc)
    opened names readers (ok rs) q h =
        open_readers-IsFinite algo crc32 mmap_open hb names readers (q ∙ ap ok (ok_injective h))

    merged :
        (readers : List Reader)
        → All (IsFinite algo) readers
        → merge_stack algo crc32 mmap_open readers ≢ err starved
    merged [] f h = cc
    merged (r ∷ readers) f h = elim (bind_failed (merge_tables algo (r ∷ readers) []) _ starved h) [
      | inl x ↦ merge_tables-IsFinite algo (r ∷ readers) [] f x
      | inr (view, _, x) ↦ absurd (cc)
    ]
