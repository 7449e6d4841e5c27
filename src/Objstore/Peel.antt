-- ===== src/Objstore/Peel.antt =====
-- internal/objstore/loose_objects.go and peel.go: loose objects, and the peeling of annotated tags with its
-- cache. What os.Open and zlib give, and the lines of bufio.Scanner, are parameters, so that the objects do
-- not change between calls; the calls are taken one after another.
pub mod Cached
pub mod Chain
use go_ls_remote.Base.{
  ℕ, zero, suc, Bool, true, false, ◌||◌, Option, none, some, List, [], ◌∷◌, ltb, ◌==◌,
  if◌then◌else◌, Bytes, length, take, drop, equal, Result, ok, err, ◌>>=◌,
}
use go_ls_remote.Base.Maps.{Map, lookup, put}
use go_ls_remote.Base.Text.{bytes, cut_prefix}
use go_ls_remote.Objfmt.Hash.{Algo, hex, parse_hex, is_zero}
use go_ls_remote.Objfmt.Loose.{LooseError, Stream, LooseBody, type_tag, read_loose_header}
use go_ls_remote.Server.Store.{RefEntry}

-- `corrupt_object` wraps ErrCorruptObject, and `peel_depth_exceeded` is errPeelDepthExceeded.
pub data StoreError : Type 0 where
  unknown_algo open_failed corrupt_object peel_depth_exceeded : StoreError

-- What `os.Open` gives: os.ErrNotExist, another error, or a file.
pub data Opening : Type 0 where
  not_exist refused : Opening
  file : Bytes → Opening

abbrev pub max_peel_depth : ℕ
max_peel_depth = 16

-- The outcome of `ReadLooseHeader` in `Find`.
abbrev pub opened_object :
    Result LooseError (ℕ × ℕ × LooseBody) → Result StoreError (Option (ℕ × ℕ × LooseBody))
opened_object (err e) = err corrupt_object
opened_object (ok r) = ok (some r)

-- A file, or its absence, in `Find`.
abbrev pub found_file :
    (Bytes → Option Stream) → Opening → Result StoreError (Option (ℕ × ℕ × LooseBody))
found_file inflate not_exist = ok none
found_file inflate refused = err open_failed
found_file inflate (file content) = opened_object (read_loose_header (inflate content))

-- The type and the body that `readLooseTag` gives for an object; other objects than tags have no body.
abbrev pub tag_body : Option (ℕ × ℕ × LooseBody) → Result StoreError (Option (ℕ × Bytes))
tag_body none = ok none
tag_body (some (typ, n, body)) =
    if typ == type_tag
    then (if body.reader.fails then err corrupt_object else ok (some (typ, body.reader.yields)))
    else ok (some (typ, []))

-- The text behind a prefix that a line must have.
abbrev pub required : Option Bytes → Result StoreError Bytes
required none = err corrupt_object
required (some s) = ok s

-- The next line of a scanner.
abbrev pub next_line : List Bytes → Result StoreError (Bytes × List Bytes)
next_line [] = err corrupt_object
next_line (line ∷ lines) = ok (line, lines)

abbrev pub is_type_name : Bytes → Bool
is_type_name name =
    equal name (bytes "commit")
    || (equal name (bytes "tree") || (equal name (bytes "blob") || equal name (bytes "tag")))

module _ (algo : Algo) (open_file : List Bytes → Opening) (inflate : Bytes → Option Stream)
    (scan_lines : Bytes → List Bytes) where
  -- `Find`; the path is given by its elements behind the common directory.
  unfoldable pub find_loose : Bytes → Result StoreError (Option (ℕ × ℕ × LooseBody))
  find_loose id =
      if ltb (length (hex id)) 3
      then err unknown_algo
      else found_file inflate (open_file (bytes "objects" ∷ take 2 (hex id) ∷ drop 2 (hex id) ∷ []))

  -- `readLooseTag`.
  unfoldable pub read_loose_tag : Bytes → Result StoreError (Option (ℕ × Bytes))
  read_loose_tag id = do found ← find_loose id; tag_body found

  -- `parseTagBody`: the id and the name of the type.
  unfoldable pub parse_tag_body : Bytes → Result StoreError (Bytes × Bytes)
  parse_tag_body body = do
    first ← next_line (scan_lines body)
    obj_hex ← required (cut_prefix first.0 (bytes "object "))
    target ← required (parse_hex algo obj_hex)
    second ← next_line first.1
    type_name ← required (cut_prefix second.0 (bytes "type "))
    if is_type_name type_name then ok (target, type_name) else err corrupt_object

  -- A round of `peelChain` behind the body of its tag.
  abbrev pub next_link :
      (Bytes → Result StoreError (Option Bytes)) → Bytes × Bytes → Result StoreError (Option Bytes)
  next_link k (next, next_type) = if equal next_type (bytes "tag") then k next else ok (some next)

  -- A round of `peelChain` on what `readLooseTag` gives.
  abbrev pub link_of :
      (Bytes → Result StoreError (Option Bytes))
      → Option (ℕ × Bytes)
      → Result StoreError (Option Bytes)
  link_of k none = ok none
  link_of k (some (typ, body)) =
      if typ == type_tag then (parse_tag_body body >>= next_link k) else ok none

  -- `peelChain`, with the rounds that are left; no id is `ok == false`.
  unfoldable pub peel_chain : ℕ → Bytes → Result StoreError (Option Bytes)
  peel_chain zero cur = err peel_depth_exceeded
  peel_chain (suc rounds) cur = read_loose_tag cur >>= link_of (peel_chain rounds)

  -- The end of `Peel` behind `peelChain`: the answer, and the cache. An entry without an id is one that
  -- is not ok.
  abbrev pub memoised :
      Bytes
      → Result StoreError (Option Bytes)
      → Map (Option Bytes)
      → Result StoreError (Option Bytes) × Map (Option Bytes)
  memoised id (err peel_depth_exceeded) cache = (ok none, cache)
  memoised id (err e) cache = (err e, cache)
  memoised id (ok peeled) cache = (ok peeled, put id peeled cache)

  -- `Peel`, on the cache of the store.
  unfoldable pub peel :
      Bytes → Map (Option Bytes) → Result StoreError (Option Bytes) × Map (Option Bytes)
  peel id cache = elim (lookup id cache) [
    | some entry ↦ (ok entry, cache)
    | none ↦ memoised id (peel_chain max_peel_depth id) cache
  ]

  abbrev pub resolved :
      Result StoreError (Option RefEntry)
      → Map (Option Bytes)
      → Result StoreError (Option Bytes) × Map (Option Bytes)
  resolved (err e) cache = (err e, cache)
  resolved (ok none) cache = (ok none, cache)
  resolved (ok (some entry)) cache =
      if entry.peel_known
      then ((if is_zero entry.peeled then ok none else ok (some entry.peeled)), cache)
      else peel entry.oid cache

  -- `PeelRef`; `lookup_ref` is the backend's `Lookup`.
  unfoldable pub peel_ref :
      (Bytes → Result StoreError (Option RefEntry))
      → Bytes
      → Map (Option Bytes)
      → Result StoreError (Option Bytes) × Map (Option Bytes)
  peel_ref lookup_ref name cache = resolved (lookup_ref name) cache
