-- ===== src/Objstore/Peel/Cached.antt =====
-- The cache of `Peel` does not change its answers.
use go_ls_remote.Base.{
  ◌≡◌, inl, inr, refl, ap, ◌∙◌, sym, Option, none, some, List, [], ◌∷◌, if◌then◌else◌, Bytes, equal,
  equal_iff, Result, ok, err, some_injective, none-some, Bool-cases, Option-cases,
}
use go_ls_remote.Base.Maps.{Map, lookup, put, lookup-put, lookup_empty}
use go_ls_remote.Objfmt.Hash.{Algo}
use go_ls_remote.Objfmt.Loose.{Stream}
use go_ls_remote.Objstore.Peel.{
  StoreError, unknown_algo, open_failed, corrupt_object, peel_depth_exceeded, Opening,
  max_peel_depth, peel_chain, memoised, peel,
}

-- The answer of `Peel` to the outcome of `peelChain`.
abbrev pub without_depth : Result StoreError (Option Bytes) → Result StoreError (Option Bytes)
without_depth (err peel_depth_exceeded) = ok none
without_depth (err e) = err e
without_depth (ok peeled) = ok peeled

module _ (algo : Algo) (open_file : List Bytes → Opening) (inflate : Bytes → Option Stream)
    (scan_lines : Bytes → List Bytes) where
  -- The answer without a cache.
  abbrev pub uncached : Bytes → Result StoreError (Option Bytes)
  uncached id = without_depth (peel_chain algo open_file inflate scan_lines max_peel_depth id)

  abbrev pub uncached_all : List Bytes → List (Result StoreError (Option Bytes))
  uncached_all [] = []
  uncached_all (id ∷ ids) = uncached id ∷ uncached_all ids

  -- The calls of `Peel`, one after another: their answers.
  abbrev pub peel_all : List Bytes → Map (Option Bytes) → List (Result StoreError (Option Bytes))
  peel_all [] cache = []
  peel_all (id ∷ ids) cache =
      let answer = peel algo open_file inflate scan_lines id cache in
      answer.0 ∷ peel_all ids answer.1

  -- Each entry is the answer.
  abbrev IsSound : Map (Option Bytes) → Type 0
  IsSound cache = (id : Bytes) (r : Option Bytes) → lookup id cache ≡ some r → uncached id ≡ ok r

  memoised-IsSound :
      (id : Bytes) (cache : Map (Option Bytes)) (r : Result StoreError (Option Bytes))
      → IsSound cache
      → uncached id ≡ without_depth r
      → ((memoised algo open_file inflate scan_lines id r cache).0 ≡ uncached id)
        × IsSound (memoised algo open_file inflate scan_lines id r cache).1
  memoised-IsSound id cache (err unknown_algo) h e = (sym e, h)
  memoised-IsSound id cache (err open_failed) h e = (sym e, h)
  memoised-IsSound id cache (err corrupt_object) h e = (sym e, h)
  memoised-IsSound id cache (err peel_depth_exceeded) h e = (sym e, h)
  memoised-IsSound id cache (ok peeled) h e = (sym e, entries)
    where
      entries : IsSound (put id peeled cache)
      entries n r l = elim (Bool-cases (equal id n)) [
        | inl y ↦
            ap uncached (sym ((equal_iff id n).0 y))
            ∙ e
            ∙ ap ok (
                some_injective (
                  ap (λ b. if b then some peeled else lookup n cache) (sym y)
                  ∙ sym (lookup-put n id peeled cache)
                  ∙ l))
        | inr x ↦ h n r (
            ap (λ b. if b then some peeled else lookup n cache) (sym x)
            ∙ sym (lookup-put n id peeled cache)
            ∙ l)
      ]

  peel-IsSound :
      (id : Bytes) (cache : Map (Option Bytes))
      → IsSound cache
      → ((peel algo open_file inflate scan_lines id cache).0 ≡ uncached id)
        × IsSound (peel algo open_file inflate scan_lines id cache).1
  unfolding peel
  peel-IsSound id cache h = elim (Option-cases (lookup id cache)) [
    | inl (r, y) ↦ rw (y, peel) (sym (h id r y), h)
    | inr n ↦
        rw (n, peel)
          (memoised-IsSound id cache
            (peel_chain algo open_file inflate scan_lines max_peel_depth id) h refl)
  ]

  all-IsSound :
      (ids : List Bytes) (cache : Map (Option Bytes))
      → IsSound cache
      → peel_all ids cache ≡ uncached_all ids
  all-IsSound [] cache h = refl
  all-IsSound (id ∷ ids) cache h =
      let (same, sound) = peel-IsSound id cache h in
      ap (λ r. r ∷ peel_all ids (peel algo open_file inflate scan_lines id cache).1) same
      ∙ ap (λ rs. uncached id ∷ rs)
          (all-IsSound ids (peel algo open_file inflate scan_lines id cache).1 sound)

  -- A sequence of calls of `Peel` on a store that starts with an empty cache is answered as it is without a
  -- cache, call by call: by the outcome of `peelChain` on the id of the call, where a chain that is too deep
  -- gives no id and no error, whatever calls have come before.
  pub peel_all-uncached_all : (ids : List Bytes) → peel_all ids [] ≡ uncached_all ids
  peel_all-uncached_all ids = all-IsSound ids [] no_entry
    where
      no_entry : IsSound []
      no_entry id r l = absurd (none-some r (sym (lookup_empty id) ∙ l))
