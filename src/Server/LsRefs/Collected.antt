-- ===== src/Server/LsRefs/Collected.antt =====
-- `collectLSRefsRefs`: which refs are collected, and in which order.
use go_ls_remote.Base.{
  ℕ, ◌+◌, Bool, true, false, ◌&&◌, ◌≡◌, refl, ap, ◌∙◌, sym, [], ◌∷◌, List, Bytes, arith, Result, ok,
  ◌>>=◌, Result-cases, Bool-cases, inl, inr, if◌then◌else◌,
}
use go_ls_remote.Base.Sort.{bytes_le_total}
use go_ls_remote.Server.{ServerError}
use go_ls_remote.Server.LsRefs.{ref_match}
use go_ls_remote.Server.LsRefs.Respond.{matching_refs, collect_ls_refs_refs}
use go_ls_remote.Server.Sort.{bytes_le, insert_ref, sort_refs}
use go_ls_remote.Server.Store.{RefEntry, Refs, refs_end, refs_failed, refs_next, Store}

-- The number of a list's elements that pass a test.
abbrev pub count : (RefEntry → Bool) → List RefEntry → ℕ
count test [] = 0
count test (r ∷ rs) = (if test r then 1 else 0) + count test rs

abbrev pub listed : Refs → List RefEntry
listed refs_end = []
listed refs_failed = []
listed (refs_next r rest) = r ∷ listed rest

abbrev pub IsSorted : List RefEntry → Type 0
IsSorted [] = Unit {0}
IsSorted (r ∷ []) = Unit {0}
IsSorted (r ∷ s ∷ rs) = (bytes_le r.name s.name ≡ true) × IsSorted (s ∷ rs)

insert_head :
    (s r t : RefEntry) (rs : List RefEntry)
    → bytes_le s.name r.name ≡ true
    → bytes_le s.name t.name ≡ true
    → IsSorted (insert_ref r (t ∷ rs))
    → IsSorted (s ∷ insert_ref r (t ∷ rs))
unfolding insert_ref
insert_head s r t rs hr ht h = elim (Bool-cases (bytes_le r.name t.name)) [
  | inl y ↦ rw y (hr, rw y at h)
  | inr n ↦ rw n (ht, rw n at h)
]

insert_later :
    (r s : RefEntry) (rs : List RefEntry)
    → bytes_le r.name s.name ≡ false
    → insert_ref r (s ∷ rs) ≡ s ∷ insert_ref r rs
unfolding insert_ref
insert_later r s rs n = rw n refl

insert_ref-IsSorted : (r : RefEntry) (rs : List RefEntry) → IsSorted rs → IsSorted (insert_ref r rs)
insert_ref-IsSorted r [] h = unfold insert_ref in tt
insert_ref-IsSorted r (s ∷ []) h = elim (Bool-cases (bytes_le r.name s.name)) [
  | inl y ↦ unfold insert_ref in rw y (y, tt)
  | inr n ↦ unfold insert_ref in rw n (bytes_le_total r.name s.name n, tt)
]
insert_ref-IsSorted r (s ∷ t ∷ rs) h = elim (Bool-cases (bytes_le r.name s.name)) [
  | inl y ↦ unfold insert_ref in rw y (y, h)
  | inr n ↦ rw (insert_later r s (t ∷ rs) n) (
      insert_head s r t rs (bytes_le_total r.name s.name n) h.0
        (insert_ref-IsSorted r (t ∷ rs) h.1))
]

sort_refs-IsSorted : (rs : List RefEntry) → IsSorted (sort_refs rs)
unfolding sort_refs
sort_refs-IsSorted [] = tt
sort_refs-IsSorted (r ∷ rs) = insert_ref-IsSorted r (sort_refs rs) (sort_refs-IsSorted rs)

count-insert_ref :
    (test : RefEntry → Bool) (r : RefEntry) (rs : List RefEntry)
    → count test (insert_ref r rs) ≡ count test (r ∷ rs)
unfolding insert_ref
count-insert_ref test r [] = refl
count-insert_ref test r (s ∷ rs) = elim (Bool-cases (bytes_le r.name s.name)) [
  | inl y ↦ rw y refl
  | inr n ↦ rw n (omega (arith, count-insert_ref test r rs))
]

count-sort_refs :
    (test : RefEntry → Bool) (rs : List RefEntry) → count test (sort_refs rs) ≡ count test rs
unfolding sort_refs
count-sort_refs test [] = refl
count-sort_refs test (r ∷ rs) =
    count-insert_ref test r (sort_refs rs)
    ∙ ap (λ n. (if test r then 1 else 0) + n) (count-sort_refs test rs)

count_kept :
    (kept : Bool) (test : RefEntry → Bool) (r : RefEntry) (rs : List RefEntry) (k : ℕ)
    → count test rs ≡ k
    → count test (if kept then r ∷ rs else rs) ≡ (if kept && test r then 1 else 0) + k
count_kept true test r rs k h = omega (arith, h)
count_kept false test r rs k h = omega (arith, h)

abbrev Collected : Type 0
Collected = Result ServerError (List RefEntry)

abbrev collected : List RefEntry → Collected
collected rs = ok rs

ok_injective : {rs qs : List RefEntry} → collected rs ≡ collected qs → rs ≡ qs
ok_injective h = cc

matching_next :
    (prefixes : List Bytes) (r : RefEntry) (rest : Refs) (rs : List RefEntry)
    → matching_refs prefixes rest ≡ ok rs
    → matching_refs prefixes (refs_next r rest)
      ≡ ok (if ref_match prefixes r.name then r ∷ rs else rs)
unfolding matching_refs
matching_next prefixes r rest rs h = rw h refl

count-matching_refs :
    (test : RefEntry → Bool) (prefixes : List Bytes) (refs : Refs) (rs : List RefEntry)
    → matching_refs prefixes refs ≡ ok rs
    → count test rs ≡ count (λ r. ref_match prefixes r.name && test r) (listed refs)
unfolding matching_refs
count-matching_refs test prefixes refs_end rs h = ground arith
count-matching_refs test prefixes refs_failed rs h = absurd (cc)
count-matching_refs test prefixes (refs_next r rest) rs h =
    elim (Result-cases (matching_refs prefixes rest)) [
      | inr (e, x) ↦ absurd (ground arith)
      | inl (qs, x) ↦
          ap (count test) (sym (ok_injective (sym (matching_next prefixes r rest qs x) ∙ h)))
          ∙ count_kept (ref_match prefixes r.name) test r qs _
              (count-matching_refs test prefixes rest qs x)
    ]

-- The collected refs are in the order of their names, and hold each listed ref whose name a prefix
-- admits as often as the store lists it, and no other: every test passes as often on them.
pub collect_ls_refs_refs_sound :
    (store : Store) (prefixes : List Bytes) (rs : List RefEntry)
    → collect_ls_refs_refs store prefixes ≡ ok rs
    → IsSorted rs
      × ((test : RefEntry → Bool)
          → count test rs ≡ count (λ r. ref_match prefixes r.name && test r) (listed store.refs))
unfolding collect_ls_refs_refs
collect_ls_refs_refs_sound store prefixes rs h =
    elim (Result-cases (matching_refs prefixes store.refs)) [
      | inr (e, x) ↦ absurd (ground arith)
      | inl (qs, x) ↦
          let e : sort_refs qs ≡ rs =
            ok_injective (sym (ap (λ m. m >>= λ refs. ok (sort_refs refs)) x) ∙ h) in
          (
            rw e at (sort_refs-IsSorted qs),
            λ test.
                ap (count test) (sym e)
                ∙ count-sort_refs test qs
                ∙ count-matching_refs test prefixes store.refs qs x,
          )
    ]
