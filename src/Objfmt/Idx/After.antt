-- ===== src/Objfmt/Idx/After.antt =====
-- `OffsetAfter` finds the next offset of a table.
use go_ls_remote.Base.{
  ℕ, zero, suc, ◌+◌, ◌≤◌, ◌<◌, ◌≡◌, ◌⊎◌, inl, inr, refl, ap, ◌∙◌, sym, arith, Bool, true, false,
  ◌&&◌, Option, none, some, Bytes, length, ltb, ◌==◌, if◌then◌else◌, ok, Bool-cases, ltb_at_least,
  some_injective, none-some,
}
use mathlib.Core.Path.{subst}
use go_ls_remote.Objfmt.Hash.{Algo}
use go_ls_remote.Objfmt.Idx.{
  Idx, fanout_size, v1_offset, is_sha1, overflow_table, offset_of, nearer, least_after,
  offset_after, open_idx, least_length,
}
use go_ls_remote.Objfmt.Idx.Opened.{open_idx-IsOpened}
use go_ls_remote.Objfmt.Idx.Search.{row_offset}

-- The least number with a property, if there is one.
abbrev pub IsLeast : (ℕ → Type 0) → Option ℕ → Type 0
IsLeast P none = (c : ℕ) → P c → ⊥
IsLeast P (some w) = P w × ((c : ℕ) → P c → w ≤ c)

-- An offset beyond `off` in the first `rows` rows.
abbrev pub Beyond : (ℕ → Option ℕ) → ℕ → ℕ → ℕ → Type 0
Beyond row off rows c = (off < c) × ((j : ℕ) × (j < rows) × (row j ≡ some c))

module _ (row : ℕ → Option ℕ) (off : ℕ) where
  earlier : (k c : ℕ) → Beyond row off k c → Beyond row off (suc k) c
  earlier k c (l, (j, b, e)) = (l, (j, omega arith, e))

  -- The row that comes in, or one before it.
  split_row :
      (k c : ℕ) (r : Option ℕ)
      → row k ≡ r
      → Beyond row off (suc k) c
      → Beyond row off k c ⊎ (r ≡ some c)
  split_row k c r e (l, (j, b, f)) = elim (Bool-cases (j == k)) [
    | inl y ↦ inr (sym e ∙ ap row (same y) ∙ f)
    | inr n ↦ inl (l, (j, smaller n, f))
  ]
    where
      same : (j == k) ≡ true → k ≡ j
      same y = ground arith

      smaller : (j == k) ≡ false → j < k
      smaller n = ground arith

  nearer-IsLeast :
      (k : ℕ) (want r : Option ℕ)
      → row k ≡ r
      → IsLeast (Beyond row off k) want
      → IsLeast (Beyond row off (suc k)) (nearer off want r)
  nearer-IsLeast k none none e h =
      λ c p. elim (split_row k c none e p) [ inl q ↦ h c q | inr q ↦ none-some c q ]
  nearer-IsLeast k (some w) none e (h, m) = (
    earlier k w h,
    λ c p. elim (split_row k c none e p) [ inl q ↦ m c q | inr q ↦ absurd (none-some c q) ],
  )
  nearer-IsLeast k none (some d) e h = elim (Bool-cases (ltb off d)) [
    | inl y ↦ rw y (
      (ground arith, (k, omega arith, e)),
      λ c p. elim (split_row k c (some d) e p) [
        | inl q ↦ absurd (h c q)
        | inr q ↦ omega (arith, some_injective q)
      ],
    )
    | inr n ↦ rw n (λ c p. elim (split_row k c (some d) e p) [
      | inl q ↦ h c q
      | inr q ↦ past c n p.0 (some_injective q)
    ])
  ]
    where
      past : (c : ℕ) → ltb off d ≡ false → off < c → d ≡ c → ⊥
      past c n l q = ground arith
  nearer-IsLeast k (some w) (some d) e (h, m) = elim (Bool-cases (ltb off d && ltb d w)) [
    | inl y ↦ rw y (
      (ground arith, (k, omega arith, e)),
      λ c p. elim (split_row k c (some d) e p) [
        | inl q ↦ less c y (m c q)
        | inr q ↦ omega (arith, some_injective q)
      ],
    )
    | inr n ↦ rw n (
      earlier k w h,
      λ c p. elim (split_row k c (some d) e p) [
        | inl q ↦ m c q
        | inr q ↦ more c n p.0 (some_injective q)
      ],
    )
  ]
    where
      less : (c : ℕ) → (ltb off d && ltb d w) ≡ true → w ≤ c → d ≤ c
      less c y l = ground arith

      more : (c : ℕ) → (ltb off d && ltb d w) ≡ false → off < c → d ≡ c → w ≤ c
      more c n l q = ground arith

  least_after-IsLeast :
      (rows k : ℕ) (want : Option ℕ)
      → IsLeast (Beyond row off k) want
      → IsLeast (Beyond row off (k + rows)) (least_after row off rows k want)
  unfolding least_after
  least_after-IsLeast zero k want h = subst (λ n. IsLeast (Beyond row off n) want) (zero_sum k) h
    where
      zero_sum : (k : ℕ) → k ≡ k + 0
      zero_sum k = omega arith
  least_after-IsLeast (suc rows) k want h =
      subst
        (λ n.
          IsLeast (Beyond row off n) (least_after row off rows (k + 1) (nearer off want (row k))))
        (suc_sum k rows)
        (least_after-IsLeast rows (k + 1) (nearer off want (row k))
          (from_suc (nearer-IsLeast k want (row k) refl h)))
    where
      suc_sum : (k rows : ℕ) → k + 1 + rows ≡ k + suc rows
      suc_sum k rows = omega arith

      one_more : (k : ℕ) → suc k ≡ k + 1
      one_more k = omega arith

      from_suc :
          IsLeast (Beyond row off (suc k)) (nearer off want (row k))
          → IsLeast (Beyond row off (k + 1)) (nearer off want (row k))
      from_suc g = subst (λ n. IsLeast (Beyond row off n) (nearer off want (row k))) (one_more k) g

table-IsLeast :
    (row : ℕ → Option ℕ) (off rows : ℕ)
    → IsLeast (Beyond row off rows) (least_after row off rows 0 none)
table-IsLeast row off rows =
    subst (λ n. IsLeast (Beyond row off n) (least_after row off rows 0 none)) (sum rows)
      (least_after-IsLeast row off rows 0 none (λ c (l, (j, b, e)). absurd (omega (arith, b))))
  where
    sum : (n : ℕ) → 0 + n ≡ n
    sum n = omega arith

no_row :
    (row : ℕ → Option ℕ) (off rows : ℕ) → (rows == 0) ≡ true → IsLeast (Beyond row off rows) none
no_row row off rows y c (l, (j, b, e)) = absurd (empty j b)
  where
    empty : (j : ℕ) → j < rows → ⊥
    empty j b = ground arith

offset_after_v1 :
    (hash : Algo) (i : Idx) (off : ℕ)
    → least_length hash i.ver i.count ≤ length i.data_of
    → i.ver ≡ 1
    → is_sha1 i.algo ≡ true
    → IsLeast (Beyond (λ k. some (v1_offset i k)) off i.count) (offset_after hash i off)
unfolding offset_after
offset_after_v1 hash i off l v a =
    let one : (i.ver == 1) ≡ true = ground arith in
    let long : ltb (length i.data_of) fanout_size ≡ false =
      ltb_at_least (length i.data_of) fanout_size (omega (arith, rw v at l)) in
    elim (Bool-cases (i.count == 0)) [
      | inl y ↦ rw (one, a, y) (no_row (λ k. some (v1_offset i k)) off i.count y)
      | inr n ↦ rw (one, a, n, long) (table-IsLeast (λ k. some (v1_offset i k)) off i.count)
    ]

offset_after_v2 :
    (hash : Algo) (i : Idx) (off : ℕ)
    → least_length hash i.ver i.count ≤ length i.data_of
    → i.ver ≡ 2
    → IsLeast (Beyond (offset_of hash i) off i.count) (offset_after hash i off)
unfolding offset_after
offset_after_v2 hash i off l v =
    let other : (i.ver == 1) ≡ false = ground arith in
    let two : (i.ver == 2) ≡ true = ground arith in
    let long : ltb (length i.data_of) (overflow_table hash i) ≡ false =
      ltb_at_least (length i.data_of) (overflow_table hash i) (omega (arith, rw v at l)) in
    elim (Bool-cases (i.count == 0)) [
      | inl y ↦ rw (other, two, y) (no_row (offset_of hash i) off i.count y)
      | inr n ↦ rw (other, two, n, long) (table-IsLeast (offset_of hash i) off i.count)
    ]

-- On an index that `OpenIdx` has opened, of SHA-1 if it is of version 1, `OffsetAfter` gives the least
-- offset of a row that lies beyond the given one, and none if there is no such row.
pub offset_after-IsLeast :
    (hash algo : Algo) (d : Bytes) (i : Idx) (off : ℕ)
    → open_idx hash algo (some d) ≡ ok i
    → (i.ver ≡ 1 → is_sha1 i.algo ≡ true)
    → IsLeast (Beyond (row_offset hash i) off i.count) (offset_after hash i off)
offset_after-IsLeast hash algo d i off e a =
    let o = open_idx-IsOpened hash algo d i e in
    elim o.known [
      | inl v ↦ subst by_version (one v) (offset_after_v1 hash i off o.long_enough v (a v))
      | inr v ↦ subst by_version (other v) (offset_after_v2 hash i off o.long_enough v)
    ]
  where
    by_version : Bool → Type 0
    by_version first =
        IsLeast
          (Beyond (λ k. if first then some (v1_offset i k) else offset_of hash i k) off i.count)
          (offset_after hash i off)

    one : i.ver ≡ 1 → true ≡ (i.ver == 1)
    one v = ground arith

    other : i.ver ≡ 2 → false ≡ (i.ver == 1)
    other v = ground arith
