-- ===== src/Objfmt/Fanout.antt =====
-- The search that idx_v1.go, idx_v2.go and midx_find.go of internal/objfmt share: a fan-out table bounds a
-- binary search over a table of names.
use go_ls_remote.Base.{
  ℕ, ◌-◌, ◌≤◌, ◌<◌, ◌≡◌, ◌↔◌, inl, inr, ap, arith, Option, none, some, Bytes, get_or, ltb,
  if◌then◌else◌, Bool-cases, ltb-false, refl, ◌∙◌, some_injective, none-some,
}
use go_ls_remote.Base.Compare.{search_rows, Ascends, search_rows_sound, search_rows_complete}

-- `h[0]`.
abbrev pub first_byte : Bytes → ℕ
first_byte h = get_or h 0 0

-- The first `lo` of a search for a name whose first byte is `prefix`.
abbrev pub low : (ℕ → ℕ) → ℕ → ℕ
low fan prefix = if ltb 0 prefix then fan (prefix - 1) else 0

-- The names of a table ascend, and entry `n` of the fan-out table is the number of those whose first byte
-- is at most `n`.
pub record IsTable (fan : ℕ → ℕ) (count : ℕ) (name : ℕ → Bytes) : Type 0 where
  pub ascends : Ascends name count
  pub counted : (n k : ℕ) → n < 256 → k < count → (k < fan n) ↔ (first_byte (name k) ≤ n)

module _ (fan : ℕ → ℕ) (count : ℕ) (name : ℕ → Bytes) (h : Bytes) (k : ℕ) where
  -- The rows of a name lie between the bounds that the fan-out table gives.
  bracketed :
      IsTable fan count name
      → first_byte h < 256
      → k < count
      → name k ≡ h
      → (low fan (first_byte h) ≤ k) × (k < fan (first_byte h))
  bracketed t small l e = (
    elim (Bool-cases (ltb 0 (first_byte h))) [
      | inr n ↦ rw n (omega arith)
      | inl y ↦ rw y (elim (Bool-cases (ltb k (fan (first_byte h - 1)))) [
        | inr b ↦ ltb-false k (fan (first_byte h - 1)) b
        | inl b ↦ absurd (
            beyond (ground arith)
              ((t.counted (first_byte h - 1) k (omega arith) l).0 (ground arith)))
      ])
    ],
    (t.counted (first_byte h) k small l).1 (rw e (omega arith)),
  )
    where
      beyond : 0 < first_byte h → first_byte (name k) ≤ first_byte h - 1 → ⊥
      beyond p m = omega (arith, ap first_byte e)

  pub rows_exact :
      IsTable fan count name
      → first_byte h < 256
      → fan (first_byte h) ≤ count
      → (search_rows name h (fan (first_byte h)) (low fan (first_byte h)) (fan (first_byte h))
          ≡ some k)
        ↔ ((k < count) × (name k ≡ h))
  rows_exact t small below = (
    λ e.
        let (_, r, same) = search_rows_sound name h hi lo hi k e in (omega (arith, r, below), same),
    λ (r, same).
        let (l, u) = bracketed t small r same in
        search_rows_complete name h hi lo hi k count (omega arith) l u below t.ascends same,
  )
    where
      hi : ℕ
      hi = fan (first_byte h)

      lo : ℕ
      lo = low fan (first_byte h)

-- What a row of the table leads to.
pub looked_up_iff :
    {A : Type 0} {Q : ℕ → Type 0} (found : Option ℕ) (row : ℕ → Option A) (off : A)
    → ((k : ℕ) → (found ≡ some k) ↔ Q k)
    → (elim found [ none ↦ none | some k ↦ row k ]) ≡ some off
      ↔ ((k : ℕ) × Q k × (row k ≡ some off))
looked_up_iff none row off q =
    (λ e. absurd (none-some off e), λ (k, x, _). absurd (none-some k ((q k).1 x)))
looked_up_iff (some n) row off q =
    (λ e. (n, (q n).0 refl, e), λ (k, x, e). ap row (some_injective ((q k).1 x)) ∙ e)

pub no_rows :
    {A : Type 0} {Q R : ℕ → Type 0} (n : ℕ) (off : A)
    → n ≡ 0
    → (none ≡ some off) ↔ ((k : ℕ) × ((k < n) × Q k) × R k)
no_rows n off e = (λ h. absurd (none-some off h), λ (k, (l, _), _). absurd (empty k l))
  where
    empty : (k : ℕ) → k < n → ⊥
    empty k l = omega (arith, e)
