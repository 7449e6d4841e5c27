-- ===== src/Base/Compare.antt =====
-- `bytes.Compare`, and the binary search that the sources write out over a sorted table.
use Prim.Native.Nat.{ℕ, zero, suc, ◌+◌, ◌-◌, ◌/◌, ◌≤◌, ◌<◌, Ordering, lt, eq, gt}
use mathlib.Core.Path.{◌≡◌, refl, ap, ◌∙◌, sym}
use mathlib.Core.Bool.{true}
use mathlib.Core.Logic.{inl, inr}
use mathlib.Core.Option.{Option, none, some}
use mathlib.Core.List.{[], ◌∷◌}
use native.Mathlib.Omega.{arith}
use go_ls_remote.Base.Tests.{ltb, ◌==◌, if◌then◌else◌, Bool-cases}
use go_ls_remote.Base.Lists.{Bytes}
use go_ls_remote.Base.Results.{some_injective, none-some}

unfoldable pub compare_bytes : Bytes → Bytes → Ordering
compare_bytes [] [] = eq
compare_bytes [] (y ∷ b) = lt
compare_bytes (x ∷ a) [] = gt
compare_bytes (x ∷ a) (y ∷ b) = if ltb x y then lt else if x == y then compare_bytes a b else gt

pub compare_bytes_same : (a : Bytes) → compare_bytes a a ≡ eq
unfolding compare_bytes
compare_bytes_same [] = refl
compare_bytes_same (x ∷ a) = ground (arith, compare_bytes_same a)

pub compare_bytes-eq : (a b : Bytes) → compare_bytes a b ≡ eq → a ≡ b
unfolding compare_bytes
compare_bytes-eq [] [] h = refl
compare_bytes-eq [] (y ∷ b) h = absurd (cc)
compare_bytes-eq (x ∷ a) [] h = absurd (cc)
compare_bytes-eq (x ∷ a) (y ∷ b) h = ground (arith, compare_bytes-eq a b)

pub compare_bytes-gt : (a b : Bytes) → compare_bytes a b ≡ lt → compare_bytes b a ≡ gt
unfolding compare_bytes
compare_bytes-gt [] [] h = absurd (cc)
compare_bytes-gt [] (y ∷ b) h = refl
compare_bytes-gt (x ∷ a) [] h = absurd (cc)
compare_bytes-gt (x ∷ a) (y ∷ b) h = ground (arith, compare_bytes-gt a b)

-- The rows before `count` ascend.
abbrev pub Ascends : (ℕ → Bytes) → ℕ → Type 0
Ascends row count = (a b : ℕ) → a < b → b < count → compare_bytes (row a) (row b) ≡ lt

module _ (row : ℕ → Bytes) (want : Bytes) where
  -- `for lo < hi { mid := lo + (hi-lo)/2; switch bytes.Compare(want, row(mid)) ... }`, on fuel.
  unfoldable pub search_rows : ℕ → ℕ → ℕ → Option ℕ
  search_rows zero lo hi = none
  search_rows (suc fuel) lo hi =
      if ltb lo hi
      then elim (compare_bytes want (row (lo + (hi - lo) / 2))) [
        | eq ↦ some (lo + (hi - lo) / 2)
        | lt ↦ search_rows fuel lo (lo + (hi - lo) / 2)
        | gt ↦ search_rows fuel (lo + (hi - lo) / 2 + 1) hi
      ]
      else none

  pub search_rows_sound :
      (fuel lo hi k : ℕ) → search_rows fuel lo hi ≡ some k → (lo ≤ k) × (k < hi) × (row k ≡ want)
  unfolding search_rows
  search_rows_sound zero lo hi k h = absurd (none-some k h)
  search_rows_sound (suc fuel) lo hi k h = elim (Bool-cases (ltb lo hi)) [
    | inr n ↦ absurd (none-some k (rw n at h))
    | inl y ↦
        at_mid (λ a b. search_rows_sound fuel a b k) (lo + (hi - lo) / 2) (omega arith)
          (ground arith) (compare_bytes want (row (lo + (hi - lo) / 2))) refl (rw y at h)
  ]
    where
      same :
          (mid : ℕ)
          → lo ≤ mid
          → mid < hi
          → compare_bytes want (row mid) ≡ eq
          → mid ≡ k
          → (lo ≤ k) × (k < hi) × (row k ≡ want)
      same mid l r c e =
          (omega (arith, e), omega (arith, e), sym (compare_bytes-eq want (row mid) c ∙ ap row e))

      at_mid :
          ((a b : ℕ) → search_rows fuel a b ≡ some k → (a ≤ k) × (k < b) × (row k ≡ want))
          → (mid : ℕ) → lo ≤ mid
          → mid < hi
          → (o : Ordering) → compare_bytes want (row mid) ≡ o
          → (elim o [
            | eq ↦ some mid
            | lt ↦ search_rows fuel lo mid
            | gt ↦ search_rows fuel (mid + 1) hi
          ])
            ≡ some k
          → (lo ≤ k) × (k < hi) × (row k ≡ want)
      at_mid deeper mid l r lt c e = let (x, y, z) = deeper lo mid e in (x, omega (arith, y), z)
      at_mid deeper mid l r eq c e = same mid l r c (some_injective e)
      at_mid deeper mid l r gt c e =
          let (x, y, z) = deeper (mid + 1) hi e in (omega (arith, x), y, z)

  pub search_rows_complete :
      (fuel lo hi k count : ℕ)
      → hi ≤ fuel + lo
      → lo ≤ k
      → k < hi
      → hi ≤ count
      → Ascends row count
      → row k ≡ want
      → search_rows fuel lo hi ≡ some k
  unfolding search_rows
  search_rows_complete zero lo hi k count f l r b up e = absurd (omega arith)
  search_rows_complete (suc fuel) lo hi k count f l r b up e =
      let mid = lo + (hi - lo) / 2 in
      let inside : ltb lo hi ≡ true = ground arith in
      elim (Bool-cases (ltb k mid)) [
        | inl below ↦
            rw (inside, sym e, up k mid (ground arith) (omega arith))
              ((search_rows_complete fuel lo mid k count (omega arith) l (ground arith)
                (omega arith) up e))
        | inr other ↦ elim (Bool-cases (ltb mid k)) [
          | inl above ↦
              rw
                (
                  inside,
                  sym e,
                  compare_bytes-gt (row mid) (row k) (up mid k (ground arith) (omega arith)),
                )
                ((search_rows_complete fuel (mid + 1) hi k count (omega arith) (ground arith) r b up
                  e))
          | inr reached ↦
              let here : k ≡ mid = ground arith in
              let met : compare_bytes want (row mid) ≡ eq =
                ap (compare_bytes want) (ap row (sym here) ∙ e) ∙ compare_bytes_same want in
              rw (inside, met) (ap some (sym here))
        ]
      ]
