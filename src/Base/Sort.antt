-- ===== src/Base/Sort.antt =====
-- `slices.Sorted` over strings, by insertion: strings that compare equal are the same, so every sort
-- gives this list.
use Prim.Native.Nat.{ℕ, ◌+◌}
use mathlib.Core.Path.{◌≡◌, refl, ap, ◌∙◌}
use mathlib.Core.Logic.{inl, inr}
use mathlib.Core.Bool.{Bool, true, false}
use mathlib.Core.List.{List, [], ◌∷◌}
use native.Mathlib.Omega.{arith}
use go_ls_remote.Base.Tests.{ltb, ◌==◌, if◌then◌else◌, Bool-cases}
use go_ls_remote.Base.Lists.{Bytes, equal}

-- `cmp.Compare(a, b) <= 0` on strings.
unfoldable pub bytes_le : Bytes → Bytes → Bool
bytes_le [] b = true
bytes_le (x ∷ a) [] = false
bytes_le (x ∷ a) (y ∷ b) = if ltb x y then true else if x == y then bytes_le a b else false

unfoldable pub insert_name : Bytes → List Bytes → List Bytes
insert_name n [] = n ∷ []
insert_name n (m ∷ names) =
    let rest = insert_name n names in if bytes_le n m then n ∷ m ∷ names else m ∷ rest

unfoldable pub sort_names : List Bytes → List Bytes
sort_names [] = []
sort_names (n ∷ names) = insert_name n (sort_names names)

-- Every name comes before the names behind it, or is the same.
abbrev pub Ascending : List Bytes → Type 0
Ascending [] = Unit {0}
Ascending (n ∷ []) = Unit {0}
Ascending (n ∷ m ∷ names) = (bytes_le n m ≡ true) × Ascending (m ∷ names)

-- How often a list holds a name.
abbrev pub occurrences : Bytes → List Bytes → ℕ
occurrences n [] = 0
occurrences n (m ∷ names) = (if equal m n then 1 else 0) + occurrences n names

pub bytes_le_total : (a b : Bytes) → bytes_le a b ≡ false → bytes_le b a ≡ true
unfolding bytes_le
bytes_le_total [] b h = absurd (cc)
bytes_le_total (x ∷ a) [] h = refl
bytes_le_total (x ∷ a) (y ∷ b) h = ground (arith, bytes_le_total a b)

insert_behind :
    (s n m : Bytes) (names : List Bytes)
    → bytes_le s n ≡ true
    → bytes_le s m ≡ true
    → Ascending (insert_name n (m ∷ names))
    → Ascending (s ∷ insert_name n (m ∷ names))
unfolding insert_name
insert_behind s n m names hn hm h = elim (Bool-cases (bytes_le n m)) [
  | inl y ↦ rw y (hn, rw y at h)
  | inr x ↦ rw x (hm, rw x at h)
]

insert_later :
    (n m : Bytes) (names : List Bytes)
    → bytes_le n m ≡ false
    → insert_name n (m ∷ names) ≡ m ∷ insert_name n names
unfolding insert_name
insert_later n m names x = rw x refl

insert_name-Ascending :
    (n : Bytes) (names : List Bytes) → Ascending names → Ascending (insert_name n names)
insert_name-Ascending n [] h = unfold insert_name in tt
insert_name-Ascending n (m ∷ []) h = elim (Bool-cases (bytes_le n m)) [
  | inl y ↦ unfold insert_name in rw y (y, tt)
  | inr x ↦ unfold insert_name in rw x (bytes_le_total n m x, tt)
]
insert_name-Ascending n (m ∷ l ∷ names) h = elim (Bool-cases (bytes_le n m)) [
  | inl y ↦ unfold insert_name in rw y (y, h)
  | inr x ↦ rw (insert_later n m (l ∷ names) x) (
      insert_behind m n l names (bytes_le_total n m x) h.0
        (insert_name-Ascending n (l ∷ names) h.1))
]

pub sort_names-Ascending : (names : List Bytes) → Ascending (sort_names names)
unfolding sort_names
sort_names-Ascending [] = tt
sort_names-Ascending (n ∷ names) =
    insert_name-Ascending n (sort_names names) (sort_names-Ascending names)

occurrences-insert_name :
    (l n : Bytes) (names : List Bytes)
    → occurrences l (insert_name n names) ≡ occurrences l (n ∷ names)
unfolding insert_name
occurrences-insert_name l n [] = refl
occurrences-insert_name l n (m ∷ names) = elim (Bool-cases (bytes_le n m)) [
  | inl y ↦ rw y refl
  | inr x ↦ rw x (omega (arith, occurrences-insert_name l n names))
]

pub occurrences-sort_names :
    (l : Bytes) (names : List Bytes) → occurrences l (sort_names names) ≡ occurrences l names
unfolding sort_names
occurrences-sort_names l [] = refl
occurrences-sort_names l (n ∷ names) =
    occurrences-insert_name l n (sort_names names)
    ∙ ap (λ (k : ℕ). (if equal n l then 1 else 0) + k) (occurrences-sort_names l names)
