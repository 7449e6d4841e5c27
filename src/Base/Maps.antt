-- ===== src/Base/Maps.antt =====
-- Go's maps with string keys, as a list of entries with different keys.
use Prim.Native.Nat.{ℕ, ◌+◌}
use mathlib.Core.Path.{◌≡◌, refl, ap, ◌∙◌, sym}
use mathlib.Core.Logic.{inl, inr}
use mathlib.Core.Bool.{false}
use mathlib.Core.Option.{Option, none, some}
use mathlib.Core.List.{List, [], ◌∷◌}
use native.Mathlib.Omega.{arith}
use go_ls_remote.Base.Tests.{if◌then◌else◌, Bool-cases}
use go_ls_remote.Base.Lists.{Bytes, equal, equal_iff}
use go_ls_remote.Base.Sort.{occurrences}

equal_comm : (left right : Bytes) → equal left right ≡ equal right left
unfolding equal
equal_comm [] [] = refl
equal_comm [] (b ∷ right) = refl
equal_comm (b ∷ left) [] = refl
equal_comm (b ∷ left) (c ∷ right) = ground (arith, equal_comm left right)

abbrev pub Map {ℓ} : Type ℓ → Type ℓ
Map V = List (Bytes × V)

module _ {ℓ} {V : Type ℓ} where
  -- `m[k]` with its `ok`.
  unfoldable pub lookup : Bytes → Map V → Option V
  lookup k [] = none
  lookup k ((l, v) ∷ m) = if equal l k then some v else lookup k m

  -- `delete(m, k)`.
  unfoldable pub delete : Bytes → Map V → Map V
  delete k [] = []
  delete k ((l, v) ∷ m) = let rest = delete k m in if equal l k then rest else (l, v) ∷ rest

  -- `m[k] = v`.
  abbrev pub put : Bytes → V → Map V → Map V
  put k v m = (k, v) ∷ delete k m

  -- `maps.Keys`.
  abbrev pub keys : Map V → List Bytes
  keys [] = []
  keys ((l, v) ∷ m) = l ∷ keys m

  abbrev pub found : Option V → ℕ
  found none = 0
  found (some v) = 1

  -- Each key stands once.
  abbrev pub IsMap : Map V → Type ℓ
  IsMap [] = Unit {ℓ}
  IsMap ((l, v) ∷ m) = (lookup l m ≡ none) × IsMap m

  pub lookup_empty : (k : Bytes) → lookup k [] ≡ none
  unfolding lookup
  lookup_empty k = refl

  pub lookup-delete_same : (k : Bytes) (m : Map V) → lookup k (delete k m) ≡ none
  unfolding lookup delete
  lookup-delete_same k [] = refl
  lookup-delete_same k ((l, v) ∷ m) = elim (Bool-cases (equal l k)) [
    | inl y ↦ rw y (lookup-delete_same k m)
    | inr n ↦ rw (n, n) (lookup-delete_same k m)
  ]

  pub lookup-delete :
      (k l : Bytes) (m : Map V) → equal k l ≡ false → lookup l (delete k m) ≡ lookup l m
  unfolding lookup delete
  lookup-delete k l [] d = refl
  lookup-delete k l ((j, v) ∷ m) d = elim (Bool-cases (equal j k)) [
    | inl y ↦ rw (y, ap (λ x. equal x l) ((equal_iff j k).0 y) ∙ d) (lookup-delete k l m d)
    | inr n ↦ rw n (ap (λ rest. if equal j l then some v else rest) (lookup-delete k l m d))
  ]

  pub lookup-put :
      (n k : Bytes) (v : V) (m : Map V)
      → lookup n (put k v m) ≡ (if equal k n then some v else lookup n m)
  unfolding lookup
  lookup-put n k v m = elim (Bool-cases (equal k n)) [
    | inl y ↦ rw y refl
    | inr x ↦ rw x (lookup-delete k n m x)
  ]

  pub delete-delete : (k : Bytes) (m : Map V) → delete k (delete k m) ≡ delete k m
  unfolding delete
  delete-delete k [] = refl
  delete-delete k ((l, v) ∷ m) = elim (Bool-cases (equal l k)) [
    | inl y ↦ rw y (delete-delete k m)
    | inr n ↦ rw (n, n) (ap (λ rest. (l, v) ∷ rest) (delete-delete k m))
  ]

  pub delete-IsMap : (k : Bytes) (m : Map V) → IsMap m → IsMap (delete k m)
  unfolding delete
  delete-IsMap k [] h = tt
  delete-IsMap k ((l, v) ∷ m) h = elim (Bool-cases (equal l k)) [
    | inl y ↦ rw y (delete-IsMap k m h.1)
    | inr n ↦ rw n (lookup-delete k l m (equal_comm k l ∙ n) ∙ h.0, delete-IsMap k m h.1)
  ]

  pub put-IsMap : (k : Bytes) (v : V) (m : Map V) → IsMap m → IsMap (put k v m)
  put-IsMap k v m h = (lookup-delete_same k m, delete-IsMap k m h)

  pub occurrences-keys :
      (k : Bytes) (m : Map V) → IsMap m → occurrences k (keys m) ≡ found (lookup k m)
  unfolding lookup
  occurrences-keys k [] h = refl
  occurrences-keys k ((l, v) ∷ m) h = elim (Bool-cases (equal l k)) [
    | inl y ↦ rw y (
        ap (λ n. 1 + n)
          (occurrences-keys k m h.1
            ∙ ap found (ap (λ x. lookup x m) (sym ((equal_iff l k).0 y)) ∙ h.0)))
    | inr n ↦ rw n (omega (arith, occurrences-keys k m h.1))
  ]
