-- ===== src/Base/Trim.antt =====
-- Go's `strings.TrimRight` and `TrimLeft`, for a set of bytes.
use Prim.Native.Nat.{ℕ}
use mathlib.Core.Path.{◌≡◌, refl, ap, ◌∙◌}
use mathlib.Core.Bool.{Bool, true, false}
use mathlib.Core.List.{[], ◌∷◌, ◌++◌}
use go_ls_remote.Base.Tests.{if◌then◌else◌}
use go_ls_remote.Base.Lists.{Bytes}
use go_ls_remote.Base.Fields.{Solid}

-- A byte before what is kept of the rest.
abbrev kept : Bool → ℕ → Bytes → Bytes
kept true c [] = []
kept true c (d ∷ rest) = c ∷ d ∷ rest
kept false c rest = c ∷ rest

unfoldable pub trim_right : (ℕ → Bool) → Bytes → Bytes
trim_right cut [] = []
trim_right cut (c ∷ s) = kept (cut c) c (trim_right cut s)

unfoldable pub trim_left : (ℕ → Bool) → Bytes → Bytes
trim_left cut [] = []
trim_left cut (c ∷ s) = let rest = trim_left cut s in if cut c then rest else c ∷ s

module _ (cut : ℕ → Bool) where
  trim_right-Solid : (s : Bytes) → Solid cut s → trim_right cut s ≡ s
  unfolding trim_right
  trim_right-Solid [] h = refl
  trim_right-Solid (c ∷ s) h = rw (h.0, trim_right-Solid s h.1) refl

  longer : (b : Bool) (c d : ℕ) (s : Bytes) → kept b c (d ∷ s) ≡ c ∷ d ∷ s
  longer true c d s = refl
  longer false c d s = refl

  -- A text that ends with a byte that stays is not cut.
  pub trim_right-append :
      (front : Bytes) (d : ℕ) (back : Bytes)
      → Solid cut (d ∷ back)
      → trim_right cut (front ++ (d ∷ back)) ≡ front ++ (d ∷ back)
  unfolding trim_right
  trim_right-append [] d back h = trim_right-Solid (d ∷ back) h
  trim_right-append (c ∷ []) d back h =
      ap (kept (cut c) c) (trim_right-append [] d back h) ∙ longer (cut c) c d back
  trim_right-append (c ∷ e ∷ front) d back h =
      ap (kept (cut c) c) (trim_right-append (e ∷ front) d back h)
      ∙ longer (cut c) c e (front ++ (d ∷ back))
