-- ===== src/Base/Split.antt =====
-- `bytes.Split` and `strings.Split` with a separator of one byte.
use Prim.Native.Nat.{ℕ}
use mathlib.Core.Path.{◌≡◌, refl, ap, ◌∙◌}
use mathlib.Core.Logic.{◌≢◌}
use mathlib.Core.List.{List, [], ◌∷◌, ◌++◌}
use native.Mathlib.Omega.{arith}
use go_ls_remote.Base.Tests.{◌==◌, if◌then◌else◌}
use go_ls_remote.Base.Lists.{Bytes, All}
use go_ls_remote.Base.Text.{Lacks}
use go_ls_remote.Base.Fields.{join}

-- A byte before the first part.
abbrev pub longer : ℕ → List Bytes → List Bytes
longer c [] = (c ∷ []) ∷ []
longer c (part ∷ parts) = (c ∷ part) ∷ parts

unfoldable pub split : ℕ → Bytes → List Bytes
split sep [] = [] ∷ []
split sep (c ∷ s) = let rest = split sep s in if c == sep then [] ∷ rest else longer c rest

split-part : (sep : ℕ) (w : Bytes) → Lacks sep w → split sep w ≡ w ∷ []
unfolding split
split-part sep [] h = refl
split-part sep (c ∷ w) h = ground (arith, split-part sep w, h.0, h.1)

split-separator :
    (sep : ℕ) (w rest : Bytes) → Lacks sep w → split sep (w ++ (sep ∷ rest)) ≡ w ∷ split sep rest
unfolding split
split-separator sep [] rest h = ground arith
split-separator sep (c ∷ w) rest h = ground (arith, split-separator sep w rest, h.0, h.1)

-- Parts without the separator, joined by it, are split into the parts.
pub split-join :
    (sep : ℕ) (parts : List Bytes)
    → parts ≢ []
    → All (Lacks sep) parts
    → split sep (join sep parts) ≡ parts
split-join sep [] some h = absurd (some refl)
split-join sep (w ∷ []) some h = split-part sep w h.0
split-join sep (w ∷ v ∷ parts) some h =
    split-separator sep w (join sep (v ∷ parts)) h.0
    ∙ ap (◌∷◌ w) (split-join sep (v ∷ parts) (λ e. absurd (cc)) h.1)
