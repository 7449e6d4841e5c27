-- ===== src/Base/Text.antt =====
-- The functions of Go's `strings` and `bytes` packages that the sources call, over byte lists.
-- `none` stands for "not found".
use Prim.Native.Char.{code}
use Prim.Native.String.{String}
use Prim.Native.Nat.{ℕ}
use mathlib.Core.Path.{◌≡◌, refl, ap}
use mathlib.Core.Bool.{Bool, true, false, ◌&&◌}
use mathlib.Core.Logic.{◌≢◌, ◌↔◌}
use mathlib.Core.Option
use mathlib.Core.Option.{Option, none, some}
use mathlib.Core.List.{[], ◌∷◌, ◌++◌}
use native.Mathlib.Omega.{arith}
use go_ls_remote.Base.Tests.{◌==◌, if◌then◌else◌, Bool-cases, ==_iff}
use go_ls_remote.Base.Lists.{Bytes, All, equal}
use mathlib.Core.Logic.{inl, inr}

-- The bytes of an ASCII literal.
abbrev pub bytes : String → Bytes
bytes String.[] = []
bytes (String.◌∷◌ c s) = code c ∷ bytes s

-- No byte of the text is `c`.
abbrev pub Lacks : ℕ → Bytes → Type 0
Lacks c = All (λ b. b ≢ c)

-- `strings.CutPrefix`: what follows the prefix, if it is one.
unfoldable pub cut_prefix : Bytes → Bytes → Option Bytes
cut_prefix s [] = some s
cut_prefix [] (p ∷ ps) = none
cut_prefix (c ∷ s) (p ∷ ps) = if c == p then cut_prefix s ps else none

-- `strings.HasPrefix`.
unfoldable pub has_prefix : Bytes → Bytes → Bool
has_prefix s [] = true
has_prefix [] (p ∷ ps) = false
has_prefix (c ∷ s) (p ∷ ps) = c == p && has_prefix s ps

-- `strings.CutSuffix`: what stands before the suffix, if it is one.
unfoldable pub cut_suffix : Bytes → Bytes → Option Bytes
unfolding equal
cut_suffix [] suffix = if equal [] suffix then some [] else none
cut_suffix (c ∷ s) suffix =
    let rest = cut_suffix s suffix in
    if equal (c ∷ s) suffix then some [] else Option.map (◌∷◌ c) rest

-- `strings.TrimSuffix` with a suffix of one byte.
unfoldable pub trim_suffix : ℕ → Bytes → Bytes
trim_suffix e [] = []
trim_suffix e (c ∷ []) = if c == e then [] else c ∷ []
trim_suffix e (c ∷ d ∷ s) = c ∷ trim_suffix e (d ∷ s)

abbrev pub glue : ℕ → Option (Bytes × Bytes) → Option (Bytes × Bytes)
glue c none = none
glue c (some (a, b)) = some (c ∷ a, b)

-- `strings.Cut` with a separator of one byte: what stands before and after its first place.
unfoldable pub cut : ℕ → Bytes → Option (Bytes × Bytes)
cut e [] = none
cut e (c ∷ s) = let rest = cut e s in if c == e then some ([], s) else glue c rest

-- `strings.LastIndex` with one byte: what stands before and after its last place.
unfoldable pub cut_last : ℕ → Bytes → Option (Bytes × Bytes)
cut_last e [] = none
cut_last e (c ∷ s) = elim (cut_last e s) [
  | some (a, b) ↦ some (c ∷ a, b)
  | none ↦ if c == e then some ([], s) else none
]

-- `strings.Index` with a separator of several bytes: what stands before and after its first place.
unfoldable pub cut_text : Bytes → Bytes → Option (Bytes × Bytes)
unfolding cut_prefix
cut_text e [] = elim (cut_prefix [] e) [ some r ↦ some ([], r) | none ↦ none ]
cut_text e (c ∷ s) =
    let rest = cut_text e s in
    elim (cut_prefix (c ∷ s) e) [ some r ↦ some ([], r) | none ↦ glue c rest ]

pub cut_prefix_iff : (s p r : Bytes) → (cut_prefix s p ≡ some r) ↔ (s ≡ p ++ r)
unfolding cut_prefix
cut_prefix_iff s [] r = ground arith
cut_prefix_iff [] (p ∷ ps) r = ground arith
cut_prefix_iff (c ∷ s) (p ∷ ps) r = ground (arith, cut_prefix_iff s ps r)

pub cut_prefix-append : (p r : Bytes) → cut_prefix (p ++ r) p ≡ some r
cut_prefix-append p r = (cut_prefix_iff (p ++ r) p r).1 refl

pub has_prefix_iff : (s p : Bytes) → (has_prefix s p ≡ true) ↔ ((r : Bytes) × (s ≡ p ++ r))
unfolding has_prefix
has_prefix_iff s [] = (λ h. (s, refl), λ h. refl)
has_prefix_iff [] (p ∷ ps) = (λ h. cc, λ h. cc (h.1))
has_prefix_iff (c ∷ s) (p ∷ ps) = (
  λ h. let (r, e) = (has_prefix_iff s ps).0 (ground arith) in (r, ground arith),
  λ h. ground (arith, (has_prefix_iff s ps).1 (h.0, ground arith)),
)

pub trim_suffix-append : (e : ℕ) (s : Bytes) → trim_suffix e (s ++ (e ∷ [])) ≡ s
unfolding trim_suffix
trim_suffix-append e [] = ground arith
trim_suffix-append e (c ∷ []) = ground arith
trim_suffix-append e (c ∷ d ∷ s) = ap (◌∷◌ c) (trim_suffix-append e (d ∷ s))

pub cut-append : (e : ℕ) (a b : Bytes) → Lacks e a → cut e (a ++ (e ∷ b)) ≡ some (a, b)
unfolding cut
cut-append e [] b h = ground arith
cut-append e (c ∷ a) b h = ground (arith, cut-append e a b h.1)

pub cut-none : (e : ℕ) (s : Bytes) → Lacks e s → cut e s ≡ none
unfolding cut
cut-none e [] h = refl
cut-none e (c ∷ s) h = ground (arith, cut-none e s h.1)

-- What each answer of a cut says of the text.
abbrev pub Splits : ℕ → Bytes → Option (Bytes × Bytes) → Type 0
Splits e s none = Lacks e s
Splits e s (some (a, b)) = (s ≡ a ++ (e ∷ b)) × Lacks e a

glue-Splits :
    (e c : ℕ) (s : Bytes) (o : Option (Bytes × Bytes))
    → c ≢ e
    → Splits e s o
    → Splits e (c ∷ s) (glue c o)
glue-Splits e c s none ne h = (ne, h)
glue-Splits e c s (some (a, b)) ne h = (ap (◌∷◌ c) h.0, (ne, h.1))

pub cut-Splits : (e : ℕ) (s : Bytes) → Splits e s (cut e s)
unfolding cut
cut-Splits e [] = tt
cut-Splits e (c ∷ s) = elim (Bool-cases (c == e)) [
  | inl here ↦ rw here (ap (λ x. x ∷ s) ((==_iff c e).0 here), tt)
  | inr later ↦ rw later (glue-Splits e c s (cut e s) (ground arith) (cut-Splits e s))
]

pub cut_sound : (e : ℕ) (s a b : Bytes) → cut e s ≡ some (a, b) → (s ≡ a ++ (e ∷ b)) × Lacks e a
cut_sound e s a b h = rw h at (cut-Splits e s)
