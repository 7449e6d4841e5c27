-- ===== src/Objstore/PackedRefs/Plain.antt =====
-- The texts that a line of packed-refs is made of: names and hex digits.
use go_ls_remote.Base.{
  ℕ, ◌/◌, ◌%◌, ◌<◌, ◌≡◌, ◌≢◌, inl, inr, refl, arith, Bool, true, false, ◌||◌, ◌&&◌, not, [], ◌∷◌,
  ◌++◌, ◌==◌, ltb, Bytes, equal, All, All-append, append_assoc, Bool-cases,
}
use mathlib.Core.Path.{subst}
use go_ls_remote.Base.Table.{holds_below, holds_below_sound}
use go_ls_remote.Objfmt.Hash.{hex, digit}
use go_ls_remote.Objstore.Refname.{
  is_forbidden, scan_component, check_refname_component, check_parts, check_refname_format,
}

-- No control byte, no space and no `^`.
abbrev pub IsPlain : ℕ → Type 0
IsPlain c = (32 < c) × (c ≢ b'^')

scan_component-IsPlain : (last : ℕ) (c : Bytes) → scan_component last c ≡ true → All IsPlain c
unfolding scan_component is_forbidden
scan_component-IsPlain last [] h = tt
scan_component-IsPlain last (ch ∷ c) h = ground (arith, scan_component-IsPlain ch c)

component-IsPlain : (c : Bytes) → check_refname_component c ≡ true → All IsPlain c
unfolding check_refname_component
component-IsPlain [] h = tt
component-IsPlain (ch ∷ c) h = scan_component-IsPlain 0 (ch ∷ c) (ground arith)

check_parts-IsPlain : (part s : Bytes) → check_parts part s ≡ true → All IsPlain (part ++ s)
unfolding check_parts
check_parts-IsPlain part [] h = All-append IsPlain part [] (component-IsPlain part h) tt
check_parts-IsPlain part (c ∷ s) h = elim (Bool-cases (c == b'/')) [
  | inr n ↦
      subst (All IsPlain) (append_assoc part (c ∷ []) s)
        (check_parts-IsPlain (part ++ (c ∷ [])) s (rw n at h))
  | inl y ↦ elim (Bool-cases (check_refname_component part)) [
    | inr n ↦ absurd (refused (rw (y, n) at h))
    | inl z ↦
        All-append IsPlain part (c ∷ s) (component-IsPlain part z)
          (ground arith, check_parts-IsPlain [] s (rw (y, z) at h))
  ]
]
  where
    refused : false ≡ true → ⊥
    refused e = absurd (cc)

pub check_refname_format-IsPlain :
    (name : Bytes) → check_refname_format name ≡ true → All IsPlain name
unfolding check_refname_format
check_refname_format-IsPlain name h = check_parts-IsPlain [] name (ground arith)

pub check_refname_format-not_empty : check_refname_format [] ≢ true
unfolding check_refname_format equal
check_refname_format-not_empty h = absurd (cc)

-- A hex digit is plain, and no `#`.
abbrev pub is_digit : ℕ → Bool
is_digit c = ltb 32 c && not (c == b'^' || c == b'#')

digit-is_digit : (n : ℕ) → n < 16 → is_digit (digit n) ≡ true
digit-is_digit n h = holds_below_sound 16 (λ k. is_digit (digit k)) table n h
  where
    table : holds_below 16 (λ k. is_digit (digit k)) ≡ true
    table = unfold holds_below digit in refl

pub hex-All : (P : ℕ → Type 0) (h : Bytes) → ((c : ℕ) → is_digit c ≡ true → P c) → All P (hex h)
unfolding hex
hex-All P [] f = tt
hex-All P (c ∷ h) f = (
  f (digit (c / 16 % 16)) (digit-is_digit (c / 16 % 16) (omega arith)),
  (f (digit (c % 16)) (digit-is_digit (c % 16) (omega arith)), hex-All P h f),
)
