-- ===== src/Wire/Advertisement/RefLines.antt =====
-- The lines of a v0 advertisement: what each does in `parseV0Advertisement`.
use go_ls_remote.Base.{
  ℕ, ◌/◌, ◌%◌, ◌<◌, Bool, true, false, ◌&&◌, not, ◌≡◌, refl, ap, ◌∙◌, sym, [], ◌∷◌, ◌++◌, List,
  none, some, equal, equal_iff, Bytes, arith, ok, length, length-append, ◌==◌, Bool-cases, inl, inr,
}
use go_ls_remote.Base.Text.{
  bytes, cut, cut-append, cut_prefix, cut_suffix, has_prefix, Lacks, trim_suffix-append,
}
use go_ls_remote.Base.Table.{holds_below, holds_below_sound}
use go_ls_remote.Base.Fields.{is_space, Solid}
use go_ls_remote.Objfmt.Hash.{hex, digit, hex-Solid}
use go_ls_remote.Pktline.Incoming.{Incoming, more}
use go_ls_remote.Pktline.Writer.Sends.{line_packet}
use go_ls_remote.Wire.{RawRef}
use go_ls_remote.Wire.Advertisement.{
  parse_first_ref_line, take_ref, take_ref_line, mark_peeled, ref_lines_loop, reversed_onto,
  is_all_zero,
}
use go_ls_remote.Wire.Capabilities.{parse_capabilities}
use go_ls_remote.Wire.LsRefs.{plain_ref}

-- `<id> SP <name>`.
abbrev pub named_line : Bytes → Bytes → Bytes
named_line oid name = hex oid ++ (b' ' ∷ name)

-- A name that does not end in the peeled marker.
abbrev pub IsUnmarked : Bytes → Type 0
IsUnmarked name = cut_suffix name (bytes "^{}") ≡ none

abbrev distinct : ℕ → Bool
distinct n = not (digit n == b's') && not (digit n == b'v')

digit_distinct : (n : ℕ) → n < 16 → distinct n ≡ true
digit_distinct = holds_below_sound 16 distinct (unfold holds_below digit in refl)

named_line_not_shallow :
    (oid rest : Bytes) → has_prefix (named_line oid rest) (bytes "shallow ") ≡ false
unfolding has_prefix hex
named_line_not_shallow [] rest = refl
named_line_not_shallow (c ∷ oid) rest = ground (arith, digit_distinct (c / 16 % 16) (omega arith))

pub named_line_no_version :
    (oid rest : Bytes) → cut_prefix (named_line oid rest) (bytes "version ") ≡ none
unfolding cut_prefix hex
named_line_no_version [] rest = refl
named_line_no_version (c ∷ oid) rest = ground (arith, digit_distinct (c / 16 % 16) (omega arith))

Solid-Lacks : (s : Bytes) → Solid is_space s → Lacks b' ' s
unfolding is_space
Solid-Lacks [] h = tt
Solid-Lacks (c ∷ s) h = (ground (arith, h.0), Solid-Lacks s h.1)

pub cut-named_line : (oid rest : Bytes) → cut b' ' (named_line oid rest) ≡ some (hex oid, rest)
cut-named_line oid rest = cut-append b' ' (hex oid) rest (Solid-Lacks (hex oid) (hex-Solid oid))

equal_refl : (s : Bytes) → equal s s ≡ true
equal_refl s = (equal_iff s s).1 refl

equal-longer : (s t : Bytes) → length t < length s → equal s t ≡ false
equal-longer s t h = elim (Bool-cases (equal s t)) [
  | inr n ↦ n
  | inl y ↦ absurd (omega (arith, ap length ((equal_iff s t).0 y)))
]

cut_suffix-append : (s e : Bytes) → cut_suffix (s ++ e) e ≡ some s
unfolding cut_suffix
cut_suffix-append [] [] = unfold equal in refl
cut_suffix-append [] (c ∷ e) = rw (equal_refl (c ∷ e)) refl
cut_suffix-append (c ∷ s) e =
    rw (equal-longer (c ∷ (s ++ e)) e (omega (arith, length-append s e)))
      (rw (cut_suffix-append s e) refl)

pub take_ref_line-named :
    (oid name : Bytes) (refs : List RawRef)
    → IsUnmarked name
    → take_ref_line (named_line oid name) refs ≡ ok (plain_ref (hex oid) name ∷ refs)
unfolding take_ref_line
take_ref_line-named oid name refs h =
    rw (named_line_not_shallow oid name) (rw (cut-named_line oid name) (rw (h, take_ref) refl))

pub take_ref_line-peeled :
    (oid : Bytes) (r : RawRef) (refs : List RawRef)
    → r.peeled ≡ []
    → take_ref_line (named_line oid (r.name ++ bytes "^{}")) (r ∷ refs)
      ≡ ok (record r { peeled = hex oid } ∷ refs)
unfolding take_ref_line mark_peeled
take_ref_line-peeled oid r refs h = rw (named_line_not_shallow oid (r.name ++ bytes "^{}")) (
    rw (cut-named_line oid (r.name ++ bytes "^{}")) (
      rw (cut_suffix-append r.name (bytes "^{}"), take_ref)
        (ground (arith, equal_refl r.name, equal_refl []))))

unmarked-ne_placeholder :
    (name : Bytes) → IsUnmarked name → equal name (bytes "capabilities^{}") ≡ false
unmarked-ne_placeholder name h = elim (Bool-cases (equal name (bytes "capabilities^{}"))) [
  | inr n ↦ n
  | inl y ↦ absurd (
      cc (
        sym h
        ∙ ap (λ s. cut_suffix s (bytes "^{}")) ((equal_iff name (bytes "capabilities^{}")).0 y)
        ∙ cut_suffix-append (bytes "capabilities") (bytes "^{}")))
]

-- `<id> SP <name> NUL <capabilities>`.
abbrev pub first_line : Bytes → Bytes → Bytes → Bytes
first_line oid name caps = named_line oid (name ++ (0 ∷ caps))

pub parse_first_ref_line-named :
    (oid name caps : Bytes)
    → Lacks 0 name
    → IsUnmarked name
    → parse_first_ref_line (first_line oid name caps ++ bytes "\n")
      ≡ ok (parse_capabilities caps, some (plain_ref (hex oid) name))
unfolding parse_first_ref_line
parse_first_ref_line-named oid name caps hn hu =
    rw (trim_suffix-append b'\n' (first_line oid name caps)) (
      rw (cut-named_line oid (name ++ (0 ∷ caps)))
        (rw (cut-append 0 name caps hn) (rw (unmarked-ne_placeholder name hu) (rw hu refl))))

-- An id of zeros with the placeholder's name is no ref.
pub parse_first_ref_line_placeholder :
    (oid caps : Bytes)
    → is_all_zero (hex oid) ≡ true
    → parse_first_ref_line (first_line oid (bytes "capabilities^{}") caps ++ bytes "\n")
      ≡ ok (parse_capabilities caps, none)
unfolding parse_first_ref_line
parse_first_ref_line_placeholder oid caps h =
    rw (trim_suffix-append b'\n' (first_line oid (bytes "capabilities^{}") caps)) (
      rw (cut-named_line oid (bytes "capabilities^{}" ++ (0 ∷ caps))) (
        rw (cut-append 0 (bytes "capabilities^{}") caps (ground arith))
          (rw (equal_refl (bytes "capabilities^{}")) (rw h refl))))

-- The loop takes a line.
pub ref_lines_loop-line :
    (l : Bytes) (q : Incoming) (refs rs : List RawRef)
    → take_ref_line l refs ≡ ok rs
    → ref_lines_loop (more (line_packet l) q) refs ≡ ref_lines_loop q rs
unfolding ref_lines_loop
ref_lines_loop-line l q refs rs h = ground (arith, trim_suffix-append b'\n' l, h)

pub reversed_onto_twice :
    (xs acc ys : List RawRef)
    → reversed_onto (reversed_onto xs acc) ys ≡ reversed_onto acc (xs ++ ys)
reversed_onto_twice [] acc ys = refl
reversed_onto_twice (x ∷ xs) acc ys = reversed_onto_twice xs (x ∷ acc) ys
