-- ===== src/Server/LsRefs/Lines.antt =====
-- The lines of an `ls-refs` response, and the refs that a client sees in them.
use go_ls_remote.Base.{
  ℕ, ◌/◌, ◌%◌, ◌<◌, Bool, true, false, ◌&&◌, not, ◌≡◌, refl, ap, ◌∙◌, [], ◌∷◌, ◌++◌, List, none,
  if◌then◌else◌, equal, Bytes, All, All-append, arith, append_assoc, append-nil, ok, Bool-cases,
  inl, inr, ◌==◌,
}
use mathlib.Core.Path.{subst}
use go_ls_remote.Base.Text.{bytes, cut_prefix}
use go_ls_remote.Base.Table.{holds_below, holds_below_sound}
use go_ls_remote.Base.Fields.{is_space, join}
use go_ls_remote.Base.Spaces.{plain, plain-Spaceless, IsField, Spaceless, space_width}
use go_ls_remote.Objfmt.Hash.{hex, is_zero, digit}
use go_ls_remote.Wire.{RawRef, RefsArgs, check_err_packet}
use go_ls_remote.Wire.LsRefs.Response.{
  ParsesTo, parse-join, opt_word, parse_tokens-ref, parse_tokens_unborn,
}
use go_ls_remote.Server.LsRefs.Respond.{format_ref_line, format_head_line, peel_if, symref_text}
use go_ls_remote.Server.Store.{Head, RefEntry, Peel, peel_failed, absent, peels_to, Store, ref_peel}

abbrev pub peel_hex : Bool → Peel → Bytes
peel_hex false p = []
peel_hex true peel_failed = []
peel_hex true absent = []
peel_hex true (peels_to h) = if is_zero h then [] else hex h

abbrev pub ref_words : Bytes → Bytes → Bytes → Bytes → List Bytes
ref_words oid name symref peeled =
    hex oid ∷ name ∷ (opt_word (bytes "symref-target:") symref ++ opt_word (bytes "peeled:") peeled)

-- A HEAD or ref line without its newline.
abbrev pub ref_text : Bytes → Bytes → Bytes → Bytes → Bytes
ref_text oid name symref peeled = join b' ' (ref_words oid name symref peeled)

abbrev pub seen_ref : Bytes → Bytes → Bytes → Bytes → RawRef
seen_ref oid name symref peeled = record {
  oid = hex oid;
  name = name;
  peeled = peeled;
  symref = symref;
  unborn = false;
}

-- Digits differ from the first letters of `ERR ` and `unborn`.
abbrev distinct : ℕ → Bool
distinct n = not (digit n == b'E') && not (digit n == b'u')

digit_distinct : (n : ℕ) → n < 16 → distinct n ≡ true
digit_distinct = holds_below_sound 16 distinct (unfold holds_below digit in refl)

pub hex_no_error : (c : ℕ) (h rest : Bytes) → check_err_packet (hex (c ∷ h) ++ rest) ≡ none
unfolding check_err_packet hex cut_prefix
hex_no_error c h rest = ground (arith, digit_distinct (c / 16 % 16) (omega arith))

hex-ne_unborn : (c : ℕ) (h : Bytes) → equal (hex (c ∷ h)) (bytes "unborn") ≡ false
unfolding hex equal
hex-ne_unborn c h = ground (arith, digit_distinct (c / 16 % 16) (omega arith))

digit-plain : (n : ℕ) → n < 16 → plain (digit n) ≡ true
digit-plain =
    holds_below_sound 16 (λ n. plain (digit n)) (unfold holds_below digit is_space in refl)

hex-plain : (h : Bytes) → All (λ c. plain c ≡ true) (hex h)
unfolding hex
hex-plain [] = tt
hex-plain (c ∷ h) =
    (digit-plain (c / 16 % 16) (omega arith), (digit-plain (c % 16) (omega arith), hex-plain h))

hex-Spaceless : (h : Bytes) → Spaceless (hex h)
hex-Spaceless h = subst Spaceless (append-nil (hex h)) (plain-Spaceless (hex h) [] (hex-plain h) tt)

hex-IsField : (c : ℕ) (h : Bytes) → IsField (hex (c ∷ h))
hex-IsField c h = (unfold hex in (λ e. cc), hex-Spaceless (c ∷ h))

opt_word-IsField :
    (m : ℕ) (ms v : Bytes)
    → All (λ c. plain c ≡ true) (m ∷ ms)
    → Spaceless v
    → All (IsField) (opt_word (m ∷ ms) v)
opt_word-IsField m ms [] hm hv = tt
opt_word-IsField m ms (c ∷ v) hm hv = (((λ e. cc), plain-Spaceless (m ∷ ms) (c ∷ v) hm hv), tt)

pub peel_hex-Spaceless : (on : Bool) (p : Peel) → Spaceless (peel_hex on p)
peel_hex-Spaceless false p = tt
peel_hex-Spaceless true peel_failed = tt
peel_hex-Spaceless true absent = tt
peel_hex-Spaceless true (peels_to h) = elim (Bool-cases (is_zero h)) [
  | inl z ↦ rw z tt
  | inr n ↦ rw n (hex-Spaceless h)
]

-- The line for an id, a name, a symref target and a peeled id is parsed as the ref with these.
pub ref_text-ParsesTo :
    (c : ℕ) (h name symref peeled : Bytes)
    → IsField name
    → Spaceless symref
    → Spaceless peeled
    → ParsesTo (ref_text (c ∷ h) name symref peeled) (seen_ref (c ∷ h) name symref peeled)
ref_text-ParsesTo c h name symref peeled hn hs hp = record {
  no_error = hex_no_error c h _;
  parsed =
      parse-join (ref_words (c ∷ h) name symref peeled) (
        hex-IsField c h,
        (
          hn,
          All-append (IsField) (opt_word (bytes "symref-target:") symref) _
              (opt_word-IsField b's' (bytes "ymref-target:") symref
                (unfold is_space in (ground arith)) hs)
              (opt_word-IsField b'p' (bytes "eeled:") peeled (unfold is_space in (ground arith))
                hp),
        ),
      )
      ∙ parse_tokens-ref (hex (c ∷ h)) name symref peeled (hex-ne_unborn c h);
}

-- The line for an unborn HEAD.
abbrev pub unborn_text : Bytes → Bytes
unborn_text symref = bytes "unborn HEAD symref-target:" ++ symref

abbrev pub seen_unborn : Bytes → RawRef
seen_unborn symref = record {
  oid = [];
  name = bytes "HEAD";
  peeled = [];
  symref = symref;
  unborn = true;
}

pub unborn_text-ParsesTo :
    (symref : Bytes) → Spaceless symref → ParsesTo (unborn_text symref) (seen_unborn symref)
unborn_text-ParsesTo symref h = record {
  no_error = unfold check_err_packet cut_prefix in refl;
  parsed =
      parse-join (bytes "unborn" ∷ bytes "HEAD" ∷ (bytes "symref-target:" ++ symref) ∷ []) (
        (
          (
            (λ e. cc),
            unfold space_width is_space in (refl, (refl, (refl, (refl, (refl, (refl, tt)))))),
          ),
          (
            ((λ e. cc), unfold space_width is_space in (refl, (refl, (refl, (refl, tt))))),
            (
              (
                (λ e. cc),
                plain-Spaceless (bytes "symref-target:") symref (unfold is_space in (ground arith))
                    h,
              ),
              tt,
            ),
          ),
        ))
      ∙ parse_tokens_unborn (bytes "HEAD") symref;
}

abbrev opt_text : Bytes → Bytes → Bytes
opt_text mark [] = []
opt_text mark (c ∷ v) = b' ' ∷ (mark ++ (c ∷ v))

join_words :
    (o n a s b p : Bytes)
    → join b' ' (o ∷ n ∷ (opt_word a s ++ opt_word b p))
      ≡ o ++ (b' ' ∷ (n ++ (opt_text a s ++ opt_text b p)))
join_words o n a [] b [] = ground (arith, append-nil n)
join_words o n a [] b (c ∷ p) = refl
join_words o n a (d ∷ s) b [] = ground (arith, append-nil (a ++ (d ∷ s)))
join_words o n a (d ∷ s) b (c ∷ p) = refl

line_join :
    (o n a s b p nl : Bytes)
    → o ++ (b' ' ∷ (n ++ (opt_text a s ++ (opt_text b p ++ nl))))
      ≡ join b' ' (o ∷ n ∷ (opt_word a s ++ opt_word b p)) ++ nl
line_join o n a s b p nl = rw (join_words o n a s b p) (
    ground (
      arith,
      append_assoc o (b' ' ∷ (n ++ (opt_text a s ++ opt_text b p))) nl,
      append_assoc n (opt_text a s ++ opt_text b p) nl,
      append_assoc (opt_text a s) (opt_text b p) nl,
    ))

-- The store answers `Peel` without an error.
abbrev pub Answers : Peel → Type 0
Answers peel_failed = ⊥
Answers absent = Unit {0}
Answers (peels_to h) = Unit {0}

peel_if-text :
    (on : Bool) (p : Peel)
    → Answers p
    → peel_if on p ≡ ok (opt_text (bytes "peeled:") (peel_hex on p))
peel_if-text false p h = refl
peel_if-text true peel_failed h = elim h [ ]
peel_if-text true absent h = refl
peel_if-text true (peels_to []) h = unfold is_zero in refl
peel_if-text true (peels_to (c ∷ d)) h = elim (Bool-cases (is_zero (c ∷ d))) [
  | inl z ↦ rw z refl
  | inr n ↦ rw n (unfold hex in refl)
]

symref_text-opt_text :
    (on : Bool) (s : Bytes)
    → (if on then symref_text s else []) ≡ opt_text (bytes "symref-target:") (if on then s else [])
symref_text-opt_text false s = refl
symref_text-opt_text true [] = refl
symref_text-opt_text true (c ∷ s) = refl

-- `formatRefLine` gives the line of the ref.
pub format_ref_line-text :
    (store : Store) (args : RefsArgs) (r : RefEntry)
    → Answers (ref_peel store r)
    → format_ref_line store args r
      ≡ ok (ref_text r.oid r.name [] (peel_hex args.peel (ref_peel store r)) ++ bytes "\n")
unfolding format_ref_line
format_ref_line-text store args r h = rw (peel_if-text args.peel (ref_peel store r) h) (
    ap ok (
      line_join (hex r.oid) r.name (bytes "symref-target:") [] (bytes "peeled:")
        (peel_hex args.peel (ref_peel store r)) (bytes "\n")))

-- The line of `emitHead` for a HEAD with an id.
pub format_head_line-text :
    (store : Store) (args : RefsArgs) (head : Head)
    → Answers (store.peel head.oid)
    → format_head_line store args head
      ≡ ok (
          ref_text head.oid
            (bytes "HEAD")
            (if args.symrefs then head.symref else [])
            (peel_hex args.peel (store.peel head.oid))
          ++ bytes "\n")
unfolding format_head_line
format_head_line-text store args head h = rw (peel_if-text args.peel (store.peel head.oid) h) (
    rw (symref_text-opt_text args.symrefs head.symref) (
      ap ok (
        line_join (hex head.oid) (bytes "HEAD") (bytes "symref-target:")
          (if args.symrefs then head.symref else []) (bytes "peeled:")
          (peel_hex args.peel (store.peel head.oid)) (bytes "\n"))))
