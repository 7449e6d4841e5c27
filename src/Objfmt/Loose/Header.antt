-- ===== src/Objfmt/Loose/Header.antt =====
-- The header of a loose object.
use go_ls_remote.Base.{
  ℕ, ◌^◌, ◌<◌, ◌≡◌, ◌↔◌, inl, inr, refl, ap, ◌∙◌, sym, Bool, true, false, some, [], ◌∷◌, ◌++◌, not,
  ◌&&◌, ◌==◌, if◌then◌else◌, Bytes, equal, equal_iff, Result, ok, err, ok_injective, bind_passed,
  Bool-cases, Option-cases, arith,
}
use mathlib.Core.Path.{subst}
use go_ls_remote.Base.Text.{bytes, Lacks, cut, cut-append, cut_sound}
use go_ls_remote.Base.Decimal.{append_int}
use go_ls_remote.Objfmt.Loose.{
  LooseError, read_type, read_size, Stream, LooseBody, type_commit, type_tree, type_blob, type_tag,
  parse_loose_type_name, parse_loose_size, read_string, read_loose_header,
}
use go_ls_remote.Objfmt.Loose.Size.{
  parse_loose_size-append_int, append_int-Lacks, parse_loose_size_sound,
}

-- The types of loose objects and their names.
pub data IsType : ℕ → Bytes → Type 0 where
  commit : IsType type_commit (bytes "commit")
  tree : IsType type_tree (bytes "tree")
  blob : IsType type_blob (bytes "blob")
  tag : IsType type_tag (bytes "tag")

IsType-parse : (t : ℕ) (name : Bytes) → IsType t name → parse_loose_type_name name ≡ ok t
unfolding parse_loose_type_name equal
IsType-parse t name commit = refl
IsType-parse t name tree = refl
IsType-parse t name blob = refl
IsType-parse t name tag = refl

-- The name has no space.
abbrev solid : Bytes → Bool
solid [] = true
solid (c ∷ s) = not (c == b' ') && solid s

solid-Lacks : (s : Bytes) → solid s ≡ true → Lacks b' ' s
solid-Lacks [] h = tt
solid-Lacks (c ∷ s) h = ((λ e. ground (arith, e, h)), solid-Lacks s (ground (arith, h)))

IsType-Lacks : (t : ℕ) (name : Bytes) → IsType t name → Lacks b' ' name
IsType-Lacks t name commit = solid-Lacks (bytes "commit") refl
IsType-Lacks t name tree = solid-Lacks (bytes "tree") refl
IsType-Lacks t name blob = solid-Lacks (bytes "blob") refl
IsType-Lacks t name tag = solid-Lacks (bytes "tag") refl

-- A test for a name, and the type that it gives or the tests behind it.
one_name :
    (name word : Bytes) (v t : ℕ) (r : Result LooseError ℕ)
    → IsType v word
    → (r ≡ ok t → IsType t name)
    → (if equal name word then ok v else r) ≡ ok t
    → IsType t name
one_name name word v t r w k e = elim (Bool-cases (equal name word)) [
  | inl y ↦
      subst (λ u. IsType u name) (ok_injective (rw y at e))
        (subst (IsType v) (sym ((equal_iff name word).0 y)) w)
  | inr n ↦ k (rw n at e)
]

parse_loose_type_name-IsType :
    (t : ℕ) (name : Bytes) → parse_loose_type_name name ≡ ok t → IsType t name
unfolding parse_loose_type_name
parse_loose_type_name-IsType t name e =
    one_name name (bytes "commit") type_commit t _ commit
      (one_name name (bytes "tree") type_tree t _ tree (
        one_name name (bytes "blob") type_blob t _ blob
          (one_name name (bytes "tag") type_tag t _ tag (λ x. absurd (cc)))))
      e

read_string_sound :
    (delim : ℕ) (x : LooseError) (s a b : Bytes)
    → read_string delim x s ≡ ok (a, b)
    → s ≡ a ++ (delim ∷ b)
read_string_sound delim x s a b e = elim (Option-cases (cut delim s)) [
  | inr n ↦ absurd (no_text (rw (n, read_string) at e))
  | inl (r, y) ↦
      (cut_sound delim s a b
        (y ∙ ap some (ok_injective {E = LooseError} (rw (y, read_string) at e)))).0
]
  where
    no_text : Path (Result LooseError (Bytes × Bytes)) (err x) (ok (a, b)) → ⊥
    no_text h = absurd (cc)

read_string-append :
    (delim : ℕ) (x : LooseError) (a b : Bytes)
    → Lacks delim a
    → read_string delim x (a ++ (delim ∷ b)) ≡ ok (a, b)
read_string-append delim x a b l = rw (cut-append delim a b l, read_string) refl

-- The body behind the header of an object of `n` bytes.
abbrev pub opened : ℕ → Bytes → Bool → LooseBody
opened n rest fails = record {
  reader = record { yields = rest; fails = fails };
  remaining = n;
  overrun = false;
  is_closed = false;
}

-- The header of an object: the name of its type, a space, its size as `AppendInt` writes it, and a NUL.
abbrev pub object_text : Bytes → ℕ → Bytes → Bytes
object_text name n rest = name ++ (b' ' ∷ (append_int n ++ (0 ∷ rest)))

-- `ReadLooseHeader` returns a type and a size exactly where the inflated bytes start with the name of that type, a
-- space, that size as `AppendInt` writes it, and a NUL, and the size is an int64; the body is what is left.
pub read_loose_header_exact :
    (z : Stream) (t n : ℕ) (b : LooseBody)
    → (read_loose_header (some z) ≡ ok (t, n, b)) ↔ (
        (name : Bytes) × (rest : Bytes) × IsType t name
        × (n < 2 ^ 63)
        × (z.yields ≡ object_text name n rest)
        × (b ≡ opened n rest z.fails))
unfolding read_loose_header
read_loose_header_exact z t n b = (sound, complete)
  where
    complete :
        ((name : Bytes) × (rest : Bytes) × IsType t name
          × (n < 2 ^ 63)
          × (z.yields ≡ object_text name n rest)
          × (b ≡ opened n rest z.fails))
        → read_loose_header (some z) ≡ ok (t, n, b)
    complete (name, rest, w, l, e, d) =
        rw
          (
            e,
            read_string-append b' ' read_type name (append_int n ++ (0 ∷ rest))
                (IsType-Lacks t name w),
            IsType-parse t name w,
            read_string-append 0 read_size (append_int n) rest (append_int-Lacks n l),
            parse_loose_size-append_int n l,
          )
          (ap (λ c. ok (t, n, c)) (sym d))

    sound :
        read_loose_header (some z) ≡ ok (t, n, b)
        → (name : Bytes) × (rest : Bytes) × IsType t name
          × (n < 2 ^ 63)
          × (z.yields ≡ object_text name n rest)
          × (b ≡ opened n rest z.fails)
    sound e =
        let ((name, behind), first, e1) =
          bind_passed (read_string b' ' read_type z.yields) _ (t, n, b) e in
        let (typ, named, e2) = bind_passed (parse_loose_type_name name) _ (t, n, b) e1 in
        let ((digits, rest), second, e3) =
          bind_passed (read_string 0 read_size behind) _ (t, n, b) e2 in
        let (m, sized, e4) = bind_passed (parse_loose_size digits) _ (t, n, b) e3 in
        let (bound, text) = parse_loose_size_sound digits m sized in
        let fields : (typ, m, opened m rest z.fails) ≡ (t, n, b) =
          ok_injective {E = LooseError} e4 in
        let same_type : typ ≡ t = ap (λ r. r.0) fields in
        let same_size : m ≡ n = ap (λ r. r.1) fields in
        (
          name,
          rest,
          subst (λ u. IsType u name) same_type (parse_loose_type_name-IsType typ name named),
          omega (arith, bound, same_size),
          read_string_sound b' ' read_type z.yields name behind first
              ∙ ap (λ r. name ++ (b' ' ∷ r))
                  (read_string_sound 0 read_size behind digits rest second
                    ∙ ap (λ d. d ++ (0 ∷ rest)) (text ∙ ap append_int same_size)),
          sym (ap (λ r. r.2) fields) ∙ ap (λ k. opened k rest z.fails) same_size,
        )
