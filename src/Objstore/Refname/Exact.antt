-- ===== src/Objstore/Refname/Exact.antt =====
-- `checkRefnameFormat` against the rules that its file states.
use go_ls_remote.Base.{
  ℕ, ◌≡◌, ◌≢◌, ◌↔◌, inl, inr, refl, ap, ◌∙◌, sym, Bool, true, false, ◌&&◌, not, [], ◌∷◌, ◌++◌, List,
  arith, ◌==◌, if◌then◌else◌, Bytes, All, equal, equal_iff, ==_iff, Bool-cases, append_assoc,
  append-nil,
}
use go_ls_remote.Base.Split.{split, longer}
use go_ls_remote.Base.Text.{bytes}
use go_ls_remote.Objstore.Refname.{
  check_refname_component, check_parts, last_byte, check_refname_format,
}
use go_ls_remote.Objstore.Refname.Component.{
  Ends, IsComponent, last_byte_iff, refused_iff, check_refname_component_iff,
}

-- The rules for a name.
pub record IsRefname (name : Bytes) : Type 0 where
  pub not_empty : name ≢ []
  pub not_at : name ≢ bytes "@"
  pub no_last_dot : Ends (bytes ".") name → ⊥
  pub components : All IsComponent (split b'/' name)

-- The component read so far goes before the first part.
abbrev lead : Bytes → List Bytes → List Bytes
lead part [] = part ∷ []
lead part (x ∷ xs) = (part ++ x) ∷ xs

abbrev all_components : List Bytes → Bool
all_components [] = true
all_components (x ∷ xs) = check_refname_component x && all_components xs

lead_nothing : (sep : ℕ) (s : Bytes) → lead [] (split sep s) ≡ split sep s
unfolding split
lead_nothing sep [] = refl
lead_nothing sep (c ∷ s) = elim (Bool-cases (c == sep)) [
  | inl y ↦ rw y refl
  | inr n ↦ rw n (with_head (split sep s))
]
  where
    with_head : (xs : List Bytes) → lead [] (longer c xs) ≡ longer c xs
    with_head [] = refl
    with_head (x ∷ xs) = refl

lead-longer :
    (part : Bytes) (c : ℕ) (xs : List Bytes) → lead part (longer c xs) ≡ lead (part ++ (c ∷ [])) xs
lead-longer part c [] = refl
lead-longer part c (x ∷ xs) = ap (λ t. t ∷ xs) (sym (append_assoc part (c ∷ []) x))

check_parts_lem : (part s : Bytes) → check_parts part s ≡ all_components (lead part (split b'/' s))
unfolding check_parts split
check_parts_lem part [] =
    alone (check_refname_component part)
    ∙ ap (λ t. check_refname_component t && true) (sym (append-nil part))
  where
    alone : (x : Bool) → x ≡ (x && true)
    alone true = refl
    alone false = refl
check_parts_lem part (c ∷ s) = elim (Bool-cases (c == b'/')) [
  | inl y ↦ rw y (
      ap (λ r. if not (check_refname_component part) then false else r)
        (check_parts_lem [] s ∙ ap all_components (lead_nothing b'/' s))
      ∙ both (check_refname_component part) (all_components (split b'/' s))
      ∙ ap (λ t. check_refname_component t && all_components (split b'/' s))
          (sym (append-nil part)))
  | inr n ↦ rw n (
      check_parts_lem (part ++ (c ∷ [])) s
      ∙ ap all_components (sym (lead-longer part c (split b'/' s))))
]
  where
    both : (x y : Bool) → (if not x then false else y) ≡ (x && y)
    both true y = refl
    both false y = refl

all_components_iff : (xs : List Bytes) → (all_components xs ≡ true) ↔ All IsComponent xs
all_components_iff [] = (λ _. tt, λ _. refl)
all_components_iff (x ∷ xs) = (
  λ h. (
    (check_refname_component_iff x).0 (left (check_refname_component x) h),
    (all_components_iff xs).0 (right (check_refname_component x) h),
  ),
  λ (p, q).
      joined (check_refname_component x) ((check_refname_component_iff x).1 p)
        ((all_components_iff xs).1 q),
)
  where
    left : (b : Bool) → (b && all_components xs) ≡ true → b ≡ true
    left b h = ground arith

    right : (b : Bool) → (b && all_components xs) ≡ true → all_components xs ≡ true
    right b h = ground arith

    joined : (b : Bool) → b ≡ true → all_components xs ≡ true → (b && all_components xs) ≡ true
    joined b h k = ground arith

check_parts_iff : (name : Bytes) → (check_parts [] name ≡ true) ↔ All IsComponent (split b'/' name)
check_parts_iff name = (
  λ h. (all_components_iff (split b'/' name)).0 (sym e ∙ h),
  λ p. e ∙ (all_components_iff (split b'/' name)).1 p,
)
  where
    e : check_parts [] name ≡ all_components (split b'/' name)
    e = check_parts_lem [] name ∙ ap all_components (lead_nothing b'/' name)

format_lem :
    (c : ℕ) (s : Bytes)
    → (check_refname_format (c ∷ s) ≡ true) ↔ (
        (equal (c ∷ s) (bytes "@") ≡ false)
        × ((last_byte (c ∷ s) == b'.') ≡ false)
        × (check_parts [] (c ∷ s) ≡ true))
unfolding check_refname_format equal
format_lem c s =
    tests (equal (c ∷ s) (bytes "@")) (last_byte (c ∷ s) == b'.') (check_parts [] (c ∷ s))
  where
    tests :
        (x y w : Bool)
        → ((if x then false else if y then false else w) ≡ true)
          ↔ ((x ≡ false) × (y ≡ false) × (w ≡ true))
    tests x y w = ground arith

-- `checkRefnameFormat` admits a name exactly when it is not empty, is not `@`, does not end with a dot, and
-- each of its parts between slashes is not empty, does not start with a dot or end with `.lock`, has no two
-- dots and no `@{` in a row, and no control byte, space or byte of `~^:?[\*`.
pub check_refname_format_exact :
    (name : Bytes) → (check_refname_format name ≡ true) ↔ IsRefname name
check_refname_format_exact [] = (λ h. absurd (empty h), λ i. absurd (i.not_empty refl))
  where
    empty : check_refname_format [] ≡ true → ⊥
    empty h = unfold check_refname_format equal in absurd (cc)
check_refname_format_exact (c ∷ s) = (
  λ h.
      let (x, y, w) = (format_lem c s).0 h in
      record {
        not_empty = λ e. absurd (cc);
        not_at = (refused_iff (equal (c ∷ s) (bytes "@")) (equal_iff (c ∷ s) (bytes "@"))).0 x;
        no_last_dot = (refused_iff (last_byte (c ∷ s) == b'.') dot_iff).0 y;
        components = (check_parts_iff (c ∷ s)).0 w;
      },
  λ i. (format_lem c s).1 (
    (refused_iff (equal (c ∷ s) (bytes "@")) (equal_iff (c ∷ s) (bytes "@"))).1 i.not_at,
    (refused_iff (last_byte (c ∷ s) == b'.') dot_iff).1 i.no_last_dot,
    (check_parts_iff (c ∷ s)).1 i.components,
  ),
)
  where
    dot_iff : ((last_byte (c ∷ s) == b'.') ≡ true) ↔ Ends (bytes ".") (c ∷ s)
    dot_iff = (
      λ h. (last_byte_iff c s b'.').0 ((==_iff (last_byte (c ∷ s)) b'.').0 h),
      λ p. (==_iff (last_byte (c ∷ s)) b'.').1 ((last_byte_iff c s b'.').1 p),
    )
