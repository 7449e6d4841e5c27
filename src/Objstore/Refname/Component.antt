-- ===== src/Objstore/Refname/Component.antt =====
-- `checkRefnameComponent` against the rules that its file states.
use go_ls_remote.Base.{
  ℕ, ◌-◌, ◌<◌, ◌≡◌, ◌≢◌, ◌↔◌, inl, inr, refl, ap, ◌∙◌, sym, Bool, true, false, ◌&&◌, [], ◌∷◌, ◌++◌,
  arith, ltb, ltb_at_least, ◌==◌, if◌then◌else◌, Bytes, length, take, drop, All, equal_iff,
  Bool-cases, length-append, take-append-drop, drop-append_self,
}
use go_ls_remote.Base.Text.{bytes}
use go_ls_remote.Objstore.Refname.{
  has_dot_lock_suffix, is_forbidden, scan_component, check_refname_component, last_byte,
}

-- The text ends with `suffix`.
abbrev pub Ends : Bytes → Bytes → Type 0
Ends suffix s = (front : Bytes) × (s ≡ front ++ suffix)

-- No `a` stands right before a `b`.
abbrev pub NoPair : ℕ → ℕ → Bytes → Type 0
NoPair a b [] = Unit {0}
NoPair a b (c ∷ []) = Unit {0}
NoPair a b (c ∷ d ∷ s) = ((c ≡ a) × (d ≡ b) → ⊥) × NoPair a b (d ∷ s)

-- No control byte, no space, and none of `~^:?[\*` and the slash.
abbrev pub IsAllowed : ℕ → Type 0
IsAllowed ch =
    (32 < ch)
    × (ch ≢ 127)
    × (ch ≢ b'~')
    × (ch ≢ b'^')
    × (ch ≢ b':')
    × (ch ≢ b'?')
    × (ch ≢ b'[')
    × (ch ≢ 92)
    × (ch ≢ b'*')
    × (ch ≢ b'/')

-- The rules for a component.
pub record IsComponent (c : Bytes) : Type 0 where
  pub some_byte : c ≢ []
  pub no_dot : (s : Bytes) → c ≢ b'.' ∷ s
  pub no_lock : Ends (bytes ".lock") c → ⊥
  pub no_dots : NoPair b'.' b'.' c
  pub no_brace : NoPair b'@' b'{' c
  pub allowed : All IsAllowed c

is_forbidden_iff : (ch : ℕ) → (is_forbidden ch ≡ false) ↔ IsAllowed ch
unfolding is_forbidden
is_forbidden_iff ch = ground arith

-- The pair of a byte and the byte before it.
pair_iff : (a b last ch : ℕ) → ((ch == b && last == a) ≡ false) ↔ ((last ≡ a) × (ch ≡ b) → ⊥)
pair_iff a b last ch = ground arith

scan_component_lem :
    (last ch : ℕ) (c : Bytes)
    → (scan_component last (ch ∷ c) ≡ true) ↔ (
        (is_forbidden ch ≡ false)
        × ((ch == b'.' && last == b'.') ≡ false)
        × ((ch == b'{' && last == b'@') ≡ false)
        × (scan_component ch c ≡ true))
unfolding scan_component
scan_component_lem last ch c =
    tests (is_forbidden ch) (ch == b'.' && last == b'.') (ch == b'{' && last == b'@')
      (scan_component ch c)
  where
    tests :
        (x y z w : Bool)
        → ((if x then false else if y then false else if z then false else w) ≡ true)
          ↔ ((x ≡ false) × (y ≡ false) × (z ≡ false) × (w ≡ true))
    tests x y z w = ground arith

scan_component_iff :
    (last : ℕ) (c : Bytes)
    → (scan_component last c ≡ true)
      ↔ (All IsAllowed c × NoPair b'.' b'.' (last ∷ c) × NoPair b'@' b'{' (last ∷ c))
scan_component_iff last [] = (λ _. (tt, tt, tt), λ _. unfold scan_component in refl)
scan_component_iff last (ch ∷ c) = (
  λ h.
      let (x, y, z, w) = (scan_component_lem last ch c).0 h in
      let (p, q, r) = (scan_component_iff ch c).0 w in
      (
        ((is_forbidden_iff ch).0 x, p),
        ((pair_iff b'.' b'.' last ch).0 y, q),
        ((pair_iff b'@' b'{' last ch).0 z, r),
      ),
  λ ((x, p), (y, q), (z, r)). (scan_component_lem last ch c).1 (
    (is_forbidden_iff ch).1 x,
    (pair_iff b'.' b'.' last ch).1 y,
    (pair_iff b'@' b'{' last ch).1 z,
    (scan_component_iff ch c).1 (p, q, r),
  ),
)

has_dot_lock_suffix_iff : (c : Bytes) → (has_dot_lock_suffix c ≡ true) ↔ Ends (bytes ".lock") c
unfolding has_dot_lock_suffix
has_dot_lock_suffix_iff c = (found, λ (front, e). lock_found (front) e)
  where
    found : has_dot_lock_suffix c ≡ true → Ends (bytes ".lock") c
    found h = (
      take (length c - 5) c,
      sym (take-append-drop (length c - 5) c)
          ∙ ap (λ t. take (length c - 5) c ++ t)
              ((equal_iff (drop (length c - 5) c) (bytes ".lock")).0 (ground arith)),
    )

    long : (front : Bytes) → ltb (length (front ++ bytes ".lock")) 5 ≡ false
    long front =
        ltb_at_least (length (front ++ bytes ".lock")) 5
          (omega (arith, length-append front (bytes ".lock")))

    start : (front : Bytes) → length (front ++ bytes ".lock") - 5 ≡ length front
    start front = omega (arith, length-append front (bytes ".lock"))

    lock_found : (front : Bytes) → c ≡ front ++ bytes ".lock" → has_dot_lock_suffix c ≡ true
    lock_found front e =
        rw (e, long front, start front, drop-append_self front (bytes ".lock"))
          ((equal_iff (bytes ".lock") (bytes ".lock")).1 refl)

pub last_byte_iff : (c : ℕ) (s : Bytes) (e : ℕ) → (last_byte (c ∷ s) ≡ e) ↔ Ends (e ∷ []) (c ∷ s)
last_byte_iff c [] e = (λ h. ([], ap (λ x. x ∷ []) h), λ (front, h). alone front h)
  where
    alone : (front : Bytes) → c ∷ [] ≡ front ++ (e ∷ []) → c ≡ e
    alone [] h = cc
    alone (d ∷ []) h = absurd (cc)
    alone (d ∷ f ∷ front) h = absurd (cc)
last_byte_iff c (d ∷ s) e = (
  λ h. let (front, g) = (last_byte_iff d s e).0 h in (c ∷ front, ap (◌∷◌ c) g),
  λ (front, h). later front h (last_byte_iff d s e).1,
)
  where
    later :
        (front : Bytes)
        → c ∷ d ∷ s ≡ front ++ (e ∷ [])
        → (Ends (e ∷ []) (d ∷ s) → last_byte (d ∷ s) ≡ e)
        → last_byte (d ∷ s) ≡ e
    later [] h k = absurd (cc)
    later (x ∷ front) h k = k (front, cc)

-- A byte before a name that is part of neither pair.
pair_behind : (a b : ℕ) (s : Bytes) → 0 ≢ a → NoPair a b s → NoPair a b (0 ∷ s)
pair_behind a b [] n h = tt
pair_behind a b (c ∷ s) n h = (λ (e, _). n e, h)

pair_tail : (a b c : ℕ) (s : Bytes) → NoPair a b (0 ∷ c ∷ s) → NoPair a b (c ∷ s)
pair_tail a b c s h = h.1

component_lem :
    (ch : ℕ) (c : Bytes)
    → (check_refname_component (ch ∷ c) ≡ true) ↔ (
        ((ch == b'.') ≡ false)
        × (has_dot_lock_suffix (ch ∷ c) ≡ false)
        × (scan_component 0 (ch ∷ c) ≡ true))
unfolding check_refname_component
component_lem ch c = tests (ch == b'.') (has_dot_lock_suffix (ch ∷ c)) (scan_component 0 (ch ∷ c))
  where
    tests :
        (x y w : Bool)
        → ((if x then false else if y then false else w) ≡ true)
          ↔ ((x ≡ false) × (y ≡ false) × (w ≡ true))
    tests x y w = ground arith

pub refused_iff : {P : Type 0} (test : Bool) → ((test ≡ true) ↔ P) → (test ≡ false) ↔ (P → ⊥)
refused_iff true i = (λ h. absurd (cc), λ h. absurd (h (i.0 refl)))
refused_iff false i = (λ _ p. absurd (wrong (i.1 p)), λ _. refl)
  where
    wrong : false ≡ true → ⊥
    wrong e = absurd (cc)

pub check_refname_component_iff : (c : Bytes) → (check_refname_component c ≡ true) ↔ IsComponent c
check_refname_component_iff [] = (λ h. absurd (empty h), λ i. absurd (i.some_byte refl))
  where
    empty : check_refname_component [] ≡ true → ⊥
    empty h = unfold check_refname_component in absurd (cc)
check_refname_component_iff (ch ∷ c) = (
  λ h.
      let (x, y, w) = (component_lem ch c).0 h in
      let (p, q, r) = (scan_component_iff 0 (ch ∷ c)).0 w in
      record {
        some_byte = λ e. absurd (cc);
        no_dot = λ s e. first_byte x (cc);
        no_lock =
            (refused_iff (has_dot_lock_suffix (ch ∷ c)) (has_dot_lock_suffix_iff (ch ∷ c))).0 y;
        no_dots = pair_tail b'.' b'.' ch c q;
        no_brace = pair_tail b'@' b'{' ch c r;
        allowed = p;
      },
  λ i. (component_lem ch c).1 (
    no_first i.no_dot,
    (refused_iff (has_dot_lock_suffix (ch ∷ c)) (has_dot_lock_suffix_iff (ch ∷ c))).1 i.no_lock,
    (scan_component_iff 0 (ch ∷ c)).1 (
      i.allowed,
      pair_behind b'.' b'.' (ch ∷ c) (omega arith) i.no_dots,
      pair_behind b'@' b'{' (ch ∷ c) (omega arith) i.no_brace,
    ),
  ),
)
  where
    first_byte : (ch == b'.') ≡ false → ch ≡ b'.' → ⊥
    first_byte x e = ground arith

    same : (ch == b'.') ≡ true → ch ≡ b'.'
    same y = ground arith

    no_first : ((s : Bytes) → ch ∷ c ≢ b'.' ∷ s) → (ch == b'.') ≡ false
    no_first n = elim (Bool-cases (ch == b'.')) [
      | inr x ↦ x
      | inl y ↦ absurd (n c (ap (λ x. x ∷ c) (same y)))
    ]
