-- ===== src/Base/Spaces.antt =====
-- `strings.Fields`, `bytes.Fields` and `strings.TrimSpace`: the white space of `unicode.IsSpace`, as UTF-8 encodes
-- it. A lead byte stands in no other rune, so a space is where its bytes are, whatever stands around it.
use Prim.Native.Nat.{ℕ, zero, suc}
use mathlib.Core.Path.{◌≡◌, refl, ap, ◌∙◌, sym}
use mathlib.Core.Bool.{Bool, true, ◌||◌, ◌&&◌, not}
use mathlib.Core.Logic.{◌≢◌}
use mathlib.Core.List.{List, [], ◌∷◌, ◌++◌, append-nil, append_assoc}
use native.Mathlib.Omega.{arith}
use go_ls_remote.Base.Tests.{◌==◌, ltb, leb, if◌then◌else◌}
use go_ls_remote.Base.Lists.{Bytes, All}
use go_ls_remote.Base.Fields.{flush, is_space, join}

-- U+1680, U+2000 to U+200A, U+2028, U+2029, U+202F, U+205F and U+3000.
abbrev is_wide_space : ℕ → ℕ → ℕ → Bool
is_wide_space c d e =
    (c == 225 && (d == 154 && e == 128))
    || ((c == 226
          && ((d == 128 && ((leb 128 e && leb e 138) || (e == 168 || (e == 169 || e == 175))))
              || (d == 129 && e == 159)))
        || (c == 227 && (d == 128 && e == 128)))

abbrev three_bytes : ℕ → ℕ → Bytes → ℕ
three_bytes c d [] = 0
three_bytes c d (e ∷ s) = if is_wide_space c d e then 3 else 0

-- U+0085 and U+00A0, or a space of three bytes.
abbrev more_bytes : ℕ → Bytes → ℕ
more_bytes c [] = 0
more_bytes c (d ∷ s) = if c == 194 && (d == 133 || d == 160) then 2 else three_bytes c d s

-- The number of bytes of the space that a text starts with, or 0.
unfoldable pub space_width : Bytes → ℕ
space_width [] = 0
space_width (c ∷ s) = if is_space c then 1 else more_bytes c s

-- The fields behind `skip` bytes of a space; `word` is the field read so far.
unfoldable pub fields_at : ℕ → Bytes → Bytes → List Bytes
fields_at skip word [] = flush word []
fields_at (suc skip) word (c ∷ s) = fields_at skip word s
fields_at zero word (c ∷ s) = elim (space_width (c ∷ s)) [
  | zero ↦ fields_at 0 (word ++ (c ∷ [])) s
  | suc skip ↦ flush word (fields_at skip [] s)
]

-- `strings.Fields` and `bytes.Fields`.
abbrev pub fields : Bytes → List Bytes
fields s = fields_at 0 [] s

-- The text behind its leading spaces, and `skip` bytes of the first.
unfoldable pub behind_spaces : ℕ → Bytes → Bytes
behind_spaces skip [] = []
behind_spaces (suc skip) (c ∷ s) = behind_spaces skip s
behind_spaces zero (c ∷ s) = elim (space_width (c ∷ s)) [
  | zero ↦ c ∷ s
  | suc skip ↦ behind_spaces skip s
]

unfoldable pub before_spaces : Bytes → Bytes
before_spaces [] = []
before_spaces (c ∷ s) = elim (behind_spaces 0 (c ∷ s)) [ [] ↦ [] | d ∷ t ↦ c ∷ before_spaces s ]

-- `strings.TrimSpace`.
abbrev pub trim_space : Bytes → Bytes
trim_space s = before_spaces (behind_spaces 0 s)

-- No space of Unicode starts in the text.
abbrev pub Spaceless : Bytes → Type 0
Spaceless [] = Unit {0}
Spaceless (c ∷ s) = (space_width (c ∷ s) ≡ 0) × Spaceless s

abbrev pub IsField : Bytes → Type 0
IsField w = (w ≢ []) × Spaceless w

-- An ASCII byte that is no space.
abbrev pub plain : ℕ → Bool
plain c = ltb c 128 && not (is_space c)

plain_width : (c : ℕ) (s : Bytes) → plain c ≡ true → space_width (c ∷ s) ≡ 0
unfolding space_width
plain_width c [] h = ground (arith, h)
plain_width c (d ∷ []) h = ground (arith, h)
plain_width c (d ∷ e ∷ s) h = ground (arith, h)

-- ASCII text in front of a text without a space.
pub plain-Spaceless : (a s : Bytes) → All (λ c. plain c ≡ true) a → Spaceless s → Spaceless (a ++ s)
plain-Spaceless [] s h k = k
plain-Spaceless (c ∷ a) s h k = (plain_width c (a ++ s) h.0, plain-Spaceless a s h.1 k)

-- A text that is empty or goes on with a space.
abbrev Ends : Bytes → Type 0
Ends [] = Unit {0}
Ends (c ∷ s) = c ≡ 32

space_width-append :
    (c : ℕ) (w tail : Bytes)
    → Ends tail
    → space_width (c ∷ w) ≡ 0
    → space_width (c ∷ (w ++ tail)) ≡ 0
unfolding space_width
space_width-append c w [] h e = ap (λ s. space_width (c ∷ s)) (append-nil w) ∙ e
space_width-append c [] (d ∷ []) h e = ground (arith, h, e)
space_width-append c [] (d ∷ f ∷ tail) h e = ground (arith, h, e)
space_width-append c (d ∷ []) (f ∷ tail) h e = ground (arith, h, e)
space_width-append c (d ∷ f ∷ w) (g ∷ tail) h e = e

fields_at-word :
    (word w tail : Bytes)
    → Ends tail
    → Spaceless w
    → fields_at 0 word (w ++ tail) ≡ fields_at 0 (word ++ w) tail
unfolding fields_at
fields_at-word word [] tail e h = ap (λ (t : Bytes). fields_at 0 t tail) (sym (append-nil word))
fields_at-word word (c ∷ w) tail e h =
    rw (space_width-append c w tail e h.0, fields_at)
      (fields_at-word (word ++ (c ∷ [])) w tail e h.1
        ∙ ap (λ (t : Bytes). fields_at 0 t tail) (append_assoc word (c ∷ []) w))

fields_at-space : (w rest : Bytes) → w ≢ [] → fields_at 0 w (b' ' ∷ rest) ≡ w ∷ fields rest
unfolding fields_at space_width is_space
fields_at-space [] rest h = absurd (h refl)
fields_at-space (d ∷ w) rest h = refl

fields_at-end : (w : Bytes) → w ≢ [] → fields_at 0 w [] ≡ w ∷ []
unfolding fields_at
fields_at-end [] h = absurd (h refl)
fields_at-end (d ∷ w) h = refl

-- Words joined by a blank are the fields.
pub fields-join : (ws : List Bytes) → All IsField ws → fields (join b' ' ws) ≡ ws
fields-join [] h = unfold fields_at in refl
fields-join (w ∷ []) h =
    ap (fields_at 0 []) (sym (append-nil w))
    ∙ fields_at-word [] w [] tt h.0.1
    ∙ fields_at-end w h.0.0
fields-join (w ∷ v ∷ ws) h =
    fields_at-word [] w (b' ' ∷ join b' ' (v ∷ ws)) refl h.0.1
    ∙ fields_at-space w (join b' ' (v ∷ ws)) h.0.0
    ∙ ap (◌∷◌ w) (fields-join (v ∷ ws) h.1)
