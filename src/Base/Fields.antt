-- ===== src/Base/Fields.antt =====
-- `strings.FieldsFunc` for a set of ASCII bytes, over byte lists.
use Prim.Native.Nat.{ℕ}
use mathlib.Core.Path.{◌≡◌, refl, ap, ◌∙◌, sym}
use mathlib.Core.Bool.{Bool, true, false, ◌||◌}
use mathlib.Core.Logic.{◌≢◌}
use mathlib.Core.List.{List, [], ◌∷◌, ◌++◌, append-nil, append_assoc}
use go_ls_remote.Base.Tests.{◌==◌, if◌then◌else◌}
use go_ls_remote.Base.Lists.{Bytes, All}

abbrev pub flush : Bytes → List Bytes → List Bytes
flush [] ws = ws
flush (c ∷ w) ws = (c ∷ w) ∷ ws

-- The runs of bytes that are no separators. `word` is the run read so far.
fields_from : (ℕ → Bool) → Bytes → Bytes → List Bytes
fields_from sep word [] = flush word []
fields_from sep word (c ∷ s) =
    let rest = fields_from sep (if sep c then [] else word ++ (c ∷ [])) s in
    if sep c then flush word rest else rest

-- `strings.FieldsFunc`.
unfoldable pub fields_func : (ℕ → Bool) → Bytes → List Bytes
unfolding fields_from
fields_func sep = fields_from sep []

-- The ASCII spaces of `unicode.IsSpace`.
unfoldable pub is_space : ℕ → Bool
is_space c = c == 9 || c == 10 || c == 11 || c == 12 || c == 13 || c == 32

-- A text with a separator nowhere.
abbrev pub Solid : (ℕ → Bool) → Bytes → Type 0
Solid sep = All (λ c. sep c ≡ false)

abbrev pub IsWord : (ℕ → Bool) → Bytes → Type 0
IsWord sep w = (w ≢ []) × Solid sep w

abbrev pub join : ℕ → List Bytes → Bytes
join c [] = []
join c (w ∷ []) = w
join c (w ∷ v ∷ ws) = w ++ (c ∷ join c (v ∷ ws))

module _ (sep : ℕ → Bool) where
  fields_from-Solid :
      (word w rest : Bytes)
      → Solid sep w
      → fields_from sep word (w ++ rest) ≡ fields_from sep (word ++ w) rest
  unfolding fields_from
  fields_from-Solid word [] rest h =
      ap (λ (t : Bytes). fields_from sep t rest) (sym (append-nil word))
  fields_from-Solid word (c ∷ w) rest h = rw h.0 (
      fields_from-Solid (word ++ (c ∷ [])) w rest h.1
      ∙ ap (λ (t : Bytes). fields_from sep t rest) (append_assoc word (c ∷ []) w))

  fields_from_separator :
      (w : Bytes) (c : ℕ) (rest : Bytes)
      → w ≢ []
      → sep c ≡ true
      → fields_from sep w (c ∷ rest) ≡ w ∷ fields_from sep [] rest
  unfolding fields_from
  fields_from_separator [] c rest h e = absurd (h refl)
  fields_from_separator (d ∷ w) c rest h e = rw e refl

  fields_from_last : (w : Bytes) → w ≢ [] → fields_from sep w [] ≡ w ∷ []
  unfolding fields_from
  fields_from_last [] h = absurd (h refl)
  fields_from_last (d ∷ w) h = refl

  -- Words joined by a separator are split into the words.
  pub fields_func-join :
      (c : ℕ) (ws : List Bytes)
      → sep c ≡ true
      → All (IsWord sep) ws
      → fields_func sep (join c ws) ≡ ws
  unfolding fields_func
  fields_func-join c [] e h = unfold fields_from in refl
  fields_func-join c (w ∷ []) e h =
      ap (fields_from sep []) (sym (append-nil w))
      ∙ fields_from-Solid [] w [] h.0.1
      ∙ fields_from_last w h.0.0
  fields_func-join c (w ∷ v ∷ ws) e h =
      fields_from-Solid [] w (c ∷ join c (v ∷ ws)) h.0.1
      ∙ fields_from_separator w c (join c (v ∷ ws)) h.0.0 e
      ∙ ap (◌∷◌ w) (fields_func-join c (v ∷ ws) e h.1)
