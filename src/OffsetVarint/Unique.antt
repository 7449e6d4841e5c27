-- ===== src/OffsetVarint/Unique.antt =====
-- No value has two encodings.
use go_ls_remote.Base.{
  ℕ, suc, ◌+◌, ◌*◌, ◌%◌, ◌≤◌, ◌<◌, ◌≡◌, sym, ap, ◌∙◌, [], ◌∷◌, arith, Bytes, length,
}
use mathlib.Core.Path.{ap₂}
use native.Mathlib.Decide.{dec_lt}
use go_ls_remote.OffsetVarint.{IsVarint, value_from, value, le-value_from}

value_from_lt :
    (x y : ℕ) (a b : Bytes) → x < y → length a ≤ length b → value_from x a < value_from y b
value_from_lt x y [] b h l = omega (arith, le-value_from y b)
value_from_lt x y (c ∷ a) [] h l = absurd (omega arith)
value_from_lt x y (c ∷ a) (d ∷ b) h l =
    value_from_lt ((x + 1) * 128 + c % 128) ((y + 1) * 128 + d % 128) a b (omega arith)
      (omega arith)

-- Equal values over bytes of equal number start from equal values.
value_from-injective :
    (x y : ℕ) (a b : Bytes) → length a ≡ length b → value_from x a ≡ value_from y b → x ≡ y
value_from-injective x y a b l e = elim (dec_lt x y) [
  | yes h ↦ absurd (omega (arith, value_from_lt x y a b h (omega arith)))
  | no h ↦ elim (dec_lt y x) [
    | yes k ↦ absurd (omega (arith, value_from_lt y x b a k (omega arith)))
    | no k ↦ omega arith
  ]
]

group-injective :
    (x c d : ℕ) (a b : Bytes)
    → length a ≡ length b
    → value_from x (c ∷ a) ≡ value_from x (d ∷ b)
    → c % 128 ≡ d % 128
group-injective x c d a b l e =
    omega (arith, value_from-injective ((x + 1) * 128 + c % 128) ((x + 1) * 128 + d % 128) a b l e)

tail-injective :
    (x : ℕ) (a b : Bytes)
    → IsVarint a
    → IsVarint b
    → length a ≡ length b
    → value_from x a ≡ value_from x b
    → a ≡ b
tail-injective x [] b ha hb l e = elim ha [ ]
tail-injective x (c ∷ a) [] ha hb l e = elim hb [ ]
tail-injective x (c ∷ []) (d ∷ []) ha hb l e = ground arith
tail-injective x (c ∷ []) (d ∷ d' ∷ b) ha hb l e = absurd (omega arith)
tail-injective x (c ∷ c' ∷ a) (d ∷ []) ha hb l e = absurd (omega arith)
tail-injective x (c ∷ c' ∷ a) (d ∷ d' ∷ b) ha hb l e =
    let same : c ≡ d = omega (arith, group-injective x c d (c' ∷ a) (d' ∷ b) (omega arith) e) in
    ap₂ ◌∷◌ same (
      tail-injective ((x + 1) * 128 + c % 128) (c' ∷ a) (d' ∷ b) ha.1 hb.1 (omega arith)
        (e ∙ ap (λ (t : ℕ). value_from ((x + 1) * 128 + t % 128) (d' ∷ b)) (sym same)))

-- A value over more bytes is larger.
length-value :
    (c d : ℕ) (a b : Bytes) → IsVarint (d ∷ b) → value (c ∷ a) ≡ value (d ∷ b) → length b ≤ length a
length-value c d a [] h e = omega arith
length-value c d a (d' ∷ b) h e = elim (dec_lt (length a) (suc (length b))) [
  | no k ↦ omega arith
  | yes k ↦ absurd (
      omega (
        arith,
        value_from_lt (c % 128) ((d % 128 + 1) * 128 + d' % 128) a b (omega arith) (omega arith),
      ))
]

same_length :
    (c d : ℕ) (a b : Bytes)
    → IsVarint (c ∷ a)
    → IsVarint (d ∷ b)
    → value (c ∷ a) ≡ value (d ∷ b)
    → length a ≡ length b
    → ◌≡◌ {A = Bytes} (c ∷ a) (d ∷ b)
same_length c d [] [] ha hb e l = ground arith
same_length c d [] (d' ∷ b) ha hb e l = absurd (omega arith)
same_length c d (c' ∷ a) [] ha hb e l = absurd (omega arith)
same_length c d (c' ∷ a) (d' ∷ b) ha hb e l =
    let same : c ≡ d =
      omega (arith, value_from-injective (c % 128) (d % 128) (c' ∷ a) (d' ∷ b) l e) in
    ap₂ ◌∷◌ same (
      tail-injective (c % 128) (c' ∷ a) (d' ∷ b) ha.1 hb.1 l
        (e ∙ ap (λ (t : ℕ). value_from (t % 128) (d' ∷ b)) (sym same)))

-- A varint's value determines its bytes: there are no redundant encodings.
pub value-injective : (a b : Bytes) → IsVarint a → IsVarint b → value a ≡ value b → a ≡ b
value-injective [] b ha hb e = elim ha [ ]
value-injective (c ∷ a) [] ha hb e = elim hb [ ]
value-injective (c ∷ a) (d ∷ b) ha hb e =
    same_length c d a b ha hb e
      (omega (arith, length-value c d a b hb e, length-value d c b a ha (sym e)))
