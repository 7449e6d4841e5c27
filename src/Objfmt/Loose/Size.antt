-- ===== src/Objfmt/Loose/Size.antt =====
-- The size of a loose object is canonical decimal text.
use go_ls_remote.Base.{
  ℕ, zero, suc, ◌+◌, ◌-◌, ◌*◌, ◌/◌, ◌%◌, ◌^◌, ◌≤◌, ◌<◌, ◌≡◌, inl, inr, refl, ◌∙◌, sym, arith, false,
  ◌&&◌, ◌||◌, [], ◌∷◌, ltb, ◌==◌, Bytes, length, ok, ok_injective, guard_passed, Bool-cases,
}
use go_ls_remote.Base.Text.{Lacks}
use go_ls_remote.Base.Decimal.{append_int, digits_onto}
use go_ls_remote.Objfmt.Loose.{LooseError, corrupt_size, size_digits, parse_loose_size}

-- More fuel than the number changes nothing.
digits_onto_fuel :
    (f g n : ℕ) (acc : Bytes) → n < f → n < g → digits_onto f n acc ≡ digits_onto g n acc
unfolding digits_onto
digits_onto_fuel zero g n acc h k = absurd (omega (arith, h))
digits_onto_fuel (suc f) zero n acc h k = absurd (omega (arith, k))
digits_onto_fuel (suc f) (suc g) n acc h k = elim (Bool-cases (ltb n 10)) [
  | inl y ↦ rw y refl
  | inr x ↦
      rw x (digits_onto_fuel f g (n / 10) ((b'0' + n % 10) ∷ acc) (ground arith) (ground arith))
]

-- A digit behind a number that is not 0.
digits_onto_digit :
    (n c : ℕ) (acc : Bytes)
    → 1 ≤ n
    → b'0' ≤ c
    → c ≤ b'9'
    → digits_onto (suc (n * 10 + (c - b'0'))) (n * 10 + (c - b'0')) acc
      ≡ digits_onto (suc n) n (c ∷ acc)
unfolding digits_onto
digits_onto_digit n c acc h l u =
    rw (large, quotient, digit)
      (digits_onto_fuel (n * 10 + (c - b'0')) (suc n) n (c ∷ acc) (omega (arith, h)) (omega arith))
  where
    large : ltb (n * 10 + (c - b'0')) 10 ≡ false
    large = ground (arith, h)

    quotient : (n * 10 + (c - b'0')) / 10 ≡ n
    quotient = omega (arith, l, u)

    digit : b'0' + (n * 10 + (c - b'0')) % 10 ≡ c
    digit = omega (arith, l, u)

-- One round of the loop that has not returned.
digit_passed :
    (n c : ℕ) (s : Bytes) (v : ℕ)
    → size_digits n (c ∷ s) ≡ ok v
    → (b'0' ≤ c)
      × (c ≤ b'9')
      × (n * 10 + (c - b'0') < 2 ^ 63)
      × (size_digits (n * 10 + (c - b'0')) s ≡ ok v)
unfolding size_digits
digit_passed n c s v h =
    let (digit, h1) = guard_passed (ltb c b'0' || ltb b'9' c) corrupt_size _ v h in
    let (fits, h2) = guard_passed (ltb ((2 ^ 63 - 1 - (c - b'0')) / 10) n) corrupt_size _ v h1 in
    (ground (arith, digit), ground (arith, digit), ground (arith, digit, fits), h2)

-- The digits that the loop takes are those that it would write.
size_digits_sound :
    (n : ℕ) (s : Bytes) (v : ℕ)
    → 1 ≤ n
    → n < 2 ^ 63
    → size_digits n s ≡ ok v
    → (v < 2 ^ 63) × (digits_onto (suc v) v [] ≡ digits_onto (suc n) n s)
size_digits_sound n [] v h l e = (omega (arith, same, l), rw same refl)
  where
    same : n ≡ v
    same = ok_injective {E = LooseError} (unfold size_digits in e)
size_digits_sound n (c ∷ s) v h l e =
    let (low, high, small, next) = digit_passed n c s v e in
    let (bound, same) = size_digits_sound (n * 10 + (c - b'0')) s v (omega (arith, h)) small next in
    (bound, same ∙ digits_onto_digit n c s h low high)

-- The loop reads the digits of a number back.
size_digits-digits_onto :
    (f n : ℕ) (acc : Bytes)
    → n < f
    → n < 2 ^ 63
    → size_digits 0 (digits_onto f n acc) ≡ size_digits n acc
unfolding digits_onto
size_digits-digits_onto zero n acc h l = absurd (omega (arith, h))
size_digits-digits_onto (suc f) n acc h l = elim (Bool-cases (ltb n 10)) [
  | inl y ↦ rw y (one_digit 0 n acc n (ground (arith, y)) l (omega arith))
  | inr x ↦ rw x (
      size_digits-digits_onto f (n / 10) ((b'0' + n % 10) ∷ acc) (ground (arith, x))
        (omega (arith, l))
      ∙ one_digit (n / 10) (n % 10) acc n (omega arith) l (omega arith))
]
  where
    one_digit :
        (m d : ℕ) (rest : Bytes) (v : ℕ)
        → d < 10
        → v < 2 ^ 63
        → m * 10 + d ≡ v
        → size_digits m ((b'0' + d) ∷ rest) ≡ size_digits v rest
    one_digit m d rest v small bound e = unfold size_digits in ground (arith, small, bound, e)

-- A digit other than 0 comes first, or a digit stands alone.
abbrev IsLead : Bytes → Type 0
IsLead [] = ⊥
IsLead (c ∷ []) = Unit {0}
IsLead (c ∷ d ∷ s) = (c == b'0') ≡ false

digits_onto-IsLead : (f n : ℕ) (acc : Bytes) → n < f → 1 ≤ n → IsLead (digits_onto f n acc)
unfolding digits_onto
digits_onto-IsLead zero n acc h l = absurd (omega (arith, h))
digits_onto-IsLead (suc f) n acc h l = elim (Bool-cases (ltb n 10)) [
  | inl y ↦ rw y (first acc)
  | inr x ↦
      rw x (digits_onto-IsLead f (n / 10) ((b'0' + n % 10) ∷ acc) (ground arith) (ground arith))
]
  where
    first : (rest : Bytes) → IsLead ((b'0' + n) ∷ rest)
    first [] = tt
    first (d ∷ rest) = ground (arith, l)

append_int-IsLead : (n : ℕ) → IsLead (append_int n)
unfolding append_int digits_onto
append_int-IsLead zero = tt
append_int-IsLead (suc n) = digits_onto-IsLead (suc (suc n)) (suc n) [] (omega arith) (omega arith)

size_digits-parse :
    (s : Bytes) (n : ℕ) → IsLead s → size_digits 0 s ≡ ok n → parse_loose_size s ≡ ok n
unfolding parse_loose_size
size_digits-parse [] n l e = absurd l
size_digits-parse (c ∷ []) n l e = e
size_digits-parse (c ∷ d ∷ s) n l e = rw l (ground (arith, e))

size_digits-append_int : (n : ℕ) → n < 2 ^ 63 → size_digits 0 (append_int n) ≡ ok n
size_digits-append_int n h =
    unfold append_int size_digits in size_digits-digits_onto (suc n) n [] (omega arith) h

-- `parseLooseSize` reads what `AppendInt` writes for an int64.
pub parse_loose_size-append_int : (n : ℕ) → n < 2 ^ 63 → parse_loose_size (append_int n) ≡ ok n
parse_loose_size-append_int n h =
    size_digits-parse (append_int n) n (append_int-IsLead n) (size_digits-append_int n h)

-- The text of a size has no NUL.
size_digits-Lacks : (n : ℕ) (s : Bytes) (v : ℕ) → size_digits n s ≡ ok v → Lacks 0 s
size_digits-Lacks n [] v e = tt
size_digits-Lacks n (c ∷ s) v e =
    let (low, high, small, next) = digit_passed n c s v e in
    ((λ z. omega (arith, z, low)), size_digits-Lacks (n * 10 + (c - b'0')) s v next)

pub append_int-Lacks : (n : ℕ) → n < 2 ^ 63 → Lacks 0 (append_int n)
append_int-Lacks n h = size_digits-Lacks 0 (append_int n) n (size_digits-append_int n h)

one_digit_text :
    (c : ℕ) (s : Bytes) → b'0' ≤ c → c ≤ b'9' → digits_onto (suc (c - b'0')) (c - b'0') s ≡ c ∷ s
unfolding digits_onto
one_digit_text c s l h = ground (arith, l, h)

plain : (c : ℕ) → 0 * 10 + (c - b'0') ≡ c - b'0'
plain c = omega arith

-- Where `parseLooseSize` returns a number, it is an int64 and the text is what `AppendInt` writes for it.
pub parse_loose_size_sound :
    (s : Bytes) (n : ℕ) → parse_loose_size s ≡ ok n → (n < 2 ^ 63) × (s ≡ append_int n)
unfolding parse_loose_size append_int
parse_loose_size_sound [] n e = absurd (cc)
parse_loose_size_sound (c ∷ []) n e =
    let (lead, h1) = guard_passed (ltb 1 (length (c ∷ [])) && (c == b'0')) corrupt_size _ n e in
    let (low, high, small, next) = digit_passed 0 c [] n h1 in
    let same : (c - b'0') ≡ n =
      ok_injective {E = LooseError} (unfold size_digits in (rw (plain c) at next)) in
    (omega (arith, same, small), sym (one_digit_text c [] low high) ∙ rw same refl)
parse_loose_size_sound (c ∷ d ∷ s) n e =
    let (lead, h1) = guard_passed (ltb 1 (length (c ∷ d ∷ s)) && (c == b'0')) corrupt_size _ n e in
    let (low, high, small, next) = digit_passed 0 c (d ∷ s) n h1 in
    let (bound, same) =
      size_digits_sound (c - b'0') (d ∷ s) n (ground (arith, lead, low)) (omega (arith, small))
        (rw (plain c) at next) in
    (bound, sym (one_digit_text c (d ∷ s) low high) ∙ sym same)
