-- ===== src/Base/Decimal.antt =====
-- Decimal text, as Go's strconv package reads and writes it.
use Prim.Native.Nat.{ℕ, zero, suc, ◌+◌, ◌-◌, ◌*◌, ◌/◌, ◌%◌, ◌^◌, ◌<◌}
use mathlib.Core.Path.{◌≡◌, refl, ◌∙◌}
use mathlib.Core.Bool.{Bool, true, false, ◌&&◌}
use mathlib.Core.Logic.{inl, inr}
use mathlib.Core.Option.{Option, none, some}
use mathlib.Core.List.{[], ◌∷◌}
use native.Mathlib.Omega.{arith}
use go_ls_remote.Base.Tests.{◌==◌, ltb, leb, if◌then◌else◌, Bool-cases}
use go_ls_remote.Base.Lists.{Bytes}

-- An int64, over the native numbers.
pub data ℤ : Type 0 where
  pos negsuc : ℕ → ℤ

abbrev pub is_digit : ℕ → Bool
is_digit c = leb b'0' c && leb c b'9'

unfoldable pub all_digits : Bytes → Bool
all_digits [] = true
all_digits (c ∷ s) = is_digit c && all_digits s

unfoldable pub decimal_from : ℕ → Bytes → ℕ
decimal_from v [] = v
decimal_from v (c ∷ s) = decimal_from (v * 10 + (c - b'0')) s

abbrev pub signed : Bool → ℕ → Option ℤ
signed false v = if ltb v (2 ^ 63) then some (pos v) else none
signed true zero = some (pos 0)
signed true (suc v) = if ltb v (2 ^ 63) then some (negsuc v) else none

abbrev pub digits_of : Bool → Bytes → Option ℤ
digits_of neg [] = none
digits_of neg (c ∷ s) = if all_digits (c ∷ s) then signed neg (decimal_from 0 (c ∷ s)) else none

-- `strconv.ParseInt(s, 10, 64)`: a sign, digits, and the range of an int64.
unfoldable pub parse_int : Bytes → Option ℤ
parse_int [] = none
parse_int (c ∷ s) =
    if c == b'+'
    then digits_of false s
    else if c == b'-'
    then digits_of true s
    else digits_of false (c ∷ s)

unfoldable pub digits_onto : ℕ → ℕ → Bytes → Bytes
digits_onto zero n acc = acc
digits_onto (suc f) n acc =
    let more = digits_onto f (n / 10) ((b'0' + n % 10) ∷ acc) in
    if ltb n 10 then (b'0' + n) ∷ acc else more

-- `strconv.AppendInt(nil, n, 10)` on a number that is not negative.
unfoldable pub append_int : ℕ → Bytes
append_int n = digits_onto (suc n) n []

decimal-digits_onto :
    (f n : ℕ) (acc : Bytes) → n < f → decimal_from 0 (digits_onto f n acc) ≡ decimal_from n acc
unfolding decimal_from digits_onto
decimal-digits_onto zero n acc h = absurd (omega arith)
decimal-digits_onto (suc f) n acc h = elim (Bool-cases (ltb n 10)) [
  | inl small ↦ ground arith
  | inr large ↦
      ground (arith, decimal-digits_onto f (n / 10) ((b'0' + n % 10) ∷ acc) (ground arith))
]

all_digits-digits_onto :
    (f n : ℕ) (acc : Bytes)
    → n < f
    → all_digits acc ≡ true
    → all_digits (digits_onto f n acc) ≡ true
unfolding all_digits digits_onto
all_digits-digits_onto zero n acc h a = a
all_digits-digits_onto (suc f) n acc h a = elim (Bool-cases (ltb n 10)) [
  | inl small ↦ ground arith
  | inr large ↦ ground (
    arith,
    all_digits-digits_onto f (n / 10) ((b'0' + n % 10) ∷ acc) (ground arith) (ground arith),
  )
]

-- A digit comes first.
abbrev pub StartsDigit : Bytes → Type 0
StartsDigit [] = ⊥
StartsDigit (c ∷ s) = is_digit c ≡ true

digits_onto-StartsDigit : (f n : ℕ) (acc : Bytes) → n < f → StartsDigit (digits_onto f n acc)
unfolding digits_onto
digits_onto-StartsDigit zero n acc h = absurd (omega arith)
digits_onto-StartsDigit (suc f) n acc h = elim (Bool-cases (ltb n 10)) [
  | inl small ↦ rw small (ground arith)
  | inr large ↦ rw large (digits_onto-StartsDigit f (n / 10) ((b'0' + n % 10) ∷ acc) (ground arith))
]

parse_digits :
    (s : Bytes) (v : ℕ)
    → StartsDigit s
    → all_digits s ≡ true
    → decimal_from 0 s ≡ v
    → v < 2 ^ 63
    → parse_int s ≡ some (pos v)
unfolding parse_int
parse_digits [] v hs ha hv lt = elim hs [ ]
parse_digits (c ∷ s) v hs ha hv lt = ground arith

-- `ParseInt` reads back what `AppendInt` writes.
pub parse_int-append_int : (n : ℕ) → n < 2 ^ 63 → parse_int (append_int n) ≡ some (pos n)
unfolding append_int
parse_int-append_int n h =
    parse_digits (digits_onto (suc n) n []) n (digits_onto-StartsDigit (suc n) n [] (omega arith))
      (all_digits-digits_onto (suc n) n [] (omega arith) (unfold all_digits in refl))
      (decimal-digits_onto (suc n) n [] (omega arith) ∙ unfold decimal_from in refl) h

pub append_int-StartsDigit : (n : ℕ) → StartsDigit (append_int n)
unfolding append_int
append_int-StartsDigit n = digits_onto-StartsDigit (suc n) n [] (omega arith)
