-- ===== src/Base/Results.antt =====
-- Go's (value, error) pairs.
use mathlib.Core.Path.{◌≡◌, refl}
use mathlib.Core.Logic.{◌⊎◌, inl, inr}
use mathlib.Core.Option.{Option, none, some}
use mathlib.Core.Bool.{Bool, true, false}
use go_ls_remote.Base.Tests.{if◌then◌else◌}

-- An error, or a value.
pub data Result {ℓ} (E : Type 0) (A : Type ℓ) : Type ℓ where
  err : E → Result E A
  ok : A → Result E A

pub Result-cases {ℓ} :
    {E : Type 0} {A : Type ℓ} (r : Result E A) → ((a : A) × (r ≡ ok a)) ⊎ ((e : E) × (r ≡ err e))
Result-cases (err e) = inr (e, refl)
Result-cases (ok a) = inl (a, refl)

-- `if err != nil { return ..., err }`, which a do block strings together.
infixl 5 ◌>>=◌
abbrev pub ◌>>=◌ {ℓ κ} :
    {E : Type 0} {A : Type ℓ} {B : Type κ} → Result E A → (A → Result E B) → Result E B
err e >>= k = err e
ok value >>= k = k value

-- `if test { return ..., e }` has not returned.
pub guard_passed {ℓ} :
    {E : Type 0} {A : Type ℓ} (test : Bool) (e : E) (r : Result E A) (a : A)
    → (if test then err e else r) ≡ ok a
    → (test ≡ false) × (r ≡ ok a)
guard_passed true e r a h = absurd (cc)
guard_passed false e r a h = (refl, h)

pub ok_injective {ℓ} : {E : Type 0} {A : Type ℓ} {a b : A} → Path (Result E A) (ok a) (ok b) → a ≡ b
ok_injective h = cc

-- A do block that returns has the value of its first line.
pub bind_passed {ℓ κ} :
    {E : Type 0} {A : Type ℓ} {B : Type κ} (r : Result E A) (k : A → Result E B) (b : B)
    → (r >>= k) ≡ ok b
    → (a : A) × (r ≡ ok a) × (k a ≡ ok b)
bind_passed (err e) k b h = absurd (cc)
bind_passed (ok a) k b h = (a, refl, h)

pub Option-cases {ℓ} : {A : Type ℓ} (o : Option A) → ((a : A) × (o ≡ some a)) ⊎ (o ≡ none)
Option-cases none = inr refl
Option-cases (some a) = inl (a, refl)

-- A do block that fails does so in its first line or behind it.
pub bind_failed {ℓ κ} :
    {E : Type 0} {A : Type ℓ} {B : Type κ} (r : Result E A) (k : A → Result E B) (e : E)
    → (r >>= k) ≡ err e
    → (r ≡ err e) ⊎ ((a : A) × (r ≡ ok a) × (k a ≡ err e))
bind_failed (err d) k e h = inl (cc)
bind_failed (ok a) k e h = inr (a, refl, h)

pub some_injective : {A : Type 0} {a b : A} → some a ≡ some b → a ≡ b
some_injective e = cc

pub none-some : {A : Type 0} (a : A) → Path (Option A) none (some a) → ⊥
none-some a e = absurd (cc)
