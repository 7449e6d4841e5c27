-- ===== src/Base/BigEndian.antt =====
-- Go's encoding/binary.BigEndian over byte lists.
use Prim.Native.Nat.{ℕ, zero, suc, ◌+◌, ◌*◌, ◌/◌, ◌%◌, ◌^◌, ◌≤◌, ◌<◌}
use mathlib.Core.Path.{◌≡◌, refl, ap, ◌∙◌}
use mathlib.Core.List.{[], ◌∷◌, ◌++◌}
use native.Mathlib.Omega.{arith}
use native.Mathlib.Nat.{mul-le-mul_right, mul_assoc, pow-le-pow_right}
use go_ls_remote.Base.Lists.{Bytes, length, take, All, IsByte, All-take, length-take_le}

abbrev be_from : ℕ → Bytes → ℕ
be_from v [] = v
be_from v (b ∷ bs) = be_from (v * 256 + b) bs

-- `Uint16`, `Uint32` and `Uint64` of a slice of that length.
unfoldable pub be : Bytes → ℕ
be bs = be_from 0 bs

-- The bytes of a number, in `k` bytes.
unfoldable pub be_bytes : ℕ → ℕ → Bytes
be_bytes zero v = []
be_bytes (suc k) v = be_bytes k (v / 256) ++ (v % 256 ∷ [])

be_from-append : (v : ℕ) (bs : Bytes) (b : ℕ) → be_from v (bs ++ (b ∷ [])) ≡ be_from v bs * 256 + b
be_from-append v [] b = refl
be_from-append v (c ∷ bs) b = be_from-append (v * 256 + c) bs b

pub be-be_bytes : (k v : ℕ) → v < 256 ^ k → be (be_bytes k v) ≡ v
unfolding be be_bytes
be-be_bytes zero v h = omega arith
be-be_bytes (suc k) v h =
    be_from-append 0 (be_bytes k (v / 256)) (v % 256)
    ∙ ap (λ (x : ℕ). x * 256 + v % 256) (be-be_bytes k (v / 256) (omega arith))
    ∙ omega arith

-- A number of three bytes.
pub be-bound_three : (a b c : ℕ) → a < 256 → b < 256 → c < 256 → be (a ∷ b ∷ c ∷ []) < 2 ^ 24
unfolding be
be-bound_three a b c ha hb hc = omega arith

be_from-bound : (v : ℕ) (bs : Bytes) → All IsByte bs → be_from v bs < suc v * 256 ^ length bs
be_from-bound v [] h = omega arith
be_from-bound v (b ∷ bs) h =
    step (v * 256 + b) (length bs) (be_from-bound (v * 256 + b) bs h.1) (omega (arith, h.0))
  where
    power : (k : ℕ) → 256 ^ suc k ≡ 256 * 256 ^ k
    power k = omega arith

    step :
        (w k : ℕ)
        → be_from w bs < suc w * 256 ^ k
        → suc w ≤ suc v * 256
        → be_from w bs < suc v * 256 ^ suc k
    step w k l m = omega (
      arith,
      mul-le-mul_right (256 ^ k) m,
      mul_assoc (suc v) 256 (256 ^ k),
      ap (λ (n : ℕ). suc v * n) (power k),
    )

-- A number of `k` bytes is below `256 ^ k`.
pub be-bound : (bs : Bytes) → All IsByte bs → be bs < 256 ^ length bs
unfolding be
be-bound bs h = omega (arith, be_from-bound 0 bs h)

-- A uint64 that is read.
pub be-take_eight : (bs : Bytes) → All IsByte bs → be (take 8 bs) < 2 ^ 64
be-take_eight bs h = omega (
  arith,
  be-bound (take 8 bs) (All-take IsByte 8 bs h),
  small (length (take 8 bs)) (length-take_le 8 bs),
)
  where
    small : (n : ℕ) → n ≤ 8 → 256 ^ n ≤ 2 ^ 64
    small n l = pow-le-pow_right (omega arith) l

pub be-take_four : (bs : Bytes) → All IsByte bs → be (take 4 bs) < 2 ^ 32
be-take_four bs h = omega (
  arith,
  be-bound (take 4 bs) (All-take IsByte 4 bs h),
  small (length (take 4 bs)) (length-take_le 4 bs),
)
  where
    small : (n : ℕ) → n ≤ 4 → 256 ^ n ≤ 2 ^ 32
    small n l = pow-le-pow_right (omega arith) l
