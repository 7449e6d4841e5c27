-- ===== src/Base/Adjacent.antt =====
-- `bytes.Compare` is transitive, so a table whose neighbours ascend is in order.
use Prim.Native.Nat.{ℕ, zero, suc, ◌<◌, lt}
use mathlib.Core.Path.{◌≡◌}
use mathlib.Core.Bool.{true, false}
use mathlib.Core.Logic.{inl, inr}
use mathlib.Core.List.{[], ◌∷◌}
use native.Mathlib.Omega.{arith}
use go_ls_remote.Base.Tests.{◌==◌, Bool-cases}
use go_ls_remote.Base.Lists.{Bytes}
use go_ls_remote.Base.Compare.{compare_bytes, Ascends}

pub compare_bytes_trans :
    (a b c : Bytes) → compare_bytes a b ≡ lt → compare_bytes b c ≡ lt → compare_bytes a c ≡ lt
unfolding compare_bytes
compare_bytes_trans [] [] c h k = absurd (cc)
compare_bytes_trans [] (y ∷ b) [] h k = absurd (cc)
compare_bytes_trans [] (y ∷ b) (z ∷ c) h k = cc
compare_bytes_trans (x ∷ a) [] c h k = absurd (cc)
compare_bytes_trans (x ∷ a) (y ∷ b) [] h k = absurd (cc)
compare_bytes_trans (x ∷ a) (y ∷ b) (z ∷ c) h k = ground (arith, compare_bytes_trans a b c)

module _ (row : ℕ → Bytes) (count : ℕ) where
  pub adjacent-Ascends :
      ((a : ℕ) → suc a < count → compare_bytes (row a) (row (suc a)) ≡ lt) → Ascends row count
  adjacent-Ascends next a zero l m = absurd (omega (arith, l))
  adjacent-Ascends next a (suc b) l m = elim (Bool-cases (a == b)) [
    | inl y ↦ rw (same y) (next b m)
    | inr n ↦
        compare_bytes_trans (row a) (row b) (row (suc b))
          (adjacent-Ascends next a b (below n) (omega (arith, m))) (next b m)
  ]
    where
      same : (a == b) ≡ true → a ≡ b
      same y = ground arith

      below : (a == b) ≡ false → a < b
      below n = ground arith
