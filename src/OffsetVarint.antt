-- ===== src/OffsetVarint.antt =====
-- The variable-length integer of pack offsets and reftables, apart from the code that reads it:
-- groups of seven bits, highest first, the top bit set on all bytes but the last, and one added
-- for each byte that follows. Two decoders of the program read it (Reftable/Varint, Objfmt/OfsBase).
pub mod Unique
use go_ls_remote.Base.{
  ℕ, zero, suc, ◌+◌, ◌-◌, ◌*◌, ◌%◌, ◌^◌, ◌≤◌, ◌<◌, ◌≡◌, refl, [], ◌∷◌, ◌++◌, arith, Bytes, length,
}

-- A byte with the top bit set promises another.
abbrev pub IsOpen : ℕ → Type 0
IsOpen c = (128 ≤ c) × (c < 256)

abbrev pub IsVarint : Bytes → Type 0
IsVarint [] = ⊥
IsVarint (c ∷ []) = c < 128
IsVarint (c ∷ d ∷ s) = IsOpen c × IsVarint (d ∷ s)

-- The value of the groups in `s` after groups of value `acc`.
abbrev pub value_from : ℕ → Bytes → ℕ
value_from acc [] = acc
value_from acc (c ∷ s) = value_from ((acc + 1) * 128 + c % 128) s

abbrev pub value : Bytes → ℕ
value [] = 0
value (c ∷ s) = value_from (c % 128) s

-- The front of `buf` is a varint of `n` bytes with the value `v`.
pub record Reads (buf : Bytes) (v n : ℕ) : Type 0 where
  pub front : Bytes
  pub rest : Bytes
  pub splits : buf ≡ front ++ rest
  pub well_formed : IsVarint front
  pub value_is : value front ≡ v
  pub length_is : length front ≡ n

pub le-value_from : (acc : ℕ) (s : Bytes) → acc ≤ value_from acc s
le-value_from acc [] = omega arith
le-value_from acc (c ∷ s) = omega (arith, le-value_from ((acc + 1) * 128 + c % 128) s)

-- The least value that a varint of `i` bytes has.
abbrev pub least : ℕ → ℕ
least zero = 0
least (suc zero) = 0
least (suc (suc i)) = (least (suc i) + 1) * 128
