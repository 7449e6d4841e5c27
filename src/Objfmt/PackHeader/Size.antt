-- ===== src/Objfmt/PackHeader/Size.antt =====
-- The type and the size of an object as a pack holds them, and what is read of them.
use go_ls_remote.Base.{
  ℕ, zero, suc, ◌+◌, ◌-◌, ◌*◌, ◌/◌, ◌%◌, ◌^◌, ◌≤◌, ◌<◌, ◌≡◌, ap, ◌∙◌, true, false, inl, inr,
  Bool-cases, [], ◌∷◌, ◌++◌, arith, ltb, leb, if◌then◌else◌, Bytes, length, take, drop,
  drop-append_self, length-append, ok, err, ◌>>=◌,
}
use native.Mathlib.Nat.{mul_assoc, add-mul}
use go_ls_remote.Objfmt.{out_of_range}
use go_ls_remote.Objfmt.Hash.{Algo, size}
use go_ls_remote.Objfmt.PackHeader.{
  pack_header_peek, size_loop, typed_header, header_from, read_header,
}

-- The groups of seven bits of a size above its lowest four, lowest first, in at most `k` bytes.
unfoldable pub groups : ℕ → ℕ → Bytes
groups zero n = []
groups (suc k) n = if ltb n 128 then n ∷ [] else (n % 128 + 128) ∷ groups k (n / 128)

abbrev pub first_byte : ℕ → ℕ → ℕ
first_byte t n = if ltb n 16 then t * 16 + n else 128 + t * 16 + n % 16

abbrev pub more_bytes : ℕ → Bytes
more_bytes n = if ltb n 16 then [] else groups 8 (n / 16)

-- The type and the size.
abbrev pub size_bytes : ℕ → ℕ → Bytes
size_bytes t n = first_byte t n ∷ more_bytes n

size_loop-stop :
    (s : Bytes) (c sum shift used : ℕ) → c < 128 → size_loop s c sum shift used ≡ ok (sum, used)
unfolding size_loop
size_loop-stop [] c sum shift used h = ground arith
size_loop-stop (d ∷ s) c sum shift used h = ground arith

size_loop-open :
    (d : ℕ) (s : Bytes) (c sum shift used : ℕ)
    → 128 ≤ c
    → c < 256
    → shift + 7 < 64
    → size_loop (d ∷ s) c sum shift used
      ≡ size_loop s d (sum + d % 128 * 2 ^ shift) (shift + 7) (used + 1)
unfolding size_loop
size_loop-open d s c sum shift used h k l = ground arith

-- A group and the groups above it.
weighted : (n p : ℕ) → n % 128 * p + n / 128 * (128 * p) ≡ n * p
weighted n p = omega (
  arith,
  ap (λ (m : ℕ). m * p) (split_off n),
  add-mul (n % 128) (n / 128 * 128) p,
  mul_assoc (n / 128) 128 p,
)
  where
    split_off : (n : ℕ) → n ≡ n % 128 + n / 128 * 128
    split_off n = omega arith

shifted : (shift : ℕ) → 2 ^ (shift + 7) ≡ 128 * 2 ^ shift
shifted shift = ap (λ (n : ℕ). 2 ^ n) (seven shift) ∙ omega arith
  where
    seven : (n : ℕ) → n + 7 ≡ suc (suc (suc (suc (suc (suc (suc n))))))
    seven n = omega arith

size_loop-groups :
    (k n : ℕ) (rest : Bytes) (c sum shift used : ℕ)
    → 128 ≤ c
    → c < 256
    → n < 128 ^ k
    → shift + 7 * k ≤ 60
    → 1 ≤ k
    → size_loop (groups k n ++ rest) c sum shift used
      ≡ ok (sum + n * 2 ^ shift, used + length (groups k n))
unfolding groups
size_loop-groups zero n rest c sum shift used h1 h2 small fits one = absurd (omega arith)
size_loop-groups (suc k) n rest c sum shift used h1 h2 small fits one =
    elim (Bool-cases (ltb n 128)) [
      | inl y ↦ rw y (
          size_loop-open n rest c sum shift used h1 h2 (omega arith)
          ∙ size_loop-stop rest n (sum + n % 128 * 2 ^ shift) (shift + 7) (used + 1) (ground arith)
          ∙ ap (λ (m : ℕ). ok (sum + m * 2 ^ shift, used + 1)) (below y))
      | inr x ↦ rw x (
          size_loop-open (n % 128 + 128) (groups k (n / 128) ++ rest) c sum shift used h1 h2
            (omega arith)
          ∙ size_loop-groups k (n / 128) rest (n % 128 + 128)
              (sum + (n % 128 + 128) % 128 * 2 ^ shift) (shift + 7) (used + 1) (omega arith)
              (omega arith) (omega arith) (omega arith) (at_least_one k small (ground arith))
          ∙ ap (λ (m : ℕ). ok (m, used + 1 + length (groups k (n / 128))))
              (whole (2 ^ shift) (2 ^ (shift + 7)) (shifted shift))
          ∙ ap (λ (m : ℕ). ok (sum + n * 2 ^ shift, m)) (omega arith))
    ]
  where
    at_least_one : (k : ℕ) → n < 128 ^ suc k → 128 ≤ n → 1 ≤ k
    at_least_one zero s l = absurd (omega arith)
    at_least_one (suc k) s l = omega arith

    low_bits : (n : ℕ) → (n % 128 + 128) % 128 ≡ n % 128
    low_bits n = omega arith

    whole : (p q : ℕ) → q ≡ 128 * p → sum + (n % 128 + 128) % 128 * p + n / 128 * q ≡ sum + n * p
    whole p q e =
        omega
          (arith, weighted n p, ap (λ (m : ℕ). n / 128 * m) e, ap (λ (m : ℕ). m * p) (low_bits n))

    below : ltb n 128 ≡ true → n % 128 ≡ n
    below y = ground arith

length-groups : (k n : ℕ) → length (groups k n) ≤ k
unfolding groups
length-groups zero n = omega arith
length-groups (suc k) n = elim (Bool-cases (ltb n 128)) [
  | inl y ↦ rw y (omega arith)
  | inr x ↦ rw x (omega (arith, length-groups k (n / 128)))
]

pub length-size_bytes : (t n : ℕ) → length (size_bytes t n) ≤ 9
length-size_bytes t n = elim (Bool-cases (ltb n 16)) [
  | inl y ↦ rw y (omega arith)
  | inr x ↦ rw x (omega (arith, length-groups 8 (n / 16)))
]

size_loop-more_bytes :
    (t n : ℕ) (rest : Bytes)
    → t < 8
    → n < 2 ^ 60
    → size_loop (more_bytes n ++ rest) (first_byte t n) (first_byte t n % 16) 4 1
      ≡ ok (n, length (size_bytes t n))
size_loop-more_bytes t n rest ht hn = elim (Bool-cases (ltb n 16)) [
  | inl y ↦ rw y (
      size_loop-stop rest (t * 16 + n) ((t * 16 + n) % 16) 4 1 (ground arith)
      ∙ ap (λ (m : ℕ). ok (m, 1)) (low y))
  | inr x ↦ rw x (
      size_loop-groups 8 (n / 16) rest (128 + t * 16 + n % 16) ((128 + t * 16 + n % 16) % 16) 4 1
        (omega arith) (omega arith) (omega arith) (omega arith) (omega arith)
      ∙ ap (λ (m : ℕ). ok (m, 1 + length (groups 8 (n / 16)))) (omega arith)
      ∙ ap (λ (m : ℕ). ok (n, m)) (omega arith))
]
  where
    low : ltb n 16 ≡ true → (t * 16 + n) % 16 ≡ n
    low y = ground arith

type-first_byte : (t n : ℕ) → t < 8 → first_byte t n / 16 % 8 ≡ t
type-first_byte t n ht = elim (Bool-cases (ltb n 16)) [
  | inl y ↦ rw y (low y)
  | inr x ↦ rw x (omega arith)
]
  where
    low : ltb n 16 ≡ true → (t * 16 + n) / 16 % 8 ≡ t
    low y = ground arith

pub take-append_long :
    (k : ℕ) (a b : Bytes) → length a ≤ k → take k (a ++ b) ≡ a ++ take (k - length a) b
take-append_long k [] b h = ap (λ n. take n b) (omega arith)
take-append_long zero (c ∷ a) b h = absurd (omega arith)
take-append_long (suc k) (c ∷ a) b h =
    ap (◌∷◌ c) (take-append_long k a b (omega arith) ∙ ap (λ n. a ++ take n b) (omega arith))

module _ (hash : Algo) where
  -- What of the pack behind an object's type and size is in the buffer.
  abbrev pub window : ℕ → ℕ → Bytes → Bytes
  window t n rest = take (pack_header_peek + size hash - length (size_bytes t n)) rest

  pub read_header_lem :
      (front rest : Bytes) (t n : ℕ)
      → t < 8
      → n < 2 ^ 60
      → read_header hash (front ++ (size_bytes t n ++ rest)) (length front)
        ≡ typed_header hash
            (size_bytes t n ++ window t n rest)
            (length front)
            t
            n
            (length (size_bytes t n))
  unfolding read_header
  read_header_lem front rest t n ht hn =
      ap
        (λ b.
          if b
          then err out_of_range
          else header_from hash (take (pack_header_peek + size hash) (drop (length front) pack))
              (length front))
        inside
      ∙ ap (λ b. header_from hash (take (pack_header_peek + size hash) b) (length front))
          (drop-append_self front (size_bytes t n ++ rest))
      ∙ ap (λ b. header_from hash b (length front))
          (take-append_long (pack_header_peek + size hash) (size_bytes t n) rest
            (omega (arith, length-size_bytes t n)))
      ∙ ap
          (λ r. r >>= λ (sum, used).
            typed_header hash buf (length front) (first_byte t n / 16 % 8) sum used)
          (size_loop-more_bytes t n (window t n rest) ht hn)
      ∙ ap (λ c. typed_header hash buf (length front) c n (length (size_bytes t n)))
          (type-first_byte t n ht)
    where
      pack : Bytes
      pack = front ++ (size_bytes t n ++ rest)

      buf : Bytes
      buf = size_bytes t n ++ window t n rest

      shorter : length front < length pack → leb (length pack) (length front) ≡ false
      shorter h = ground arith

      inside : leb (length pack) (length front) ≡ false
      inside = shorter (omega (arith, length-append front (size_bytes t n ++ rest)))
