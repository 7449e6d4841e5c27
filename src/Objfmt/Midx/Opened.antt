-- ===== src/Objfmt/Midx/Opened.antt =====
-- What `OpenMidx` checks of a multi-pack-index.
use go_ls_remote.Base.{
  ℕ, zero, suc, ◌+◌, ◌-◌, ◌*◌, ◌^◌, ◌%◌, ◌≤◌, ◌<◌, ◌≡◌, inl, inr, refl, ap, ◌∙◌, sym, arith, Bool,
  true, false, ◌||◌, Bytes, length, take, drop, drop-drop, take-drop_inside, ltb, leb, get_or, ◌==◌,
  ok, err, ok_injective, bind_passed, guard_passed, Bool-cases, ltb-false, if◌then◌else◌, Result,
}
use native.Mathlib.Nat.{add-mul}
use Prim.Native.Nat.{Ordering, lt, eq, gt}
use go_ls_remote.Base.BigEndian.{be}
use go_ls_remote.Base.Compare.{compare_bytes}
use go_ls_remote.Objfmt.Hash.{Algo, size}
use go_ls_remote.Objfmt.Midx.{
  Failure, panicked, corrupt, byte_at, slice, is_less, fanout_from, packs_from, ascending_from,
  midx_ooff_record_size,
}

pub slice_passed :
    (d : Bytes) (from to : ℕ) (b : Bytes)
    → slice d from to ≡ ok b
    → (from < 2 ^ 63) × (from ≤ to) × (to ≤ length d) × (take (to - from) (drop from d) ≡ b)
unfolding slice
slice_passed d from to b e =
    let (t, e1) =
      guard_passed (leb (2 ^ 63) from || (ltb to from || ltb (length d) to)) panicked
        (ok (take (to - from) (drop from d))) b e in
    let (x, y, z) = bounds t in (x, y, z, ok_injective e1)
  where
    bounds :
        (leb (2 ^ 63) from || (ltb to from || ltb (length d) to)) ≡ false
        → (from < 2 ^ 63) × (from ≤ to) × (to ≤ length d)
    bounds t = ground arith

pub slice_inside :
    (d : Bytes) (from to : ℕ)
    → from < 2 ^ 63
    → from ≤ to
    → to ≤ length d
    → slice d from to ≡ ok (take (to - from) (drop from d))
unfolding slice
slice_inside d from to x y z = rw (in_range) refl
  where
    in_range : (leb (2 ^ 63) from || (ltb to from || ltb (length d) to)) ≡ false
    in_range = ground arith

pub byte_at_passed : (d : Bytes) (i b : ℕ) → byte_at d i ≡ ok b → get_or d i 0 ≡ b
unfolding byte_at
byte_at_passed d i b e = ok_injective (guard_passed (leb (length d) i) panicked _ b e).1

-- A slice of a whole field.
pub slice_field :
    (d : Bytes) (from to n : ℕ) (b : Bytes)
    → to ≡ from + n
    → slice d from to ≡ ok b
    → (to ≤ length d) × (take n (drop from d) ≡ b)
slice_field d from to n b w e =
    let (_, _, l, r) = slice_passed d from to b e in
    (l, ap (λ x. take x (drop from d)) (omega (arith, w)) ∙ r)

-- A part of a slice is a part of the file.
pub take-drop_slice :
    (k m from n : ℕ) (d : Bytes)
    → m + k ≤ n
    → take k (drop m (take n (drop from d))) ≡ take k (drop (from + m) d)
take-drop_slice k m from n d h =
    take-drop_inside k m n (drop from d) h ∙ ap (take k) (drop-drop m from d)

-- The loop of `parseFanout` gives a number that no entry exceeds.
pub fanout_from-bound :
    (f : Bytes) (count k prev last : ℕ)
    → fanout_from f count k prev ≡ ok last
    → (prev ≤ last) × ((n : ℕ) → k ≤ n → n < k + count → be (take 4 (drop (n * 4) f)) ≤ last)
unfolding fanout_from
fanout_from-bound f zero k prev last e =
    (omega (arith, ok_injective e), λ n a b. absurd (omega (arith, a, b)))
fanout_from-bound f (suc count) k prev last e =
    let (field, e0, e1) = bind_passed (slice f (k * 4) ((k + 1) * 4)) _ last e in
    let (_, read) = slice_field f (k * 4) ((k + 1) * 4) 4 field (omega arith) e0 in
    let (t, e2) = guard_passed (ltb (be field) prev) corrupt _ last e1 in
    let (a, b) = fanout_from-bound f count (k + 1) (be field) last e2 in
    (
      omega (arith, a, ltb-false (be field) prev t),
      λ n x y. elim (Bool-cases (n == k)) [
        | inl z ↦ rw (same n z, read) a
        | inr z ↦ b n (above n x z) (omega (arith, y))
      ],
    )
  where
    same : (n : ℕ) → (n == k) ≡ true → n ≡ k
    same n z = ground arith

    above : (n : ℕ) → k ≤ n → (n == k) ≡ false → k + 1 ≤ n
    above n x z = ground arith

-- The loop over `OOFF` has read each pack index, at an offset that does not wrap.
pub packs_from-bound :
    (d : Bytes) (off packs count k : ℕ)
    → off + (k + count) * 8 < 2 ^ 64
    → packs_from d off packs count k ≡ ok tt
    → (n : ℕ) → k ≤ n
    → n < k + count
    → be (take 4 (drop (off + n * 8) d)) < packs
unfolding packs_from
packs_from-bound d off packs zero k w e n a b = absurd (omega (arith, a, b))
packs_from-bound d off packs (suc count) k w e n a b =
    let base = (off + k * midx_ooff_record_size) % 2 ^ 64 in
    let (field, e1, e2) = bind_passed (slice d base (base + 4)) _ tt e in
    let (_, _, _, read) = slice_passed d base (base + 4) field e1 in
    let (t, e3) = guard_passed (leb packs (be field)) corrupt _ tt e2 in
    elim (Bool-cases (n == k)) [
      | inl z ↦
          rw
            (
              same z,
              sym (ap (λ x. take 4 (drop x d)) (straight base refl)),
              sym (ap (λ x. take x (drop base d)) (width base)),
              read,
            )
            (below field t)
      | inr z ↦
          packs_from-bound d off packs count (k + 1) (omega (arith, w)) e3 n (above z)
            (omega (arith, b))
    ]
  where
    same : (n == k) ≡ true → n ≡ k
    same z = ground arith

    above : (n == k) ≡ false → k + 1 ≤ n
    above z = ground arith

    below : (field : Bytes) → leb packs (be field) ≡ false → be field < packs
    below field t = ground arith

    straight : (base : ℕ) → base ≡ (off + k * 8) % 2 ^ 64 → base ≡ off + k * 8
    straight base f = omega (arith, w, f)

    width : (base : ℕ) → base + 4 - base ≡ 4
    width base = omega arith

less : (a b : Bytes) → is_less a b ≡ true → compare_bytes a b ≡ lt
less a b e = order (compare_bytes a b) e
  where
    order : (o : Ordering) → (elim o [ lt ↦ true | _ ↦ false ]) ≡ true → o ≡ lt
    order lt f = refl
    order eq f = absurd (cc)
    order gt f = absurd (cc)

pub ascending_from-next :
    (hash : Algo) (body : Bytes) (left i : ℕ)
    → ascending_from hash body left i ≡ ok tt
    → (a : ℕ) → i ≤ suc a
    → suc a < i + left
    → compare_bytes
        (take (size hash) (drop (a * size hash) body))
        (take (size hash) (drop (suc a * size hash) body))
      ≡ lt
unfolding ascending_from
ascending_from-next hash body zero i e a l m = absurd (omega (arith, l, m))
ascending_from-next hash body (suc left) i e a l m =
    let (prev, s1, e1) = bind_passed (slice body ((i - 1) * size hash) (i * size hash)) _ tt e in
    let (cur, s2, e2) = bind_passed (slice body (i * size hash) ((i + 1) * size hash)) _ tt e1 in
    let (t, e3) = passed (is_less prev cur) (ascending_from hash body left (i + 1)) e2 in
    elim (Bool-cases (suc a == i)) [
      | inl z ↦ less (row a) (row (suc a)) (
          here z
          ∙ ap (λ x. is_less x (row i))
              (slice_field body _ _ (size hash) prev (stride_before z) s1).1
          ∙ ap (is_less prev) (slice_field body _ _ (size hash) cur (stride i) s2).1
          ∙ t)
      | inr z ↦ ascending_from-next hash body left (i + 1) e3 a (above z) (omega (arith, m))
    ]
  where
    row : ℕ → Bytes
    row n = take (size hash) (drop (n * size hash) body)

    passed :
        (x : Bool) (r : Result Failure (Unit {0}))
        → (if x then r else err corrupt) ≡ ok tt
        → (x ≡ true) × (r ≡ ok tt)
    passed x r f = ground arith

    same : (suc a == i) ≡ true → suc a ≡ i
    same z = ground arith

    before : (suc a == i) ≡ true → a ≡ i - 1
    before z = ground arith

    here : (suc a == i) ≡ true → is_less (row a) (row (suc a)) ≡ is_less (row (i - 1)) (row i)
    here z =
        ap (λ (x : ℕ). is_less (row x) (row (suc a))) (before z)
        ∙ ap (λ (x : ℕ). is_less (row (i - 1)) (row x)) (same z)

    stride : (n : ℕ) → (n + 1) * size hash ≡ n * size hash + size hash
    stride n = add-mul n 1 (size hash) ∙ omega arith

    stride_before : (suc a == i) ≡ true → i * size hash ≡ (i - 1) * size hash + size hash
    stride_before z = ap (λ (x : ℕ). x * size hash) (restored i z) ∙ stride (i - 1)
      where
        restored : (x : ℕ) → (suc a == x) ≡ true → x ≡ x - 1 + 1
        restored x y = ground arith

    above : (suc a == i) ≡ false → i + 1 ≤ suc a
    above z = ground arith
