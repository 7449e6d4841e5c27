-- ===== src/Objfmt/Idx/Opened.antt =====
-- What `OpenIdx` checks of an index.
use go_ls_remote.Base.{
  ℕ, zero, suc, ◌+◌, ◌*◌, ◌≤◌, ◌<◌, ◌≡◌, ◌⊎◌, inl, inr, refl, ap, ◌∙◌, sym, arith, false, not, some,
  Bytes, length, take, drop, drop-drop, take-drop_inside, ltb, ◌==◌, ok, ok_injective, bind_passed,
  guard_passed, Bool-cases, ltb-false,
}
use go_ls_remote.Base.BigEndian.{be}
use go_ls_remote.Objfmt.{truncated, corrupt}
use go_ls_remote.Objfmt.Hash.{Algo}
use go_ls_remote.Objfmt.Idx.{
  Idx, uint32_at, idx_v2_header_len, fanout_size, fanout_at, validate_from, has_idx_v2_magic_prefix,
  least_length, parse_header, open_idx, fanout,
}

-- An index that is long enough for its tables, with a fan-out table that never falls and ends at the
-- number of names.
pub record IsOpened (hash : Algo) (i : Idx) : Type 0 where
  pub known : (i.ver ≡ 1) ⊎ (i.ver ≡ 2)
  pub long_enough : least_length hash i.ver i.count ≤ length i.data_of
  pub rises : (m n : ℕ) → m ≤ n → n < 256 → fanout i m ≤ fanout i n
  pub ends : fanout i 255 ≡ i.count

validate_above :
    (f : Bytes) (count k prev : ℕ)
    → validate_from f count k prev ≡ ok tt
    → (n : ℕ) → k ≤ n
    → n < k + count
    → prev ≤ uint32_at f (n * 4)
unfolding validate_from
validate_above f zero k prev e n l r = absurd (omega arith)
validate_above f (suc count) k prev e n l r =
    let (here, rest) = guard_passed (ltb (uint32_at f (k * 4)) prev) corrupt _ tt e in
    elim (Bool-cases (n == k)) [
      | inl y ↦ reached here (ground arith)
      | inr x ↦
          beyond here (
            validate_above f count (k + 1) (uint32_at f (k * 4)) rest n (ground arith)
              (omega arith))
    ]
  where
    beyond :
        ltb (uint32_at f (k * 4)) prev ≡ false
        → uint32_at f (k * 4) ≤ uint32_at f (n * 4)
        → prev ≤ uint32_at f (n * 4)
    beyond h b = ground arith

    reached : ltb (uint32_at f (k * 4)) prev ≡ false → n ≡ k → prev ≤ uint32_at f (n * 4)
    reached h same = rw same (ground arith)

validate_rises :
    (f : Bytes) (count k prev : ℕ)
    → validate_from f count k prev ≡ ok tt
    → (m n : ℕ) → k ≤ m
    → m ≤ n
    → n < k + count
    → uint32_at f (m * 4) ≤ uint32_at f (n * 4)
unfolding validate_from
validate_rises f zero k prev e m n a b c = absurd (omega arith)
validate_rises f (suc count) k prev e m n a b c =
    let (_, rest) = guard_passed (ltb (uint32_at f (k * 4)) prev) corrupt _ tt e in
    elim (Bool-cases (m == k)) [
      | inr x ↦
          validate_rises f count (k + 1) (uint32_at f (k * 4)) rest m n (ground arith) b
            (omega arith)
      | inl y ↦ elim (Bool-cases (n == m)) [
        | inl z ↦ level (ground arith)
        | inr z ↦ from_start (ground arith) (
            validate_above f count (k + 1) (uint32_at f (k * 4)) rest n (ground arith)
              (omega arith))
      ]
    ]
  where
    level : n ≡ m → uint32_at f (m * 4) ≤ uint32_at f (n * 4)
    level same = rw same (omega arith)

    from_start :
        m ≡ k
        → uint32_at f (k * 4) ≤ uint32_at f (n * 4)
        → uint32_at f (m * 4) ≤ uint32_at f (n * 4)
    from_start same h = rw same h

uint32_at-fanout :
    (d : Bytes) (at n : ℕ)
    → n < 256
    → uint32_at (take fanout_size (drop at d)) (n * 4) ≡ uint32_at d (at + n * 4)
uint32_at-fanout d at n h =
    ap be (take-drop_inside 4 (n * 4) fanout_size (drop at d) (omega arith))
    ∙ ap (λ b. be (take 4 b)) (drop-drop (n * 4) at d)

parse_header-IsOpened :
    (hash algo : Algo) (ver : ℕ) (d : Bytes) (i : Idx)
    → (ver ≡ 1) ⊎ (ver ≡ 2)
    → parse_header hash algo ver d ≡ ok i
    → IsOpened hash i
unfolding parse_header
parse_header-IsOpened hash algo ver d i k e =
    let (_, e1) = guard_passed (ltb (length d) (fanout_at ver + fanout_size)) truncated _ i e in
    let (u, valid, e2) =
      bind_passed (validate_from (take fanout_size (drop (fanout_at ver) d)) 256 0 0) _ i e1 in
    let (long, e3) =
      guard_passed (ltb (length d) (least_length hash ver (uint32_at d (fanout_at ver + 255 * 4))))
        truncated _ i e2 in
    rw (sym (ok_injective e3)) (record {
      known = k;
      long_enough =
          ltb-false (length d) (least_length hash ver (uint32_at d (fanout_at ver + 255 * 4))) long;
      rises = λ m n a b.
          risen m n b (omega arith)
            (validate_rises table 256 0 0 valid m n (omega arith) a (omega arith));
      ends = refl;
    })
  where
    table : Bytes
    table = take fanout_size (drop (fanout_at ver) d)

    risen :
        (m n : ℕ)
        → n < 256
        → m < 256
        → uint32_at table (m * 4) ≤ uint32_at table (n * 4)
        → uint32_at d (fanout_at ver + m * 4) ≤ uint32_at d (fanout_at ver + n * 4)
    risen m n b c h =
        rw
          (
            sym (uint32_at-fanout d (fanout_at ver) m c),
            sym (uint32_at-fanout d (fanout_at ver) n b),
          )
          h

-- An index that `OpenIdx` opens is of version 1 or 2, its file holds the tables for its number of names
-- and the trailer, and its fan-out table never falls and ends at the number of names.
pub open_idx-IsOpened :
    (hash algo : Algo) (d : Bytes) (i : Idx) → open_idx hash algo (some d) ≡ ok i → IsOpened hash i
unfolding open_idx
open_idx-IsOpened hash algo d i e = elim (Bool-cases (has_idx_v2_magic_prefix d)) [
  | inr n ↦ parse_header-IsOpened hash algo 1 d i (inl refl) (rw n at e)
  | inl y ↦
      let (_, e1) = guard_passed (ltb (length d) idx_v2_header_len) truncated _ i (rw y at e) in
      let (_, e2) = guard_passed (not (uint32_at d 4 == 2)) _ _ i e1 in
      parse_header-IsOpened hash algo 2 d i (inr refl) e2
]
