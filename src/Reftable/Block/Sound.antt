-- ===== src/Reftable/Block/Sound.antt =====
-- What `parseBlock` checks of a block.
use go_ls_remote.Base.{
  ℕ, zero, suc, ◌+◌, ◌-◌, ◌*◌, ◌^◌, ◌≤◌, ◌<◌, true, ◌≡◌, [], ◌∷◌, inl, inr, refl, ap, ◌∙◌, sym,
  arith, ltb, ◌==◌, Bytes, length, take, drop, get_or, All, IsByte, All-take, All-drop, ok,
  Bool-cases, guard_passed, not,
}
use go_ls_remote.Base.BigEndian.{be, be-bound_three}
use go_ls_remote.Base.Words.{u32, sub32}
use go_ls_remote.Reftable.{truncated_block}
use go_ls_remote.Reftable.Block.{
  Block, be24, restarts_fit, framed, is_known_type, parse_block, restart, records_end,
}

-- A block that starts at byte `first` of its frame: the restart table, with one entry or more, ends the
-- frame, the records lie between the header of four bytes and the table, and no restart offset lies
-- before the block.
pub record IsBlock (buf : Bytes) (first : ℕ) (b : Block) : Type 0 where
  pub starts : b.first_byte_offset ≡ first
  pub known : is_known_type b.block_type ≡ true
  pub bytes_are : b.bytes ≡ take b.block_len buf
  pub in_buffer : b.block_len ≤ length buf
  pub small : b.block_len < 2 ^ 24
  pub some_restart : 1 ≤ b.restart_count
  pub tiles : b.table_start + 3 * b.restart_count + 2 ≡ b.block_len
  pub room : first + 4 ≤ b.table_start
  pub restarts : (i : ℕ) → i < b.restart_count → first ≤ be24 (drop (b.table_start + 3 * i) b.bytes)

be24-bound : (bs : Bytes) → All IsByte bs → be24 bs < 2 ^ 24
unfolding be
be24-bound [] h = omega arith
be24-bound (a ∷ []) h = omega (arith, h.0)
be24-bound (a ∷ b ∷ []) h = omega (arith, h.0, h.1.0)
be24-bound (a ∷ b ∷ c ∷ bs) h = be-bound_three a b c h.0 h.1.0 h.1.1.0

restarts_sound :
    (bytes : Bytes) (first off count : ℕ)
    → restarts_fit bytes first off count ≡ true
    → (i : ℕ) → i < count
    → first ≤ be24 (drop (off + 3 * i) bytes)
unfolding restarts_fit
restarts_sound bytes first off zero h i l = absurd (omega arith)
restarts_sound bytes first off (suc count) h zero l = at_start (omega arith)
  where
    at_start : (m : off ≡ off + 3 * 0) → first ≤ be24 (drop (off + 3 * 0) bytes)
    at_start m = rw (sym m) (ground arith)
restarts_sound bytes first off (suc count) h (suc i) l =
    further (omega arith)
      (restarts_sound bytes first (off + 3) count (ground arith) i (omega arith))
  where
    further :
        (m : off + 3 + 3 * i ≡ off + 3 * suc i)
        → first ≤ be24 (drop (off + 3 + 3 * i) bytes)
        → first ≤ be24 (drop (off + 3 * suc i) bytes)
    further m g = rw (sym m) g

-- The block that `parseBlock` returns.
abbrev framed_block : Bytes → ℕ → ℕ → ℕ → Block
framed_block buf first t n = record {
  block_type = t;
  block_len = n;
  restart_count = be (drop (n - 2) (take n buf));
  bytes = take n buf;
  first_byte_offset = first;
  table_start = u32 (n - 2 - 3 * be (drop (n - 2) (take n buf)));
}

framed-IsBlock :
    (buf : Bytes) (first t n count : ℕ)
    → count ≡ be (drop (n - 2) (take n buf))
    → n < 2 ^ 24
    → n ≤ length buf
    → is_known_type t ≡ true
    → 1 ≤ count
    → first + 4 + 2 + 3 * count ≤ n
    → restarts_fit (take n buf) first (n - 2 - 3 * count) count ≡ true
    → IsBlock buf first (framed_block buf first t n)
framed-IsBlock buf first t n count c hn l k one room fit = rw (sym c) (record {
  starts = refl;
  known = k;
  bytes_are = refl;
  in_buffer = l;
  small = hn;
  some_restart = one;
  tiles = omega arith;
  room = omega arith;
  restarts =
      λ i h. rw (no_wrap) (restarts_sound (take n buf) first (n - 2 - 3 * count) count fit i h);
})
  where
    no_wrap : u32 (n - 2 - 3 * count) ≡ n - 2 - 3 * count
    no_wrap = omega arith

framed_sound :
    (buf : Bytes) (first t n : ℕ) (b : Block)
    → n < 2 ^ 24
    → n ≤ length buf
    → is_known_type t ≡ true
    → framed buf first t n ≡ ok b
    → IsBlock buf first b
framed_sound buf first t n b hn l k e =
    let count = be (drop (n - 2) (take n buf)) in
    elim (Bool-cases (count == 0)) [
      | inl y ↦ absurd (ground arith)
      | inr some ↦ elim (Bool-cases (ltb n (first + 4 + 2 + 3 * count))) [
        | inl y ↦ absurd (ground arith)
        | inr room ↦ elim (Bool-cases (restarts_fit (take n buf) first (n - 2 - 3 * count) count)) [
          | inr y ↦ absurd (ground arith)
          | inl fit ↦
              let same : framed_block buf first t n ≡ b = ground arith in
              rw (sym same)
                (framed-IsBlock buf first t n count refl hn l k (ground arith) (ground arith) fit)
        ]
      ]
    ]

-- A block that `parseBlock` accepts in a buffer of bytes is framed as `IsBlock` asks; no sum wraps.
pub parse_block-IsBlock :
    (buf : Bytes) (first : ℕ) (b : Block)
    → All IsByte buf
    → first < 2 ^ 24
    → parse_block buf first ≡ ok b
    → IsBlock buf first b
unfolding parse_block
parse_block-IsBlock buf first b h hf e =
    let t = get_or buf first 0 in
    let n = be24 (drop (first + 1) buf) in
    let (_, e1) = guard_passed (ltb (u32 (length buf)) (u32 (first + 4))) truncated_block _ b e in
    let (known, e2) = guard_passed (not (is_known_type t)) _ _ b e1 in
    let (fits, e3) = guard_passed (ltb (u32 (length buf)) n) truncated_block _ b e2 in
    let (_, e4) = guard_passed (ltb n (u32 (first + 9))) truncated_block _ b e3 in
    framed_sound buf first t n b
      (be24-bound (drop (first + 1) buf) (All-drop IsByte (first + 1) buf h)) (ground arith)
      (ground arith) e4

pub records_end-IsBlock :
    (buf : Bytes) (first : ℕ) (b : Block) → IsBlock buf first b → records_end b ≡ b.table_start
records_end-IsBlock buf first b w = omega (arith, w.tiles, w.small)

restart-IsBlock :
    (buf : Bytes) (first : ℕ) (b : Block)
    → All IsByte buf
    → IsBlock buf first b
    → (i : ℕ) → i < b.restart_count
    → restart b i + first ≡ be24 (drop (b.table_start + 3 * i) b.bytes)
unfolding restart
restart-IsBlock buf first b h w i l =
    ap (λ (n : ℕ). sub32 (be24 (drop n b.bytes)) b.first_byte_offset + first) no_wrap
    ∙ omega (
      arith,
      w.starts,
      w.restarts i l,
      be24-bound (drop (b.table_start + 3 * i) b.bytes)
          (All-drop IsByte (b.table_start + 3 * i) b.bytes kept),
    )
  where
    no_wrap : u32 (b.table_start + u32 (3 * i)) ≡ b.table_start + 3 * i
    no_wrap = omega (arith, w.tiles, w.small, l)

    kept : All IsByte b.bytes
    kept = rw (w.bytes_are) (All-take IsByte b.block_len buf h)

-- A block that `parseBlock` accepts in a buffer of bytes lies in the buffer: behind its header of four
-- bytes come the records and then the restart table, with one entry or more, which ends it. The end of
-- the records that the walks compute is the start of the table, and each restart offset is the entry
-- of the table less the block's first byte: no uint32 wraps.
pub parse_block_bounds :
    (buf : Bytes) (first : ℕ) (b : Block)
    → All IsByte buf
    → first < 2 ^ 24
    → parse_block buf first ≡ ok b
    → IsBlock buf first b
      × (records_end b ≡ b.table_start)
      × ((i : ℕ)
          → i < b.restart_count
          → restart b i + first ≡ be24 (drop (b.table_start + 3 * i) b.bytes))
parse_block_bounds buf first b h hf e =
    let w = parse_block-IsBlock buf first b h hf e in
    (w, records_end-IsBlock buf first b w, restart-IsBlock buf first b h w)
