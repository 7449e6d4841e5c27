-- ===== src/Reftable/Seek/Restarts.antt =====
-- The jump through the restart table of an index block changes no answer.
use go_ls_remote.Base.{
  ℕ, suc, ◌+◌, ◌-◌, ◌^◌, ◌≤◌, ◌<◌, ◌⊎◌, Bool, true, false, ◌≡◌, inl, inr, refl, ap, ◌∙◌, sym, [],
  arith, ltb, ◌==◌, Bytes, All, IsByte, All-take, ok, Result-cases, ok_injective, Option, none,
  some,
}
use Prim.Native.Nat.{lt}
use go_ls_remote.Base.Adjacent.{compare_bytes_trans}
use go_ls_remote.Base.Compare.{compare_bytes}
use go_ls_remote.Base.Words.{u32}
use go_ls_remote.Reftable.Varint.{decode_varint}
use go_ls_remote.Reftable.Key.{Key, decode_key}
use go_ls_remote.Reftable.Block.{Block, parse_block, restart, records_end}
use go_ls_remote.Reftable.Block.Sound.{IsBlock, parse_block-IsBlock, records_end-IsBlock}
use go_ls_remote.Reftable.Seek.{
  is_after, is_before, records_from, restart_after, scan_index, scan_start, descend_index,
}
use go_ls_remote.Reftable.Seek.Delivers.{Any, Delivers-never_starved}
use go_ls_remote.Reftable.Seek.Index.{scan_index-Delivers}
use go_ls_remote.Reftable.Seek.Scan.{
  Reaches, IsIndex, is_after-cases, scan_more, skip, search_from-found,
}

-- What a record of the block that a scan comes to answers for a probe: it is the first whose key is not
-- before the probe, or the last of all.
pub data Answers (b : Block) (probe : Bytes) : ℕ → Type 0 where
  first_not_before :
      {cur : ℕ} {prev : Bytes} {last : Option ℕ} (k : Key) (p m : ℕ)
      → Reaches b cur prev last
      → compare_bytes prev probe ≡ lt
      → cur < records_end b
      → decode_key (records_from b cur) prev ≡ ok k
      → decode_varint (records_from b (cur + u32 k.consumed)) ≡ ok (p, m)
      → is_before k.key probe ≡ false
      → Answers b probe p
  last_of_all :
      {cur : ℕ} {prev : Bytes} (p : ℕ)
      → Reaches b cur prev (some p)
      → compare_bytes prev probe ≡ lt
      → records_end b ≤ cur
      → Answers b probe p

module _ (buf : Bytes) (b : Block) (probe : Bytes) (hb : All IsByte buf)
    (parsed : parse_block buf 0 ≡ ok b) (w : IsIndex b)
    (some_probe : compare_bytes [] probe ≡ lt) where
  block : IsBlock buf 0 b
  block = parse_block-IsBlock buf 0 b hb (omega arith) parsed

  block-IsByte : All IsByte b.bytes
  block-IsByte = rw block.bytes_are (All-take IsByte b.block_len buf hb)

  end-bound : records_end b < 2 ^ 24
  end-bound = omega (arith, records_end-IsBlock buf 0 b block, block.tiles, block.small)

  end_inside : records_end b < suc b.block_len
  end_inside = omega (arith, records_end-IsBlock buf 0 b block, block.tiles)

  enough :
      (d : ℕ)
      → scan_index b probe (d + suc b.block_len) 4 [] none
        ≡ scan_index b probe (suc b.block_len) 4 [] none
  enough d = scan_more b probe (suc b.block_len) d 4 [] none (
      Delivers-never_starved Any _ (
        scan_index-Delivers b block-IsByte end-bound probe (suc b.block_len) 4 [] none
          (omega (arith, end_inside)) (omega arith)))

  answered : (p : ℕ) → Answers b probe p → scan_index b probe (suc b.block_len) 4 [] none ≡ ok p
  unfolding scan_index
  answered p (first_not_before {cur} {prev} {last} k _ m r h l e f n) =
      let (d, same) = skip b probe w some_probe r h in
      sym (enough d) ∙ same (suc b.block_len) ∙ rw (inside, e, f, n) refl
    where
      inside : ltb cur (records_end b) ≡ true
      inside = ground arith
  answered p (last_of_all {cur} {prev} _ r h l) =
      let (d, same) = skip b probe w some_probe r h in
      sym (enough d) ∙ same (suc b.block_len) ∙ rw (outside) refl
    where
      outside : ltb cur (records_end b) ≡ false
      outside = ground arith

  not_beyond : (i : ℕ) → restart b i < records_end b → ltb (records_end b) (restart b i) ≡ false
  not_beyond i l = ground arith

  restart_tested :
      (i : ℕ) → i < b.restart_count → (holds : Bool) × (restart_after b probe i ≡ ok holds)
  unfolding restart_after
  restart_tested i l =
      let (in_block, _) = w.restarts i l in
      elim (Result-cases (decode_key (records_from b (restart b i)) [])) [
        | inr (x, e) ↦ (true, rw (not_beyond i in_block, e) refl)
        | inl (k, e) ↦ (is_after k.key probe, rw (not_beyond i in_block, e) refl)
      ]

  -- The key of a restart point whose test does not hold.
  restart_key :
      (i : ℕ)
      → i < b.restart_count
      → restart_after b probe i ≡ ok false
      → (k : Key) × (decode_key (records_from b (restart b i)) [] ≡ ok k)
        × ((compare_bytes k.key probe ≡ lt) ⊎ (k.key ≡ probe))
  unfolding restart_after
  restart_key i l h =
      let (in_block, _) = w.restarts i l in
      elim (Result-cases (decode_key (records_from b (restart b i)) [])) [
        | inr (x, e) ↦ absurd (other (ok_injective (rw (not_beyond i in_block, e) at h)))
        | inl (k, e) ↦
            (k, e, is_after-cases k.key probe (ok_injective (rw (not_beyond i in_block, e) at h)))
      ]
    where
      other : true ≡ false → ⊥
      other e = absurd (cc)

  from_restart :
      (i : ℕ)
      → i < b.restart_count
      → restart_after b probe i ≡ ok false
      → scan_index b probe (suc b.block_len) (restart b i) [] none
        ≡ scan_index b probe (suc b.block_len) 4 [] none
  unfolding scan_index
  from_restart i l h =
      let (in_block, (prev, last, r, whole)) = w.restarts i l in
      let (k, e, order) = restart_key i l h in
      let up = w.ascends k r in_block (sym whole ∙ e) in
      let (d, same) = skip b probe w some_probe r (before prev k.key up order) in
      rw (inside in_block, whole) refl ∙ sym (same (suc b.block_len)) ∙ enough d
    where
      inside : restart b i < records_end b → ltb (restart b i) (records_end b) ≡ true
      inside x = ground arith

      before :
          (prev key : Bytes)
          → compare_bytes prev key ≡ lt
          → (compare_bytes key probe ≡ lt) ⊎ (key ≡ probe)
          → compare_bytes prev probe ≡ lt
      before prev key up (inl l) = compare_bytes_trans prev key probe up l
      before prev key up (inr e) = ap (compare_bytes prev) (sym e) ∙ up

  -- In an index block of a file that `parseBlock` reads, whose keys ascend and whose restart points are records with
  -- whole keys, `descendIndex` gives for a probe that is not empty what the scan of all its records
  -- gives: the block position of the first record whose key is not before the probe, or else of the last.
  pub descend_index_exact :
      (descend_index b probe ≡ scan_index b probe (suc b.block_len) 4 [] none)
      × ((p : ℕ) → Answers b probe p → descend_index b probe ≡ ok p)
  unfolding descend_index
  descend_index_exact =
      let (found, e, place) =
        search_from-found b probe b.restart_count 0 b.restart_count b.restart_count restart_tested
          (omega arith) (inl refl) in
      let same = started found place in (rw e same, λ p a. rw e (same ∙ answered p a))
    where
      started :
          (found : ℕ)
          → (found ≡ 0)
            ⊎ ((n : ℕ) × (found ≡ suc n)
                × (n < b.restart_count)
                × (restart_after b probe n ≡ ok false))
          → scan_index b probe (suc b.block_len) (scan_start b found) [] none
            ≡ scan_index b probe (suc b.block_len) 4 [] none
      started found (inl z) = rw z refl
      started found (inr (n, z, l, h)) =
          ap (λ x. scan_index b probe (suc b.block_len) x [] none) (at_restart n z)
          ∙ from_restart n l h
        where
          at_restart : (n : ℕ) → found ≡ suc n → scan_start b found ≡ restart b n
          at_restart n z = rw (z, not_zero n, before n) refl
            where
              not_zero : (n : ℕ) → (suc n == 0) ≡ false
              not_zero n = ground arith

              before : (n : ℕ) → suc n - 1 ≡ n
              before n = omega arith
