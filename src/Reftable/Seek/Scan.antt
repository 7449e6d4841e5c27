-- ===== src/Reftable/Seek/Scan.antt =====
-- The scan of an index block skips the records before the probe.
use go_ls_remote.Base.{
  ℕ, zero, suc, ◌+◌, ◌/◌, ◌≤◌, ◌<◌, ◌⊎◌, Bool, true, false, ◌≡◌, ◌≢◌, inl, inr, refl, ap, ◌∙◌, [],
  arith, ltb, Bytes, ok, err, Bool-cases, Result-cases, Option, none, some,
}
use Prim.Native.Nat.{Ordering, lt, eq, gt}
use go_ls_remote.Base.Adjacent.{compare_bytes_trans}
use go_ls_remote.Base.Compare.{compare_bytes, compare_bytes-eq}
use go_ls_remote.Base.Words.{u32}
use go_ls_remote.Reftable.Varint.{decode_varint}
use go_ls_remote.Reftable.Key.{Key, decode_key}
use go_ls_remote.Reftable.Block.{Block, restart, records_end}
use go_ls_remote.Reftable.Seek.{
  starved, search_from, is_after, is_before, records_from, restart_after, scan_index,
}

-- The places that a scan from the start comes to, with the key and the block position of the record before.
pub data Reaches (b : Block) : ℕ → Bytes → Option ℕ → Type 0 where
  at_start : Reaches b 4 [] none
  behind :
      {cur : ℕ} {prev : Bytes} {last : Option ℕ} (k : Key) (p m : ℕ)
      → Reaches b cur prev last
      → cur < records_end b
      → decode_key (records_from b cur) prev ≡ ok k
      → decode_varint (records_from b (cur + u32 k.consumed)) ≡ ok (p, m)
      → Reaches b (u32 (cur + u32 (u32 k.consumed + u32 m))) k.key (some p)

-- The keys of an index block ascend, and each restart point is a record with a whole key.
pub record IsIndex (b : Block) : Type 0 where
  pub ascends :
      {cur : ℕ} {prev : Bytes} {last : Option ℕ} (k : Key)
      → Reaches b cur prev last
      → cur < records_end b
      → decode_key (records_from b cur) prev ≡ ok k
      → compare_bytes prev k.key ≡ lt
  pub restarts :
      (i : ℕ)
      → i < b.restart_count
      → (restart b i < records_end b)
        × ((prev : Bytes) × (last : Option ℕ) × Reaches b (restart b i) prev last
            × (decode_key (records_from b (restart b i)) []
                ≡ decode_key (records_from b (restart b i)) prev))

is_before-lt : (a c : Bytes) → is_before a c ≡ true → compare_bytes a c ≡ lt
is_before-lt a c e = order (compare_bytes a c) e
  where
    order : (o : Ordering) → (elim o [ lt ↦ true | _ ↦ false ]) ≡ true → o ≡ lt
    order lt f = refl
    order eq f = absurd (cc)
    order gt f = absurd (cc)

pub is_after-cases : (a c : Bytes) → is_after a c ≡ false → (compare_bytes a c ≡ lt) ⊎ (a ≡ c)
is_after-cases a c e = order (compare_bytes a c) refl e
  where
    order :
        (o : Ordering)
        → compare_bytes a c ≡ o
        → (elim o [ gt ↦ true | _ ↦ false ]) ≡ false
        → (compare_bytes a c ≡ lt) ⊎ (a ≡ c)
    order lt g f = inl g
    order eq g f = inr (compare_bytes-eq a c g)
    order gt g f = absurd (cc)

module _ (b : Block) (probe : Bytes) where
  -- More fuel changes no result.
  pub scan_more :
      (fuel d cur : ℕ) (prev : Bytes) (last : Option ℕ)
      → scan_index b probe fuel cur prev last ≢ err starved
      → scan_index b probe (d + fuel) cur prev last ≡ scan_index b probe fuel cur prev last
  unfolding scan_index
  scan_more zero d cur prev last h = absurd (h refl)
  scan_more (suc fuel) d cur prev last h =
      ap (λ n. scan_index b probe n cur prev last) (sum d fuel)
      ∙ elim (Bool-cases (ltb cur (records_end b))) [
        | inr n ↦ rw n refl
        | inl y ↦ elim (Result-cases (decode_key (records_from b cur) prev)) [
          | inr (e, f) ↦ rw (y, f) refl
          | inl (k, f) ↦
              elim (Result-cases (decode_varint (records_from b (cur + u32 k.consumed)))) [
                | inr (e, g) ↦ rw (y, f, g) refl
                | inl ((p, m), g) ↦ elim (Bool-cases (is_before k.key probe)) [
                  | inr n ↦ rw (y, f, g, n) refl
                  | inl z ↦
                      rw (y, f, g, z)
                        (scan_more fuel d (u32 (cur + u32 (u32 k.consumed + u32 m))) k.key (some p)
                          (rw (y, f, g, z) at h))
                ]
              ]
        ]
      ]
    where
      sum : (d fuel : ℕ) → d + suc fuel ≡ suc (d + fuel)
      sum d fuel = omega arith

  -- A scan skips the records whose keys are before the probe.
  pub skip :
      {cur : ℕ} {prev : Bytes} {last : Option ℕ}
      → IsIndex b
      → compare_bytes [] probe ≡ lt
      → Reaches b cur prev last
      → compare_bytes prev probe ≡ lt
      → (d : ℕ) × ((fuel : ℕ)
          → scan_index b probe (d + fuel) 4 [] none ≡ scan_index b probe fuel cur prev last)
  unfolding scan_index
  skip w n at_start h = (0, λ fuel. ap (λ f. scan_index b probe f 4 [] none) (zero_sum fuel))
    where
      zero_sum : (f : ℕ) → 0 + f ≡ f
      zero_sum f = omega arith
  skip w n (behind {cur} {prev} {last} k p m r l e f) h =
      let (d, same) = skip w n r (compare_bytes_trans prev k.key probe (w.ascends k r l e) h) in
      (
        d + 1,
        λ fuel.
            ap (λ x. scan_index b probe x 4 [] none) (sum d fuel)
            ∙ same (suc fuel)
            ∙ rw (inside l, e, f, before k.key h) refl,
      )
    where
      sum : (d fuel : ℕ) → d + 1 + fuel ≡ d + suc fuel
      sum d fuel = omega arith

      inside : {c x : ℕ} → c < x → ltb c x ≡ true
      inside l = ground arith

      before : (key : Bytes) → compare_bytes key probe ≡ lt → is_before key probe ≡ true
      before key h = rw (h, is_before) refl

  -- Where the test never panics, the search gives 0 or a place behind one where the test does not hold.
  pub search_from-found :
      (fuel i j count : ℕ)
      → ((n : ℕ) → n < count → (holds : Bool) × (restart_after b probe n ≡ ok holds))
      → j ≤ count
      → (i ≡ 0) ⊎ ((n : ℕ) × (i ≡ suc n) × (n < count) × (restart_after b probe n ≡ ok false))
      → (found : ℕ) × (search_from (restart_after b probe) fuel i j ≡ ok found)
        × ((found ≡ 0)
            ⊎ ((n : ℕ) × (found ≡ suc n) × (n < count) × (restart_after b probe n ≡ ok false)))
  unfolding search_from
  search_from-found zero i j count t u v = (i, refl, v)
  search_from-found (suc fuel) i j count t u v = elim (Bool-cases (ltb i j)) [
    | inr n ↦ (i, rw n refl, v)
    | inl y ↦
        let (holds, e) = t ((i + j) / 2) (below i y) in
        elim (Bool-cases holds) [
          | inl z ↦
              let (found, f, g) = search_from-found fuel i ((i + j) / 2) count t (within i y) v in
              (found, rw (y, e, z) f, g)
          | inr z ↦
              let (found, f, g) =
                search_from-found fuel ((i + j) / 2 + 1) j count t u
                  (inr ((i + j) / 2, omega arith, below i y, e ∙ ap ok z)) in
              (found, rw (y, e, z) f, g)
        ]
  ]
    where
      below : (i : ℕ) → ltb i j ≡ true → (i + j) / 2 < count
      below i y = ground (arith, u)

      within : (i : ℕ) → ltb i j ≡ true → (i + j) / 2 ≤ count
      within i y = ground (arith, u)
