-- ===== src/Tests/Seek.antt =====
-- The index of a table, at concrete bytes: two records, each a restart point.
use go_ls_remote.Base.{
  err, ◌++◌, take, ℕ, zero, suc, ◌+◌, ◌<◌, ◌≤◌, ◌≡◌, ◌⊎◌, inl, inr, refl, sym, ap, ◌∙◌, [], ◌∷◌,
  Option, none, some, Bytes, ok, arith, ok_injective,
}
use Prim.Native.Nat.{lt}
use mathlib.Core.Path.{subst}
use go_ls_remote.Base.BigEndian.{be}
use go_ls_remote.Base.Compare.{compare_bytes}
use go_ls_remote.Base.Words.{u32}
use go_ls_remote.Reftable.Varint.{decode_varint, varint_loop, guarded}
use go_ls_remote.Reftable.Key.{Key, decode_key, key_parts}
use go_ls_remote.Reftable.Block.{Block, parse_block, restarts_fit, restart}
use go_ls_remote.Reftable.Seek.{
  panicked, search_from, restart_after, records_from, scan_index, descend_index,
}
use go_ls_remote.Reftable.Seek.Scan.{Reaches, at_start, behind, IsIndex}
use go_ls_remote.Reftable.Seek.Restarts.{Answers, descend_index_exact}

abbrev index_bytes : Bytes
index_bytes =
    b'i' ∷ 0 ∷ 0 ∷ 20 ∷ 0 ∷ 8 ∷ b'a' ∷ 10 ∷ 0 ∷ 8 ∷ b'b' ∷ 20 ∷ 0 ∷ 0 ∷ 4 ∷ 0 ∷ 0 ∷ 8 ∷ 0 ∷ 2 ∷ []

abbrev index : Block
index = record {
  block_type = b'i';
  block_len = 20;
  restart_count = 2;
  bytes = index_bytes;
  first_byte_offset = 0;
  table_start = 12;
}

index-parsed : parse_block index_bytes 0 ≡ ok index
index-parsed = unfold parse_block restarts_fit be in refl

abbrev key_of : ℕ → Key
key_of c = record { key = c ∷ []; extra = 0; consumed = 3 }

first_key : decode_key (records_from index 4) [] ≡ ok (key_of b'a')
first_key = unfold decode_key key_parts decode_varint varint_loop guarded in refl

second_key : decode_key (records_from index 8) (b'a' ∷ []) ≡ ok (key_of b'b')
second_key = unfold decode_key key_parts decode_varint varint_loop guarded in refl

second_alone : decode_key (records_from index 8) [] ≡ ok (key_of b'b')
second_alone = unfold decode_key key_parts decode_varint varint_loop guarded in refl

first_position : decode_varint (records_from index 7) ≡ ok (10, 1)
first_position = unfold decode_varint varint_loop guarded in refl

second_position : decode_varint (records_from index 11) ≡ ok (20, 1)
second_position = unfold decode_varint varint_loop guarded in refl

Place : ℕ → Bytes → Type 0
Place cur prev = ((cur ≡ 4) × (prev ≡ [])) ⊎ ((cur ≡ 8) × (prev ≡ b'a' ∷ [])) ⊎ (12 ≤ cur)

places : {cur : ℕ} {prev : Bytes} {last : Option ℕ} → Reaches index cur prev last → Place cur prev
unfolding Place
places at_start = inl (refl, refl)
places (behind {cur} {prev} k p m r l e f) = step (places r)
  where
    moved :
        {c v : ℕ} (from to : ℕ)
        → cur ≡ from
        → key_of c ≡ k
        → Path (ℕ × ℕ) (v, 1) (p, m)
        → u32 (from + u32 (u32 3 + u32 1)) ≡ to
        → u32 (cur + u32 (u32 k.consumed + u32 m)) ≡ to
    moved from to c key read e =
        rw (c, sym (ap (λ (x : Key). x.consumed) key), sym (ap (λ (x : ℕ × ℕ). x.1) read)) e

    step : Place cur prev → Place (u32 (cur + u32 (u32 k.consumed + u32 m))) k.key
    step (inl (c, q)) =
        let key : key_of b'a' ≡ k = ok_injective (sym first_key ∙ (rw (c, q) at e)) in
        let read : Path (ℕ × ℕ) (10, 1) (p, m) =
          ok_injective (sym first_position ∙ (rw (c, sym key) at f)) in
        inr (inl (moved 4 8 c key read refl, sym (ap (λ (x : Key). x.key) key)))
    step (inr (inl (c, q))) =
        let key : key_of b'b' ≡ k = ok_injective (sym second_key ∙ (rw (c, q) at e)) in
        let read : Path (ℕ × ℕ) (20, 1) (p, m) =
          ok_injective (sym second_position ∙ (rw (c, sym key) at f)) in
        inr (inr (omega (arith, moved 8 12 c key read refl)))
    step (inr (inr c)) = absurd (omega (arith, c, l))

second_reached : Reaches index 8 (b'a' ∷ []) (some 10)
second_reached = behind (key_of b'a') 10 1 at_start (omega arith) first_key first_position

-- A restart point.
abbrev Point : ℕ → Type 0
Point at =
    (at < 12)
    × ((prev : Bytes) × (last : Option ℕ) × Reaches index at prev last
        × (decode_key (records_from index at) [] ≡ decode_key (records_from index at) prev))

first_restart : restart index 0 ≡ 4
first_restart = unfold restart be in refl

second_restart : restart index 1 ≡ 8
second_restart = unfold restart be in refl

index-IsIndex : IsIndex index
unfolding Place
index-IsIndex = record { ascends = λ k r l e. ascending k l e (places r); restarts = points }
  where
    ascending :
        {cur : ℕ} {prev : Bytes} (k : Key)
        → cur < 12
        → decode_key (records_from index cur) prev ≡ ok k
        → Place cur prev
        → compare_bytes prev k.key ≡ lt
    ascending k l e (inl (c, q)) =
        rw (q, sym (ap (λ (x : Key). x.key) (ok_injective (sym first_key ∙ (rw (c, q) at e)))))
          (unfold compare_bytes in refl)
    ascending k l e (inr (inl (c, q))) =
        rw (q, sym (ap (λ (x : Key). x.key) (ok_injective (sym second_key ∙ (rw (c, q) at e)))))
          (unfold compare_bytes in refl)
    ascending k l e (inr (inr c)) = absurd (omega (arith, c, l))

    points : (i : ℕ) → i < 2 → Point (restart index i)
    points zero l = subst Point (sym first_restart) (omega arith, ([], none, at_start, refl))
    points (suc zero) l =
        subst Point (sym second_restart)
          (omega arith, (b'a' ∷ [], some 10, second_reached, second_alone ∙ sym second_key))
    points (suc (suc i)) l = absurd (omega (arith, l))

descend_example :
    (descend_index index (b'b' ∷ []) ≡ scan_index index (b'b' ∷ []) 21 4 [] none)
    × ((p : ℕ) → Answers index (b'b' ∷ []) p → descend_index index (b'b' ∷ []) ≡ ok p)
descend_example =
    descend_index_exact index_bytes index (b'b' ∷ []) (omega arith) index-parsed index-IsIndex
      (unfold compare_bytes in refl)

-- A restart offset beyond the records, which `parseBlock` lets through: the slice of its records panics.
abbrev beyond_bytes : Bytes
beyond_bytes = take 17 index_bytes ++ (19 ∷ 0 ∷ 2 ∷ [])

beyond-parsed : parse_block beyond_bytes 0 ≡ ok (record index { bytes = beyond_bytes })
beyond-parsed = unfold parse_block restarts_fit be in refl

beyond-panicked : descend_index (record index { bytes = beyond_bytes }) (b'b' ∷ []) ≡ err panicked
beyond-panicked =
    unfold descend_index search_from restart_after scan_index decode_key key_parts decode_varint
      varint_loop guarded restart be compare_bytes in
    refl
