-- ===== src/Reftable/RefRecord/Exact.antt =====
-- `decodeRefRecord` against the layout of a record.
use go_ls_remote.Base.{
  ℕ, zero, suc, ◌+◌, ◌*◌, ◌-◌, ◌^◌, ◌≤◌, ◌<◌, ◌≡◌, ◌↔◌, ap, ◌∙◌, sym, [], arith, ltb, if◌then◌else◌,
  Bytes, IsByte, All, All-drop, length, take, drop, length-drop, Result, ok, err, Result-cases, inl,
  inr, ◌>>=◌,
}
use go_ls_remote.Objfmt.Hash.{Algo, size, zero_id}
use go_ls_remote.Reftable.{Error, update_index_overflow}
use go_ls_remote.Reftable.Key.{Key, decode_key}
use go_ls_remote.Reftable.Key.Exact.{
  ReadsWord, decode_varint-ReadsWord, ReadsWord-bounds, IsKey, decode_key_exact, decode_key_bounds,
}
use go_ls_remote.Reftable.RefRecord.{
  RefRecord, Decoded, symref_target, decode_value, decode_ref_record,
}
use go_ls_remote.Reftable.Varint.{decode_varint}

module _ (algo : Algo) where
  -- The value of each type: nothing, an id, an id and its peel, or a symref target with its length.
  abbrev pub IsValue : ℕ → ℕ → Bytes → RefRecord → ℕ → Type 0
  IsValue zero used rest r n =
      (r.target ≡ []) × (r.value ≡ zero_id algo) × (r.peeled ≡ zero_id algo) × (n ≡ used)
  IsValue (suc zero) used rest r n =
      (size algo ≤ length rest)
      × (r.target ≡ [])
      × (r.value ≡ take (size algo) rest)
      × (r.peeled ≡ zero_id algo)
      × (n ≡ used + size algo)
  IsValue (suc (suc zero)) used rest r n =
      (2 * size algo ≤ length rest)
      × (r.target ≡ [])
      × (r.value ≡ take (size algo) rest)
      × (r.peeled ≡ take (size algo) (drop (size algo) rest))
      × (n ≡ used + 2 * size algo)
  IsValue (suc (suc (suc zero))) used rest r n =
      (len : ℕ) × (n3 : ℕ) × ReadsWord rest len n3
      × (len ≤ length (drop n3 rest))
      × (r.target ≡ take len (drop n3 rest))
      × (r.value ≡ zero_id algo)
      × (r.peeled ≡ zero_id algo)
      × (n ≡ used + (n3 + len))
  IsValue _ used rest r n = ⊥

  -- The key, the distance from the smallest update index, and the value.
  pub record IsRefRecord (buf prev : Bytes) (min : ℕ) (r : RefRecord) (n : ℕ) : Type 0 where
    pub key : Key
    pub delta : ℕ
    pub n2 : ℕ
    pub is_key : IsKey buf prev key
    pub delta_number : ReadsWord (drop key.consumed buf) delta n2
    pub no_wrap : min + delta < 2 ^ 64
    pub name_is : r.name ≡ key.key
    pub type_is : r.value_type ≡ key.extra
    pub value_is : IsValue key.extra (key.consumed + n2) (drop n2 (drop key.consumed buf)) r n

  Carries : Key → RefRecord → Type 0
  Carries k r = (r.name ≡ k.key) × (r.value_type ≡ k.extra)

  IsTarget : ℕ → ℕ → ℕ → Bytes → RefRecord → ℕ → Type 0
  IsTarget len n3 used rest r n =
      (len ≤ length (drop n3 rest))
      × (r.target ≡ take len (drop n3 rest))
      × (r.value ≡ zero_id algo)
      × (r.peeled ≡ zero_id algo)
      × (n ≡ used + (n3 + len))

  symref_target_iff :
      (k : Key) (used : ℕ) (rest : Bytes) (len n3 : ℕ) (r : RefRecord) (n : ℕ)
      → (symref_target algo k used rest len n3 ≡ ok (r, n))
        ↔ (Carries k r × IsTarget len n3 used rest r n)
  unfolding Carries IsTarget
  symref_target_iff k used rest len n3 r n = ground arith

  IsValue-sound :
      (t : ℕ) (k : Key) (used : ℕ) (rest : Bytes) (r : RefRecord) (n : ℕ)
      → All IsByte rest
      → decode_value algo t k used rest ≡ ok (r, n)
      → Carries k r × IsValue t used rest r n
  unfolding decode_value Carries IsTarget
  IsValue-sound zero k used rest r n h e = ground arith
  IsValue-sound (suc zero) k used rest r n h e = ground arith
  IsValue-sound (suc (suc zero)) k used rest r n h e = ground arith
  IsValue-sound (suc (suc (suc zero))) k used rest r n h e =
      elim (Result-cases (decode_varint rest)) [
        | inr (x, r1) ↦ absurd (ground arith)
        | inl ((len, n3), r1) ↦
            let parts = (symref_target_iff k used rest len n3 r n).0 (
              sym (
                unfold decode_value in
                ap (λ m. m >>= λ (a, b). symref_target algo k used rest a b) r1)
              ∙ e) in
            (
              parts.0,
              (
                len,
                n3,
                (decode_varint-ReadsWord rest len n3 h).0 r1,
                parts.1.0,
                parts.1.1,
                parts.1.2,
                parts.1.3,
                parts.1.4,
              ),
            )
      ]
  IsValue-sound (suc (suc (suc (suc t)))) k used rest r n h e = absurd (cc)

  value_complete :
      (t : ℕ) (k : Key) (used : ℕ) (rest : Bytes) (r : RefRecord) (n : ℕ)
      → All IsByte rest
      → Carries k r
      → IsValue t used rest r n
      → decode_value algo t k used rest ≡ ok (r, n)
  unfolding decode_value Carries IsTarget
  value_complete zero k used rest r n h c v = ground arith
  value_complete (suc zero) k used rest r n h c v = ground arith
  value_complete (suc (suc zero)) k used rest r n h c v = ground arith
  value_complete (suc (suc (suc zero))) k used rest r n h c (len, n3, word, v0, v1, v2, v3, v4) =
      ap (λ m. m >>= λ (a, b). symref_target algo k used rest a b)
        ((decode_varint-ReadsWord rest len n3 h).1 word)
      ∙ (symref_target_iff k used rest len n3 r n).1 (c, (v0, v1, v2, v3, v4))
  value_complete (suc (suc (suc (suc t)))) k used rest r n h c v = elim v [ ]

  abbrev behind : ℕ → Key → ℕ → ℕ → Bytes → Result Error Decoded
  behind min k delta n2 buf =
      if ltb (2 ^ 64 - 1 - min) delta
      then err update_index_overflow
      else decode_value algo k.extra k (k.consumed + n2) (drop n2 (drop k.consumed buf))

  record_step :
      (buf prev : Bytes) (min : ℕ) (k : Key) (delta n2 : ℕ)
      → decode_key buf prev ≡ ok k
      → decode_varint (drop k.consumed buf) ≡ ok (delta, n2)
      → decode_ref_record algo buf prev min ≡ behind min k delta n2 buf
  unfolding decode_ref_record
  record_step buf prev min k delta n2 e1 e2 =
      ap
        (λ (m : Result Error Key).
          m >>= λ j. decode_varint (drop j.consumed buf) >>= λ (d, m2). behind min j d m2 buf)
        e1
      ∙ ap (λ (m : Result Error (ℕ × ℕ)). m >>= λ (d, m2). behind min k d m2 buf) e2

  behind_iff :
      (buf : Bytes) (min : ℕ) (k : Key) (delta n2 : ℕ) (out : Decoded)
      → min < 2 ^ 64
      → (behind min k delta n2 buf ≡ ok out) ↔ (
          (min + delta < 2 ^ 64)
          × (decode_value algo k.extra k (k.consumed + n2) (drop n2 (drop k.consumed buf))
              ≡ ok out))
  behind_iff buf min k delta n2 out hm = ground arith

  record_sound :
      (buf prev : Bytes) (min : ℕ) (r : RefRecord) (n : ℕ)
      → All IsByte buf
      → min < 2 ^ 64
      → decode_ref_record algo buf prev min ≡ ok (r, n)
      → IsRefRecord buf prev min r n
  unfolding Carries
  record_sound buf prev min r n h hm e = elim (Result-cases (decode_key buf prev)) [
    | inr (x, e1) ↦ absurd (unfold decode_ref_record in ground arith)
    | inl (k, e1) ↦ elim (Result-cases (decode_varint (drop k.consumed buf))) [
      | inr (x, e2) ↦ absurd (unfold decode_ref_record in ground arith)
      | inl ((delta, n2), e2) ↦
          let at =
            (behind_iff buf min k delta n2 (r, n) hm).0
              (sym (record_step buf prev min k delta n2 e1 e2) ∙ e) in
          let rest = drop n2 (drop k.consumed buf) in
          let v =
            IsValue-sound k.extra k (k.consumed + n2) rest r n
              (All-drop IsByte n2 (drop k.consumed buf) (All-drop IsByte k.consumed buf h)) at.1 in
          record {
            key = k;
            delta = delta;
            n2 = n2;
            is_key = (decode_key_exact buf prev k h).0 e1;
            delta_number =
                (decode_varint-ReadsWord (drop k.consumed buf) delta n2
                    (All-drop IsByte k.consumed buf h)).0
                  e2;
            no_wrap = at.0;
            name_is = v.0.0;
            type_is = v.0.1;
            value_is = v.1;
          }
    ]
  ]

  record_complete :
      (buf prev : Bytes) (min : ℕ) (r : RefRecord) (n : ℕ)
      → All IsByte buf
      → min < 2 ^ 64
      → IsRefRecord buf prev min r n
      → decode_ref_record algo buf prev min ≡ ok (r, n)
  unfolding Carries
  record_complete buf prev min r n h hm i =
      let k = i.key in
      let rest = drop i.n2 (drop k.consumed buf) in
      record_step buf prev min k i.delta i.n2 ((decode_key_exact buf prev k h).1 i.is_key) (
        (decode_varint-ReadsWord (drop k.consumed buf) i.delta i.n2
            (All-drop IsByte k.consumed buf h)).1
          i.delta_number)
      ∙ (behind_iff buf min k i.delta i.n2 (r, n) hm).1 (
        i.no_wrap,
        value_complete k.extra k (k.consumed + i.n2) rest r n
            (All-drop IsByte i.n2 (drop k.consumed buf) (All-drop IsByte k.consumed buf h))
            (i.name_is, i.type_is) i.value_is,
      )

  -- On bytes, `decodeRefRecord` returns a record and a length exactly when the buffer holds the layout of
  -- that record in that length behind the key before it: a value type of at most 3 with the value of the type,
  -- and an update index that fits a uint64.
  pub decode_ref_record_exact :
      (buf prev : Bytes) (min : ℕ) (r : RefRecord) (n : ℕ)
      → All IsByte buf
      → min < 2 ^ 64
      → (decode_ref_record algo buf prev min ≡ ok (r, n)) ↔ IsRefRecord buf prev min r n
  decode_ref_record_exact buf prev min r n h hm =
      (record_sound buf prev min r n h hm, record_complete buf prev min r n h hm)

  value_bounds :
      (t used : ℕ) (rest : Bytes) (r : RefRecord) (n : ℕ)
      → IsValue t used rest r n
      → (used ≤ n) × (n ≤ used + length rest)
  value_bounds zero used rest r n v = omega arith
  value_bounds (suc zero) used rest r n v = omega arith
  value_bounds (suc (suc zero)) used rest r n v = omega arith
  value_bounds (suc (suc (suc zero))) used rest r n (len, n3, word, v0, v1, v2, v3, v4) =
      omega (arith, ReadsWord-bounds rest len n3 word, length-drop n3 rest, v0, v4)
  value_bounds (suc (suc (suc (suc t)))) used rest r n v = elim v [ ]

  -- A record takes some bytes of the buffer, and no more than there are.
  pub decode_ref_record_bounds :
      (buf prev : Bytes) (min : ℕ) (r : RefRecord) (n : ℕ)
      → All IsByte buf
      → min < 2 ^ 64
      → decode_ref_record algo buf prev min ≡ ok (r, n)
      → (1 ≤ n) × (n ≤ length buf)
  decode_ref_record_bounds buf prev min r n h hm e =
      let i = record_sound buf prev min r n h hm e in
      let k = i.key in
      let rest = drop i.n2 (drop k.consumed buf) in
      omega (
        arith,
        decode_key_bounds buf prev k h ((decode_key_exact buf prev k h).1 i.is_key),
        ReadsWord-bounds (drop k.consumed buf) i.delta i.n2 i.delta_number,
        value_bounds k.extra (k.consumed + i.n2) rest r n i.value_is,
        length-drop k.consumed buf,
        length-drop i.n2 (drop k.consumed buf),
      )
