-- ===== src/Objfmt/PackHeader/RoundTrip.antt =====
-- The header of an object as a pack holds it, and what is read of it.
use go_ls_remote.Base.{
  ℕ, ◌+◌, ◌-◌, ◌^◌, ◌≤◌, ◌<◌, ◌≡◌, refl, ap, ◌∙◌, sym, false, ◌++◌, arith, ltb, leb, ◌||◌, ◌==◌,
  ltb_at_least, if◌then◌else◌, Bytes, length, take, drop, take-append_self, drop-append_self,
  append_assoc, length-append, Result, ok, err,
}
use go_ls_remote.Objfmt.{Error, truncated}
use go_ls_remote.Objfmt.Hash.{Algo, size, zero_id}
use go_ls_remote.Objfmt.PackHeader.{ObjectHeader, pack_header_peek, typed_header, read_header}
use go_ls_remote.OffsetVarint.{IsVarint, value}
use go_ls_remote.Objfmt.PackHeader.Offset.{read_ofs_base-varint, length-varint}
use go_ls_remote.Objfmt.PackHeader.Size.{
  size_bytes, length-size_bytes, take-append_long, window, read_header_lem,
}

-- An object that is whole, of one of the types 1 to 4, or a delta against the object that lies by an offset, which
-- these bytes encode, in front of it, or against the object of an id.
pub data Entry : Type 0 where
  whole : ℕ → Entry
  ofs_delta : Bytes → Entry
  ref_delta : Bytes → Entry

-- The entry at `at`: an offset is positive and leads to a place behind the first byte of the pack.
abbrev pub IsEntry : Algo → ℕ → Entry → Type 0
IsEntry hash at (whole t) = (1 ≤ t) × (t ≤ 4)
IsEntry hash at (ofs_delta s) = IsVarint s × (1 ≤ value s) × (value s < at) × (at < 2 ^ 63)
IsEntry hash at (ref_delta id) = length id ≡ size hash

abbrev pub entry_bytes : Entry → ℕ → Bytes
entry_bytes (whole t) n = size_bytes t n
entry_bytes (ofs_delta s) n = size_bytes 6 n ++ s
entry_bytes (ref_delta id) n = size_bytes 7 n ++ id

-- The header of the entry at `at` whose body starts at `body`.
abbrev pub entry_header : Algo → ℕ → Entry → ℕ → ℕ → ObjectHeader
entry_header hash at (ofs_delta s) n body = record {
  type_code = 6;
  ofs_base = at - value s;
  ref_base = zero_id hash;
  size_of = n;
  body_at = body;
}
entry_header hash at (whole t) n body = record {
  type_code = t;
  ofs_base = 0;
  ref_base = zero_id hash;
  size_of = n;
  body_at = body;
}
entry_header hash at (ref_delta id) n body = record {
  type_code = 7;
  ofs_base = 0;
  ref_base = id;
  size_of = n;
  body_at = body;
}

module _ (hash : Algo) where
  typed_header-whole :
      (buf : Bytes) (at t n used : ℕ)
      → 1 ≤ t
      → t ≤ 4
      → typed_header hash buf at t n used ≡ ok (entry_header hash at (whole t) n (at + used))
  unfolding typed_header
  typed_header-whole buf at t n used h1 h2 = ground arith

  typed_header-ref_delta :
      (head id more : Bytes) (at n : ℕ)
      → length id ≡ size hash
      → typed_header hash (head ++ (id ++ more)) at 7 n (length head)
        ≡ ok (entry_header hash at (ref_delta id) n (at + (length head + size hash)))
  unfolding typed_header
  typed_header-ref_delta head id more at n h =
      let found : Bytes → Result Error ObjectHeader =
        λ s. ok (entry_header hash at (ref_delta s) n (at + (length head + size hash))) in
      ap
        (λ b.
          if b
          then err truncated
          else found (take (size hash) (drop (length head) (head ++ (id ++ more)))))
        long
      ∙ ap (λ s. found (take (size hash) s)) (drop-append_self head (id ++ more))
      ∙ ap (λ k. found (take k (id ++ more))) (sym h)
      ∙ ap found (take-append_self id more)
    where
      long : ltb (length (head ++ (id ++ more))) (length head + size hash) ≡ false
      long =
          ltb_at_least (length (head ++ (id ++ more))) (length head + size hash)
            (omega (arith, length-append head (id ++ more), length-append id more, h))

  typed_header-ofs_delta :
      (head s more : Bytes) (at n : ℕ)
      → IsVarint s
      → 1 ≤ value s
      → value s < at
      → at < 2 ^ 63
      → typed_header hash (head ++ (s ++ more)) at 6 n (length head)
        ≡ ok (entry_header hash at (ofs_delta s) n (at + (length head + length s)))
  unfolding typed_header
  typed_header-ofs_delta head s more at n w h1 h2 l =
      rw
        (
          drop-append_self head (s ++ more),
          read_ofs_base-varint s more w (omega (arith, h2, l)),
          inside (value s) h1 h2,
        )
        refl
    where
      inside : (off : ℕ) → 1 ≤ off → off < at → (leb at off || off == 0) ≡ false
      inside off x y = ground (arith, x, y)

  -- The header of an object in a pack, of any type, wherever it stands and whatever follows it, is read as its type,
  -- its size, which is below 2^60, its base if it is a delta, and the place behind it. The base of an OFS_DELTA
  -- that stands below 2^63 lies by the encoded offset in front of it, behind the first byte of the pack, and that of a
  -- REF_DELTA is the id.
  pub read_header-entry_bytes :
      (front rest : Bytes) (entry : Entry) (n : ℕ)
      → IsEntry hash (length front) entry
      → n < 2 ^ 60
      → read_header hash (front ++ (entry_bytes entry n ++ rest)) (length front)
        ≡ ok
            (entry_header hash (length front) entry n (length front + length (entry_bytes entry n)))
  read_header-entry_bytes front rest (whole t) n h hn =
      read_header_lem hash front rest t n (omega (arith, h.1)) hn
      ∙ typed_header-whole (size_bytes t n ++ window hash t n rest) (length front) t n
          (length (size_bytes t n)) h.0 h.1
  read_header-entry_bytes front rest (ofs_delta s) n h hn =
      ap (λ p. read_header hash (front ++ p) (length front)) (append_assoc (size_bytes 6 n) s rest)
      ∙ read_header_lem hash front (s ++ rest) 6 n (omega arith) hn
      ∙ ap
          (λ w.
            typed_header hash (size_bytes 6 n ++ w) (length front) 6 n (length (size_bytes 6 n)))
          (take-append_long left s rest
            (omega (arith, length-size_bytes 6 n, length-varint s h.0 (omega (arith, h.2, h.3)))))
      ∙ typed_header-ofs_delta (size_bytes 6 n) s (take (left - length s) rest) (length front) n h.0
          h.1 h.2 h.3
      ∙ ap (λ (m : ℕ). ok (entry_header hash (length front) (ofs_delta s) n (length front + m)))
          (omega (arith, length-append (size_bytes 6 n) s))
    where
      left : ℕ
      left = pack_header_peek + size hash - length (size_bytes 6 n)
  read_header-entry_bytes front rest (ref_delta id) n h hn =
      ap (λ p. read_header hash (front ++ p) (length front)) (append_assoc (size_bytes 7 n) id rest)
      ∙ read_header_lem hash front (id ++ rest) 7 n (omega arith) hn
      ∙ ap
          (λ w.
            typed_header hash (size_bytes 7 n ++ w) (length front) 7 n (length (size_bytes 7 n)))
          (take-append_long left id rest (omega (arith, h, length-size_bytes 7 n)))
      ∙ typed_header-ref_delta (size_bytes 7 n) id (take (left - length id) rest) (length front) n h
      ∙ ap (λ (m : ℕ). ok (entry_header hash (length front) (ref_delta id) n (length front + m)))
          (omega (arith, length-append (size_bytes 7 n) id, h))
    where
      left : ℕ
      left = pack_header_peek + size hash - length (size_bytes 7 n)
