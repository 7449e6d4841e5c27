-- ===== src/Reftable/Key/Exact.antt =====
-- `decodeKey` against the layout of a key.
use go_ls_remote.Base.{
  ℕ, ◌+◌, ◌*◌, ◌/◌, ◌%◌, ◌^◌, ◌≤◌, ◌<◌, ◌≡◌, ◌↔◌, refl, ap, ◌∙◌, sym, [], ◌∷◌, ◌++◌, arith, Bytes,
  IsByte, All, All-drop, length, take, drop, length-append, length-drop, ok, Result-cases, inl, inr,
}
use go_ls_remote.OffsetVarint.{Reads, IsVarint}
use go_ls_remote.Reftable.Key.{Key, key_parts, decode_key}
use go_ls_remote.Reftable.Varint.{decode_varint}
use go_ls_remote.Reftable.Varint.Exact.{decode_varint_exact}

-- A uint64 at the front of the buffer, of `n` bytes.
pub record ReadsWord (buf : Bytes) (v n : ℕ) : Type 0 where
  pub number : Reads buf v n
  pub is_word : v < 2 ^ 64

pub decode_varint-ReadsWord :
    (buf : Bytes) (v n : ℕ) → All IsByte buf → (decode_varint buf ≡ ok (v, n)) ↔ ReadsWord buf v n
decode_varint-ReadsWord buf v n h =
    let exact = decode_varint_exact buf v n h in
    (
      λ e. record { number = (exact.0 e).0; is_word = (exact.0 e).1 },
      λ r. exact.1 (r.number, r.is_word),
    )

-- The layout: the length of the prefix that is taken from the key before, the length of the suffix with
-- the three bits below it, and the suffix.
pub record IsKey (buf prev : Bytes) (k : Key) : Type 0 where
  pub prefix_len : ℕ
  pub suffix_len : ℕ
  pub n1 : ℕ
  pub n2 : ℕ
  pub prefix_number : ReadsWord buf prefix_len n1
  pub packed_number : ReadsWord (drop n1 buf) (suffix_len * 8 + k.extra) n2
  pub extra_small : k.extra < 8
  pub has_suffix : suffix_len ≤ length (drop n2 (drop n1 buf))
  pub has_prefix : prefix_len ≤ length prev
  pub key_is : k.key ≡ take prefix_len prev ++ take suffix_len (drop n2 (drop n1 buf))
  pub consumed_is : k.consumed ≡ n1 + n2 + suffix_len

key_step :
    (buf prev : Bytes) (p n1 packed n2 : ℕ)
    → decode_varint buf ≡ ok (p, n1)
    → decode_varint (drop n1 buf) ≡ ok (packed, n2)
    → decode_key buf prev ≡ key_parts p packed (n1 + n2) (drop n2 (drop n1 buf)) prev
unfolding decode_key
key_step buf prev p n1 packed n2 r1 r2 = rw r1 (rw r2 refl)

record Parts (p packed used : ℕ) (rest prev : Bytes) (k : Key) : Type 0 where
  has_suffix : packed / 8 ≤ length rest
  has_prefix : p ≤ length prev
  key_is : k.key ≡ take p prev ++ take (packed / 8) rest
  extra_is : k.extra ≡ packed % 8
  consumed_is : k.consumed ≡ used + packed / 8

Parts-sound :
    (p packed used : ℕ) (rest prev : Bytes) (k : Key)
    → key_parts p packed used rest prev ≡ ok k
    → Parts p packed used rest prev k
unfolding key_parts
Parts-sound p packed used rest prev k e = ground arith

parts_complete :
    (p s used : ℕ) (rest prev : Bytes) (k : Key)
    → k.extra < 8
    → s ≤ length rest
    → p ≤ length prev
    → k.key ≡ take p prev ++ take s rest
    → k.consumed ≡ used + s
    → key_parts p (s * 8 + k.extra) used rest prev ≡ ok k
unfolding key_parts
parts_complete p s used rest prev k small hs hp hk hc =
    let whole : (s * 8 + k.extra) / 8 ≡ s = omega (arith, small) in
    let low : (s * 8 + k.extra) % 8 ≡ k.extra = omega (arith, small) in ground (arith, whole, low)

key_sound :
    (buf prev : Bytes) (k : Key) → All IsByte buf → decode_key buf prev ≡ ok k → IsKey buf prev k
key_sound buf prev k h e = elim (Result-cases (decode_varint buf)) [
  | inr (x, r1) ↦ absurd (unfold decode_key in ground arith)
  | inl ((p, n1), r1) ↦ elim (Result-cases (decode_varint (drop n1 buf))) [
    | inr (x, r2) ↦ absurd (unfold decode_key in ground arith)
    | inl ((packed, n2), r2) ↦
        let parts =
          Parts-sound p packed (n1 + n2) (drop n2 (drop n1 buf)) prev k
            (sym (key_step buf prev p n1 packed n2 r1 r2) ∙ e) in
        record {
          prefix_len = p;
          suffix_len = packed / 8;
          n1 = n1;
          n2 = n2;
          prefix_number = (decode_varint-ReadsWord buf p n1 h).0 r1;
          packed_number =
              (decode_varint-ReadsWord (drop n1 buf) (packed / 8 * 8 + k.extra) n2
                  (All-drop IsByte n1 buf h)).0
                (r2 ∙ ap (λ (x : ℕ). ok (x, n2)) (omega (arith, parts.extra_is)));
          extra_small = omega (arith, parts.extra_is);
          has_suffix = parts.has_suffix;
          has_prefix = parts.has_prefix;
          key_is = parts.key_is;
          consumed_is = parts.consumed_is;
        }
  ]
]

-- On bytes, `decodeKey` returns a key exactly when the buffer holds the layout of that key behind the
-- key before it: the prefix and the suffix lie inside what is there, the three extra bits are below
-- 8, and the bytes consumed are those of the two numbers and the suffix.
pub decode_key_exact :
    (buf prev : Bytes) (k : Key) → All IsByte buf → (decode_key buf prev ≡ ok k) ↔ IsKey buf prev k
decode_key_exact buf prev k h = (
  key_sound buf prev k h,
  λ r.
      key_step buf prev r.prefix_len r.n1 (r.suffix_len * 8 + k.extra) r.n2
        ((decode_varint-ReadsWord buf r.prefix_len r.n1 h).1 r.prefix_number)
        ((decode_varint-ReadsWord (drop r.n1 buf) (r.suffix_len * 8 + k.extra) r.n2
            (All-drop IsByte r.n1 buf h)).1
          r.packed_number)
      ∙ parts_complete r.prefix_len r.suffix_len (r.n1 + r.n2) (drop r.n2 (drop r.n1 buf)) prev k
          r.extra_small r.has_suffix r.has_prefix r.key_is r.consumed_is,
)

pub ReadsWord-bounds : (buf : Bytes) (v n : ℕ) → ReadsWord buf v n → (n ≤ length buf) × (1 ≤ n)
ReadsWord-bounds buf v n r =
    let w = r.number in
    (
      omega (arith, ap length w.splits, length-append w.front w.rest, w.length_is),
      nonempty w.front w.well_formed w.length_is,
    )
  where
    nonempty : (front : Bytes) → IsVarint front → length front ≡ n → 1 ≤ n
    nonempty [] h l = elim h [ ]
    nonempty (c ∷ front) h l = omega (arith, l)

-- A key takes some bytes of the buffer, and no more than there are.
pub decode_key_bounds :
    (buf prev : Bytes) (k : Key)
    → All IsByte buf
    → decode_key buf prev ≡ ok k
    → (1 ≤ k.consumed) × (k.consumed ≤ length buf)
decode_key_bounds buf prev k h e =
    let r = key_sound buf prev k h e in
    omega (
      arith,
      ReadsWord-bounds buf r.prefix_len r.n1 r.prefix_number,
      ReadsWord-bounds (drop r.n1 buf) (r.suffix_len * 8 + k.extra) r.n2 r.packed_number,
      length-drop r.n1 buf,
      length-drop r.n2 (drop r.n1 buf),
      r.has_suffix,
      r.consumed_is,
    )
