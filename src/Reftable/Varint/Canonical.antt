-- ===== src/Reftable/Varint/Canonical.antt =====
-- decodeVarint on different buffers.
use go_ls_remote.Base.{ℕ, ◌≡◌, sym, ap, ◌∙◌, All, IsByte, Bytes, take, length, take-append_self, ok}
use go_ls_remote.OffsetVarint.{Reads}
use go_ls_remote.OffsetVarint.Unique.{value-injective}
use go_ls_remote.Reftable.Varint.{decode_varint}
use go_ls_remote.Reftable.Varint.Exact.{decode_varint_exact}

take-front : (buf : Bytes) (v n : ℕ) (r : Reads buf v n) → take n buf ≡ r.front
take-front buf v n r =
    ap (λ (k : ℕ). take k buf) (sym r.length_is)
    ∙ ap (take (length r.front)) r.splits
    ∙ take-append_self r.front r.rest

-- Where `decodeVarint` reads the same value from two buffers of bytes, it has consumed the same bytes: a
-- value has one encoding.
pub decode_varint-canonical :
    (a b : Bytes) (v n m : ℕ)
    → All IsByte a
    → All IsByte b
    → decode_varint a ≡ ok (v, n)
    → decode_varint b ≡ ok (v, m)
    → take n a ≡ take m b
decode_varint-canonical a b v n m ha hb ea eb =
    let ra = ((decode_varint_exact a v n ha).0 ea).0 in
    let rb = ((decode_varint_exact b v m hb).0 eb).0 in
    take-front a v n ra
    ∙ value-injective ra.front rb.front ra.well_formed rb.well_formed
        (ra.value_is ∙ sym rb.value_is)
    ∙ sym (take-front b v m rb)
