-- ===== src/Pktline/Reader/Truncated.antt =====
-- `readPacket` on a source that ends inside a packet.
use go_ls_remote.Base.{
  ℕ, ◌+◌, ◌-◌, ◌≤◌, ◌<◌, ◌≡◌, refl, ap, ◌∙◌, [], ◌∷◌, ◌++◌, arith, Bytes, length, err,
  length-append, ◌==◌, if◌then◌else◌, ◌⊎◌, inl, inr,
}
use go_ls_remote.Base.Text.{bytes}
use go_ls_remote.Pktline.{
  Kind, payload, flush, delim, response_end, Packet, max_payload, eof, unexpected_eof,
}
use go_ls_remote.Pktline.Hex.{encode_hex_length, parse_hex_length-encode_hex_length}
use go_ls_remote.Pktline.Frame.{Fits, IsPacket, frame, frame_of}
use go_ls_remote.Pktline.Reader.{Source, closed, read_full, read_body, read_packet, short_read}
use go_ls_remote.Pktline.Reader.Frames.{read_header}

abbrev pub ends_after : Bytes → Source
ends_after b = record { pending = b; ending = closed }

read_full_short :
    (n : ℕ) (b : Bytes) → length b < n → read_full n (ends_after b) ≡ err (short_read closed b)
unfolding read_full
read_full_short n b h = ground arith

read_short_header :
    (b : Bytes) → length b < 4 → read_packet (ends_after b) ≡ err (short_read closed b)
unfolding read_packet
read_short_header b h = rw (read_full_short 4 b h)

read_short_body :
    (n : ℕ) (b : Bytes)
    → n ≤ max_payload
    → length b < n
    → read_body (4 + n) (ends_after b) ≡ err unexpected_eof
unfolding read_body
read_short_body n [] fits h = ground (arith, read_full_short (4 + n - 4) [] (omega arith))
read_short_body n (c ∷ b) fits h = ground (arith, read_full_short (4 + n - 4) (c ∷ b) (omega arith))

-- A cut inside `a ++ b` falls inside `a`, or inside `b`.
abbrev CutWithin : Bytes → Bytes → Bytes → Type 0
CutWithin a b front =
    (length front < length a) ⊎ ((more : Bytes) × (front ≡ a ++ more) × (length more < length b))

cut_within : (a b front back : Bytes) (x : ℕ) → a ++ b ≡ front ++ (x ∷ back) → CutWithin a b front
cut_within [] b front back x e =
    inr (front, refl, rw e (omega (arith, length-append front (x ∷ back))))
cut_within (c ∷ a) b [] back x e = inl (omega arith)
cut_within (c ∷ a) b (d ∷ front) back x e = elim (cut_within a b front back x (ground arith)) [
  | inl h ↦ inl (omega arith)
  | inr (more, s, h) ↦ inr (more, ground arith, h)
]

read_cut_data :
    (b front back : Bytes) (x : ℕ)
    → length b ≤ max_payload
    → frame_of payload b ≡ front ++ (x ∷ back)
    → read_packet (ends_after front) ≡ err (short_read closed front)
read_cut_data b front back x fits e =
    elim (cut_within (encode_hex_length (4 + length b)) b front back x e) [
      | inl h ↦ read_short_header front (unfold encode_hex_length in h)
      | inr (more, s, h) ↦ rw s (
          read_header (encode_hex_length (4 + length b)) (ends_after more) (4 + length b)
            (unfold encode_hex_length in refl)
            (parse_hex_length-encode_hex_length (4 + length b) (omega arith))
          ∙ read_short_body (length b) more fits h
          ∙ unfold encode_hex_length in refl)
    ]

read_cut_control :
    (b front back : Bytes) (x : ℕ)
    → length b ≡ 4
    → b ≡ front ++ (x ∷ back)
    → read_packet (ends_after front) ≡ err (short_read closed front)
read_cut_control b front back x four e =
    read_short_header front (omega (arith, ap length e, length-append front (x ∷ back)))

read_cut :
    (k : Kind) (b front back : Bytes) (x : ℕ)
    → Fits k b
    → frame_of k b ≡ front ++ (x ∷ back)
    → read_packet (ends_after front) ≡ err (short_read closed front)
read_cut payload b front back x h e = read_cut_data b front back x h e
read_cut flush b front back x h e = read_cut_control (bytes "0000") front back x refl e
read_cut delim b front back x h e = read_cut_control (bytes "0001") front back x refl e
read_cut response_end b front back x h e = read_cut_control (bytes "0002") front back x refl e

-- On a source that ends inside the frame of a packet, `readPacket` reports the end of the stream
-- if no byte of the frame came, and an unexpected end if some did.
pub read_packet_truncated :
    (p : Packet) (front back : Bytes) (x : ℕ)
    → IsPacket p
    → frame p ≡ front ++ (x ∷ back)
    → read_packet (ends_after front) ≡ err (if length front == 0 then eof else unexpected_eof)
read_packet_truncated p [] back x h e = read_cut p.kind p.bytes [] back x h e
read_packet_truncated p (c ∷ front) back x h e =
    read_cut p.kind p.bytes (c ∷ front) back x h e ∙ ground arith

-- At the end of the stream `readPacket` reports it.
pub read_empty : read_packet (ends_after []) ≡ err eof
read_empty = read_short_header [] (omega arith)
