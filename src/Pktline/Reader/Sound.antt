-- ===== src/Pktline/Reader/Sound.antt =====
-- What a successful `readPacket` says of the source.
use go_ls_remote.Base.{
  ℕ, ◌-◌, ◌≡◌, arith, Bytes, length, ok, Result-cases, inl, inr, take-append-drop, length-take,
}
use go_ls_remote.Pktline.{Packet}
use go_ls_remote.Pktline.Hex.{parse_hex_length}
use go_ls_remote.Pktline.Frame.{IsPacket, length_word}
use go_ls_remote.Pktline.Reader.{Source, ahead, read_full, read_body, read_packet}

pub read_full_sound :
    (n : ℕ) (s s' : Source) (b : Bytes)
    → read_full n s ≡ ok (b, s')
    → (length b ≡ n) × (s ≡ ahead b s')
unfolding read_full
read_full_sound n s s' b h = ground (arith, take-append-drop n s.pending, length-take n s.pending)

-- What `readPacket` has read: a length prefix, and the bytes that it announces.
pub record IsRead (s : Source) (p : Packet) (s' : Source) : Type 0 where
  pub prefix : Bytes
  pub prefix_length : length prefix ≡ 4
  pub announces : parse_hex_length prefix ≡ ok (length_word p.kind p.bytes)
  pub splits : s ≡ ahead prefix (ahead p.bytes s')
  pub fits : IsPacket p

read_body_sound :
    (n : ℕ) (s s' : Source) (p : Packet)
    → read_body n s ≡ ok (p, s')
    → (n ≡ length_word p.kind p.bytes) × (s ≡ ahead p.bytes s') × IsPacket p
unfolding read_body
read_body_sound n s s' p h = ground (arith, read_full_sound (n - 4) s s' p.bytes)

IsRead-parts :
    (s s1 s' : Source) (p : Packet) (hdr : Bytes) (n : ℕ)
    → read_full 4 s ≡ ok (hdr, s1)
    → parse_hex_length hdr ≡ ok n
    → read_body n s1 ≡ ok (p, s')
    → IsRead s p s'
IsRead-parts s s1 s' p hdr n r parsed body =
    let (four, split) = read_full_sound 4 s s1 hdr r in
    let (word, rest, fits) = read_body_sound n s1 s' p body in
    record { prefix = hdr; prefix_length = four; announces = cc; splits = cc; fits = fits }

-- After a packet the source has lost the four bytes of a length prefix that announces the packet,
-- and the packet's bytes; a data packet is within the limit, and a control packet is empty.
pub read_packet_sound : (s s' : Source) (p : Packet) → read_packet s ≡ ok (p, s') → IsRead s p s'
unfolding read_packet
read_packet_sound s s' p h = elim (Result-cases (read_full 4 s)) [
  | inr (e, r) ↦ absurd (ground arith)
  | inl ((hdr, s1), r) ↦ elim (Result-cases (parse_hex_length hdr)) [
    | inr (e, parsed) ↦ absurd (ground arith)
    | inl (n, parsed) ↦ IsRead-parts s s1 s' p hdr n r parsed (ground arith)
  ]
]
