-- ===== src/Pktline/Reader/Frames.antt =====
-- `readPacket` on well-formed frames, and what a packet read says of the source.
use go_ls_remote.Base.{
  ◌<◌, ℕ, ◌+◌, ◌-◌, ◌≤◌, ◌≡◌, refl, ◌∙◌, arith, Bytes, length, ok, append_assoc,
}
use go_ls_remote.Base.Text.{bytes}
use go_ls_remote.Pktline.{
  Kind, payload, flush, delim, response_end, Packet, data_packet, max_payload,
}
use go_ls_remote.Pktline.Hex.{
  encode_hex_length, parse_hex_length, parse_hex_length-encode_hex_length, hex_value,
}
use go_ls_remote.Pktline.Frame.{frame, frame_of, Fits, IsPacket}
use go_ls_remote.Pktline.Reader.{Source, ahead, read_full, read_body, read_packet, read_full-ahead}

pub read_full-prefix :
    (n : ℕ) (b : Bytes) (s : Source) → length b ≡ n → read_full n (ahead b s) ≡ ok (b, s)
read_full-prefix n b s e = rw (← e) (read_full-ahead b s)

pub read_header :
    (hdr : Bytes) (s : Source) (n : ℕ)
    → length hdr ≡ 4
    → parse_hex_length hdr ≡ ok n
    → read_packet (ahead hdr s) ≡ read_body n s
unfolding read_packet
read_header hdr s n four parsed = rw (read_full-prefix 4 hdr s four, parsed) refl

-- Four digits, the length word, and what `readPacket` does behind them.
read_encoded :
    (n : ℕ) (s : Source) → n < 65536 → read_packet (ahead (encode_hex_length n) s) ≡ read_body n s
read_encoded n s h =
    read_header (encode_hex_length n) s n (unfold encode_hex_length in refl)
      (parse_hex_length-encode_hex_length n h)

read_data :
    (b : Bytes) (s : Source)
    → length b ≤ max_payload
    → read_body (4 + length b) (ahead b s) ≡ ok (data_packet b, s)
unfolding read_body
read_data b s h = ground (arith, read_full-prefix (4 + length b - 4) b s (omega arith))

read_frame_of :
    (k : Kind) (b : Bytes) (s : Source)
    → Fits k b
    → read_packet (ahead (frame_of k b) s) ≡ ok (record { kind = k; bytes = b }, s)
read_frame_of payload b s h =
    rw append_assoc (read_encoded (4 + length b) (ahead b s) (omega arith)) ∙ read_data b s h
read_frame_of flush b s h = rw h (
    unfold read_body in
    read_header (bytes "0000") s 0 refl (unfold parse_hex_length hex_value in refl))
read_frame_of delim b s h = rw h (
    unfold read_body in
    read_header (bytes "0001") s 1 refl (unfold parse_hex_length hex_value in refl))
read_frame_of response_end b s h = rw h (
    unfold read_body in
    read_header (bytes "0002") s 2 refl (unfold parse_hex_length hex_value in refl))

-- `readPacket` reads the frame of any packet back as that packet, and leaves what follows it.
pub read_packet-frame :
    (p : Packet) (s : Source) → IsPacket p → read_packet (ahead (frame p) s) ≡ ok (p, s)
read_packet-frame p s h = read_frame_of p.kind p.bytes s h
