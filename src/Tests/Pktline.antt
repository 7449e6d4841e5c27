-- ===== src/Tests/Pktline.antt =====
-- pktline at concrete packets.
use go_ls_remote.Base.{◌≡◌, refl, [], ◌∷◌, List, none, true, Bytes, err, arith}
use go_ls_remote.Base.Text.{bytes}
use go_ls_remote.Pktline.{Packet, control, data_packet, flush, delim, unexpected_eof}
use go_ls_remote.Pktline.Frame.{frame}
use go_ls_remote.Pktline.Hex.{encode_hex_length, hex_digit}
use go_ls_remote.Pktline.Reader.{Reader, read_packet, ahead}
use go_ls_remote.Pktline.Reader.Frames.{read_packet-frame}
use go_ls_remote.Pktline.Reader.Sound.{IsRead, read_packet_sound}
use go_ls_remote.Pktline.Reader.Truncated.{ends_after, read_packet_truncated}
use go_ls_remote.Pktline.RoundTrip.{write_all, ReadsAll, seen, read-write_all}
use go_ls_remote.Pktline.Writer.{Writer, done}
use go_ls_remote.Pktline.Writer.Frames.{sent}

abbrev packets : List Packet
packets = data_packet (bytes "hi\n") ∷ control delim ∷ control flush ∷ []

abbrev fresh : Writer
fresh = record { written = []; writes_left = none; enabled = true; events = [] }

abbrev reader : Reader
reader = record { src = ends_after []; enabled = true; events = [] }

read-write_all_example :
    (b : Bytes) × (write_all packets fresh ≡ done (sent fresh b packets))
    × ReadsAll (record reader { src = ends_after b }) packets (seen reader packets [])
read-write_all_example = read-write_all packets fresh reader refl (omega arith, (refl, (refl, tt)))

abbrev hi : Packet
hi = data_packet (bytes "hi\n")

sound_example : IsRead (ahead (frame hi) (ends_after (bytes "0000"))) hi (ends_after (bytes "0000"))
sound_example =
    read_packet_sound (ahead (frame hi) (ends_after (bytes "0000"))) (ends_after (bytes "0000")) hi
      (read_packet-frame hi (ends_after (bytes "0000")) (omega arith))

truncated_example : read_packet (ends_after (bytes "0007h")) ≡ err unexpected_eof
truncated_example =
    read_packet_truncated (data_packet (bytes "hi\n")) (bytes "0007h") (bytes "\n") b'i'
      (omega arith) (unfold encode_hex_length hex_digit in refl)
