-- ===== src/Pktline/Frame.antt =====
-- The wire format itself, apart from the code: the bytes that stand for a packet.
use go_ls_remote.Base.{ℕ, ◌+◌, ◌≤◌, ◌≡◌, [], ◌∷◌, ◌++◌, List, Bytes, length}
use go_ls_remote.Base.Text.{bytes}
use go_ls_remote.Pktline.{Kind, payload, flush, delim, response_end, Packet, max_payload}
use go_ls_remote.Pktline.Hex.{encode_hex_length}

abbrev pub frame_of : Kind → Bytes → Bytes
frame_of payload b = encode_hex_length (4 + length b) ++ b
frame_of flush b = bytes "0000"
frame_of delim b = bytes "0001"
frame_of response_end b = bytes "0002"

abbrev pub frame : Packet → Bytes
frame p = frame_of p.kind p.bytes

abbrev pub frames : List Packet → Bytes
frames [] = []
frames (p ∷ ps) = frame p ++ frames ps

-- The length word of a packet.
abbrev pub length_word : Kind → Bytes → ℕ
length_word payload b = 4 + length b
length_word flush b = 0
length_word delim b = 1
length_word response_end b = 2

-- A data packet within the limit, or a control packet with no bytes.
abbrev pub Fits : Kind → Bytes → Type 0
Fits payload b = length b ≤ max_payload
Fits flush b = b ≡ []
Fits delim b = b ≡ []
Fits response_end b = b ≡ []

abbrev pub IsPacket : Packet → Type 0
IsPacket p = Fits p.kind p.bytes
