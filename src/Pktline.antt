-- ===== src/Pktline.antt =====
-- pktline/packet.go and pktline/errors.go: the packets of the pkt-line format and the errors of
-- its codec. The codec's parts are the children: Hex (the length prefix), Reader, Writer.
pub mod Hex
pub mod Frame
pub mod Reader
pub mod Writer
pub mod RoundTrip
pub mod Incoming
use go_ls_remote.Base.{ℕ, [], Bytes}

-- `MaxPayload`.
abbrev pub max_payload : ℕ
max_payload = 65516

-- `Kind`; `payload` is the source's `Data`.
pub data Kind : Type 0 where
  payload flush delim response_end : Kind

-- `Packet`; a control packet has no bytes. The bytes are a value here: the source's slice aliases
-- the reader's buffer, and every caller copies what it keeps before the next read.
pub record Packet : Type 0 where
  pub kind : Kind
  pub bytes : Bytes

abbrev pub control : Kind → Packet
control k = record { kind = k; bytes = [] }

abbrev pub data_packet : Bytes → Packet
data_packet p = record { kind = payload; bytes = p }

-- What `ReadPacket` fails with. `read_failed` is an error of the source other than its end.
pub data ReadError : Type 0 where
  eof unexpected_eof read_failed invalid_hex invalid_length payload_too_large : ReadError
