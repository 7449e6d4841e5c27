-- ===== src/Pktline/Reader.antt =====
-- pktline/reader.go: `ReadPacket` over a source of bytes.
pub mod Truncated
pub mod Sound
pub mod Frames
use go_ls_remote.Base.{
  ℕ, ◌+◌, ◌-◌, ◌≤◌, ◌≡◌, refl, Bool, true, false, [], ◌∷◌, ◌++◌, List, arith, ltb, leb, ◌==◌,
  if◌then◌else◌, Bytes, length, take, drop, Result, ok, err, ◌>>=◌, take-append_self,
  drop-append_self, length-append,
}
use go_ls_remote.Pktline.{
  Packet, control, data_packet, max_payload, flush, delim, response_end, ReadError, eof,
  unexpected_eof, read_failed, invalid_length, payload_too_large,
}
use go_ls_remote.Pktline.Hex.{parse_hex_length}

-- How an `io.Reader` answers after its last byte.
pub data Ending : Type 0 where
  closed broken : Ending

-- An `io.Reader`: the bytes that it still has to give.
pub record Source : Type 0 where
  pub pending : Bytes
  pub ending : Ending

-- What `io.ReadFull` reports when the source is short.
abbrev pub short_read : Ending → Bytes → ReadError
short_read broken got = read_failed
short_read closed [] = eof
short_read closed (b ∷ got) = unexpected_eof

-- `io.ReadFull` into a slice of `n` bytes.
unfoldable pub read_full : ℕ → Source → Result ReadError (Bytes × Source)
read_full n s =
    if leb n (length s.pending)
    then ok (take n s.pending, record s { pending = drop n s.pending })
    else err (short_read s.ending s.pending)

-- The end of the source inside a packet is unexpected.
abbrev mid_packet : ReadError → ReadError
mid_packet eof = unexpected_eof
mid_packet e = e

abbrev to_packet : Result ReadError (Bytes × Source) → Result ReadError (Packet × Source)
to_packet (ok (p, s)) = ok (data_packet p, s)
to_packet (err e) = err (mid_packet e)

-- `readPacket` behind the length prefix.
unfoldable pub read_body : ℕ → Source → Result ReadError (Packet × Source)
read_body len s =
    if len == 0
    then ok (control flush, s)
    else if len == 1
    then ok (control delim, s)
    else if len == 2
    then ok (control response_end, s)
    else if ltb len 4
    then err invalid_length
    else if ltb max_payload (len - 4)
    then err payload_too_large
    else to_packet (read_full (len - 4) s)

-- `readPacket`.
unfoldable pub read_packet : Source → Result ReadError (Packet × Source)
unfolding read_body
read_packet s = do (hdr, s1) ← read_full 4 s; len ← parse_hex_length hdr; read_body len s1

-- `Reader`, whose tracer is `enabled` or not and has been given `events`.
pub record Reader : Type 0 where
  pub src : Source
  pub enabled : Bool
  pub events : List Packet

-- `Reader.emit`. The event carries the packet's kind and bytes; its time is left out.
unfoldable pub emit : Packet → Reader → Reader
emit p r = if r.enabled then record r { events = r.events ++ (p ∷ []) } else r

-- `ReadPacket`: an event for each packet, and none for an error.
unfoldable pub traced_read : Reader → Result ReadError (Packet × Reader)
unfolding emit
traced_read r = do (p, s) ← read_packet r.src; ok (p, emit p (record r { src = s }))

abbrev pub ahead : Bytes → Source → Source
ahead b s = record s { pending = b ++ s.pending }

pub read_full-ahead : (b : Bytes) (s : Source) → read_full (length b) (ahead b s) ≡ ok (b, s)
unfolding read_full
read_full-ahead b s =
    ground
      (arith, take-append_self b s.pending, drop-append_self b s.pending, length-append b s.pending)
