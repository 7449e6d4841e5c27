-- ===== src/Pktline/RoundTrip.antt =====
-- A stream of packets, written call by call and read back to its end.
use go_ls_remote.Base.{
  ◌≡◌, refl, ◌∙◌, [], ◌∷◌, ◌++◌, List, none, arith, if◌then◌else◌, Bytes, All, ok, err,
  append_assoc, append-nil,
}
use go_ls_remote.Pktline.{Packet, eof}
use go_ls_remote.Pktline.Frame.{frame, frames, IsPacket}
use go_ls_remote.Pktline.Reader.{Reader, traced_read}
use go_ls_remote.Pktline.Reader.Frames.{read_packet-frame}
use go_ls_remote.Pktline.Reader.Truncated.{ends_after, read_empty}
use go_ls_remote.Pktline.Writer.{Writer, Write, done, ◌>>◌}
use go_ls_remote.Pktline.Writer.Frames.{write, sent, write-sent}

pub write_all : List Packet → Write
write_all [] = done
write_all (p ∷ ps) = write p >> write_all ps

-- `ReadPacket`, called until it reports the end of the stream, returns `ps` and leaves `t`.
pub data ReadsAll : Reader → List Packet → Reader → Type 0 where
  stop : {r : Reader} → traced_read r ≡ err eof → ReadsAll r [] r
  next :
      {r s t : Reader} {p : Packet} {ps : List Packet}
      → traced_read r ≡ ok (p, s)
      → ReadsAll s ps t
      → ReadsAll r (p ∷ ps) t

write_all-sent :
    (ps : List Packet) (w : Writer)
    → w.writes_left ≡ none
    → All IsPacket ps
    → write_all ps w ≡ done (sent w (frames ps) ps)
unfolding write_all
write_all-sent [] w free h = ground (arith, append-nil w.written, append-nil w.events)
write_all-sent (p ∷ ps) w free h = rw (write-sent p w free h.0) (
    write_all-sent ps (sent w (frame p) (p ∷ [])) free h.1
    ∙ ground
        (arith, append_assoc w.written (frame p) (frames ps), append_assoc w.events (p ∷ []) ps))

-- The reader after `ps`, with `b` still to read.
abbrev pub seen : Reader → List Packet → Bytes → Reader
seen r ps b = record r {
  src = ends_after b;
  events = if r.enabled then r.events ++ ps else r.events;
}

read_one :
    (p : Packet) (rest : Bytes) (r : Reader)
    → r.src ≡ ends_after (frame p ++ rest)
    → IsPacket p
    → traced_read r ≡ ok (p, seen r (p ∷ []) rest)
unfolding traced_read
read_one p rest r e h = ground (arith, read_packet-frame p (ends_after rest) h)

read_end : (r : Reader) → r.src ≡ ends_after [] → traced_read r ≡ err eof
unfolding traced_read
read_end r e = ground (arith, read_empty)

read_frames :
    (ps : List Packet) (r : Reader)
    → r.src ≡ ends_after (frames ps)
    → All IsPacket ps
    → ReadsAll r ps (seen r ps [])
read_frames [] r e h =
    let same : seen r [] [] ≡ r = ground (arith, append-nil r.events) in
    rw same (stop (read_end r e))
read_frames (p ∷ ps) r e h =
    let r' = seen r (p ∷ []) (frames ps) in
    let same : seen r' ps [] ≡ seen r (p ∷ ps) [] =
      ground (arith, append_assoc r.events (p ∷ []) ps) in
    next (read_one p (frames ps) r e h.0) (rw same at (read_frames ps r' refl h.1))

-- Packets written one by one on an underlying writer that takes everything are bytes from which the
-- reader returns the same packets up to the end of the stream. Both tracers see each packet once.
pub read-write_all :
    (ps : List Packet) (w : Writer) (r : Reader)
    → w.writes_left ≡ none
    → All IsPacket ps
    → (b : Bytes) × (write_all ps w ≡ done (sent w b ps))
      × ReadsAll (record r { src = ends_after b }) ps (seen r ps [])
read-write_all ps w r free h = (
  frames ps,
  write_all-sent ps w free h,
  read_frames ps (record r { src = ends_after (frames ps) }) refl h,
)
