-- ===== src/Pktline/Writer/Frames.antt =====
-- What the calls of `Writer` write and trace.
use go_ls_remote.Base.{
  ℕ, ◌+◌, ◌≡◌, refl, ◌∙◌, [], ◌∷◌, ◌++◌, List, none, arith, if◌then◌else◌, Bytes, length,
  length-append, append_assoc, append-nil,
}
use go_ls_remote.Base.Text.{bytes}
use go_ls_remote.Pktline.{Kind, payload, flush, delim, response_end, Packet}
use go_ls_remote.Pktline.Frame.{frame, IsPacket}
use go_ls_remote.Pktline.Writer.{
  Writer, WriteError, done, failed, Write, sink_write, emit, write_packet, write_line, parts_length,
  copy_parts, write_line_parts, write_flush, write_delim, write_response_end,
}

-- The call for a packet.
abbrev pub write_of : Kind → Bytes → Write
write_of payload b = write_packet b
write_of flush b = write_flush
write_of delim b = write_delim
write_of response_end b = write_response_end

abbrev pub write : Packet → Write
write p = write_of p.kind p.bytes

-- The state of a tracer after the packets `ps`.
abbrev pub traced : Writer → List Packet → List Packet
traced w ps = if w.enabled then w.events ++ ps else w.events

-- The writer after the bytes `b` in one underlying call and the events of `ps`.
abbrev pub sent : Writer → Bytes → List Packet → Writer
sent w b ps = record w { written = w.written ++ b; events = traced w ps }

write_of-done :
    (k : Kind) (b : Bytes) (w : Writer)
    → w.writes_left ≡ none
    → IsPacket (record { kind = k; bytes = b })
    → write_of k b w
      ≡ done (sent w (frame (record { kind = k; bytes = b })) (record { kind = k; bytes = b } ∷ []))
unfolding write_packet write_flush write_delim write_response_end sink_write emit
write_of-done payload b w free h = ground arith
write_of-done flush b w free h = ground arith
write_of-done delim b w free h = ground arith
write_of-done response_end b w free h = ground arith

-- The two loops agree with the concatenation of the parts.
abbrev pub concat : List Bytes → Bytes
concat [] = []
concat (p ∷ ps) = p ++ concat ps

parts_length-concat : (n : ℕ) (ps : List Bytes) → parts_length n ps ≡ n + length (concat ps)
unfolding parts_length
parts_length-concat n [] = omega arith
parts_length-concat n (p ∷ ps) =
    omega (arith, parts_length-concat (n + length p) ps, length-append p (concat ps))

copy_parts-concat : (out : Bytes) (ps : List Bytes) → copy_parts out ps ≡ out ++ concat ps
unfolding copy_parts
copy_parts-concat out [] = rw append-nil
copy_parts-concat out (p ∷ ps) = copy_parts-concat (out ++ p) ps ∙ append_assoc out p (concat ps)

-- `WriteLine` is `WritePacket` of the line with its newline, on every state and error.
pub write_line-write_packet :
    (s : Bytes) (w : Writer) → write_line s w ≡ write_packet (s ++ bytes "\n") w
unfolding write_line write_packet
write_line-write_packet s w = rw (length-append s (bytes "\n")) refl

-- `WriteLineParts` is `WritePacket` of the parts, joined, with a newline, on every state and error.
pub write_line_parts-write_packet :
    (ps : List Bytes) (w : Writer)
    → write_line_parts ps w ≡ write_packet (concat ps ++ bytes "\n") w
unfolding write_line_parts write_packet
write_line_parts-write_packet ps w =
    let size : parts_length 1 ps ≡ length (concat ps ++ bytes "\n") =
      omega (arith, parts_length-concat 1 ps, length-append (concat ps) (bytes "\n")) in
    simp (size, copy_parts-concat, append_assoc)

-- On an underlying writer that takes everything, the call for a packet writes its frame and reports
-- the packet to the tracer, if there is one.
pub write-sent :
    (p : Packet) (w : Writer)
    → w.writes_left ≡ none
    → IsPacket p
    → write p w ≡ done (sent w (frame p) (p ∷ []))
write-sent p w free h = write_of-done p.kind p.bytes w free h

-- A failed call leaves no bytes and no event behind.
write_of-failed :
    (k : Kind) (b : Bytes) (w w' : Writer) (e : WriteError) → write_of k b w ≡ failed e w' → w' ≡ w
unfolding write_packet write_flush write_delim write_response_end sink_write emit
write_of-failed payload b w w' e h = ground arith
write_of-failed flush b w w' e h = ground arith
write_of-failed delim b w w' e h = ground arith
write_of-failed response_end b w w' e h = ground arith
