-- ===== src/Pktline/Writer/Sends.antt =====
-- Programs over the writer by the packets that they send.
use go_ls_remote.Base.{
  ◌+◌, ◌≤◌, ◌≡◌, refl, ap, sym, ◌∙◌, [], ◌∷◌, ◌++◌, List, none, arith, Bytes, length, length-append,
  append_assoc, append-nil,
}
use go_ls_remote.Base.Text.{bytes}
use go_ls_remote.Pktline.{Packet, data_packet, control, flush, delim, max_payload}
use go_ls_remote.Pktline.Frame.{frame, frames, IsPacket}
use go_ls_remote.Pktline.Writer.{
  Writer, Write, done, ◌>>◌, write_line, write_line_parts, write_flush, write_delim,
}
use go_ls_remote.Pktline.Writer.Frames.{
  write, sent, write-sent, concat, write_line-write_packet, write_line_parts-write_packet,
}

-- On an underlying writer that takes everything, `m` succeeds, writes the frames of `ps` and reports
-- `ps` to the tracer.
abbrev pub Sends : Write → List Packet → Type 0
Sends m ps = (w : Writer) → w.writes_left ≡ none → m w ≡ done (sent w (frames ps) ps)

pub frames-append : (ps qs : List Packet) → frames (ps ++ qs) ≡ frames ps ++ frames qs
frames-append [] qs = refl
frames-append (p ∷ ps) qs =
    ap (◌++◌ (frame p)) (frames-append ps qs) ∙ sym (append_assoc (frame p) (frames ps) (frames qs))

pub Sends-nothing : Sends done []
Sends-nothing w free = ground (arith, append-nil w.written, append-nil w.events)

pub Sends->> :
    (m k : Write) (ps qs : List Packet) → Sends m ps → Sends k qs → Sends (m >> k) (ps ++ qs)
Sends->> m k ps qs hm hk w free = rw (hm w free) (
    hk (sent w (frames ps) ps) free
    ∙ ground (
      arith,
      frames-append ps qs,
      append_assoc w.written (frames ps) (frames qs),
      append_assoc w.events ps qs,
    ))

pub Sends-write : (p : Packet) → IsPacket p → Sends (write p) (p ∷ [])
Sends-write p h w free = rw append-nil (write-sent p w free h)

-- A text line, as the packet that carries it.
abbrev pub line_packet : Bytes → Packet
line_packet s = data_packet (s ++ bytes "\n")

abbrev pub LineFits : Bytes → Type 0
LineFits s = length s + 1 ≤ max_payload

pub line_packet-IsPacket : (s : Bytes) → LineFits s → IsPacket (line_packet s)
line_packet-IsPacket s h = omega (arith, length-append s (bytes "\n"))

pub Sends-line : (s : Bytes) → LineFits s → Sends (write_line s) (line_packet s ∷ [])
Sends-line s h w free =
    write_line-write_packet s w ∙ Sends-write (line_packet s) (line_packet-IsPacket s h) w free

pub Sends-line_parts :
    (ps : List Bytes)
    → LineFits (concat ps)
    → Sends (write_line_parts ps) (line_packet (concat ps) ∷ [])
Sends-line_parts ps h w free =
    write_line_parts-write_packet ps w
    ∙ Sends-write (line_packet (concat ps)) (line_packet-IsPacket (concat ps) h) w free

pub Sends-flush : Sends write_flush (control flush ∷ [])
Sends-flush = Sends-write (control flush) refl

pub Sends-delim : Sends write_delim (control delim ∷ [])
Sends-delim = Sends-write (control delim) refl
