-- ===== src/Server/Replies.antt =====
-- Server steps by the packets that they send.
use go_ls_remote.Base.{
  ◌≡◌, ap, ◌∙◌, [], ◌∷◌, ◌++◌, List, none, arith, Bytes, append_assoc, append-nil,
}
use go_ls_remote.Base.Text.{bytes}
use go_ls_remote.Pktline.{Packet, control, flush}
use go_ls_remote.Pktline.Frame.{frames}
use go_ls_remote.Pktline.Writer.{Writer, Write, write_packet, write_flush}
use go_ls_remote.Pktline.Writer.Frames.{sent}
use go_ls_remote.Pktline.Writer.Sends.{
  Sends, frames-append, Sends-write, line_packet, line_packet-IsPacket, LineFits, Sends-flush,
}
use go_ls_remote.Server.{Reply, replied, reply, reply_then}

abbrev pub Replies : (Writer → Reply) → List Packet → Type 0
Replies m ps = (w : Writer) → w.writes_left ≡ none → m w ≡ replied (sent w (frames ps) ps)

pub Replies-nothing : Replies replied []
Replies-nothing w free = ground (arith, append-nil w.written, append-nil w.events)

pub Replies-then :
    (m k : Writer → Reply) (ps qs : List Packet)
    → Replies m ps
    → Replies k qs
    → Replies (λ w. reply_then (m w) k) (ps ++ qs)
Replies-then m k ps qs hm hk w free = rw (hm w free) (
    hk (sent w (frames ps) ps) free
    ∙ ground (
      arith,
      frames-append ps qs,
      append_assoc w.written (frames ps) (frames qs),
      append_assoc w.events ps qs,
    ))

pub Replies-Sends : (m : Write) (ps : List Packet) → Sends m ps → Replies (λ w. reply (m w)) ps
Replies-Sends m ps h w free = ap reply (h w free)

pub Replies-line :
    (l : Bytes)
    → LineFits l
    → Replies (λ w. reply (write_packet (l ++ bytes "\n") w)) (line_packet l ∷ [])
Replies-line l h =
    Replies-Sends (write_packet (l ++ bytes "\n")) (line_packet l ∷ [])
      (Sends-write (line_packet l) (line_packet-IsPacket l h))

pub Replies-flush : Replies (λ w. reply (write_flush w)) (control flush ∷ [])
Replies-flush = Replies-Sends write_flush (control flush ∷ []) Sends-flush
