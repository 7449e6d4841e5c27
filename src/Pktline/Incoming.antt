-- ===== src/Pktline/Incoming.antt =====
-- The answers that repeated calls of `ReadPacket` give on one source, as one value: the decoders of
-- the wire package call it in a loop and are recursions on this value.
use go_ls_remote.Base.{
  ℕ, zero, suc, ◌<◌, ◌≡◌, refl, sym, ap, ◌∙◌, [], ◌∷◌, ◌++◌, List, arith, Bytes, length,
  length-append, Result, ok, err, Result-cases, inl, inr, All, append_assoc, append-nil,
}
use go_ls_remote.Pktline.{Packet, ReadError, eof}
use go_ls_remote.Pktline.Frame.{frame, frames, IsPacket}
use go_ls_remote.Pktline.Reader.{Source, ahead, read_packet}
use go_ls_remote.Pktline.Reader.Frames.{read_packet-frame}
use go_ls_remote.Pktline.Reader.Sound.{read_packet_sound}
use go_ls_remote.Pktline.Reader.Truncated.{ends_after, read_empty}

pub data Incoming : Type 0 where
  stop : ReadError → Incoming
  more : Packet → Incoming → Incoming

-- A packet takes four bytes at least, so the bytes that are left bound the calls.
incoming_from : ℕ → Source → Incoming
incoming_from zero s = stop eof
incoming_from (suc f) s = elim (read_packet s) [
  | ok (p, s') ↦ more p (incoming_from f s')
  | err e ↦ stop e
]

pub incoming : Source → Incoming
incoming s = incoming_from (suc (length s.pending)) s

-- One call, and the answers of the calls after it.
abbrev pub answer : Result ReadError (Packet × Source) → Incoming
answer (ok (p, s')) = more p (incoming s')
answer (err e) = stop e

pub read_packet-shortens :
    (s s' : Source) (p : Packet) → read_packet s ≡ ok (p, s') → length s'.pending < length s.pending
read_packet-shortens s s' p e =
    let r = read_packet_sound s s' p e in
    omega (
      arith,
      ap (λ (t : Source). length t.pending) r.splits,
      r.prefix_length,
      length-append r.prefix (p.bytes ++ s'.pending),
      length-append p.bytes s'.pending,
    )

from_ok :
    (f : ℕ) (s s' : Source) (p : Packet)
    → read_packet s ≡ ok (p, s')
    → incoming_from (suc f) s ≡ more p (incoming_from f s')
unfolding incoming_from
from_ok f s s' p r = rw (r, incoming_from) refl

from_err :
    (f : ℕ) (s : Source) (e : ReadError) → read_packet s ≡ err e → incoming_from (suc f) s ≡ stop e
unfolding incoming_from
from_err f s e r = rw (r, incoming_from) refl

incoming_from_enough :
    (f g : ℕ) (s : Source)
    → length s.pending < f
    → length s.pending < g
    → incoming_from f s ≡ incoming_from g s
incoming_from_enough zero g s hf hg = elim hf [ ]
incoming_from_enough (suc f) zero s hf hg = elim hg [ ]
incoming_from_enough (suc f) (suc g) s hf hg = elim (Result-cases (read_packet s)) [
  | inr (e, r) ↦ from_err f s e r ∙ sym (from_err g s e r)
  | inl ((p, s'), r) ↦
      from_ok f s s' p r
      ∙ ap (more p) (
          incoming_from_enough f g s' (omega (arith, read_packet-shortens s s' p r))
            (omega (arith, read_packet-shortens s s' p r)))
      ∙ sym (from_ok g s s' p r)
]

-- The calls never run out of fuel: each answer is that of one more `ReadPacket`, on every source.
pub incoming_step : (s : Source) → incoming s ≡ answer (read_packet s)
unfolding incoming
incoming_step s = elim (Result-cases (read_packet s)) [
  | inr (e, r) ↦ from_err (length s.pending) s e r ∙ ap answer (sym r)
  | inl ((p, s'), r) ↦
      from_ok (length s.pending) s s' p r
      ∙ ap (more p) (
          incoming_from_enough (length s.pending) (suc (length s'.pending)) s'
            (read_packet-shortens s s' p r) (omega arith))
      ∙ ap answer (sym r)
]

abbrev pub queue : List Packet → Incoming → Incoming
queue [] rest = rest
queue (p ∷ ps) rest = more p (queue ps rest)

-- The frames of packets are answered by the packets.
pub incoming-frames :
    (ps : List Packet) (s : Source)
    → All IsPacket ps
    → incoming (ahead (frames ps) s) ≡ queue ps (incoming s)
incoming-frames [] s h = refl
incoming-frames (p ∷ ps) s h =
    ap incoming
      (ap (λ (b : Bytes). record s { pending = b }) (append_assoc (frame p) (frames ps) s.pending))
    ∙ incoming_step (ahead (frame p) (ahead (frames ps) s))
    ∙ ap answer (read_packet-frame p (ahead (frames ps) s) h.0)
    ∙ ap (more p) (incoming-frames ps s h.1)

pub incoming_end : incoming (ends_after []) ≡ stop eof
incoming_end = incoming_step (ends_after []) ∙ ap answer read_empty

-- A stream of whole frames is answered by their packets and then by its end.
pub incoming-whole :
    (ps : List Packet) → All IsPacket ps → incoming (ends_after (frames ps)) ≡ queue ps (stop eof)
incoming-whole ps h =
    ap (λ (b : Bytes). incoming (ends_after b)) (sym (append-nil (frames ps)))
    ∙ incoming-frames ps (ends_after []) h
    ∙ ap (queue ps) incoming_end
