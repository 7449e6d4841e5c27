-- ===== src/Server/LsRefs/Refusal.antt =====
-- An `ls-refs` request with an unknown argument, from the server's refusal to the client's error.
use go_ls_remote.Base.{
  ℕ, ◌≢◌, ◌≡◌, refl, ap, ◌∙◌, [], ◌∷◌, ◌++◌, List, none, some, Bytes, All-append, arith,
}
use go_ls_remote.Base.Text.{bytes, Lacks, cut_prefix-append, trim_suffix, trim_suffix-append}
use go_ls_remote.Pktline.{Kind, Packet, control, flush, eof}
use go_ls_remote.Pktline.Frame.{frames}
use go_ls_remote.Pktline.Incoming.{Incoming, stop, more, incoming, incoming-whole}
use go_ls_remote.Pktline.Reader.Truncated.{ends_after}
use go_ls_remote.Pktline.Writer.{Writer, write_packet, write_flush}
use go_ls_remote.Pktline.Writer.Frames.{sent}
use go_ls_remote.Pktline.Writer.Sends.{
  Sends, Sends->>, Sends-write, Sends-flush, line_packet, line_packet-IsPacket, LineFits,
}
use go_ls_remote.Wire.{server_refused, check_err_packet}
use go_ls_remote.Wire.LsRefs.{decode_ls_refs}
use go_ls_remote.Server.{fault, refused, refuse_after, write_err_packet}
use go_ls_remote.Server.LsRefs.{
  no_args, take_arg, refuse_unknown_arg, ls_refs_args_loop, parse_ls_refs_args,
}

trim_suffix-lacking : (e : ℕ) (s : Bytes) → Lacks e s → trim_suffix e s ≡ s
unfolding trim_suffix
trim_suffix-lacking e [] h = refl
trim_suffix-lacking e (c ∷ []) h = ground (arith, h.0)
trim_suffix-lacking e (c ∷ d ∷ s) h = ap (◌∷◌ c) (trim_suffix-lacking e (d ∷ s) h.1)

Sends-err :
    (msg : Bytes)
    → LineFits (bytes "ERR " ++ msg)
    → Sends (write_err_packet msg) (line_packet (bytes "ERR " ++ msg) ∷ control flush ∷ [])
unfolding write_err_packet
Sends-err msg h =
    Sends->> (write_packet (bytes "ERR " ++ (msg ++ bytes "\n"))) write_flush
      (line_packet (bytes "ERR " ++ msg) ∷ []) (control flush ∷ [])
      (Sends-write (line_packet (bytes "ERR " ++ msg))
        (line_packet-IsPacket (bytes "ERR " ++ msg) h))
      Sends-flush

-- The client's answer to an `ERR ` packet with a message that does not end its line.
decode_refused :
    (msg : Bytes) (q : Incoming)
    → Lacks b'\n' msg
    → decode_ls_refs (more (line_packet (bytes "ERR " ++ msg)) q)
      ≡ record { refs = []; failure = some (server_refused msg) }
unfolding decode_ls_refs check_err_packet
decode_refused msg q h = ground (
  arith,
  trim_suffix-append b'\n' (bytes "ERR " ++ msg),
  cut_prefix-append (bytes "ERR ") msg,
  trim_suffix-lacking b'\n' msg h,
)

-- The message of the refusal; `quoted` is the argument in quotes.
abbrev pub refusal : Bytes → Bytes
refusal quoted = bytes "ls-refs: unknown argument " ++ quoted

refuses_argument :
    (quote : Bytes → Bytes) (kind_mark : Kind → Bytes) (line : Bytes) (q : Incoming) (w : Writer)
    → take_arg no_args line ≡ none
    → parse_ls_refs_args quote kind_mark (more (line_packet line) q) w
      ≡ refuse_after (write_err_packet (refusal (quote line)) w) (refusal (quote line))
unfolding parse_ls_refs_args ls_refs_args_loop refuse_unknown_arg
refuses_argument quote kind_mark line q w h = ground (arith, trim_suffix-append b'\n' line)

-- For a first argument that is unknown and whose quoted text has no line end and fits, the server's
-- handler fails with the refusal, on an underlying writer that takes everything, and what it has
-- written is decoded by the client as no ref and the error of the same message.
pub ls_refs_refusal-decoded :
    (quote : Bytes → Bytes) (kind_mark : Kind → Bytes) (line : Bytes) (q : Incoming) (w : Writer)
    → w.writes_left ≡ none
    → take_arg no_args line ≡ none
    → Lacks b'\n' (quote line)
    → LineFits (bytes "ERR " ++ refusal (quote line))
    → (b : Bytes) × (ps : List Packet) × (parse_ls_refs_args quote kind_mark
          (more (line_packet line) q)
          w
        ≡ fault (refused (refusal (quote line))) (sent w b ps))
      × (decode_ls_refs (incoming (ends_after b))
          ≡ record { refs = []; failure = some (server_refused (refusal (quote line))) })
ls_refs_refusal-decoded quote kind_mark line q w free unknown plain fits =
    let msg = refusal (quote line) in
    let ps = line_packet (bytes "ERR " ++ msg) ∷ control flush ∷ [] in
    (
      frames ps,
      ps,
      refuses_argument quote kind_mark line q w unknown
          ∙ ap (λ o. refuse_after o msg) (Sends-err msg fits w free),
      ap decode_ls_refs
            (incoming-whole ps (line_packet-IsPacket (bytes "ERR " ++ msg) fits, (refl, tt)))
          ∙ decode_refused msg (more (control flush) (stop eof)) (
              All-append (λ c. c ≢ b'\n') (bytes "ls-refs: unknown argument ") (quote line)
                (ground arith) plain),
    )
