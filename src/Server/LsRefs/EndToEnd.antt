-- ===== src/Server/LsRefs/EndToEnd.antt =====
-- The client's `ls-refs` request, from the encoder over the wire to the server's arguments.
use go_ls_remote.Base.{
  Bool, true, false, ◌≡◌, refl, ap, ◌∙◌, [], ◌∷◌, ◌++◌, Option, none, some, Bytes, All, arith,
  All-append,
}
use go_ls_remote.Base.Text.{bytes, cut_prefix}
use go_ls_remote.Pktline.{Kind, control, flush, delim, eof}
use go_ls_remote.Pktline.Frame.{frames, IsPacket}
use go_ls_remote.Pktline.Incoming.{Incoming, stop, incoming, queue, incoming-whole}
use go_ls_remote.Pktline.Reader.Truncated.{ends_after}
use go_ls_remote.Pktline.Writer.{Writer, done}
use go_ls_remote.Pktline.Writer.Frames.{sent}
use go_ls_remote.Pktline.Writer.Sends.{LineFits}
use go_ls_remote.Wire.{RawCapabilities, RefsArgs}
use go_ls_remote.Wire.Capabilities.{get, has}
use go_ls_remote.Wire.LsRefs.{encode_ls_refs}
use go_ls_remote.Wire.LsRefs.Request.{
  lines_of, flag_lines, prefix_lines, arg_lines, allowed, agent_lines, format_lines, echo_lines,
  head_lines, request_packets, encode_ls_refs-Sends, lines_of-IsPacket,
}
use go_ls_remote.Server.{served}
use go_ls_remote.Server.CommandLoop.{command, process_v2_request}
use go_ls_remote.Server.CommandLoop.Route.{IsPlain, route_request}
use go_ls_remote.Server.LsRefs.{parse_ls_refs_args}
use go_ls_remote.Server.LsRefs.Args.{args_of_lines, queue-append}

agent_lines-IsPlain : (on : Bool) (ua : Bytes) → All IsPlain (agent_lines on ua)
agent_lines-IsPlain false ua = tt
agent_lines-IsPlain true ua = (unfold cut_prefix in refl, tt)

format_lines-IsPlain : (v : Option Bytes) → All IsPlain (format_lines v)
format_lines-IsPlain none = tt
format_lines-IsPlain (some []) = tt
format_lines-IsPlain (some (c ∷ v)) = (unfold cut_prefix in refl, tt)

pub echo_lines-IsPlain : (caps : RawCapabilities) (ua : Bytes) → All IsPlain (echo_lines caps ua)
echo_lines-IsPlain caps ua =
    All-append IsPlain (agent_lines (has caps (bytes "agent")) ua)
      (format_lines (get caps (bytes "object-format")))
      (agent_lines-IsPlain (has caps (bytes "agent")) ua)
      (format_lines-IsPlain (get caps (bytes "object-format")))

flag-fits : (on : Bool) (l : Bytes) → LineFits l → All LineFits (flag_lines on l)
flag-fits true l h = (h, tt)
flag-fits false l h = tt

arg_lines-fit :
    (args : RefsArgs) → All LineFits (prefix_lines args.prefixes) → All LineFits (arg_lines args)
arg_lines-fit args h =
    All-append LineFits (flag_lines args.peel (bytes "peel")) _
      (flag-fits args.peel (bytes "peel") (omega arith))
      (All-append LineFits (flag_lines args.symrefs (bytes "symrefs")) _
        (flag-fits args.symrefs (bytes "symrefs") (omega arith))
        (All-append LineFits (flag_lines args.unborn (bytes "unborn")) _
          (flag-fits args.unborn (bytes "unborn") (omega arith)) h))

pub request_packets-IsPacket :
    (args : RefsArgs) (caps : RawCapabilities) (ua : Bytes)
    → All LineFits (echo_lines caps ua)
    → All LineFits (prefix_lines args.prefixes)
    → All IsPacket (request_packets args caps ua)
request_packets-IsPacket args caps ua he hp =
    All-append IsPacket (lines_of (head_lines caps ua)) _
      (lines_of-IsPacket (head_lines caps ua) (omega arith, he))
      (
        refl,
        All-append IsPacket (lines_of (arg_lines (allowed args caps))) _
            (lines_of-IsPacket (arg_lines (allowed args caps))
              (arg_lines-fit (allowed args caps) hp))
            (refl, tt),
      )

routed :
    (args : RefsArgs) (caps : RawCapabilities) (ua : Bytes)
    → All LineFits (echo_lines caps ua)
    → All LineFits (prefix_lines args.prefixes)
    → process_v2_request (incoming (ends_after (frames (request_packets args caps ua))))
      ≡ command
          (bytes "ls-refs")
          (queue (lines_of (arg_lines (allowed args caps)) ++ (control flush ∷ [])) (stop eof))
routed args caps ua he hp =
    let tail = lines_of (arg_lines (allowed args caps)) ++ (control flush ∷ []) in
    ap process_v2_request (
      incoming-whole (request_packets args caps ua) (request_packets-IsPacket args caps ua he hp)
      ∙ queue-append (lines_of (head_lines caps ua)) (control delim ∷ tail) (stop eof))
    ∙ route_request b'l' (bytes "s-refs") (echo_lines caps ua) (queue tail (stop eof))
        (echo_lines-IsPlain caps ua)

-- What `EncodeLSRefs` writes, on an underlying writer that takes everything and with lines that fit
-- a packet, is read by the server as one `ls-refs` request whose arguments are the client's, with
-- `unborn` only if the server has advertised it, up to the end of the stream.
pub ls_refs_request-served :
    (args : RefsArgs) (caps : RawCapabilities) (ua : Bytes) (quote : Bytes → Bytes)
    (kind_mark : Kind → Bytes) (w v : Writer)
    → w.writes_left ≡ none
    → All LineFits (echo_lines caps ua)
    → All LineFits (prefix_lines args.prefixes)
    → (b : Bytes) × (q : Incoming) × (encode_ls_refs args caps ua w
        ≡ done (sent w b (request_packets args caps ua)))
      × (process_v2_request (incoming (ends_after b)) ≡ command (bytes "ls-refs") q)
      × (parse_ls_refs_args quote kind_mark q v ≡ served (allowed args caps) (stop eof) v)
ls_refs_request-served args caps ua quote kind_mark w v free he hp =
    let tail = lines_of (arg_lines (allowed args caps)) ++ (control flush ∷ []) in
    (
      frames (request_packets args caps ua),
      queue tail (stop eof),
      encode_ls_refs-Sends args caps ua he hp w free,
      routed args caps ua he hp,
      args_of_lines quote kind_mark v (allowed args caps) (stop eof),
    )
