-- ===== src/Server/Serve/Requests.antt =====
-- A session of `ls-refs` requests is answered request by request, up to the end of the stream.
use go_ls_remote.Base.{
  ℕ, zero, suc, ◌+◌, ◌≤◌, ◌<◌, ◌≡◌, refl, ap, ◌∙◌, arith, Bool, false, [], ◌∷◌, ◌++◌, List, Bytes,
  All, All-append, length, length-append,
}
use go_ls_remote.Base.Text.{bytes}
use go_ls_remote.Base.{equal}
use go_ls_remote.Objfmt.Hash.{Algo}
use go_ls_remote.Pktline.{Kind, Packet, control, flush, delim, eof}
use go_ls_remote.Pktline.Frame.{frames, IsPacket}
use go_ls_remote.Pktline.Incoming.{Incoming, stop, incoming, queue, incoming-whole}
use go_ls_remote.Pktline.Reader.Truncated.{ends_after}
use go_ls_remote.Pktline.Writer.{Writer}
use go_ls_remote.Pktline.Writer.Sends.{LineFits}
use go_ls_remote.Wire.{RawCapabilities, RefsArgs}
use go_ls_remote.Wire.LsRefs.Request.{
  lines_of, prefix_lines, arg_lines, allowed, echo_lines, head_lines, request_packets,
}
use go_ls_remote.Server.{served, replied}
use go_ls_remote.Server.CommandLoop.{command, process_v2_request}
use go_ls_remote.Server.CommandLoop.Route.{route_request}
use go_ls_remote.Server.LsRefs.Args.{args_of_lines, queue-append}
use go_ls_remote.Server.LsRefs.EndToEnd.{echo_lines-IsPlain, request_packets-IsPacket}
use go_ls_remote.Server.LsRefs.Respond.{respond_ls_refs}
use go_ls_remote.Server.ObjectInfo.{ObjectAnswer}
use go_ls_remote.Server.Store.{Store}
use go_ls_remote.Server.Serve.{
  closed, dispatch_v2, then_respond, after_reply, run_v2_command_loop, serve_command_loop, packets,
}

-- The packets of a client that sends its requests one after another.
abbrev pub session_packets : RawCapabilities → Bytes → List RefsArgs → List Packet
session_packets caps ua [] = []
session_packets caps ua (args ∷ requests) =
    request_packets args caps ua ++ session_packets caps ua requests

-- The responses to the requests, one after another, lead from a writer to another.
pub data Answers (store : Store) (caps : RawCapabilities)
    : List RefsArgs → Writer → Writer → Type 0 where
  no_more : {w : Writer} → Answers store caps [] w w
  answered :
      {args : RefsArgs} {requests : List RefsArgs} {w u v : Writer}
      → respond_ls_refs store (allowed args caps) w ≡ replied u
      → Answers store caps requests u v
      → Answers store caps (args ∷ requests) w v

module _ (quote : Bytes → Bytes) (kind_mark : Kind → Bytes) (algo : Algo) (store : Store)
    (object_info : Bytes → ObjectAnswer) (caps : RawCapabilities) (ua : Bytes) where
  tail : RefsArgs → List Packet
  tail args = lines_of (arg_lines (allowed args caps)) ++ (control flush ∷ [])

  routed :
      (args : RefsArgs) (rest : List Packet)
      → process_v2_request (queue (request_packets args caps ua ++ rest) (stop eof))
        ≡ command (bytes "ls-refs") (queue (tail args) (queue rest (stop eof)))
  unfolding tail
  routed args rest =
      ap process_v2_request (
        queue-append (request_packets args caps ua) rest (stop eof)
        ∙ queue-append (lines_of (head_lines caps ua)) (control delim ∷ tail args)
            (queue rest (stop eof)))
      ∙ route_request b'l' (bytes "s-refs") (echo_lines caps ua)
          (queue (tail args) (queue rest (stop eof))) (echo_lines-IsPlain caps ua)

  dispatched :
      (args : RefsArgs) (q : Incoming) (w u : Writer)
      → respond_ls_refs store (allowed args caps) w ≡ replied u
      → dispatch_v2 quote kind_mark algo store object_info (bytes "ls-refs") (queue (tail args) q) w
        ≡ served tt q u
  unfolding dispatch_v2 tail equal
  dispatched args q w u h =
      ap (λ s. then_respond s (respond_ls_refs store))
        (args_of_lines quote kind_mark w (allowed args caps) q)
      ∙ ap (after_reply q) h

  module _ (ctx_done : ℕ → Bool) (live : (n : ℕ) → ctx_done n ≡ false) where
    rounds :
        (requests : List RefsArgs) (fuel round : ℕ) (w v : Writer)
        → length requests < fuel
        → Answers store caps requests w v
        → run_v2_command_loop quote kind_mark algo store object_info ctx_done fuel round
            (queue (session_packets caps ua requests) (stop eof))
            w
          ≡ closed v
    unfolding run_v2_command_loop
    rounds requests zero round w v l a = absurd (omega (arith, l))
    rounds [] (suc fuel) round w v l no_more = rw (live round) (unfold process_v2_request in refl)
    rounds (args ∷ requests) (suc fuel) round w v l (answered {u} h a) =
        rw
          (
            live round,
            routed args (session_packets caps ua requests),
            dispatched args (queue (session_packets caps ua requests) (stop eof)) w u h,
          )
          (rounds requests fuel (round + 1) u v (omega (arith, l)) a)

    packets-queue : (ps : List Packet) → packets (queue ps (stop eof)) ≡ length ps
    packets-queue [] = refl
    packets-queue (p ∷ ps) = ap suc (packets-queue ps)

    first_packet : (args : RefsArgs) → 1 ≤ length (request_packets args caps ua)
    first_packet args = omega arith

    some_packets :
        (requests : List RefsArgs) → length requests ≤ length (session_packets caps ua requests)
    some_packets [] = omega arith
    some_packets (args ∷ requests) = omega (
      arith,
      some_packets requests,
      first_packet args,
      length-append (request_packets args caps ua) (session_packets caps ua requests),
    )

    session-IsPacket :
        (requests : List RefsArgs)
        → All LineFits (echo_lines caps ua)
        → All (λ (args : RefsArgs). All LineFits (prefix_lines args.prefixes)) requests
        → All IsPacket (session_packets caps ua requests)
    session-IsPacket [] he hp = tt
    session-IsPacket (args ∷ requests) he hp =
        All-append IsPacket (request_packets args caps ua) (session_packets caps ua requests)
          (request_packets-IsPacket args caps ua he hp.0) (session-IsPacket requests he hp.1)

    -- A session in which a client sends `ls-refs` requests one after another, with lines that fit, and which no
    -- context ends, is answered request by request, in order, and closes at the end of the stream,
    -- where each request has its response.
    pub serve_command_loop-answers :
        (requests : List RefsArgs) (w v : Writer)
        → All LineFits (echo_lines caps ua)
        → All (λ (args : RefsArgs). All LineFits (prefix_lines args.prefixes)) requests
        → Answers store caps requests w v
        → serve_command_loop quote kind_mark algo store object_info ctx_done
            (incoming (ends_after (frames (session_packets caps ua requests))))
            w
          ≡ closed v
    serve_command_loop-answers requests w v he hp a =
        ap (λ q. serve_command_loop quote kind_mark algo store object_info ctx_done q w)
          (incoming-whole (session_packets caps ua requests) (session-IsPacket requests he hp))
        ∙ rounds requests (suc (packets (queue (session_packets caps ua requests) (stop eof)))) 0 w
            v
            (omega (arith, packets-queue (session_packets caps ua requests), some_packets requests))
            a
