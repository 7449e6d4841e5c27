-- ===== src/Server/CommandLoop/Route.antt =====
-- The routing of the requests that the client writes.
use go_ls_remote.Base.{ℕ, true, ◌≡◌, refl, ◌∙◌, [], ◌∷◌, ◌++◌, List, none, Bytes, All, arith}
use go_ls_remote.Base.Text.{bytes, cut_prefix, cut_prefix-append, trim_suffix-append}
use go_ls_remote.Pktline.{control, delim}
use go_ls_remote.Pktline.Incoming.{Incoming, more, queue}
use go_ls_remote.Pktline.Writer.Sends.{line_packet}
use go_ls_remote.Wire.LsRefs.Request.{lines_of}
use go_ls_remote.Server.CommandLoop.{command, request_loop, process_v2_request}

-- A line that names no command.
abbrev pub IsPlain : Bytes → Type 0
IsPlain l = cut_prefix l (bytes "command=") ≡ none

loop_plain :
    (l name : Bytes) (q : Incoming)
    → IsPlain l
    → request_loop (more (line_packet l) q) name true ≡ request_loop q name true
unfolding request_loop
loop_plain l name q h = ground (arith, trim_suffix-append b'\n' l)

loop_lines :
    (ls : List Bytes) (name : Bytes) (q : Incoming)
    → All IsPlain ls
    → request_loop (queue (lines_of ls) q) name true ≡ request_loop q name true
loop_lines [] name q h = refl
loop_lines (l ∷ ls) name q h =
    loop_plain l name (queue (lines_of ls) q) h.0 ∙ loop_lines ls name q h.1

route_command :
    (c : ℕ) (name : Bytes) (q : Incoming)
    → process_v2_request (more (line_packet (bytes "command=" ++ (c ∷ name))) q)
      ≡ request_loop q (c ∷ name) true
unfolding process_v2_request request_loop
route_command c name q = ground (
  arith,
  trim_suffix-append b'\n' (bytes "command=" ++ (c ∷ name)),
  cut_prefix-append (bytes "command=") (c ∷ name),
)

-- A command line, lines that name no command and a delimiter lead to the command, with the packets
-- behind the delimiter for its arguments.
pub route_request :
    (c : ℕ) (name : Bytes) (ls : List Bytes) (q : Incoming)
    → All IsPlain ls
    → process_v2_request
        (queue (lines_of ((bytes "command=" ++ (c ∷ name)) ∷ ls)) (more (control delim) q))
      ≡ command (c ∷ name) q
route_request c name ls q h =
    route_command c name (queue (lines_of ls) (more (control delim) q))
    ∙ loop_lines ls (c ∷ name) (more (control delim) q) h
    ∙ unfold request_loop in refl
