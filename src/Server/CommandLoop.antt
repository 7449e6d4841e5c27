-- ===== src/Server/CommandLoop.antt =====
-- internal/server/command_loop.go: how one v2 request is read and routed.
pub mod Route
use go_ls_remote.Base.{
  Bool, true, false, [], ◌∷◌, List, Option, none, some, if◌then◌else◌, equal, Bytes,
}
use go_ls_remote.Base.Text.{bytes, cut_prefix, trim_suffix}
use go_ls_remote.Pktline.{
  ReadError, eof, Kind, payload, flush, delim, response_end, Packet, control,
}
use go_ls_remote.Pktline.Incoming.{Incoming, stop, more}
use go_ls_remote.Server.{ServerError, read_failed, command_twice, unexpected_packet, no_command}

-- What the head of a request leads to: no further request, a command with the packets of its
-- arguments, or an error.
pub data Routed : Type 0 where
  finished : Routed
  command : Bytes → Incoming → Routed
  broken : ServerError → Routed

-- `dispatchV2` refuses a request with no command line before anything else.
abbrev pub dispatched : Bytes → Incoming → Routed
dispatched [] args = broken no_command
dispatched (c ∷ name) args = command (c ∷ name) args

-- The name after a data packet; a second command line is refused.
abbrev pub named : Bytes → Option Bytes → Option Bytes
named name none = some name
named [] (some n) = some n
named (c ∷ name) (some n) = none

abbrev pub continued : Option Bytes → Routed → Routed
continued none next = broken command_twice
continued (some name) next = next

abbrev pub name_or : Option Bytes → Bytes
name_or none = []
name_or (some name) = name

-- The loop of `processV2Request`. `name` is `commandName` and `seen` is `seenCmdOrCap`. A flush is
-- handed on to the command as `argsReader.pending`, which reads it first.
unfoldable pub request_loop : Incoming → Bytes → Bool → Routed
request_loop (stop e) name seen = broken (read_failed e)
request_loop (more p rest) name seen =
    let named_so_far = named name (cut_prefix (trim_suffix b'\n' p.bytes) (bytes "command=")) in
    let next = request_loop rest (name_or named_so_far) true in
    elim p.kind [
      | flush ↦ if seen then dispatched name (more p rest) else finished
      | delim ↦ dispatched name rest
      | response_end ↦ broken unexpected_packet
      | payload ↦ continued named_so_far next
    ]

-- `processV2Request`: at the end of the stream there is no further request.
unfoldable pub process_v2_request : Incoming → Routed
process_v2_request (stop eof) = finished
process_v2_request (stop e) = broken (read_failed e)
process_v2_request (more p rest) = request_loop (more p rest) [] false
