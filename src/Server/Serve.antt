-- ===== src/Server/Serve.antt =====
-- internal/server: the loop over the v2 requests of a session (command_loop.go), the handlers of the two
-- commands (ls_refs.go, object_info.go), and Serve (serve.go). What ctx.Err() answers at each round is a
-- parameter; trace events are left out.
mod Takes
pub mod Ends
pub mod Requests
use go_ls_remote.Base.{ℕ, zero, suc, ◌+◌, Bool, true, false, [], ◌∷◌, if◌then◌else◌, equal, Bytes}
use go_ls_remote.Base.Text.{bytes}
use go_ls_remote.Objfmt.Hash.{Algo}
use go_ls_remote.Pktline.{Kind}
use go_ls_remote.Pktline.Incoming.{Incoming, stop, more}
use go_ls_remote.Pktline.Writer.{Writer, Outcome, done, failed}
use go_ls_remote.Server.{
  ServerError, write_failed, Served, served, fault, refuse_after, write_err_packet, Reply, replied,
  reply_fault,
}
use go_ls_remote.Server.Advertise.{write_v2_advertisement, write_v0_advertisement}
use go_ls_remote.Server.CommandLoop.{Routed, finished, command, broken, process_v2_request}
use go_ls_remote.Server.LsRefs.{parse_ls_refs_args}
use go_ls_remote.Server.LsRefs.Respond.{respond_ls_refs}
use go_ls_remote.Server.ObjectInfo.{ObjectAnswer, parse_object_info_args, respond_object_info}
use go_ls_remote.Server.Store.{Store}
use go_ls_remote.Wire.Advertisement.{ProtocolVersion, protocol_v0, protocol_v1, protocol_v2}

-- The packets behind a response, or its error.
abbrev pub after_reply : Incoming → Reply → Served (Unit {0})
after_reply rest (replied w) = served tt rest w
after_reply rest (reply_fault e w) = fault e w

-- A response to the arguments that have been read.
abbrev pub then_respond : {A : Type 0} → Served A → (A → Writer → Reply) → Served (Unit {0})
then_respond (served a rest w) respond = after_reply rest (respond a w)
then_respond (fault e w) respond = fault e w

-- How a session ends: without an error, with one, or with the context's; `starved` is the end of the fuel.
pub data Session : Type 0 where
  closed : Writer → Session
  broke : ServerError → Writer → Session
  cancelled : Writer → Session
  unsupported_protocol : Writer → Session
  starved : Session

-- The number of packets that are left, which bounds the rounds.
abbrev pub packets : Incoming → ℕ
packets (stop e) = 0
packets (more p rest) = suc (packets rest)

module _ (quote : Bytes → Bytes) (kind_mark : Kind → Bytes) (algo : Algo) (store : Store)
    (object_info : Bytes → ObjectAnswer) where
  -- `handleLSRefs`.
  abbrev pub handle_ls_refs : Incoming → Writer → Served (Unit {0})
  handle_ls_refs q w = then_respond (parse_ls_refs_args quote kind_mark q w) (respond_ls_refs store)

  -- `handleObjectInfo`.
  abbrev pub handle_object_info : Incoming → Writer → Served (Unit {0})
  handle_object_info q w =
      then_respond (parse_object_info_args kind_mark q w) (respond_object_info algo object_info)

  -- `dispatchV2`, for a command line that names a command.
  unfoldable pub dispatch_v2 : Bytes → Incoming → Writer → Served (Unit {0})
  dispatch_v2 name q w =
      if equal name (bytes "ls-refs")
      then handle_ls_refs q w
      else if equal name (bytes "object-info")
      then handle_object_info q w
      else refuse_after (write_err_packet (bytes "command not supported") w)
          (bytes "command not supported")

  -- The rest of the loop behind a request.
  abbrev pub next_round : Served (Unit {0}) → (Incoming → Writer → Session) → Session
  next_round (served _ rest w) k = k rest w
  next_round (fault e w) k = broke e w

  abbrev pub routed_to : Routed → Writer → (Incoming → Writer → Session) → Session
  routed_to finished w k = closed w
  routed_to (broken e) w k = broke e w
  routed_to (command name args) w k = next_round (dispatch_v2 name args w) k

  module _ (ctx_done : ℕ → Bool) where
    -- `runV2CommandLoop`; `round` counts the requests.
    unfoldable pub run_v2_command_loop : ℕ → ℕ → Incoming → Writer → Session
    run_v2_command_loop zero round q w = starved
    run_v2_command_loop (suc fuel) round q w =
        if ctx_done round
        then cancelled w
        else routed_to (process_v2_request q) w (run_v2_command_loop fuel (round + 1))

    -- `ServeCommandLoop`.
    abbrev pub serve_command_loop : Incoming → Writer → Session
    serve_command_loop q w = run_v2_command_loop (suc (packets q)) 0 q w

    abbrev behind_advertisement : Outcome → (Writer → Session) → Session
    behind_advertisement (done w) k = k w
    behind_advertisement (failed e w) k = broke (write_failed e) w

    abbrev advertised : Reply → Session
    advertised (replied w) = closed w
    advertised (reply_fault e w) = broke e w

    -- `Serve`.
    unfoldable pub serve : ProtocolVersion → Bytes → Incoming → Writer → Session
    serve protocol_v2 agent q w =
        behind_advertisement (write_v2_advertisement store agent w) (serve_command_loop q)
    serve protocol_v0 agent q w = advertised (write_v0_advertisement store agent w)
    serve protocol_v1 agent q w = unsupported_protocol w
