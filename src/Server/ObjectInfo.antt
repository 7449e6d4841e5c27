-- ===== src/Server/ObjectInfo.antt =====
-- internal/server/object_info.go: the server's side of the v2 `object-info` command.
pub mod Answer
pub mod EndToEnd
use go_ls_remote.Base.{
  ℕ, Bool, true, false, [], ◌∷◌, ◌++◌, List, Option, none, some, if◌then◌else◌, equal, Bytes,
}
use go_ls_remote.Base.Text.{bytes, cut_prefix, trim_suffix}
use go_ls_remote.Base.Decimal.{append_int}
use go_ls_remote.Objfmt.Hash.{Algo, parse_hex}
use go_ls_remote.Pktline.{Kind, payload, flush, Packet}
use go_ls_remote.Pktline.Incoming.{Incoming, stop, more}
use go_ls_remote.Pktline.Writer.{
  Writer, Write, Outcome, done, failed, ◌>>◌, write_packet, write_flush,
}
use go_ls_remote.Wire.ObjectInfo.{ObjectInfoArgs}
use go_ls_remote.Server.{
  ServerError, write_failed, refused, Served, served, fault, Reply, replied, reply_fault, reply,
  reply_then,
}
use go_ls_remote.Server.LsRefs.{unexpected_end}

-- What `Store.ObjectInfo` answers: a size, `os.ErrNotExist`, or another error with its text.
pub data ObjectAnswer : Type 0 where
  has_size : ℕ → ObjectAnswer
  missing : ObjectAnswer
  unreadable : Bytes → ObjectAnswer

-- `writeObjectInfoErr`.
unfoldable pub write_object_info_err : Bytes → Write
write_object_info_err msg = write_packet (bytes "ERR " ++ (msg ++ bytes "\n"))

-- The request: the arguments and the oids in the client's order.
abbrev pub Request : Type 0
Request = ObjectInfoArgs × List Bytes

-- `unexpected line: '<line>'`.
abbrev pub unexpected_line : Bytes → Bytes
unexpected_line text = bytes "object-info: unexpected line: '" ++ (text ++ bytes "'")

abbrev pub or_write_fault : Outcome → (Writer → Served Request) → Served Request
or_write_fault (done w) k = k w
or_write_fault (failed e w) k = fault (write_failed e) w

-- `kind_mark` is the text `<pkt-kind=%d>`.
module _ (kind_mark : Kind → Bytes) where
  -- The loop of `parseObjectInfoArgs`; an unknown line is refused in the response and skipped.
  unfoldable pub object_info_args_loop :
      Incoming → ObjectInfoArgs → List Bytes → Writer → Served Request
  object_info_args_loop (stop e) args oids w = fault (unexpected_end e) w
  object_info_args_loop (more p rest) args oids w =
      let line = trim_suffix b'\n' p.bytes in
      let sized = object_info_args_loop rest (record args { size = true }) oids in
      let with_oid = λ (oid : Bytes). object_info_args_loop rest args (oids ++ (oid ∷ [])) in
      let skipped = object_info_args_loop rest args oids in
      elim p.kind [
        | flush ↦ served (args, oids) rest w
        | payload ↦
            if equal line (bytes "size") then sized w else elim (cut_prefix line (bytes "oid ")) [
              | some oid ↦ with_oid oid w
              | none ↦ or_write_fault (write_object_info_err (unexpected_line line) w) skipped
            ]
        | other ↦
            or_write_fault (write_object_info_err (unexpected_line (kind_mark other)) w) skipped
      ]

  -- `parseObjectInfoArgs`.
  unfoldable pub parse_object_info_args : Incoming → Writer → Served Request
  parse_object_info_args q w = object_info_args_loop q (record { size = false }) [] w

abbrev size_column : Bool → Bytes → Bytes
size_column true text = b' ' ∷ text
size_column false text = []

-- `ERR ` with its own flush, and the refusal.
abbrev refuse_object : Bytes → Writer → Reply
refuse_object text w =
    let msg = bytes "objstore: object corrupt or unresolvable: " ++ text in
    reply_then (reply ((write_object_info_err msg >> write_flush) w)) (reply_fault (refused msg))

abbrev pub answered : Bytes → Bool → ObjectAnswer → Writer → Reply
answered oid want_size (has_size n) w =
    reply (write_packet (oid ++ (size_column want_size (append_int n) ++ bytes "\n")) w)
answered oid want_size missing w =
    reply (write_packet (oid ++ (size_column want_size [] ++ bytes "\n")) w)
answered oid want_size (unreadable text) w = refuse_object text w

abbrev pub looked_up : (Bytes → ObjectAnswer) → Bytes → Bool → Option Bytes → Writer → Reply
looked_up object_info oid want_size none w = reply (
    write_object_info_err
      (bytes "object-info: protocol error, expected to get oid, not '" ++ (oid ++ bytes "'")) w)
looked_up object_info oid want_size (some hash) w = answered oid want_size (object_info hash) w

-- `object_info` is the store's answer, and `algo` its hash type.
module _ (algo : Algo) (object_info : Bytes → ObjectAnswer) where
  -- `emitObjectInfoLine`.
  unfoldable pub emit_object_info_line : Bytes → Bool → Writer → Reply
  emit_object_info_line oid want_size w = looked_up object_info oid want_size (parse_hex algo oid) w

  -- The loop of `writeObjectInfoResponse`.
  unfoldable pub emit_lines : List Bytes → Bool → Writer → Reply
  emit_lines [] want_size w = replied w
  emit_lines (oid ∷ oids) want_size w =
      reply_then (emit_object_info_line oid want_size w) (emit_lines oids want_size)

  -- `writeObjectInfoResponse`.
  unfoldable pub write_object_info_response : Request → Writer → Reply
  write_object_info_response (args, []) w = replied w
  write_object_info_response (args, oid ∷ oids) w =
      if args.size
      then reply_then (reply (write_packet (bytes "size\n") w)) (emit_lines (oid ∷ oids) true)
      else emit_lines (oid ∷ oids) false w

  -- `handleObjectInfo` behind the reading of its arguments.
  unfoldable pub respond_object_info : Request → Writer → Reply
  respond_object_info request w =
      reply_then (write_object_info_response request w) (λ v. reply (write_flush v))
