-- ===== src/Server/ObjectInfo/EndToEnd.antt =====
-- The client's `object-info` request, from the encoder over the wire to the server's arguments.
use go_ls_remote.Base.{
  Bool, true, false, ◌≡◌, refl, ap, ◌∙◌, sym, [], ◌∷◌, ◌++◌, List, Bytes, All, append_assoc,
  append-nil, none, equal,
}
use go_ls_remote.Base.Text.{bytes, cut_prefix, trim_suffix, trim_suffix-append}
use go_ls_remote.Pktline.{Kind, control, flush, delim, eof}
use go_ls_remote.Pktline.Frame.{frames}
use go_ls_remote.Pktline.Incoming.{Incoming, stop, more, incoming, queue, incoming-whole}
use go_ls_remote.Pktline.Reader.Truncated.{ends_after}
use go_ls_remote.Pktline.Writer.{Writer, done}
use go_ls_remote.Pktline.Writer.Frames.{sent}
use go_ls_remote.Pktline.Writer.Sends.{line_packet, LineFits}
use go_ls_remote.Wire.{RawCapabilities}
use go_ls_remote.Wire.LsRefs.Request.{lines_of, echo_lines}
use go_ls_remote.Wire.ObjectInfo.{ObjectInfoArgs, encode_object_info}
use go_ls_remote.Wire.ObjectInfo.Request.{
  oid_lines, arg_packets, request_packets, encode_object_info-Sends, request_packets-IsPacket,
}
use go_ls_remote.Server.{served}
use go_ls_remote.Server.CommandLoop.{command, process_v2_request}
use go_ls_remote.Server.CommandLoop.Route.{route_request}
use go_ls_remote.Server.LsRefs.Args.{queue-append}
use go_ls_remote.Server.LsRefs.EndToEnd.{echo_lines-IsPlain}
use go_ls_remote.Server.ObjectInfo.{object_info_args_loop, parse_object_info_args}

module _ (kind_mark : Kind → Bytes) (w : Writer) where
  loop_oid :
      (o : Bytes) (rest : Incoming) (args : ObjectInfoArgs) (before : List Bytes)
      → object_info_args_loop kind_mark (more (line_packet (bytes "oid " ++ o)) rest) args before w
        ≡ object_info_args_loop kind_mark rest args (before ++ (o ∷ [])) w
  unfolding object_info_args_loop equal cut_prefix
  loop_oid o rest args before = rw (trim_suffix-append b'\n' (bytes "oid " ++ o)) refl

  loop_size :
      (rest : Incoming) (args : ObjectInfoArgs) (before : List Bytes)
      → object_info_args_loop kind_mark (more (line_packet (bytes "size")) rest) args before w
        ≡ object_info_args_loop kind_mark rest (record { size = true }) before w
  unfolding object_info_args_loop equal cut_prefix trim_suffix
  loop_size rest args before = refl

  loop_end :
      (q : Incoming) (args : ObjectInfoArgs) (before : List Bytes)
      → object_info_args_loop kind_mark (more (control flush) q) args before w
        ≡ served (args, before) q w
  unfolding object_info_args_loop
  loop_end q args before = refl

  loop_oids :
      (oids before : List Bytes) (args : ObjectInfoArgs) (q : Incoming)
      → object_info_args_loop kind_mark
          (queue (lines_of (oid_lines oids)) (more (control flush) q))
          args
          before
          w
        ≡ served (args, before ++ oids) q w
  loop_oids [] before args q =
      loop_end q args before
      ∙ ap (λ (os : List Bytes). served (args, os) q w) (sym (append-nil before))
  loop_oids (o ∷ oids) before args q =
      loop_oid o (queue (lines_of (oid_lines oids)) (more (control flush) q)) args before
      ∙ loop_oids oids (before ++ (o ∷ [])) args q
      ∙ ap (λ (os : List Bytes). served (args, os) q w) (append_assoc before (o ∷ []) oids)

  args_of_packets :
      (oids : List Bytes) (size : Bool) (q : Incoming)
      → parse_object_info_args kind_mark (queue (arg_packets oids size) q) w
        ≡ served (record { size = size }, oids) q w
  unfolding parse_object_info_args
  args_of_packets oids false q =
      ap (λ t. object_info_args_loop kind_mark t (record { size = false }) [] w)
        (queue-append (lines_of (oid_lines oids)) (control flush ∷ []) q)
      ∙ loop_oids oids [] (record { size = false }) q
  args_of_packets oids true q =
      loop_size (queue (lines_of (oid_lines oids) ++ (control flush ∷ [])) q)
        (record { size = false }) []
      ∙ ap (λ t. object_info_args_loop kind_mark t (record { size = true }) [] w)
          (queue-append (lines_of (oid_lines oids)) (control flush ∷ []) q)
      ∙ loop_oids oids [] (record { size = true }) q

-- What `EncodeObjectInfo` writes, on an underlying writer that takes everything and with lines that fit
-- a packet, is read by the server as one `object-info` request with the client's oids in order and
-- its choice of `size`, up to the end of the stream.
pub object_info_request-served :
    (oids : List Bytes) (args : ObjectInfoArgs) (caps : RawCapabilities) (ua : Bytes)
    (kind_mark : Kind → Bytes) (w v : Writer)
    → w.writes_left ≡ none
    → All LineFits (echo_lines caps ua)
    → All LineFits (oid_lines oids)
    → (b : Bytes) × (q : Incoming) × (encode_object_info oids args caps ua w
        ≡ done (sent w b (request_packets oids args.size caps ua)))
      × (process_v2_request (incoming (ends_after b)) ≡ command (bytes "object-info") q)
      × (parse_object_info_args kind_mark q v ≡ served (args, oids) (stop eof) v)
object_info_request-served oids args caps ua kind_mark w v free he ho =
    let ps = request_packets oids args.size caps ua in
    let q = queue (arg_packets oids args.size) (stop eof) in
    (
      frames ps,
      q,
      encode_object_info-Sends oids args caps ua he ho w free,
      ap process_v2_request (
            incoming-whole ps (request_packets-IsPacket oids args.size caps ua he ho)
            ∙ queue-append (lines_of (bytes "command=object-info" ∷ echo_lines caps ua))
                (control delim ∷ arg_packets oids args.size) (stop eof))
          ∙ route_request b'o' (bytes "bject-info") (echo_lines caps ua) q
              (echo_lines-IsPlain caps ua),
      args_of_packets kind_mark v oids args.size (stop eof),
    )
