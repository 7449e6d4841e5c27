-- ===== src/Tests/ObjectInfo.antt =====
-- The `object-info` exchange for a concrete object.
use go_ls_remote.Base.{
  equal, ◌≡◌, refl, [], ◌∷◌, List, map, none, false, true, ◌==◌, Bytes, ok, arith, if◌then◌else◌,
}
use go_ls_remote.Base.Decimal.{append_int, digits_onto}
use go_ls_remote.Objfmt.Hash.{sha1, hex}
use go_ls_remote.Base.Text.{bytes}
use go_ls_remote.Pktline.{Kind, Packet, eof}
use go_ls_remote.Pktline.Incoming.{Incoming, incoming, stop}
use go_ls_remote.Pktline.Reader.Truncated.{ends_after}
use go_ls_remote.Pktline.Writer.{Writer, done}
use go_ls_remote.Pktline.Writer.Frames.{sent}
use go_ls_remote.Wire.ObjectInfo.{decode_object_info, encode_object_info}
use go_ls_remote.Wire.ObjectInfo.Request.{request_packets}
use go_ls_remote.Wire.{RawCapabilities}
use go_ls_remote.Wire.Capabilities.{has, get}
use go_ls_remote.Server.CommandLoop.{command, process_v2_request}
use go_ls_remote.Server.ObjectInfo.EndToEnd.{object_info_request-served}
use go_ls_remote.Server.{replied, served}
use go_ls_remote.Server.ObjectInfo.{
  ObjectAnswer, has_size, missing, respond_object_info, parse_object_info_args,
}
use go_ls_remote.Server.ObjectInfo.Answer.{found, object_info_response-decoded}

abbrev fresh : Writer
fresh = record { written = []; writes_left = none; enabled = false; events = [] }

abbrev here : Bytes
here =
    1 ∷ 35 ∷ 69 ∷ 103 ∷ 137 ∷ 171 ∷ 205 ∷ 239 ∷ 1 ∷ 35 ∷ 69 ∷ 103 ∷ 137 ∷ 171 ∷ 205 ∷ 239 ∷ 1 ∷ 35
    ∷ 69 ∷ 103 ∷ []

abbrev elsewhere : Bytes
elsewhere =
    2 ∷ 35 ∷ 69 ∷ 103 ∷ 137 ∷ 171 ∷ 205 ∷ 239 ∷ 1 ∷ 35 ∷ 69 ∷ 103 ∷ 137 ∷ 171 ∷ 205 ∷ 239 ∷ 1 ∷ 35
    ∷ 69 ∷ 103 ∷ []

abbrev sizes : Bytes → ObjectAnswer
sizes [] = missing
sizes (c ∷ h) = if c == 1 then has_size 1234 else missing

object_info_example :
    (b : Bytes) × (ps : List Packet) × (respond_object_info sha1 sizes
        (record { size = true }, map hex (elsewhere ∷ here ∷ []))
        fresh
      ≡ replied (sent fresh b ps))
    × (decode_object_info (incoming (ends_after b)) ≡ ok (found sha1 sizes (elsewhere ∷ here ∷ [])))
object_info_example = object_info_response-decoded sha1 sizes (elsewhere ∷ here ∷ []) fresh refl (
  record { is_long = refl; is_bytes = omega arith; answer = tt; fits = unfold hex in omega arith },
  (
    record {
      is_long = refl;
      is_bytes = omega arith;
      answer = omega arith;
      fits = unfold hex append_int digits_onto in omega arith;
    },
    tt,
  ),
)

abbrev advertised : RawCapabilities
advertised = record { name = bytes "object-format"; value = bytes "sha1" } ∷ []

abbrev mark : Kind → Bytes
mark k = bytes "<pkt-kind>"

object_info_request_example :
    (b : Bytes) × (q : Incoming) × (encode_object_info
        (bytes "01ab" ∷ [])
        (record { size = true })
        advertised
        []
        fresh
      ≡ done (sent fresh b (request_packets (bytes "01ab" ∷ []) true advertised [])))
    × (process_v2_request (incoming (ends_after b)) ≡ command (bytes "object-info") q)
    × (parse_object_info_args mark q fresh
        ≡ served (record { size = true }, bytes "01ab" ∷ []) (stop eof) fresh)
object_info_request_example =
    object_info_request-served (bytes "01ab" ∷ []) (record { size = true }) advertised [] mark fresh
      fresh refl (unfold has get equal in omega arith) (omega arith)
