-- ===== src/Wire/ObjectInfo/Request.antt =====
-- The packets of `EncodeObjectInfo`.
use go_ls_remote.Base.{
  Bool, true, false, refl, [], ◌∷◌, ◌++◌, List, map, Bytes, All, All-append, arith,
}
use go_ls_remote.Base.Text.{bytes}
use go_ls_remote.Pktline.{Packet, control, flush, delim}
use go_ls_remote.Pktline.Frame.{IsPacket}
use go_ls_remote.Pktline.Writer.{write_line_parts}
use go_ls_remote.Pktline.Writer.Sends.{
  Sends, Sends->>, Sends-nothing, Sends-line, Sends-flush, Sends-delim, line_packet, LineFits,
}
use go_ls_remote.Wire.{RawCapabilities}
use go_ls_remote.Wire.LsRefs.Request.{
  lines_of, lines_of-IsPacket, flag_lines, echo_lines, Sends-flag, Sends-echo, Sends-parts_two,
}
use go_ls_remote.Wire.ObjectInfo.{ObjectInfoArgs, write_oids, encode_object_info}

abbrev pub oid_lines : List Bytes → List Bytes
oid_lines = map (λ o. bytes "oid " ++ o)

abbrev pub arg_packets : List Bytes → Bool → List Packet
arg_packets oids size =
    lines_of (flag_lines size (bytes "size")) ++ (lines_of (oid_lines oids) ++ (control flush ∷ []))

-- The packets of a request.
abbrev pub request_packets : List Bytes → Bool → RawCapabilities → Bytes → List Packet
request_packets oids size caps ua =
    lines_of (bytes "command=object-info" ∷ echo_lines caps ua)
    ++ (control delim ∷ arg_packets oids size)

Sends-oids :
    (oids : List Bytes)
    → All LineFits (oid_lines oids)
    → Sends (write_oids oids) (lines_of (oid_lines oids))
unfolding write_oids
Sends-oids [] h = Sends-nothing
Sends-oids (o ∷ oids) h =
    Sends->> (write_line_parts (bytes "oid " ∷ o ∷ [])) (write_oids oids)
      (line_packet (bytes "oid " ++ o) ∷ []) (lines_of (oid_lines oids))
      (Sends-parts_two (bytes "oid ") o h.0) (Sends-oids oids h.1)

pub encode_object_info-Sends :
    (oids : List Bytes) (args : ObjectInfoArgs) (caps : RawCapabilities) (ua : Bytes)
    → All LineFits (echo_lines caps ua)
    → All LineFits (oid_lines oids)
    → Sends (encode_object_info oids args caps ua) (request_packets oids args.size caps ua)
unfolding encode_object_info
encode_object_info-Sends oids args caps ua he ho =
    Sends->> _ _ (line_packet (bytes "command=object-info") ∷ []) _
      (Sends-line (bytes "command=object-info") (omega arith))
      (Sends->> _ _ (lines_of (echo_lines caps ua)) _ (Sends-echo caps ua he) (
        Sends->> _ _ (control delim ∷ []) _ Sends-delim (
          Sends->> _ _ (lines_of (flag_lines args.size (bytes "size"))) _
            (Sends-flag args.size (bytes "size") (omega arith))
            (Sends->> _ _ (lines_of (oid_lines oids)) _ (Sends-oids oids ho) Sends-flush))))

flag-fit : (on : Bool) (l : Bytes) → LineFits l → All LineFits (flag_lines on l)
flag-fit false l h = tt
flag-fit true l h = (h, tt)

pub request_packets-IsPacket :
    (oids : List Bytes) (size : Bool) (caps : RawCapabilities) (ua : Bytes)
    → All LineFits (echo_lines caps ua)
    → All LineFits (oid_lines oids)
    → All IsPacket (request_packets oids size caps ua)
request_packets-IsPacket oids size caps ua he ho =
    All-append IsPacket (lines_of (bytes "command=object-info" ∷ echo_lines caps ua)) _
      (lines_of-IsPacket (bytes "command=object-info" ∷ echo_lines caps ua) (omega arith, he))
      (
        refl,
        All-append IsPacket (lines_of (flag_lines size (bytes "size"))) _
            (lines_of-IsPacket (flag_lines size (bytes "size"))
              (flag-fit size (bytes "size") (omega arith)))
            (All-append IsPacket (lines_of (oid_lines oids)) _
              (lines_of-IsPacket (oid_lines oids) ho) (refl, tt)),
      )
