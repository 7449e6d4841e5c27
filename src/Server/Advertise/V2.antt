-- ===== src/Server/Advertise/V2.antt =====
-- The v2 advertisement, from the server over the wire to the client's `Advertisement`.
use go_ls_remote.Base.{
  ◌≡◌, refl, ap, ◌∙◌, sym, [], ◌∷◌, ◌++◌, List, map, none, Bytes, All, All-append, arith, ok, equal,
  append_assoc, append-nil,
}
use go_ls_remote.Base.Text.{bytes, cut_prefix, trim_suffix-append}
use go_ls_remote.Base.Fields.{Solid}
use go_ls_remote.Objfmt.Hash.{to_string}
use go_ls_remote.Pktline.{control, flush, eof}
use go_ls_remote.Pktline.Frame.{frames, IsPacket}
use go_ls_remote.Pktline.Incoming.{Incoming, stop, more, incoming, queue, incoming-whole}
use go_ls_remote.Pktline.Reader.Truncated.{ends_after}
use go_ls_remote.Pktline.Writer.{Writer, done, write_packet, write_flush, ◌>>◌}
use go_ls_remote.Pktline.Writer.Frames.{sent}
use go_ls_remote.Pktline.Writer.Sends.{
  Sends, Sends-write, Sends->>, Sends-nothing, Sends-flush, line_packet, line_packet-IsPacket,
  LineFits,
}
use go_ls_remote.Wire.{RawCapabilities}
use go_ls_remote.Wire.Advertisement.{
  protocol_v2, parse_advertisement, dispatch_advertisement, read_v2_capabilities,
}
use go_ls_remote.Wire.Capabilities.{is_wire_space, parse_capabilities, agent_or_default}
use go_ls_remote.Wire.Capabilities.RoundTrip.{token, IsCapability, parse_capabilities-join}
use go_ls_remote.Wire.LsRefs.Request.{lines_of, lines_of-IsPacket}
use go_ls_remote.Server.Advertise.{write_caps, v2_caps, write_v2_advertisement}
use go_ls_remote.Server.Advertise.Caps.{
  agent-IsCapability, format-IsCapability, agent-token, format-token,
}
use go_ls_remote.Server.LsRefs.Args.{queue-append}
use go_ls_remote.Server.Store.{Store}

-- The capabilities that the client sees.
abbrev pub seen_caps : Store → Bytes → RawCapabilities
seen_caps store agent =
    record { name = bytes "agent"; value = agent_or_default agent }
    ∷ record { name = bytes "ls-refs"; value = bytes "unborn" }
    ∷ record { name = bytes "object-format"; value = to_string store.algo }
    ∷ record { name = bytes "object-info"; value = [] }
    ∷ []

seen_caps-IsCapability :
    (store : Store) (agent : Bytes)
    → Solid is_wire_space agent
    → All IsCapability (seen_caps store agent)
unfolding is_wire_space
seen_caps-IsCapability store agent h = (
  agent-IsCapability agent h,
  (
    record {
      name_word = ((λ e. cc), ground arith);
      name_plain = ground arith;
      value_solid = ground arith;
    },
    (
      format-IsCapability store.algo,
      (
        record {
          name_word = ((λ e. cc), ground arith);
          name_plain = ground arith;
          value_solid = tt;
        },
        tt,
      ),
    ),
  ),
)

tokens : (store : Store) (agent : Bytes) → map token (seen_caps store agent) ≡ v2_caps store agent
tokens store agent =
    ap
      (λ a.
        a
        ∷ bytes "ls-refs=unborn"
        ∷ token (record { name = bytes "object-format"; value = to_string store.algo })
        ∷ bytes "object-info"
        ∷ [])
      (agent-token agent)
    ∙ ap
        (λ a.
          (bytes "agent=" ++ agent_or_default agent)
          ∷ bytes "ls-refs=unborn"
          ∷ a
          ∷ bytes "object-info"
          ∷ [])
        (format-token store.algo)

Sends-caps : (ls : List Bytes) → All LineFits ls → Sends (write_caps ls) (lines_of ls)
Sends-caps [] h = Sends-nothing
Sends-caps (l ∷ ls) h =
    Sends->> (write_packet (l ++ bytes "\n")) (write_caps ls) (line_packet l ∷ []) (lines_of ls)
      (Sends-write (line_packet l) (line_packet-IsPacket l h.0)) (Sends-caps ls h.1)

caps_loop :
    (caps acc : RawCapabilities) (q : Incoming)
    → All IsCapability caps
    → read_v2_capabilities (queue (lines_of (map token caps)) (more (control flush) q)) acc
      ≡ ok (acc ++ caps, q)
unfolding read_v2_capabilities
caps_loop [] acc q h = ap (λ (c : RawCapabilities). ok (c, q)) (sym (append-nil acc))
caps_loop (c ∷ caps) acc q h =
    let tail = queue (lines_of (map token caps)) (more (control flush) q) in
    ap (λ l. read_v2_capabilities tail (acc ++ parse_capabilities l))
      (trim_suffix-append b'\n' (token c))
    ∙ ap (λ x. read_v2_capabilities tail (acc ++ x)) (parse_capabilities-join (c ∷ []) (h.0, tt))
    ∙ caps_loop caps (acc ++ (c ∷ [])) q h.1
    ∙ ap (λ (x : RawCapabilities). ok (x, q)) (append_assoc acc (c ∷ []) caps)

advertisement_of :
    (q left : Incoming) (caps : RawCapabilities)
    → read_v2_capabilities q [] ≡ ok (caps, left)
    → parse_advertisement (more (line_packet (bytes "version 2")) q) none
      ≡ ok (record { version = protocol_v2; caps = caps; refs = [] }, left)
unfolding parse_advertisement dispatch_advertisement cut_prefix equal
advertisement_of q left caps h = rw (trim_suffix-append b'\n' (bytes "version 2")) (rw h refl)

-- With an agent without spaces and lines that fit, the v2 advertisement, on an underlying writer that
-- takes everything, is parsed by the client as version 2 with the server's four capabilities in order.
pub v2_advertisement-parsed :
    (store : Store) (agent : Bytes) (w : Writer)
    → w.writes_left ≡ none
    → Solid is_wire_space agent
    → All LineFits (v2_caps store agent)
    → (b : Bytes) × (write_v2_advertisement store agent w
        ≡ done
            (sent w b (lines_of (bytes "version 2" ∷ v2_caps store agent) ++ (control flush ∷ []))))
      × (parse_advertisement (incoming (ends_after b)) none
          ≡ ok
              (record { version = protocol_v2; caps = seen_caps store agent; refs = [] }, stop eof))
unfolding write_v2_advertisement
v2_advertisement-parsed store agent w free h f =
    let ls = bytes "version 2" ∷ v2_caps store agent in
    let ps = lines_of ls ++ (control flush ∷ []) in
    (
      frames ps,
      Sends->> (write_packet (bytes "version 2\n"))
          (write_caps (v2_caps store agent) >> write_flush) (line_packet (bytes "version 2") ∷ [])
          (lines_of (v2_caps store agent) ++ (control flush ∷ []))
          (Sends-write (line_packet (bytes "version 2"))
            (line_packet-IsPacket (bytes "version 2") (omega arith)))
          (Sends->> (write_caps (v2_caps store agent)) write_flush (lines_of (v2_caps store agent))
            (control flush ∷ []) (Sends-caps (v2_caps store agent) f) Sends-flush)
          w free,
      ap (λ q. parse_advertisement q none)
            (incoming-whole ps (
                All-append IsPacket (lines_of ls) (control flush ∷ [])
                  (lines_of-IsPacket ls (omega arith, f)) (refl, tt))
              ∙ queue-append (lines_of ls) (control flush ∷ []) (stop eof)
              ∙ ap (λ x. queue (lines_of (bytes "version 2" ∷ x)) (more (control flush) (stop eof)))
                  (sym (tokens store agent)))
          ∙ advertisement_of
              (queue (lines_of (map token (seen_caps store agent)))
                (more (control flush) (stop eof)))
              (stop eof) (seen_caps store agent)
              (caps_loop (seen_caps store agent) [] (stop eof)
                (seen_caps-IsCapability store agent h)),
    )
