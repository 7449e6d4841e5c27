-- ===== src/Wire/LsRefs/Request.antt =====
-- The packets of an `ls-refs` request, and `EncodeLSRefs` against them.
use go_ls_remote.Base.{
  Bool, true, false, ◌≡◌, refl, ap, sym, [], ◌∷◌, ◌++◌, List, map, Option, none, some,
  if◌then◌else◌, Bytes, All, arith, append-nil, append_assoc,
}
use mathlib.Core.Path.{subst}
use go_ls_remote.Base.Text.{bytes}
use go_ls_remote.Pktline.{Packet, control, flush, delim}
use go_ls_remote.Pktline.Frame.{IsPacket}
use go_ls_remote.Pktline.Writer.{done, ◌>>◌, write_line_parts, write_flush}
use go_ls_remote.Pktline.Writer.Sends.{
  Sends, Sends-nothing, Sends->>, Sends-line, Sends-line_parts, Sends-flush, Sends-delim,
  line_packet, LineFits, line_packet-IsPacket,
}
use go_ls_remote.Wire.{RawCapabilities, RefsArgs}
use go_ls_remote.Wire.Capabilities.{
  get, has, agent_or_default, write_agent, write_format, write_capability_echo,
}
use go_ls_remote.Wire.LsRefs.{ls_refs_supports_unborn, write_flag, write_prefixes, encode_ls_refs}

abbrev pub lines_of : List Bytes → List Packet
lines_of = map line_packet

abbrev pub agent_lines : Bool → Bytes → List Bytes
agent_lines false ua = []
agent_lines true ua = (bytes "agent=" ++ agent_or_default ua) ∷ []

abbrev pub format_lines : Option Bytes → List Bytes
format_lines none = []
format_lines (some []) = []
format_lines (some (c ∷ v)) = (bytes "object-format=" ++ (c ∷ v)) ∷ []

-- The capability lines that a request echoes.
abbrev pub echo_lines : RawCapabilities → Bytes → List Bytes
echo_lines caps ua =
    agent_lines (has caps (bytes "agent")) ua ++ format_lines (get caps (bytes "object-format"))

abbrev pub flag_lines : Bool → Bytes → List Bytes
flag_lines true s = s ∷ []
flag_lines false s = []

abbrev pub prefix_lines : List Bytes → List Bytes
prefix_lines = map (λ p. bytes "ref-prefix " ++ p)

abbrev pub arg_lines : RefsArgs → List Bytes
arg_lines args =
    flag_lines args.peel (bytes "peel")
    ++ (flag_lines args.symrefs (bytes "symrefs")
        ++ (flag_lines args.unborn (bytes "unborn") ++ prefix_lines args.prefixes))

-- The arguments that reach the server: `unborn` only if it has advertised it.
abbrev pub allowed : RefsArgs → RawCapabilities → RefsArgs
allowed args caps = record args {
  unborn = if args.unborn then ls_refs_supports_unborn caps else false;
}

abbrev pub head_lines : RawCapabilities → Bytes → List Bytes
head_lines caps ua = bytes "command=ls-refs" ∷ echo_lines caps ua

abbrev pub request_packets : RefsArgs → RawCapabilities → Bytes → List Packet
request_packets args caps ua =
    lines_of (head_lines caps ua)
    ++ (control delim ∷ (lines_of (arg_lines (allowed args caps)) ++ (control flush ∷ [])))

pub lines_of-append : (a b : List Bytes) → lines_of (a ++ b) ≡ lines_of a ++ lines_of b
lines_of-append [] b = refl
lines_of-append (x ∷ a) b = ap (◌∷◌ (line_packet x)) (lines_of-append a b)

pub lines_of-IsPacket : (ls : List Bytes) → All LineFits ls → All IsPacket (lines_of ls)
lines_of-IsPacket [] h = tt
lines_of-IsPacket (l ∷ ls) h = (line_packet-IsPacket l h.0, lines_of-IsPacket ls h.1)

pub Sends-parts_two :
    (a b : Bytes)
    → LineFits (a ++ b)
    → Sends (write_line_parts (a ∷ b ∷ [])) (line_packet (a ++ b) ∷ [])
Sends-parts_two a b h =
    subst (λ t. Sends (write_line_parts (a ∷ b ∷ [])) (line_packet (a ++ t) ∷ [])) (append-nil b)
      (Sends-line_parts (a ∷ b ∷ []) (subst (λ t. LineFits (a ++ t)) (sym (append-nil b)) h))

Sends-agent :
    (on : Bool) (ua : Bytes)
    → All LineFits (agent_lines on ua)
    → Sends (write_agent on ua) (lines_of (agent_lines on ua))
Sends-agent false ua h = Sends-nothing
Sends-agent true ua h = Sends-parts_two (bytes "agent=") (agent_or_default ua) h.0

Sends-format :
    (v : Option Bytes)
    → All LineFits (format_lines v)
    → Sends (write_format v) (lines_of (format_lines v))
Sends-format none h = Sends-nothing
Sends-format (some []) h = Sends-nothing
Sends-format (some (c ∷ v)) h = Sends-parts_two (bytes "object-format=") (c ∷ v) h.0

pub Sends-flag :
    (on : Bool) (s : Bytes) → LineFits s → Sends (write_flag on s) (lines_of (flag_lines on s))
Sends-flag false s h = Sends-nothing
Sends-flag true s h = Sends-line s h

Sends-prefixes :
    (ps : List Bytes)
    → All LineFits (prefix_lines ps)
    → Sends (write_prefixes ps) (lines_of (prefix_lines ps))
unfolding write_prefixes
Sends-prefixes [] h = Sends-nothing
Sends-prefixes (p ∷ ps) h =
    Sends->> (write_line_parts (bytes "ref-prefix " ∷ p ∷ [])) (write_prefixes ps)
      (line_packet (bytes "ref-prefix " ++ p) ∷ []) (lines_of (prefix_lines ps))
      (Sends-parts_two (bytes "ref-prefix ") p h.0) (Sends-prefixes ps h.1)

All-left : (a b : List Bytes) → All LineFits (a ++ b) → All LineFits a
All-left [] b h = tt
All-left (x ∷ a) b h = (h.0, All-left a b h.1)

All-right : (a b : List Bytes) → All LineFits (a ++ b) → All LineFits b
All-right [] b h = h
All-right (x ∷ a) b h = All-right a b h.1

pub Sends-echo :
    (caps : RawCapabilities) (ua : Bytes)
    → All LineFits (echo_lines caps ua)
    → Sends (write_capability_echo caps ua) (lines_of (echo_lines caps ua))
unfolding write_capability_echo
Sends-echo caps ua h =
    let agent = agent_lines (has caps (bytes "agent")) ua in
    let format = format_lines (get caps (bytes "object-format")) in
    rw (lines_of-append agent format) (
      Sends->> _ _ (lines_of agent) (lines_of format)
        (Sends-agent (has caps (bytes "agent")) ua (All-left agent format h))
        (Sends-format (get caps (bytes "object-format")) (All-right agent format h)))

Sends-unborn :
    (wanted supported : Bool)
    → Sends
        (if wanted then write_flag supported (bytes "unborn") else done)
        (lines_of (flag_lines (if wanted then supported else false) (bytes "unborn")))
Sends-unborn true supported = Sends-flag supported (bytes "unborn") (omega arith)
Sends-unborn false supported = Sends-nothing

lines_of_four :
    (a b c d : List Bytes) (end : List Packet)
    → lines_of (a ++ (b ++ (c ++ d))) ++ end
      ≡ lines_of a ++ (lines_of b ++ (lines_of c ++ (lines_of d ++ end)))
lines_of_four a b c d end = simp (lines_of-append, append_assoc)

Sends-args :
    (args : RefsArgs) (caps : RawCapabilities)
    → All LineFits (prefix_lines args.prefixes)
    → Sends
        (write_flag args.peel (bytes "peel")
          >> write_flag args.symrefs (bytes "symrefs")
          >> (if args.unborn
              then write_flag (ls_refs_supports_unborn caps) (bytes "unborn")
              else done)
          >> write_prefixes args.prefixes
          >> write_flush)
        (lines_of (arg_lines (allowed args caps)) ++ (control flush ∷ []))
Sends-args args caps h =
    let unborn = if args.unborn then ls_refs_supports_unborn caps else false in
    rw
      (lines_of_four (flag_lines args.peel (bytes "peel"))
        (flag_lines args.symrefs (bytes "symrefs")) (flag_lines unborn (bytes "unborn"))
        (prefix_lines args.prefixes) (control flush ∷ []))
      (Sends->> _ _ (lines_of (flag_lines args.peel (bytes "peel"))) _
        (Sends-flag args.peel (bytes "peel") (omega arith))
        (Sends->> _ _ (lines_of (flag_lines args.symrefs (bytes "symrefs"))) _
          (Sends-flag args.symrefs (bytes "symrefs") (omega arith))
          (Sends->> _ _ (lines_of (flag_lines unborn (bytes "unborn"))) _
            (Sends-unborn args.unborn (ls_refs_supports_unborn caps))
            (Sends->> _ _ (lines_of (prefix_lines args.prefixes)) _ (Sends-prefixes args.prefixes h)
              Sends-flush))))

-- On an underlying writer that takes everything, `EncodeLSRefs` writes the frames of the request
-- packets, if its lines fit.
pub encode_ls_refs-Sends :
    (args : RefsArgs) (caps : RawCapabilities) (ua : Bytes)
    → All LineFits (echo_lines caps ua)
    → All LineFits (prefix_lines args.prefixes)
    → Sends (encode_ls_refs args caps ua) (request_packets args caps ua)
unfolding encode_ls_refs
encode_ls_refs-Sends args caps ua he hp =
    Sends->> _ _ (line_packet (bytes "command=ls-refs") ∷ []) _
      (Sends-line (bytes "command=ls-refs") (omega arith))
      (Sends->> _ _ (lines_of (echo_lines caps ua)) _ (Sends-echo caps ua he)
        (Sends->> _ _ (control delim ∷ []) _ Sends-delim (Sends-args args caps hp)))
