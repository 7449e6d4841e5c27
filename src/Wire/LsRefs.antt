-- ===== src/Wire/LsRefs.antt =====
-- internal/wire/refs_v2.go: the client's side of the v2 `ls-refs` command.
pub mod Response
pub mod Request
use go_ls_remote.Base.{
  ℕ, Bool, true, false, ◌||◌, [], ◌∷◌, ◌++◌, List, map, Option, none, some, ◌==◌, if◌then◌else◌,
  equal, Bytes, Result, ok, err,
}
use go_ls_remote.Base.Text.{bytes, cut_prefix, trim_suffix}
use go_ls_remote.Base.Spaces.{fields}
use go_ls_remote.Pktline.{
  ReadError, eof, unexpected_eof, Packet, payload, flush, Kind, delim, response_end,
}
use go_ls_remote.Pktline.Incoming.{Incoming, stop, more}
use go_ls_remote.Pktline.Writer.{
  Write, done, ◌>>◌, write_line, write_line_parts, write_delim, write_flush,
}
use go_ls_remote.Wire.{
  RawCapabilities, RawRef, RefsArgs, WireError, read, server_refused, unexpected_control,
  malformed_line, check_err_packet,
}
use go_ls_remote.Wire.Capabilities.{parse_capabilities, all, write_capability_echo, has}

-- The two loops of `lsRefsSupportsUnborn`.
unfoldable pub any_unborn : List Bytes → Bool
any_unborn [] = false
any_unborn (v ∷ vs) = if has (parse_capabilities v) (bytes "unborn") then true else any_unborn vs

unfoldable pub ls_refs_supports_unborn : RawCapabilities → Bool
ls_refs_supports_unborn caps = any_unborn (all caps (bytes "ls-refs"))

abbrev pub write_flag : Bool → Bytes → Write
write_flag true s = write_line s
write_flag false s = done

-- `for _, p := range args.Prefixes`
unfoldable pub write_prefixes : List Bytes → Write
write_prefixes [] = done
write_prefixes (p ∷ ps) = write_line_parts (bytes "ref-prefix " ∷ p ∷ []) >> write_prefixes ps

-- `EncodeLSRefs`.
unfoldable pub encode_ls_refs : RefsArgs → RawCapabilities → Bytes → Write
encode_ls_refs args caps user_agent =
    write_line (bytes "command=ls-refs")
    >> write_capability_echo caps user_agent
    >> write_delim
    >> write_flag args.peel (bytes "peel")
    >> write_flag args.symrefs (bytes "symrefs")
    >> (if args.unborn then write_flag (ls_refs_supports_unborn caps) (bytes "unborn") else done)
    >> write_prefixes args.prefixes
    >> write_flush

-- The event that `EncodeLSRefs` gives its tracer: the argument is dropped.
pub drops_unborn : RefsArgs → RawCapabilities → Bool
drops_unborn args caps =
    if args.unborn then (if ls_refs_supports_unborn caps then false else true) else false

-- The loops over `tokens[2:]`; the first is the branch for an unborn ref.
unfoldable pub unborn_attributes : RawRef → List Bytes → RawRef
unborn_attributes ref [] = ref
unborn_attributes ref (tok ∷ toks) =
    unborn_attributes
      (elim (cut_prefix tok (bytes "symref-target:")) [
        | some t ↦ record ref { symref = t }
        | none ↦ ref
      ])
      toks

abbrev attribute : RawRef → Option Bytes → Option Bytes → RawRef
attribute ref (some t) s = record ref { peeled = t }
attribute ref none (some t) = record ref { symref = t }
attribute ref none none = ref

unfoldable pub ref_attributes : RawRef → List Bytes → RawRef
ref_attributes ref [] = ref
ref_attributes ref (tok ∷ toks) =
    ref_attributes
      (attribute ref (cut_prefix tok (bytes "peeled:")) (cut_prefix tok (bytes "symref-target:")))
      toks

abbrev pub unborn_ref : Bytes → RawRef
unborn_ref n = record { oid = []; name = n; peeled = []; symref = []; unborn = true }

abbrev pub plain_ref : Bytes → Bytes → RawRef
plain_ref o n = record { oid = o; name = n; peeled = []; symref = []; unborn = false }

unfoldable pub parse_tokens : List Bytes → Result WireError RawRef
parse_tokens [] = err malformed_line
parse_tokens (o ∷ []) = err malformed_line
parse_tokens (o ∷ n ∷ toks) =
    if equal o (bytes "unborn")
    then ok (unborn_attributes (unborn_ref n) toks)
    else ok (ref_attributes (plain_ref o n) toks)

-- `parseLSRefsLine`.
unfoldable pub parse_ls_refs_line : Bytes → Result WireError RawRef
parse_ls_refs_line line = parse_tokens (fields line)

-- What `DecodeLSRefs` yields: the refs, and the error that ends them, if any.
pub record Yield : Type 0 where
  pub refs : List RawRef
  pub failure : Option WireError

abbrev yield_end : Option WireError → Yield
yield_end e = record { refs = []; failure = e }

abbrev yield_ref : RawRef → Yield → Yield
yield_ref r y = record { refs = r ∷ y.refs; failure = y.failure }

-- A read error; the end of the stream before the flush is unexpected.
abbrev pub unexpected_end : ReadError → WireError
unexpected_end eof = read unexpected_eof
unexpected_end e = read e

abbrev ref_or_error : Option Bytes → Result WireError RawRef → Yield → Yield
ref_or_error (some msg) r y = yield_end (some (server_refused msg))
ref_or_error none (err e) y = yield_end (some e)
ref_or_error none (ok r) y = yield_ref r y

abbrev on_kind : Kind → Bytes → Yield → Yield
on_kind flush d y = yield_end none
on_kind delim d y = yield_end (some unexpected_control)
on_kind response_end d y = yield_end (some unexpected_control)
on_kind payload d y =
    let line = trim_suffix b'\n' d in
    ref_or_error (check_err_packet line) (parse_ls_refs_line line) y

-- `DecodeLSRefs`, for a caller that takes every ref.
unfoldable pub decode_ls_refs : Incoming → Yield
decode_ls_refs (stop e) = yield_end (some (unexpected_end e))
decode_ls_refs (more p rest) = on_kind p.kind p.bytes (decode_ls_refs rest)
