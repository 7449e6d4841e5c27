-- ===== src/Server/LsRefs.antt =====
-- internal/server/ls_refs.go: the server's side of the v2 `ls-refs` command.
pub mod Lines
pub mod Respond
pub mod EndToEnd
pub mod Args
pub mod Answer
pub mod Collected
pub mod Refusal
use go_ls_remote.Base.{
  ℕ, Bool, true, false, [], ◌∷◌, ◌++◌, List, Option, none, some, if◌then◌else◌, equal, Bytes,
}
use go_ls_remote.Base.Text.{bytes, cut_prefix, has_prefix, trim_suffix}
use go_ls_remote.Pktline.{
  ReadError, eof, unexpected_eof, Kind, payload, flush, delim, response_end, Packet,
}
use go_ls_remote.Pktline.Incoming.{Incoming, stop, more}
use go_ls_remote.Pktline.Writer.{Writer, Write, done, ◌>>◌, write_packet}
use go_ls_remote.Wire.{RefsArgs}
use go_ls_remote.Server.{
  ServerError, read_failed, Served, served, fault, refuse_after, write_err_packet,
}

-- The end of the stream before the flush is unexpected.
abbrev pub unexpected_end : ReadError → ServerError
unexpected_end eof = read_failed unexpected_eof
unexpected_end e = read_failed e

abbrev pub no_args : RefsArgs
no_args = record { prefixes = []; peel = false; symrefs = false; unborn = false }

-- `strings.HasPrefix(refname, p)` for one of the prefixes, or no prefix at all.
any_prefix : List Bytes → Bytes → Bool
any_prefix [] refname = false
any_prefix (p ∷ ps) refname = if has_prefix refname p then true else any_prefix ps refname

-- `refMatch`.
unfoldable pub ref_match : List Bytes → Bytes → Bool
unfolding any_prefix
ref_match [] refname = true
ref_match (p ∷ ps) refname = any_prefix (p ∷ ps) refname

-- The effect of one argument line; `none` if it is unknown.
unfoldable pub take_arg : RefsArgs → Bytes → Option RefsArgs
take_arg args line =
    if equal line (bytes "peel")
    then some (record args { peel = true })
    else if equal line (bytes "symrefs")
    then some (record args { symrefs = true })
    else if equal line (bytes "unborn")
    then some (record args { unborn = true })
    else elim (cut_prefix line (bytes "ref-prefix ")) [
      | some rest ↦ some (record args { prefixes = args.prefixes ++ (rest ∷ []) })
      | none ↦ none
    ]

abbrev pub args_or : RefsArgs → Option RefsArgs → RefsArgs
args_or args none = args
args_or args (some a) = a

-- `quote` is `%q` of Go's fmt package, and `kind_mark` the text `<pkt-kind=%d>`.
module _ (quote : Bytes → Bytes) (kind_mark : Kind → Bytes) where
  -- `refuseUnknownArg`.
  unfoldable pub refuse_unknown_arg : Bytes → Writer → Served RefsArgs
  refuse_unknown_arg arg w =
      let msg = bytes "ls-refs: unknown argument " ++ quote arg in
      refuse_after (write_err_packet msg w) msg

  -- The loop of `parseLSRefsArgs`.
  unfoldable pub ls_refs_args_loop : Incoming → RefsArgs → Writer → Served RefsArgs
  ls_refs_args_loop (stop e) args w = fault (unexpected_end e) w
  ls_refs_args_loop (more p rest) args w =
      let line = trim_suffix b'\n' p.bytes in
      let taken = take_arg args line in
      let next = ls_refs_args_loop rest (args_or args taken) w in
      elim p.kind [
        | flush ↦ served args rest w
        | payload ↦ elim taken [ some a ↦ next | none ↦ refuse_unknown_arg line w ]
        | other ↦ refuse_unknown_arg (kind_mark other) w
      ]

  -- `parseLSRefsArgs`.
  unfoldable pub parse_ls_refs_args : Incoming → Writer → Served RefsArgs
  parse_ls_refs_args q w = ls_refs_args_loop q no_args w
